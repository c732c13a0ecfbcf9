-- ===== src/Metrics/Reports.antt =====
-- The reports of inference-api/src/metrics/metrics.service.ts, their types in interfaces.ts, and the
-- routes of metrics.controller.ts. JavaScript's numbers are a parameter `F` with its `parseFloat` and
-- `parseInt`, whose argument is `none` where the source passes `undefined`.
use inference_stack.Prelude.{String, Option, none, some, List, [], ◌∷◌, map, string_eq}
use inference_stack.Map.{get}
use inference_stack.Scheduler.Inference.{or_text}
use inference_stack.ClickHouse.{Row, ClickHouse, query}
use inference_stack.Metrics.Windows.{parse_window}
use inference_stack.Metrics.Queries.{
  tps_sql, tps_by_model_sql, latency_sql, by_model_sql, by_worker_sql, HistoryOptions, history_sql,
}

-- The value of a default argument.
abbrev pub default_argument : String → Option String → String
default_argument default none = default
default_argument default (some text) = text

pub record CurrentTps (F : Type 0) : Type 0 where
  pub decode_tps : F
  pub prefill_tps : F
  pub requests_per_minute : F

pub record ModelTps (F : Type 0) : Type 0 where
  pub model : Option String
  pub decode_tps : F
  pub prefill_tps : F
  pub avg_generation_ms : F
  pub request_count : F

pub record TpsResult (F : Type 0) : Type 0 where
  pub current : CurrentTps F
  pub by_model : List (ModelTps F)
  pub window : String

pub record Percentiles (F : Type 0) : Type 0 where
  pub p50 : F
  pub p95 : F
  pub p99 : F

pub record LatencyResult (F : Type 0) : Type 0 where
  pub e2e : Percentiles F
  pub prefill : Percentiles F
  pub decode : Percentiles F
  pub queue_wait : Percentiles F
  pub time_to_first_token : Percentiles F
  pub window : String

pub record ModelBreakdown (F : Type 0) : Type 0 where
  pub model : Option String
  pub request_count : F
  pub avg_decode_tps : F
  pub avg_prefill_tps : F
  pub avg_e2e_ms : F
  pub p95_e2e_ms : F
  pub total_prompt_tokens : F
  pub total_completion_tokens : F
  pub error_count : F

pub record WorkerBreakdown (F : Type 0) : Type 0 where
  pub worker_id : Option String
  pub request_count : F
  pub avg_e2e_ms : F
  pub total_prompt_tokens : F
  pub total_completion_tokens : F

pub record BreakdownResult (F : Type 0) : Type 0 where
  pub by_model : List (ModelBreakdown F)
  pub by_worker : List (WorkerBreakdown F)
  pub window : String

pub record HistoryPoint (F : Type 0) : Type 0 where
  pub timestamp : Option String
  pub value : F

-- The row that `getTps` takes where the database has none.
abbrev pub zero_row : Row
zero_row = ("avg_decode_tps", "0") ∷ ("avg_prefill_tps", "0") ∷ ("rpm", "0") ∷ []

abbrev pub first_row : Row → List Row → Row
first_row default [] = default
first_row default (r ∷ rows) = r

module _ {F : Type 0} (parse_float parse_int : Option String → F) where
  unfoldable pub current_of : Row → CurrentTps F
  current_of r = record {
    decode_tps = parse_float (get "avg_decode_tps" r);
    prefill_tps = parse_float (get "avg_prefill_tps" r);
    requests_per_minute = parse_float (get "rpm" r);
  }

  unfoldable pub model_tps : Row → ModelTps F
  model_tps r = record {
    model = get "model" r;
    decode_tps = parse_float (get "avg_decode_tps" r);
    prefill_tps = parse_float (get "avg_prefill_tps" r);
    avg_generation_ms = parse_float (get "avg_total_ms" r);
    request_count = parse_int (get "cnt" r);
  }

  -- `parseFloat(v || '0')` of three columns.
  unfoldable pub percentiles : String → String → String → Row → Percentiles F
  percentiles p50 p95 p99 r = record {
    p50 = parse_float (some (or_text "0" (get p50 r)));
    p95 = parse_float (some (or_text "0" (get p95 r)));
    p99 = parse_float (some (or_text "0" (get p99 r)));
  }

  unfoldable pub latency_of : Row → String → LatencyResult F
  latency_of r window = record {
    e2e = percentiles "e2e_p50" "e2e_p95" "e2e_p99" r;
    prefill = percentiles "prefill_p50" "prefill_p95" "prefill_p99" r;
    decode = percentiles "decode_p50" "decode_p95" "decode_p99" r;
    queue_wait = percentiles "queue_p50" "queue_p95" "queue_p99" r;
    time_to_first_token = percentiles "ttft_p50" "ttft_p95" "ttft_p99" r;
    window = window;
  }

  unfoldable pub model_breakdown : Row → ModelBreakdown F
  model_breakdown r = record {
    model = get "model" r;
    request_count = parse_int (get "cnt" r);
    avg_decode_tps = parse_float (get "avg_decode_tps" r);
    avg_prefill_tps = parse_float (get "avg_prefill_tps" r);
    avg_e2e_ms = parse_float (get "avg_e2e" r);
    p95_e2e_ms = parse_float (get "p95_e2e" r);
    total_prompt_tokens = parse_int (get "sum_prompt" r);
    total_completion_tokens = parse_int (get "sum_completion" r);
    error_count = parse_int (get "err_cnt" r);
  }

  unfoldable pub worker_breakdown : Row → WorkerBreakdown F
  worker_breakdown r = record {
    worker_id = get "worker_id" r;
    request_count = parse_int (get "cnt" r);
    avg_e2e_ms = parse_float (get "avg_e2e" r);
    total_prompt_tokens = parse_int (get "sum_prompt" r);
    total_completion_tokens = parse_int (get "sum_completion" r);
  }

  unfoldable pub history_point : Row → HistoryPoint F
  history_point r = record { timestamp = get "ts" r; value = parse_float (get "val" r) }

  -- The database does not change while a report is made.
  module _ {V : Type 0} (answer : String → Option (List Row)) (ch : ClickHouse V) where
    unfoldable pub get_tps : Option String → TpsResult F
    get_tps window =
        let w = default_argument "5m" window in
        let interval = parse_window w in
        record {
          current = current_of (first_row zero_row (query answer (tps_sql interval) ch));
          by_model = map model_tps (query answer (tps_by_model_sql interval) ch);
          window = w;
        }

    unfoldable pub get_latency_percentiles : Option String → LatencyResult F
    get_latency_percentiles window =
        let w = default_argument "5m" window in
        latency_of (first_row [] (query answer (latency_sql (parse_window w)) ch)) w

    unfoldable pub get_breakdown : Option String → BreakdownResult F
    get_breakdown window =
        let w = default_argument "5m" window in
        let interval = parse_window w in
        record {
          by_model = map model_breakdown (query answer (by_model_sql interval) ch);
          by_worker = map worker_breakdown (query answer (by_worker_sql interval) ch);
          window = w;
        }

    unfoldable pub get_history : HistoryOptions → List (HistoryPoint F)
    get_history opts =
        let bucket_seconds = parse_window (or_text "1m" opts.interval) in
        map history_point (query answer (history_sql bucket_seconds opts) ch)

    -- The routes of the controller, whose arguments are the parameters of the URL.
    unfoldable pub tps_route : Option String → TpsResult F
    tps_route window = get_tps (some (or_text "5m" window))

    unfoldable pub latency_route : Option String → LatencyResult F
    latency_route window = get_latency_percentiles (some (or_text "5m" window))

    unfoldable pub breakdown_route : Option String → BreakdownResult F
    breakdown_route window = get_breakdown (some (or_text "5m" window))

    unfoldable pub history_route : HistoryOptions → List (HistoryPoint F)
    history_route opts = get_history (record opts { interval = some (or_text "1m" opts.interval) })
