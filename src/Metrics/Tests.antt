-- ===== src/Metrics/Tests.antt =====
-- Runs of inference-api/src/metrics/metrics.service.ts: a database with one answer, and none.
use inference_stack.Prelude.{
  String, ◌≡◌, ◌≢◌, refl, inr, true, false, Option, none, some, List, [], ◌∷◌, ◌==◌, string_eq,
  if◌then◌else◌, ◌*◌, pos,
}
use inference_stack.Map.{get, keys}
use inference_stack.Scheduler.Inference.{or_text}
use inference_stack.ClickHouse.{table_columns, Row, ClickHouse, query, insert}
use inference_stack.Metrics.Windows.{parse_window, decimal}
use inference_stack.Metrics.Windows.RoundTrip.{parse_window-decimal}
use inference_stack.Metrics.Queries.{◌<>◌, tps_sql, HistoryOptions, history_sql}
use inference_stack.Metrics.Queries.Literals.{outside, is_plain-IsPlain}
use inference_stack.Metrics.Queries.Clauses.{IsPlainOption}
use inference_stack.Metrics.Queries.Injection.{history_sql-with_condition, with_condition}
use inference_stack.Metrics.Recording.{
  row_columns, uuid, InferenceMetricEvent, MetricRow, tokens_in, metric_row, record_inference, tps,
}
use inference_stack.Metrics.Reports.{
  current_of, get_tps, tps_route, latency_route, breakdown_route, history_route,
}
use inference_stack.Metrics.Outages.{zero_value, zero_percentiles, routes-outage}

parse_window-decimal_example :
    (parse_window (decimal 90 "s") ≡ 90)
    × (parse_window (decimal 90 "m") ≡ 90 * 60)
    × (parse_window (decimal 90 "h") ≡ 90 * 3600)
    × (parse_window (decimal 90 "d") ≡ 90 * 86400)
parse_window-decimal_example = parse_window-decimal 90

abbrev options : HistoryOptions
options = record {
  model = none;
  metric = some "latency";
  interval = none;
  from = some "2026-01-01";
  to = none;
}

abbrev qwen : String
qwen = "qwen"

named : qwen ≢ ""
named e = cc

history_sql-with_condition_example :
    (before : String) × (outside false (history_sql 60 (record options { model = some qwen }))
      ≡ before <> ("AND model = " <> "\n      GROUP BY ts\n      ORDER BY ts\n    "))
    × (outside false (
          history_sql 60
            (record options { model = some (with_condition "llama" "is_error = true") }))
        ≡ before <> "AND model =  OR " <> "is_error = true" <> " OR  = "
          <> "\n      GROUP BY ts\n      ORDER BY ts\n    ")
history_sql-with_condition_example =
    history_sql-with_condition 60 options qwen "llama" "is_error = true"
      (is_plain-IsPlain qwen refl) named (is_plain-IsPlain "llama" refl)
      (is_plain-IsPlain "is_error = true" refl)
      (unfold IsPlainOption in is_plain-IsPlain "2026-01-01" refl) (unfold IsPlainOption in tt)

abbrev away : ClickHouse MetricRow
away = record { connected = false; rows = [] }

-- `parseFloat` and `parseInt` that keep the text.
abbrev keep : Option String → Option String
keep text = text

abbrev silent : String → Option (List Row)
silent sql = some []

routes-outage_example :
    (tps_route keep keep silent away (some "1h") ≡ record {
      current = record {
        decode_tps = zero_value keep;
        prefill_tps = zero_value keep;
        requests_per_minute = zero_value keep;
      };
      by_model = [];
      window = or_text "5m" (some "1h");
    })
    × (latency_route keep keep silent away (some "1h") ≡ record {
      e2e = zero_percentiles keep;
      prefill = zero_percentiles keep;
      decode = zero_percentiles keep;
      queue_wait = zero_percentiles keep;
      time_to_first_token = zero_percentiles keep;
      window = or_text "5m" (some "1h");
    })
    × (breakdown_route keep keep silent away (some "1h")
        ≡ record { by_model = []; by_worker = []; window = or_text "5m" (some "1h") })
    × (history_route keep keep silent away options ≡ [])
routes-outage_example = routes-outage keep keep silent away (inr refl) (some "1h") options

-- An answer to the first query of `getTps` alone.
abbrev answered : String → Option (List Row)
answered sql =
    if sql == tps_sql 300
    then some ((("avg_decode_tps", "12.5") ∷ ("avg_prefill_tps", "80") ∷ ("rpm", "3") ∷ []) ∷ [])
    else none

abbrev connected : ClickHouse MetricRow
connected = record { connected = true; rows = [] }

tps_answered : (tps_route keep keep answered connected none).current.decode_tps ≡ some "12.5"
unfolding tps_route get_tps query get current_of parse_window tps_sql decimal or_text
tps_answered = refl

abbrev event : InferenceMetricEvent
event = record {
  request_id = uuid 7;
  model = "llama";
  model_type = "text_gen";
  worker_id = "worker-0";
  prefill_time_ms = 0;
  decode_time_ms = 500;
  total_time_ms = 520;
  queue_wait_ms = pos 3;
  routing_time_ms = pos 1;
  e2e_time_ms = pos 530;
  time_to_first_token_ms = none;
  prompt_tokens = 4;
  completion_tokens = 10;
  cached_tokens = 0;
  user_id = "anonymous";
  priority = "normal";
  is_stream = false;
  finish_reason = "stop";
  media_type = none;
  media_size_bytes = none;
  is_error = false;
  error_message = none;
}

rates_recorded : (metric_row 1700 event).decode_tps ≡ tokens_in 10 500
rates_recorded = unfold metric_row tps in refl

recorded_once :
    (record_inference true 1700 event connected).rows
    ≡ ("inference_metrics", metric_row 1700 event ∷ []) ∷ []
recorded_once = unfold record_inference insert in refl

-- What is sent has the columns of the table.
same_columns : keys table_columns ≡ row_columns
same_columns = refl
