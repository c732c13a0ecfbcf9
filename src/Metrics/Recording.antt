-- ===== src/Metrics/Recording.antt =====
-- `recordInference` of inference-api/src/metrics/metrics.service.ts, and `InferenceMetricEvent` of
-- interfaces.ts. Times are in milliseconds. A rate is kept as the fraction that it is.
use inference_stack.Prelude.{List, ℕ, zero, suc, ◌+◌, ◌/◌, String, Bool, Option, [], ◌∷◌, ℤ}
use inference_stack.Scheduler.Service.{or_empty_text}
use inference_stack.Scheduler.Responses.{or_zero}
use inference_stack.ClickHouse.{ClickHouse, insert}

-- An id of `uuidv4()`, or a text that a service makes.
pub data RequestId : Type 0 where
  uuid : ℕ → RequestId
  named : String → RequestId

pub record InferenceMetricEvent : Type 0 where
  pub request_id : RequestId
  pub model : String
  pub model_type : String
  pub worker_id : String
  pub prefill_time_ms : ℕ
  pub decode_time_ms : ℕ
  pub total_time_ms : ℕ
  pub queue_wait_ms : ℤ
  pub routing_time_ms : ℤ
  pub e2e_time_ms : ℤ
  pub time_to_first_token_ms : Option ℕ
  pub prompt_tokens : ℕ
  pub completion_tokens : ℕ
  pub cached_tokens : ℕ
  pub user_id : String
  pub priority : String
  pub is_stream : Bool
  pub finish_reason : String
  pub media_type : Option String
  pub media_size_bytes : Option ℕ
  pub is_error : Bool
  pub error_message : Option String

-- `tokens / (milliseconds / 1000)`
pub data Tps : Type 0 where
  no_rate : Tps
  tokens_in : ℕ → ℕ → Tps

unfoldable pub tps : ℕ → ℕ → Tps
tps tokens zero = no_rate
tps tokens (suc ms) = tokens_in tokens (suc ms)

-- A row of the table `inference_metrics`.
pub record MetricRow : Type 0 where
  pub timestamp : ℕ
  pub request_id : RequestId
  pub model : String
  pub model_type : String
  pub worker_id : String
  pub prefill_time_ms : ℕ
  pub decode_time_ms : ℕ
  pub total_time_ms : ℕ
  pub queue_wait_ms : ℤ
  pub routing_time_ms : ℤ
  pub e2e_time_ms : ℤ
  pub time_to_first_token_ms : ℕ
  pub prompt_tokens : ℕ
  pub completion_tokens : ℕ
  pub cached_tokens : ℕ
  pub decode_tps : Tps
  pub prefill_tps : Tps
  pub user_id : String
  pub priority : String
  pub is_stream : Bool
  pub finish_reason : String
  pub media_type : String
  pub media_size_bytes : ℕ
  pub is_error : Bool
  pub error_message : String

unfoldable pub metric_row : ℕ → InferenceMetricEvent → MetricRow
unfolding tps
metric_row now event = record {
  timestamp = (now + 500) / 1000;
  request_id = event.request_id;
  model = event.model;
  model_type = event.model_type;
  worker_id = event.worker_id;
  prefill_time_ms = event.prefill_time_ms;
  decode_time_ms = event.decode_time_ms;
  total_time_ms = event.total_time_ms;
  queue_wait_ms = event.queue_wait_ms;
  routing_time_ms = event.routing_time_ms;
  e2e_time_ms = event.e2e_time_ms;
  time_to_first_token_ms = or_zero event.time_to_first_token_ms;
  prompt_tokens = event.prompt_tokens;
  completion_tokens = event.completion_tokens;
  cached_tokens = event.cached_tokens;
  decode_tps = tps event.completion_tokens event.decode_time_ms;
  prefill_tps = tps event.prompt_tokens event.prefill_time_ms;
  user_id = event.user_id;
  priority = event.priority;
  is_stream = event.is_stream;
  finish_reason = event.finish_reason;
  media_type = or_empty_text event.media_type;
  media_size_bytes = or_zero event.media_size_bytes;
  is_error = event.is_error;
  error_message = or_empty_text event.error_message;
}

-- The names of the row's fields as they are sent.
abbrev pub row_columns : List String
row_columns =
    "timestamp" ∷ "request_id" ∷ "model" ∷ "model_type" ∷ "worker_id" ∷ "prefill_time_ms"
    ∷ "decode_time_ms" ∷ "total_time_ms" ∷ "queue_wait_ms" ∷ "routing_time_ms" ∷ "e2e_time_ms"
    ∷ "time_to_first_token_ms" ∷ "prompt_tokens" ∷ "completion_tokens" ∷ "cached_tokens"
    ∷ "decode_tps" ∷ "prefill_tps" ∷ "user_id" ∷ "priority" ∷ "is_stream" ∷ "finish_reason"
    ∷ "media_type" ∷ "media_size_bytes" ∷ "is_error" ∷ "error_message" ∷ []

-- Whether the database accepts the row is the first argument.
unfoldable pub record_inference :
    Bool → ℕ → InferenceMetricEvent → ClickHouse MetricRow → ClickHouse MetricRow
record_inference accepts now event ch =
    insert accepts "inference_metrics" (metric_row now event ∷ []) ch
