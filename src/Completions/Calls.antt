-- ===== src/Completions/Calls.antt =====
-- `create` and `createStream` of inference-api/src/completions/completions.service.ts: what they do
-- at once, what they do when the promise of the scheduler is settled, and the `cancel` that they
-- return. A call is kept under the id that `uuidv4()` gave its record; the promise of its request
-- has the id that the scheduler took from `uuidv4()`. The repository takes every record. The text of
-- `JSON.stringify(messages)`, the `message` of a Nest exception and `String(err)` are parameters.
use inference_stack.Prelude.{
  ℕ, ◌/◌, String, Bool, false, Option, none, some, List, [], ◌∷◌, ◌==◌, ℕ_eq, string_eq,
  if◌then◌else◌, sub_ℕ, pos,
}
use inference_stack.Map.{Map, set}
use inference_stack.Roster.{
  ModelType, text_gen, image_gen, video_gen, tts, vision_language, get_model_type,
}
use inference_stack.ClickHouse.{ClickHouse}
use inference_stack.Metrics.Recording.{uuid, InferenceMetricEvent, MetricRow}
use inference_stack.Scheduler.Requests.{Priority, high, normal, low, CreateCompletionDto}
use inference_stack.Scheduler.Results.{
  ResultUsage, Timing, Completion, Failure, request_cancelled, request_timed_out, worker_error,
  server_error, thrown, Outcome, resolved, rejected,
}
use inference_stack.Scheduler.Inference.{truthy, or_text}
use inference_stack.Scheduler.State.{Service}
use inference_stack.Scheduler.Service.{Rejection, Enqueued, too_many_requests, accepted}
use inference_stack.Completions.Records.{completed, Entity, Repository, save}

-- What a promise is rejected with: a 429 exception of `enqueue`, or a failure.
pub data Thrown : Type 0 where
  refused : Rejection → ℕ → Thrown
  failed : Failure → Thrown

-- The promise of `scheduler.enqueue`.
pub data Promise : Type 0 where
  request : ℕ → Promise
  too_many : Rejection → ℕ → Promise

pub record FinalChunk : Type 0 where
  pub id : ℕ
  pub created : ℕ
  pub model : String
  pub text : String
  pub finish_reason : String
  pub thinking_content : Option String
  pub usage : ResultUsage

-- The events of the subject of `createStream`.
pub data StreamEvent : Type 0 where
  final_chunk : FinalChunk → StreamEvent
  error_event : String → StreamEvent
  done : StreamEvent

-- The promise that `create` returns.
pub data Returned : Type 0 where
  unsettled : Returned
  returned : Completion → Returned
  threw : Thrown → Returned

-- The variables of one call. The events of a stream come out together, and complete it.
pub data Kind : Type 0 where
  plain : Bool → Returned → Kind
  sse : Option (List StreamEvent) → Kind

pub record Call : Type 0 where
  pub dto : CreateCompletionDto
  pub request_start_time : ℕ
  pub promise : Promise
  pub entity : Entity
  pub kind : Kind

pub record App : Type 0 where
  pub scheduler : Service
  pub clickhouse : ClickHouse MetricRow
  pub repository : Repository
  pub calls : Map ℕ Call

unfoldable pub parse_priority : Option String → Priority
parse_priority none = normal
parse_priority (some p) = if p == "high" then high else if p == "low" then low else normal

-- `err?.error?.message`
unfoldable pub error_text : Thrown → Option String
error_text (refused why retry_after) = none
error_text (failed request_cancelled) = some "Request cancelled"
error_text (failed request_timed_out) = some "Request timed out"
error_text (failed (worker_error e)) = some e.message
error_text (failed (server_error message)) = some message
error_text (failed (thrown message)) = none

abbrev pub model_type_text : Option ModelType → String
model_type_text none = "text_gen"
model_type_text (some text_gen) = "text_gen"
model_type_text (some image_gen) = "image_gen"
model_type_text (some video_gen) = "video_gen"
model_type_text (some tts) = "tts"
model_type_text (some vision_language) = "vision_language"

abbrev pub or_no_timing : Option Timing → Timing
or_no_timing none = record { queue_wait_ms = pos 0; routing_time_ms = pos 0 }
or_no_timing (some t) = t

pub metric_event : ℕ → ℕ → Bool → Call → Completion → InferenceMetricEvent
metric_event now request_id stream call result = record {
  request_id = uuid request_id;
  model = call.dto.model;
  model_type = model_type_text (get_model_type call.dto.model);
  worker_id = result.worker_id;
  prefill_time_ms = result.usage.prefill_time_ms;
  decode_time_ms = result.usage.decode_time_ms;
  total_time_ms = result.usage.total_time_ms;
  queue_wait_ms = (or_no_timing result.timing).queue_wait_ms;
  routing_time_ms = (or_no_timing result.timing).routing_time_ms;
  e2e_time_ms = sub_ℕ now call.request_start_time;
  time_to_first_token_ms = none;
  prompt_tokens = result.usage.prompt_tokens;
  completion_tokens = result.usage.completion_tokens;
  cached_tokens = result.usage.cached_tokens;
  user_id = or_text "anonymous" call.dto.user;
  priority = or_text "normal" call.dto.priority;
  is_stream = stream;
  finish_reason = result.finish_reason;
  media_type = none;
  media_size_bytes = none;
  is_error = false;
  error_message = none;
}

-- What `.then` writes into the record of a call of `create`.
unfoldable pub complete_entity : Completion → Entity → Entity
complete_entity result e = record e {
  completion_text = some result.text;
  status = completed;
  finish_reason = some result.finish_reason;
  prompt_tokens = some result.usage.prompt_tokens;
  completion_tokens = some result.usage.completion_tokens;
  total_tokens = some result.usage.total_tokens;
  prefill_time_ms = some result.usage.prefill_time_ms;
  decode_time_ms = some result.usage.decode_time_ms;
  total_time_ms = some result.usage.total_time_ms;
  worker_id = some result.worker_id;
}

-- The same for `createStream`.
unfoldable pub complete_stream_entity : Completion → Entity → Entity
complete_stream_entity result e = record e {
  completion_text = some result.text;
  status = completed;
  prefill_time_ms = some result.usage.prefill_time_ms;
  decode_time_ms = some result.usage.decode_time_ms;
  total_time_ms = some result.usage.total_time_ms;
}

unfoldable pub final_chunk_of : ℕ → ℕ → Call → Completion → FinalChunk
final_chunk_of now request_id call result = record {
  id = request_id;
  created = now / 1000;
  model = call.dto.model;
  text = result.text;
  finish_reason = result.finish_reason;
  thinking_content = truthy result.thinking_content;
  usage = result.usage;
}

unfoldable pub final_event : ℕ → ℕ → Call → Completion → StreamEvent
final_event now request_id call result = final_chunk (final_chunk_of now request_id call result)

unfoldable pub final_events : ℕ → ℕ → Call → Completion → List StreamEvent
final_events now request_id call result =
    if result.text == ""
    then elim (truthy result.thinking_content) [
      | none ↦ done ∷ []
      | some thinking ↦ final_event now request_id call result ∷ done ∷ []
    ]
    else final_event now request_id call result ∷ done ∷ []

-- How the promise of `enqueue` is settled.
pub data Settled : Type 0 where
  not_yet : Settled
  fulfilled : Completion → Settled
  broken : Thrown → Settled

abbrev pub of_outcome : Option Outcome → Settled
of_outcome none = not_yet
of_outcome (some (resolved result)) = fulfilled result
of_outcome (some (rejected why)) = broken (failed why)

unfoldable pub settled : Promise → Service → Settled
settled (request id) s = of_outcome (s.progress id).outcome
settled (too_many why retry_after) s = broken (refused why retry_after)

abbrev pub promise_of : ℕ → Enqueued → Promise
promise_of id (too_many_requests why retry_after) = too_many why retry_after
promise_of id (accepted s) = request id

abbrev pub scheduler_after : Service → Enqueued → Service
scheduler_after s (too_many_requests why retry_after) = s
scheduler_after s (accepted t) = t

-- A call's record and variables, written back.
unfoldable pub write_call : ℕ → Call → App → App
write_call request_id call app = record app {
  calls = set request_id call app.calls;
  repository = save call.entity app.repository;
}
