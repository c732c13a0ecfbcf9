-- ===== src/Completions/Controller.antt =====
-- `POST /v1/completions` of inference-api/src/completions/completions.controller.ts: its checks, the
-- session id, and the answers. The data of an event of a stream is its text in JSON, which is
-- a parameter, unless it is the mark that ends the stream.
use Prim.Native.String
use inference_stack.Prelude.{
  ℕ, String, Option, none, some, List, [], ◌∷◌, ◌==◌, ℕ_eq, string_eq, if◌then◌else◌,
}
use inference_stack.Metrics.Windows.{decimal}
use inference_stack.Scheduler.Requests.{CreateCompletionDto}
use inference_stack.Scheduler.Results.{
  Completion, Failure, request_cancelled, request_timed_out, worker_error, server_error, thrown,
}
use inference_stack.Scheduler.Inference.{truthy}
use inference_stack.Scheduler.Service.{Rejection}
use inference_stack.Completions.Calls.{
  refused, failed, StreamEvent, final_chunk, error_event, done, Returned, unsettled, returned,
  threw, App,
}
use inference_stack.Completions.Service.{Texts, create}

-- The message of the 400 that `create` of the controller throws.
unfoldable pub bad_request : CreateCompletionDto → Option String
bad_request dto = if dto.model == "" then some "model is required" else elim (truthy dto.prompt) [
  | some prompt ↦ none
  | none ↦ elim dto.messages [ [] ↦ some "prompt or messages is required" | m ∷ ms ↦ none ]
]

-- `session_id` is the text of a new `uuidv4()`.
unfoldable pub with_session : String → CreateCompletionDto → CreateCompletionDto
with_session session_id dto = elim (truthy dto.session_id) [
  | some own ↦ dto
  | none ↦ record dto { session_id = some session_id }
]

pub data Posted : Type 0 where
  invalid : String → Posted
  taken : App → Posted

unfoldable pub post : Texts → CreateCompletionDto → String → ℕ → ℕ → ℕ → App → Posted
post texts dto session_id request_id scheduler_id now app = elim (bad_request dto) [
  | some message ↦ invalid message
  | none ↦
      taken (create texts dto.stream (with_session session_id dto) request_id scheduler_id now app)
]

-- The JSON of an answer: a result with the session id, the body of a refusal with its `retryAfter`,
-- or the failure itself.
pub data Body : Type 0 where
  result_body : Completion → Option String → Body
  refusal_body : Rejection → ℕ → Body
  failure_body : Failure → Body

pub record HttpResponse : Type 0 where
  pub status : ℕ
  pub retry_after : Option String
  pub body : Body

-- `err?.error?.code === 'MODEL_NOT_LOADED'`
unfoldable pub failure_status : Failure → ℕ
failure_status (worker_error e) = if e.code == "MODEL_NOT_LOADED" then 404 else 500
failure_status request_cancelled = 500
failure_status request_timed_out = 500
failure_status (server_error message) = 500
failure_status (thrown message) = 500

-- The answer to a call of `create`, once its promise is settled.
unfoldable pub answer : CreateCompletionDto → Returned → Option HttpResponse
answer dto unsettled = none
answer dto (returned result) =
    some (record { status = 200; retry_after = none; body = result_body result dto.session_id })
answer dto (threw (refused why retry_after)) = some (record {
  status = 429;
  retry_after = some (decimal retry_after "");
  body = refusal_body why retry_after;
})
answer dto (threw (failed why)) =
    some (record { status = failure_status why; retry_after = none; body = failure_body why })

-- What is written of a stream of events.
module _ (json : StreamEvent → String) where
  unfoldable pub event_data : StreamEvent → String
  event_data done = "[DONE]"
  event_data (final_chunk chunk) = json (final_chunk chunk)
  event_data (error_event message) = json (error_event message)

  unfoldable pub stream_text : List StreamEvent → String
  stream_text [] = ""
  stream_text (e ∷ es) =
      String.◌++◌ "data: " (String.◌++◌ (event_data e) (String.◌++◌ "\n\n" (stream_text es)))

unfoldable pub stream_headers : List (String × String)
stream_headers =
    ("Content-Type", "text/event-stream")
    ∷ ("Cache-Control", "no-cache")
    ∷ ("Connection", "keep-alive")
    ∷ ("X-Accel-Buffering", "no")
    ∷ []
