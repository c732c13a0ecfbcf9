-- ===== src/Media.antt =====
-- The services for images, speech and video: inference-api/src/images, inference-api/src/audio and
-- inference-api/src/video. They ask a worker, wait for its whole stream and answer with the media in
-- it. What the router and the worker answer is a parameter, and `B` is the type of bytes.
pub mod Images
pub mod Audio
pub mod Video
pub mod Outcomes
mod Tests
use inference_stack.Prelude.{
  ℕ, ◌+◌, String, Bool, false, Option, none, some, List, [], ◌∷◌, ◌++◌, length, sub_ℕ, ℤ, pos,
}
use inference_stack.Metrics.Recording.{RequestId, InferenceMetricEvent}
use inference_stack.Scheduler.Results.{Usage}
use inference_stack.Scheduler.Responses.{usage_field}

-- A response of the stream: bytes of the media, the completion with its usage, or an error with its
-- message.
pub record MediaResponse (B : Type 0) : Type 0 where
  pub media : Option (List B)
  pub complete : Option (Option Usage)
  pub error : Option String

-- The request to the worker, whose parameters are `{ max_tokens: 1 }`.
pub record MediaRequest : Type 0 where
  pub request_id : String
  pub model_id : String
  pub prompt : String
  pub max_tokens : ℕ

-- What `Date.now()` says: at the start, for the id, after the routing, for the event, for its row, and
-- for the answer.
pub record Times : Type 0 where
  pub start_time : ℕ
  pub id_time : ℕ
  pub routed_time : ℕ
  pub end_time : ℕ
  pub row_time : ℕ
  pub created_time : ℕ

-- What `router.route` came to: a worker's id, or what was thrown.
pub data Routed : Type 0 where
  on_worker : String → Routed
  no_worker : String → Routed

-- The stream of the worker: all of its responses, or what ended it.
pub data Streamed (B : Type 0) : Type 0 where
  all_of : List (MediaResponse B) → Streamed B
  broke : String → Streamed B

-- The promise of a service: what it is fulfilled with, a `NotFoundException` with its message, or
-- what the router or the stream threw.
pub data Generated (A : Type 0) : Type 0 where
  generated : A → Generated A
  not_found : String → Generated A
  failed : String → Generated A

module _ {B : Type 0} where
  -- `responses.find((r) => r.error)`, with the message.
  pub first_error : List (MediaResponse B) → Option String
  first_error [] = none
  first_error (r ∷ rs) = elim r.error [ none ↦ first_error rs | some message ↦ some message ]

  -- `responses.find((r) => r.complete)?.complete?.usage`
  pub first_usage : List (MediaResponse B) → Option Usage
  first_usage [] = none
  first_usage (r ∷ rs) = elim r.complete [ none ↦ first_usage rs | some usage ↦ usage ]

  -- `responses.filter((r) => r.media)`, with the bytes.
  pub media_of : List (MediaResponse B) → List (List B)
  media_of [] = []
  media_of (r ∷ rs) = elim r.media [ none ↦ media_of rs | some bytes ↦ bytes ∷ media_of rs ]

  -- `Buffer.concat`
  pub concat : List (List B) → List B
  concat [] = []
  concat (bytes ∷ rest) = bytes ++ concat rest

  -- What a service makes of the responses; `nothing` is its message where there are no media.
  pub collect : String → List (MediaResponse B) → Generated (List B)
  collect nothing responses = elim (first_error responses) [
    | some message ↦ not_found message
    | none ↦ elim (media_of responses) [
      | [] ↦ not_found nothing
      | bytes ∷ rest ↦ generated (concat (bytes ∷ rest))
    ]
  ]

-- The event of a request that went well; `size` is the number of bytes.
pub media_event :
    RequestId → String → String → String → String → Times → Option Usage → ℕ → InferenceMetricEvent
media_event request_id model model_type media_type worker_id t usage size = record {
  request_id = request_id;
  model = model;
  model_type = model_type;
  worker_id = worker_id;
  prefill_time_ms = usage_field (λ u. u.prefill_time_ms) usage;
  decode_time_ms = usage_field (λ u. u.decode_time_ms) usage;
  total_time_ms = usage_field (λ u. u.total_time_ms) usage;
  queue_wait_ms = pos 0;
  routing_time_ms = sub_ℕ t.routed_time t.start_time;
  e2e_time_ms = sub_ℕ t.end_time t.start_time;
  time_to_first_token_ms = none;
  prompt_tokens = usage_field (λ u. u.prompt_tokens) usage;
  completion_tokens = 0;
  cached_tokens = 0;
  user_id = "anonymous";
  priority = "normal";
  is_stream = false;
  finish_reason = "STOP";
  media_type = some media_type;
  media_size_bytes = some size;
  is_error = false;
  error_message = none;
}
