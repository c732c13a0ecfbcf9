-- ===== src/Scheduler/Results.antt =====
-- What workers send and what requests end with, in inference-api/src/scheduler/scheduler.service.ts:
-- the messages of `infer` and `batchInfer` as the callbacks read them, the values given to `resolve`
-- and `reject`, and the fields of `QueuedRequest` that change. An absent field is `none`; times are
-- in milliseconds.
use inference_stack.Prelude.{ℕ, String, Bool, Option, ℤ}
use inference_stack.Scheduler.Requests.{RequestState}

pub record Chunk : Type 0 where
  pub is_thinking : Bool
  pub text : Option String

pub record Usage : Type 0 where
  pub prompt_tokens : Option ℕ
  pub completion_tokens : Option ℕ
  pub prefill_time_ms : Option ℕ
  pub decode_time_ms : Option ℕ
  pub total_time_ms : Option ℕ
  pub cached_tokens : Option ℕ
  pub cache_load_ms : Option ℕ
  pub cache_save_ms : Option ℕ

pub record Complete : Type 0 where
  pub finish_reason : String
  pub usage : Option Usage

pub record ResponseError : Type 0 where
  pub message : String
  pub code : String

pub record InferResponse : Type 0 where
  pub request_id : ℕ
  pub chunk : Option Chunk
  pub complete : Option Complete
  pub error : Option ResponseError

-- The `usage` of a result; a batch has no cache times.
pub record ResultUsage : Type 0 where
  pub prompt_tokens : ℕ
  pub completion_tokens : ℕ
  pub total_tokens : ℕ
  pub prefill_time_ms : ℕ
  pub decode_time_ms : ℕ
  pub total_time_ms : ℕ
  pub cached_tokens : ℕ
  pub cache_load_ms : Option ℕ
  pub cache_save_ms : Option ℕ

-- `_timing`
pub record Timing : Type 0 where
  pub queue_wait_ms : ℤ
  pub routing_time_ms : ℤ

pub record Completion : Type 0 where
  pub id : ℕ
  pub created : ℕ
  pub model : String
  pub text : String
  pub finish_reason : String
  pub thinking_content : Option String
  pub usage : ResultUsage
  pub timing : Option Timing
  pub worker_id : String

pub data Failure : Type 0 where
  request_cancelled request_timed_out : Failure
  worker_error : ResponseError → Failure
  server_error : String → Failure
  -- What `router.route` or the call of the worker threw.
  thrown : String → Failure

pub data Outcome : Type 0 where
  resolved : Completion → Outcome
  rejected : Failure → Outcome

-- The callbacks of a request's timer: that of `dispatchRequest`, which unsubscribes, and that of
-- `dispatchBatch`, which does not.
pub data Timer : Type 0 where
  single_timer batch_timer : Timer

pub record Progress : Type 0 where
  pub state : RequestState
  pub dispatch_start_time : Option ℕ
  pub routing_time_ms : Option ℤ
  -- The stream that the request is subscribed to.
  pub subscription : Option ℕ
  pub timeout_timer : Option Timer
  -- How the promise was settled. A second settlement of a promise does nothing.
  pub outcome : Option Outcome
