-- ===== src/Scheduler/State.antt =====
-- The state of `SchedulerService` in inference-api/src/scheduler/scheduler.service.ts: its fields,
-- the objects that its callbacks share, and the calls that have not come back.
--   * `progress` has the mutable fields of each request, by id;
--   * `awaiting` has the calls of `dispatchRequest` and `dispatchBatch` that wait for `router.route`;
--   * `streams` has the subscriptions to workers, with the variables of their callbacks.
-- An awaiting call and the stream that it opens have the same number.
use inference_stack.Prelude.{ℕ, String, Option, none, some, List, ◌==◌, ℕ_eq, if◌then◌else◌}
use inference_stack.Map.{Map}
use inference_stack.Batching.{BatchCollector}
use inference_stack.Scheduler.Requests.{RequestState, queued, Request}
use inference_stack.Scheduler.Results.{Usage, Outcome, Progress}
use inference_stack.Scheduler.Queues.{Queues}

-- A call that waits for `router.route`; a batch carries its start time.
pub data Dispatch : Type 0 where
  one_request : Request → Dispatch
  several : List Request → ℕ → Dispatch

-- The variables of the callbacks of `dispatchRequest`.
pub record SingleStream : Type 0 where
  pub request : Request
  pub worker_id : String
  pub full_text : String
  pub thinking_content : String
  pub usage : Option Usage
  pub finish_reason : String

-- An entry of the `requestMap` of `dispatchBatch`.
pub record Entry : Type 0 where
  pub request : Request
  pub text : String
  pub thinking_content : String
  pub usage : Option Usage

pub data Stream : Type 0 where
  single : SingleStream → Stream
  batch : String → Map ℕ Entry → Stream

pub record Service : Type 0 where
  pub queues : Queues
  pub active_count : ℕ
  pub active_requests : Map ℕ Request
  pub collector : BatchCollector Request
  pub max_queue_depth : ℕ
  pub max_queued_tokens : ℕ
  -- `none` is Infinity.
  pub max_concurrent : Option ℕ
  pub request_timeout_ms : ℕ
  pub progress : ℕ → Progress
  pub awaiting : Map ℕ Dispatch
  pub streams : Map ℕ Stream
  pub next_ticket : ℕ

abbrev pub fresh : Progress
fresh = record {
  state = queued;
  dispatch_start_time = none;
  routing_time_ms = none;
  subscription = none;
  timeout_timer = none;
  outcome = none;
}

-- A write to the fields of one request.
unfoldable pub update : ℕ → (Progress → Progress) → Service → Service
update id f s = record s { progress = λ j. if j == id then f (s.progress j) else s.progress j }

unfoldable pub set_state : RequestState → Progress → Progress
set_state st p = record p { state = st }

abbrev pub first_of : Option Outcome → Outcome → Outcome
first_of none o = o
first_of (some earlier) o = earlier

-- `resolve` and `reject`
unfoldable pub settle : Outcome → Progress → Progress
settle o p = record p { outcome = some (first_of p.outcome o) }
