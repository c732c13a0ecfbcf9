-- ===== src/Scheduler/Histories.antt =====
-- Histories of the scheduler: calls and callbacks in any order.
use inference_stack.Prelude.{ℕ, ◌≤◌, ◌≡◌, refl, String, Option, [], arith, length}
use inference_stack.Batching.{BatchConfig}
use inference_stack.Scheduler.Requests.{Priority, CreateCompletionDto}
use inference_stack.Scheduler.Results.{InferResponse}
use inference_stack.Scheduler.Queues.{empty}
use inference_stack.Scheduler.Queues.Counters.{empty-IsValid}
use inference_stack.Scheduler.Queues.Cancel.{length-get_queued_request_ids}
use inference_stack.Scheduler.Queues.{get_queued_request_ids}
use inference_stack.Scheduler.State.{Service, fresh}
use inference_stack.Scheduler.Service.{
  Rejection, too_many_requests, accepted, enqueue, cancel, window_timer, get_stats,
}
use inference_stack.Scheduler.Events.{
  route_resolved, route_rejected, stream_next, stream_complete, stream_error, timer_fired,
}
use inference_stack.Scheduler.Invariant.{IsSound, nothing}
use inference_stack.Scheduler.Invariant.Routes.{route_resolved-IsSound, route_rejected-IsSound}
use inference_stack.Scheduler.Invariant.Streams.{stream_next-IsSound}
use inference_stack.Scheduler.Invariant.Ends.{stream_complete-IsSound, stream_error-IsSound}
use inference_stack.Scheduler.Invariant.Calls.{
  with_id, enqueue-IsSound, cancel-IsSound, window_timer-IsSound, timer_fired-IsSound,
}

-- The limits that a service starts with, and the configuration of its collector.
pub record Settings : Type 0 where
  pub max_queue_depth : ℕ
  pub max_queued_tokens : ℕ
  pub max_concurrent : Option ℕ
  pub request_timeout_ms : ℕ
  pub batching : BatchConfig

unfoldable pub start : Settings → Service
start c = record {
  queues = empty;
  active_count = 0;
  active_requests = [];
  collector = record { config = c.batching; buckets = [] };
  max_queue_depth = c.max_queue_depth;
  max_queued_tokens = c.max_queued_tokens;
  max_concurrent = c.max_concurrent;
  request_timeout_ms = c.request_timeout_ms;
  progress = λ i. fresh;
  awaiting = [];
  streams = [];
  next_ticket = 0;
}

-- One call or callback. `enqueued` carries the fresh id of `uuidv4()`; a refused call changes
-- nothing.
pub data Step (born : ℕ → ℕ) (s : Service) : (ℕ → ℕ) → Service → Type 0 where
  enqueued :
      (dto : CreateCompletionDto) (user_id : String) (priority : Priority) (id now : ℕ)
      {t : Service}
      → born id ≡ 0
      → enqueue dto user_id priority id now s ≡ accepted t
      → Step born s (with_id id born) t
  refused :
      (dto : CreateCompletionDto) (user_id : String) (priority : Priority) (id now : ℕ)
      (why : Rejection) (retry_after : ℕ)
      → enqueue dto user_id priority id now s ≡ too_many_requests why retry_after
      → Step born s born s
  cancelled : (now id : ℕ) → Step born s born (cancel now id s)
  window : (now : ℕ) (model : String) (i : ℕ) → Step born s born (window_timer now model i s)
  route : (now n : ℕ) (worker_id : String) → Step born s born (route_resolved now n worker_id s)
  no_route : (now n : ℕ) (err : String) → Step born s born (route_rejected now n err s)
  next : (now n : ℕ) (m : InferResponse) → Step born s born (stream_next now n m s)
  complete : (now n : ℕ) → Step born s born (stream_complete now n s)
  fail : (now n : ℕ) (message : String) → Step born s born (stream_error now n message s)
  timer : (now id : ℕ) → Step born s born (timer_fired now id s)

-- What a service can come to from its start.
pub data Reach (c : Settings) : (ℕ → ℕ) → Service → Type 0 where
  begin : Reach c nothing (start c)
  more :
      {born next_born : ℕ → ℕ} {s t : Service}
      → Reach c born s
      → Step born s next_born t
      → Reach c next_born t

pub start-IsSound : (c : Settings) → IsSound nothing (start c)
unfolding start
start-IsSound c = record {
  queues = empty-IsValid;
  depth = unfold empty in omega arith;
  budget = unfold empty in omega arith;
  counted = refl;
  exact = λ i. unfold empty in omega arith;
  issued_once = λ i. omega arith;
  kept = λ i. omega arith;
  ran = λ i. omega arith;
  keyed = tt;
  timed = λ i. omega arith;
  routes = tt;
  streams = tt;
}

pub Step-IsSound :
    {born next_born : ℕ → ℕ} {s t : Service}
    → Step born s next_born t
    → IsSound born s
    → IsSound next_born t
Step-IsSound {born} {s} (enqueued dto user_id priority id now {t} unissued e) v =
    enqueue-IsSound born dto user_id priority id now s t unissued e v
Step-IsSound (refused dto user_id priority id now why retry_after e) v = v
Step-IsSound {born} {s} (cancelled now id) v = cancel-IsSound born now id s v
Step-IsSound {born} {s} (window now model i) v = window_timer-IsSound born now model i s v
Step-IsSound {born} {s} (route now n worker_id) v = route_resolved-IsSound born now n worker_id s v
Step-IsSound {born} {s} (no_route now n err) v = route_rejected-IsSound born now n err s v
Step-IsSound {born} {s} (next now n m) v = stream_next-IsSound born now n m s v
Step-IsSound {born} {s} (complete now n) v = stream_complete-IsSound born now n s v
Step-IsSound {born} {s} (fail now n message) v = stream_error-IsSound born now n message s v
Step-IsSound {born} {s} (timer now id) v = timer_fired-IsSound born now id s v

-- After any history of calls and callbacks in any order, where `enqueue` is given ids that were
-- never issued before, the invariant `IsSound` holds: every issued id is queued, or waits in the
-- collector, or is active, or is settled, in exactly one of these ways and exactly once; the
-- counters agree with what they count, and the queues are within the two admission limits.
pub Reach-IsSound : {c : Settings} {born : ℕ → ℕ} {s : Service} → Reach c born s → IsSound born s
Reach-IsSound {c} begin = start-IsSound c
Reach-IsSound (more r st) = Step-IsSound st (Reach-IsSound r)

-- After any history of calls and callbacks the statistics are what they say: the queue depth is the number of ids
-- that `getQueuedRequestIds` lists and is within its limit, and the active count is the number of
-- entries of `activeRequests`; the queued tokens are within their limit.
pub get_stats-Reach :
    {c : Settings} {born : ℕ → ℕ} (s : Service)
    → Reach c born s
    → ((get_stats s).queue_depth ≡ length (get_queued_request_ids s.queues))
      × ((get_stats s).queue_depth ≤ s.max_queue_depth)
      × ((get_stats s).queued_tokens ≤ s.max_queued_tokens)
      × ((get_stats s).active ≡ length s.active_requests)
unfolding get_stats
get_stats-Reach s r =
    let v = Reach-IsSound r in
    (
      omega (arith, length-get_queued_request_ids s.queues v.queues),
      omega (arith, v.depth, v.queues.counted),
      omega (arith, v.budget, v.queues.tokens_counted),
      v.counted,
    )
