-- ===== src/Scheduler/Service.antt =====
-- The public methods of `SchedulerService` in inference-api/src/scheduler/scheduler.service.ts, and
-- the timer of the batch collector. The callbacks of workers, of the router and of the timers of
-- requests are in `Events`.
use inference_stack.Prelude.{
  ℕ, ◌+◌, max, String, Option, none, some, List, [], ◌∷◌, ltb, leb, ℕ_eq, if◌then◌else◌,
}
use inference_stack.Map.{get, delete}
use inference_stack.Tokenizer.{estimate_token_count}
use inference_stack.Batching.{window_elapsed, destroy}
use inference_stack.Scheduler.Requests.{
  Priority, tenths, cancelled, Message, CreateCompletionDto, Request,
}
use inference_stack.Scheduler.Results.{request_cancelled, rejected}
use inference_stack.Scheduler.Queues.{Queues, add_to_queue, cancel_queued}
use inference_stack.Scheduler.State.{Service, fresh, update, set_state, settle}
use inference_stack.Scheduler.Dispatching.{run_delivery, try_dispatch, finish_request}

pub data Rejection : Type 0 where
  queue_full token_budget_exceeded : Rejection

-- A 429 response with its `retryAfter`, or the service after the call.
pub data Enqueued : Type 0 where
  too_many_requests : Rejection → ℕ → Enqueued
  accepted : Service → Enqueued

unfoldable pub estimate_retry_after : Service → ℕ
estimate_retry_after s = max 1 s.active_count

unfoldable pub admission_check : ℕ → Service → Option Rejection
admission_check estimated_tokens s =
    if leb s.max_queue_depth s.queues.total_queued
    then some queue_full
    else if ltb s.max_queued_tokens (s.queues.total_queued_tokens + estimated_tokens)
    then some token_budget_exceeded
    else none

abbrev pub or_empty_text : Option String → String
or_empty_text none = ""
or_empty_text (some text) = text

-- `messages.map((m) => m.content).join(' ')`
unfoldable pub join_contents : List Message → String
join_contents [] = ""
join_contents (m ∷ []) = m.content
join_contents (m ∷ m' ∷ ms) =
    Prim.Native.String.◌++◌ m.content (Prim.Native.String.◌++◌ " " (join_contents (m' ∷ ms)))

unfoldable pub text_for_estimation : CreateCompletionDto → String
text_for_estimation dto = elim dto.messages [
  | [] ↦ or_empty_text dto.prompt
  | m ∷ ms ↦ join_contents (m ∷ ms)
]

unfoldable pub new_request : CreateCompletionDto → String → Priority → ℕ → ℕ → Request
new_request dto user_id priority id now = record {
  id = id;
  dto = dto;
  user_id = user_id;
  priority = priority;
  estimated_tokens = estimate_token_count (text_for_estimation dto);
  enqueued_at = now;
  effective_priority = tenths priority;
}

-- The part of `enqueue` after the admission check.
unfoldable pub admit : ℕ → Request → Service → Service
admit now r s =
    try_dispatch now (record (update r.id (λ p. fresh) s) { queues = add_to_queue r s.queues })

-- `id` is the one that `uuidv4()` returns.
unfoldable pub enqueue : CreateCompletionDto → String → Priority → ℕ → ℕ → Service → Enqueued
enqueue dto user_id priority id now s =
    let r = new_request dto user_id priority id now in
    elim (admission_check r.estimated_tokens s) [
      | some why ↦ too_many_requests why (estimate_retry_after s)
      | none ↦ accepted (admit now r s)
    ]

-- `subscription?.unsubscribe()`
unfoldable pub unsubscribe : ℕ → Service → Service
unsubscribe id s = elim (s.progress id).subscription [
  | none ↦ s
  | some stream ↦ record s { streams = delete stream s.streams }
]

unfoldable pub cancel_active : ℕ → ℕ → Service → Service
cancel_active now id s =
    update id (settle (rejected request_cancelled))
      (finish_request now id (update id (set_state cancelled) (unsubscribe id s)))

-- The end of `cancel` for a request that was queued, with the queues that are left.
unfoldable pub reject_queued : Request → Queues → Service → Service
reject_queued r q s =
    update r.id (settle (rejected request_cancelled))
      (update r.id (set_state cancelled) (record s { queues = q }))

unfoldable pub cancel : ℕ → ℕ → Service → Service
cancel now id s = elim (cancel_queued id s.queues) [
  | some (r, q) ↦ reject_queued r q s
  | none ↦ elim (get id s.active_requests) [ none ↦ s | some r ↦ cancel_active now r.id s ]
]

-- The collector's timer for the bucket at an index of the model's list.
unfoldable pub window_timer : ℕ → String → ℕ → Service → Service
window_timer now model i s =
    let result = window_elapsed model i s.collector in
    run_delivery now result.1 (record s { collector = result.0 })

pub record Stats : Type 0 where
  pub queue_depth : ℕ
  pub queued_tokens : ℕ
  pub active : ℕ

unfoldable pub get_stats : Service → Stats
get_stats s = record {
  queue_depth = s.queues.total_queued;
  queued_tokens = s.queues.total_queued_tokens;
  active = s.active_count;
}

unfoldable set_max_queue_depth : ℕ → Service → Service
set_max_queue_depth n s = record s { max_queue_depth = n }

unfoldable set_max_queued_tokens : ℕ → Service → Service
set_max_queued_tokens n s = record s { max_queued_tokens = n }

unfoldable set_max_concurrent : Option ℕ → Service → Service
set_max_concurrent n s = record s { max_concurrent = n }

unfoldable set_request_timeout : ℕ → Service → Service
set_request_timeout ms s = record s { request_timeout_ms = ms }

-- The timer that this clears besides is never set.
unfoldable on_module_destroy : Service → Service
on_module_destroy s = record s { collector = destroy s.collector }
