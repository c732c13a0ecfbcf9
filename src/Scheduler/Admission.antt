-- ===== src/Scheduler/Admission.antt =====
-- `admissionCheck` of inference-api/src/scheduler/scheduler.service.ts, as `enqueue` applies it.
use inference_stack.Prelude.{
  ℕ, ◌+◌, ◌≤◌, ◌<◌, ◌≡◌, refl, ◌↔◌, String, none, arith, inl, inr, ◌⊎◌, dec_lt,
}
use inference_stack.Tokenizer.{estimate_token_count}
use inference_stack.Scheduler.Requests.{Priority, CreateCompletionDto}
use inference_stack.Scheduler.State.{Service}
use inference_stack.Scheduler.Service.{
  Rejection, queue_full, token_budget_exceeded, Enqueued, too_many_requests, accepted,
  estimate_retry_after, admission_check, text_for_estimation, new_request, admit, enqueue,
}

-- The estimate for a request's text.
abbrev pub estimate : CreateCompletionDto → ℕ
estimate dto = estimate_token_count (text_for_estimation dto)

-- A request is accepted.
abbrev pub IsAccepted : Enqueued → Type 0
IsAccepted e = (t : Service) × (e ≡ accepted t)

-- `enqueue` accepts a request exactly when fewer requests than `maxQueueDepth` are queued and its
-- estimate added to the queued tokens stays within `maxQueuedTokens`.
pub enqueue-IsAccepted-iff :
    (dto : CreateCompletionDto) (user_id : String) (priority : Priority) (id now : ℕ) (s : Service)
    → IsAccepted (enqueue dto user_id priority id now s) ↔ (
        (s.queues.total_queued < s.max_queue_depth)
        × (s.queues.total_queued_tokens + estimate dto ≤ s.max_queued_tokens))
unfolding enqueue admission_check new_request
enqueue-IsAccepted-iff dto user_id priority id now s = (
  λ (t, e). (ground arith, ground arith),
  λ (below, fits).
      let open_door : admission_check (estimate dto) s ≡ none = ground arith in
      (admit now (new_request dto user_id priority id now) s, rw (open_door, enqueue) refl),
)

-- A request that `enqueue` refuses is told to come back after at least a second and at least as
-- many seconds as requests are active, with the limit that it met: the queue depth first, and the
-- token budget where the depth is below its limit.
pub enqueue_refusal :
    (dto : CreateCompletionDto) (user_id : String) (priority : Priority) (id now : ℕ) (s : Service)
    (why : Rejection) (retry_after : ℕ)
    → enqueue dto user_id priority id now s ≡ too_many_requests why retry_after
    → (1 ≤ retry_after)
      × (s.active_count ≤ retry_after)
      × (((why ≡ queue_full) × (s.max_queue_depth ≤ s.queues.total_queued))
          ⊎ ((why ≡ token_budget_exceeded)
              × (s.queues.total_queued < s.max_queue_depth)
              × (s.max_queued_tokens < s.queues.total_queued_tokens + estimate dto)))
unfolding enqueue admission_check new_request estimate_retry_after
enqueue_refusal dto user_id priority id now s why retry_after e = (
  ground arith,
  ground arith,
  elim (dec_lt s.queues.total_queued s.max_queue_depth) [
    | yes below ↦ inr (ground arith, below, ground arith)
    | no full ↦ inl (ground arith, omega arith)
  ],
)
