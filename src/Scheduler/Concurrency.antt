-- ===== src/Scheduler/Concurrency.antt =====
-- The concurrency limit of inference-api/src/scheduler/scheduler.service.ts.
use inference_stack.Prelude.{
  ℕ, zero, suc, ◌+◌, ◌≤◌, ◌<◌, ◌≡◌, refl, ap, ◌∙◌, true, false, ◌&&◌, some, arith, ltb,
  Option-cases, Bool-cases, inl, inr,
}
use inference_stack.Batching.{BatchConfig}
use inference_stack.Batching.Buckets.{submit_disabled}
use inference_stack.Scheduler.Requests.{Request}
use inference_stack.Scheduler.Queues.{dequeue_next}
use inference_stack.Scheduler.State.{Service, update}
use inference_stack.Scheduler.Dispatching.{
  mark, await, dispatch_request, dispatch_each, run_delivery, batchable, submit_request, has_slot,
  try_dispatch_loop, try_dispatch,
}
use inference_stack.Scheduler.Dispatches.{submit_request-IsFramed}

active_count-dispatch_request :
    (now : ℕ) (r : Request) (s : Service)
    → (dispatch_request now r s).active_count ≡ s.active_count + 1
unfolding dispatch_request await mark update
active_count-dispatch_request now r s = refl

submit_request_disabled :
    (now : ℕ) (r : Request) (s : Service)
    → s.collector.config.enabled ≡ false
    → submit_request now r s ≡ dispatch_request now r s
unfolding submit_request run_delivery dispatch_each
submit_request_disabled now r s off = rw (submit_disabled (batchable r) s.collector off)

slot-lt :
    (s : Service) (most : ℕ)
    → s.max_concurrent ≡ some most
    → has_slot s ≡ true
    → s.active_count < most
unfolding has_slot
slot-lt s most limit h = ground arith

try_dispatch_loop_within :
    (fuel now most : ℕ) (s : Service)
    → s.collector.config.enabled ≡ false
    → s.max_concurrent ≡ some most
    → s.active_count ≤ most
    → (try_dispatch_loop fuel now s).active_count ≤ most
unfolding try_dispatch_loop
try_dispatch_loop_within zero now most s off limit h = h
try_dispatch_loop_within (suc fuel) now most s off limit h =
    elim (Bool-cases (has_slot s && ltb 0 s.queues.total_queued)) [
      | inr ends ↦ rw (ends, try_dispatch_loop) h
      | inl continues ↦ elim (Option-cases (dequeue_next s.queues)) [
        | inl fails ↦ rw (continues, try_dispatch_loop) (rw (fails, try_dispatch_loop) h)
        | inr ((r, q), next) ↦
            let t : Service = record s { queues = q } in
            let frame = submit_request-IsFramed now r t in
            rw (continues, try_dispatch_loop)
              (rw (next, try_dispatch_loop)
                (try_dispatch_loop_within fuel now most (submit_request now r t)
                  (ap (λ (c : BatchConfig). c.enabled) frame.config ∙ off) (frame.limit ∙ limit)
                  (rw (submit_request_disabled now r t off) (
                    omega (
                      arith,
                      active_count-dispatch_request now r t,
                      slot-lt s most limit (ground arith),
                    )))))
      ]
    ]

-- With batching off, `tryDispatch` keeps the number of active requests within `maxConcurrent`, if it
-- was within it before.
pub try_dispatch_within :
    (now most : ℕ) (s : Service)
    → s.collector.config.enabled ≡ false
    → s.max_concurrent ≡ some most
    → s.active_count ≤ most
    → (try_dispatch now s).active_count ≤ most
unfolding try_dispatch
try_dispatch_within now most s off limit h =
    try_dispatch_loop_within s.queues.total_queued now most s off limit h
