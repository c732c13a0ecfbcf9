-- ===== src/Scheduler/Invariant/Rounds.antt =====
-- Rounds of `tryDispatch`, and what a submission to the collector hands on.
use inference_stack.Prelude.{
  ℕ, zero, suc, ◌+◌, ◌≤◌, ◌≡◌, ◌&&◌, arith, ℕ_eq, Option-cases, Bool-cases, inl, inr, ltb,
}
use inference_stack.Batching.{BatchCollector, submit}
use inference_stack.Batching.Conservation.{pending, submit-pending}
use inference_stack.Scheduler.Requests.{Request}
use inference_stack.Scheduler.Queues.{Queues, dequeue_next}
use inference_stack.Scheduler.Queues.Counters.{IsValid, waiting, one, tokens}
use inference_stack.Scheduler.Queues.Dequeue.{dequeue_next-IsDequeued}
use inference_stack.Scheduler.Queues.Cancel.{is_id}
use inference_stack.Scheduler.State.{Service}
use inference_stack.Scheduler.Dispatching.{
  batchable, submit_request, has_slot, try_dispatch_loop, try_dispatch,
}
use inference_stack.Scheduler.Invariant.{
  queued_at, pending_at, of_context, IsSoundWith, nothing, Grows,
}
use inference_stack.Scheduler.Invariant.Flow.{run_delivery-IsSoundWith, run_delivery-Grows}

-- The collector's part of the state alone changes.
pub recollect :
    (born flight other debt : ℕ → ℕ) (c : BatchCollector Request) (s : Service)
    → ((i : ℕ) → pending (of_context i) c + other i ≡ pending_at i s + flight i)
    → IsSoundWith born flight debt s
    → IsSoundWith born other debt (record s { collector = c })
recollect born flight other debt c s same v = record {
  queues = v.queues;
  depth = v.depth;
  budget = v.budget;
  counted = v.counted;
  exact = λ i. omega (arith, v.exact i, same i);
  issued_once = v.issued_once;
  kept = v.kept;
  ran = v.ran;
  keyed = v.keyed;
  timed = v.timed;
  routes = v.routes;
  streams = v.streams;
}

submit_request-IsSoundWith :
    (born flight debt : ℕ → ℕ) (now : ℕ) (r : Request) (s : Service)
    → IsSoundWith born (λ i. is_id i r + flight i) debt s
    → IsSoundWith born flight debt (submit_request now r s)
unfolding submit_request
submit_request-IsSoundWith born flight debt now r s v =
    run_delivery-IsSoundWith born flight debt now (submit (batchable r) s.collector).1 _ (
      recollect born _ _ debt (submit (batchable r) s.collector).0 s
        (λ i. omega (arith, submit-pending (of_context i) (batchable r) s.collector)) v)

submit_request-Grows : (now : ℕ) (r : Request) (s : Service) → Grows s (submit_request now r s)
unfolding submit_request
submit_request-Grows now r s =
    run_delivery-Grows now (submit (batchable r) s.collector).1
      (record s { collector = (submit (batchable r) s.collector).0 })

-- The queues alone change.
pub requeue :
    (born flight other debt : ℕ → ℕ) (q : Queues) (s : Service)
    → IsValid q
    → waiting one q ≤ waiting one s.queues
    → waiting tokens q ≤ waiting tokens s.queues
    → ((i : ℕ) → waiting (is_id i) q + other i ≡ queued_at i s + flight i)
    → IsSoundWith born flight debt s
    → IsSoundWith born other debt (record s { queues = q })
requeue born flight other debt q s valid fewer less same v = record {
  queues = valid;
  depth = omega (arith, v.depth, fewer);
  budget = omega (arith, v.budget, less);
  counted = v.counted;
  exact = λ i. omega (arith, v.exact i, same i);
  issued_once = v.issued_once;
  kept = v.kept;
  ran = v.ran;
  keyed = v.keyed;
  timed = v.timed;
  routes = v.routes;
  streams = v.streams;
}

try_dispatch_loop-IsSoundWith :
    (born debt : ℕ → ℕ) (fuel now : ℕ) (s : Service)
    → IsSoundWith born nothing debt s
    → IsSoundWith born nothing debt (try_dispatch_loop fuel now s)
unfolding try_dispatch_loop
try_dispatch_loop-IsSoundWith born debt zero now s v = v
try_dispatch_loop-IsSoundWith born debt (suc fuel) now s v =
    elim (Bool-cases (has_slot s && ltb 0 s.queues.total_queued)) [
      | inl more ↦ elim (Option-cases (dequeue_next s.queues)) [
        | inl fails ↦ rw (more, try_dispatch_loop) (rw (fails, try_dispatch_loop) v)
        | inr ((r, q), next) ↦
            let d = dequeue_next-IsDequeued s.queues r q v.queues next in
            rw (more, try_dispatch_loop)
              (rw (next, try_dispatch_loop)
                (try_dispatch_loop-IsSoundWith born debt fuel now _ (
                  submit_request-IsSoundWith born nothing debt now r _ (
                    requeue born nothing (λ i. is_id i r + nothing i) debt q s d.valid
                      (omega (arith, d.conserved one)) (omega (arith, d.conserved tokens))
                      (λ i. omega (arith, d.conserved (is_id i))) v))))
      ]
      | inr ends ↦ rw (ends, try_dispatch_loop) v
    ]

-- `tryDispatch` keeps the invariant.
pub try_dispatch-IsSoundWith :
    (born debt : ℕ → ℕ) (now : ℕ) (s : Service)
    → IsSoundWith born nothing debt s
    → IsSoundWith born nothing debt (try_dispatch now s)
unfolding try_dispatch
try_dispatch-IsSoundWith born debt now s v =
    try_dispatch_loop-IsSoundWith born debt s.queues.total_queued now s v

try_dispatch_loop-Grows : (fuel now : ℕ) (s : Service) → Grows s (try_dispatch_loop fuel now s)
unfolding try_dispatch_loop
try_dispatch_loop-Grows zero now s i = omega arith
try_dispatch_loop-Grows (suc fuel) now s i =
    elim (Bool-cases (has_slot s && ltb 0 s.queues.total_queued)) [
      | inl more ↦ elim (Option-cases (dequeue_next s.queues)) [
        | inl fails ↦ rw (more, try_dispatch_loop) (rw (fails, try_dispatch_loop) (omega arith))
        | inr ((r, q), next) ↦
            rw (more, try_dispatch_loop)
              (rw (next, try_dispatch_loop)
                (omega (
                  arith,
                  submit_request-Grows now r (record s { queues = q }) i,
                  try_dispatch_loop-Grows fuel now (submit_request now r (record s { queues = q }))
                      i,
                )))
      ]
      | inr ends ↦ rw (ends, try_dispatch_loop) (omega arith)
    ]

pub try_dispatch-Grows : (now : ℕ) (s : Service) → Grows s (try_dispatch now s)
unfolding try_dispatch
try_dispatch-Grows now s = try_dispatch_loop-Grows s.queues.total_queued now s
