-- ===== src/Scheduler/Dispatches.antt =====
-- What `tryDispatch` achieves.
use inference_stack.Prelude.{
  ℕ, zero, suc, ◌+◌, ◌≡◌, refl, ◌∙◌, false, ◌&&◌, Option, none, some, List, [], ◌∷◌, arith, ltb,
  Option-cases, Bool-cases, inl, inr, ◌⊎◌,
}
use inference_stack.Batching.{
  BatchableRequest, BatchCollector, Delivery, individually, together, submit,
}
use inference_stack.Batching.Buckets.{config-submit}
use inference_stack.Scheduler.Requests.{Request}
use inference_stack.Scheduler.Queues.{Queues, dequeue_next}
use inference_stack.Scheduler.Queues.Dequeue.{IsDequeued}
use inference_stack.Scheduler.State.{Dispatch, Service, update}
use inference_stack.Scheduler.Dispatching.{
  mark, await, dispatch_request, mark_all, dispatch_batch, batch_dispatch, dispatch_each, contexts,
  run_delivery, batchable, submit_request, has_slot, try_dispatch_loop, try_dispatch,
}

-- The parts of the service that a dispatch leaves alone.
pub record IsFramed (s t : Service) : Type 0 where
  pub queues : t.queues ≡ s.queues
  pub streams : t.streams ≡ s.streams
  pub limit : t.max_concurrent ≡ s.max_concurrent
  pub config : t.collector.config ≡ s.collector.config
  pub outcomes : (i : ℕ) → (t.progress i).outcome ≡ (s.progress i).outcome

IsFramed-refl : (s : Service) → IsFramed s s
IsFramed-refl s = record {
  queues = refl;
  streams = refl;
  limit = refl;
  config = refl;
  outcomes = λ i. refl;
}

IsFramed-trans : (s t u : Service) → IsFramed s t → IsFramed t u → IsFramed s u
IsFramed-trans s t u a b = record {
  queues = cc (a.queues, b.queues);
  streams = cc (a.streams, b.streams);
  limit = cc (a.limit, b.limit);
  config = cc (a.config, b.config);
  outcomes = λ i. cc (a.outcomes i, b.outcomes i);
}

mark-IsFramed : (now : ℕ) (r : Request) (s : Service) → IsFramed s (mark now r s)
unfolding mark update
mark-IsFramed now r s = record {
  queues = refl;
  streams = refl;
  limit = refl;
  config = refl;
  outcomes = λ i. ground arith;
}

await-IsFramed : (d : Dispatch) (s : Service) → IsFramed s (await d s)
unfolding await
await-IsFramed d s = record {
  queues = refl;
  streams = refl;
  limit = refl;
  config = refl;
  outcomes = λ i. refl;
}

dispatch_request-IsFramed :
    (now : ℕ) (r : Request) (s : Service) → IsFramed s (dispatch_request now r s)
unfolding dispatch_request
dispatch_request-IsFramed now r s =
    IsFramed-trans s (mark now r s) _ (mark-IsFramed now r s) (await-IsFramed _ (mark now r s))

mark_all-IsFramed : (now : ℕ) (rs : List Request) (s : Service) → IsFramed s (mark_all now rs s)
unfolding mark_all
mark_all-IsFramed now [] s = IsFramed-refl s
mark_all-IsFramed now (r ∷ rs) s =
    IsFramed-trans s (mark now r s) _ (mark-IsFramed now r s)
      (mark_all-IsFramed now rs (mark now r s))

batch_dispatch-IsFramed :
    (now : ℕ) (rs : List Request) (s : Service) → IsFramed s (batch_dispatch now rs s)
unfolding batch_dispatch dispatch_batch
batch_dispatch-IsFramed now [] s = IsFramed-refl s
batch_dispatch-IsFramed now (r ∷ []) s = dispatch_request-IsFramed now r s
batch_dispatch-IsFramed now (r ∷ r' ∷ rs) s =
    IsFramed-trans s (mark_all now (r ∷ r' ∷ rs) s) _ (mark_all-IsFramed now (r ∷ r' ∷ rs) s)
      (await-IsFramed _ (mark_all now (r ∷ r' ∷ rs) s))

dispatch_each-IsFramed :
    (now : ℕ) (bs : List (BatchableRequest Request)) (s : Service)
    → IsFramed s (dispatch_each now bs s)
unfolding dispatch_each
dispatch_each-IsFramed now [] s = IsFramed-refl s
dispatch_each-IsFramed now (b ∷ bs) s =
    IsFramed-trans s (dispatch_request now b.context s) _
      (dispatch_request-IsFramed now b.context s)
      (dispatch_each-IsFramed now bs (dispatch_request now b.context s))

run_delivery-IsFramed :
    (now : ℕ) (d : Option (Delivery Request)) (s : Service) → IsFramed s (run_delivery now d s)
unfolding run_delivery
run_delivery-IsFramed now none s = IsFramed-refl s
run_delivery-IsFramed now (some (individually bs)) s = dispatch_each-IsFramed now bs s
run_delivery-IsFramed now (some (together bs)) s = batch_dispatch-IsFramed now (contexts bs) s

-- A submission leaves alone all that a dispatch does, and the queues.
pub submit_request-IsFramed :
    (now : ℕ) (r : Request) (s : Service) → IsFramed s (submit_request now r s)
unfolding submit_request
submit_request-IsFramed now r s =
    IsFramed-trans s (record s { collector = c }) _
      (record {
        queues = refl;
        streams = refl;
        limit = refl;
        config = config-submit (batchable r) s.collector;
        outcomes = λ i. refl;
      })
      (run_delivery-IsFramed now (submit (batchable r) s.collector).1 (record s { collector = c }))
  where
    c : BatchCollector Request
    c = (submit (batchable r) s.collector).0

-- One round of `tryDispatch`: the request that is taken, and what is left to do.
record IsRound (s : Service) (r : Request) (q : Queues) : Type 0 where
  dequeued : IsDequeued s.queues r q
  fewer : q.total_queued + 1 ≡ s.queues.total_queued

-- `tryDispatch` has no more to do: no slot is free, or nothing is queued.
abbrev pub IsIdle : Service → Type 0
IsIdle s = (has_slot s ≡ false) ⊎ (s.queues.total_queued ≡ 0)

try_dispatch_loop-IsFramed :
    (fuel now : ℕ) (s : Service)
    → ((try_dispatch_loop fuel now s).streams ≡ s.streams)
      × ((i : ℕ) → ((try_dispatch_loop fuel now s).progress i).outcome ≡ (s.progress i).outcome)
unfolding try_dispatch_loop
try_dispatch_loop-IsFramed zero now s = (refl, λ i. refl)
try_dispatch_loop-IsFramed (suc fuel) now s =
    elim (Bool-cases (has_slot s && ltb 0 s.queues.total_queued)) [
      | inr ends ↦ rw (ends, try_dispatch_loop) (refl, λ i. refl)
      | inl continues ↦ elim (Option-cases (dequeue_next s.queues)) [
        | inl fails ↦
            rw (continues, try_dispatch_loop) (rw (fails, try_dispatch_loop) (refl, λ i. refl))
        | inr ((r, q), next) ↦
            let frame = submit_request-IsFramed now r (record s { queues = q }) in
            let (streams, outcomes) =
              try_dispatch_loop-IsFramed fuel now
                (submit_request now r (record s { queues = q })) in
            rw (continues, try_dispatch_loop)
              (rw (next, try_dispatch_loop)
                (streams ∙ frame.streams, λ i. outcomes i ∙ frame.outcomes i))
      ]
    ]

-- `tryDispatch` settles no promise and touches no stream.
pub try_dispatch-frame :
    (now : ℕ) (s : Service)
    → ((try_dispatch now s).streams ≡ s.streams)
      × ((i : ℕ) → ((try_dispatch now s).progress i).outcome ≡ (s.progress i).outcome)
unfolding try_dispatch
try_dispatch-frame now s = try_dispatch_loop-IsFramed s.queues.total_queued now s
