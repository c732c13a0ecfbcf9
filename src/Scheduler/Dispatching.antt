-- ===== src/Scheduler/Dispatching.antt =====
-- How requests get from the queues to the workers, in
-- inference-api/src/scheduler/scheduler.service.ts: `tryDispatch`, `dispatchRequest` and
-- `dispatchBatch` up to their first `await`, and `finishRequest`. Time is an argument, `now`.
use inference_stack.Prelude.{
  ℕ, zero, suc, ◌+◌, ◌-◌, Bool, true, false, ◌&&◌, Option, none, some, List, [], ◌∷◌, map, ltb,
  ℕ_eq,
}
use inference_stack.Map.{get, set, delete}
use inference_stack.Batching.{BatchableRequest, Delivery, individually, together, submit}
use inference_stack.Scheduler.Requests.{routing, Request}
use inference_stack.Scheduler.Results.{Progress}
use inference_stack.Scheduler.Queues.{dequeue_next}
use inference_stack.Scheduler.State.{Dispatch, one_request, several, Service, update}

-- The start of `dispatchRequest`, and of one round of the first loop of `dispatchBatch`.
unfoldable pub mark : ℕ → Request → Service → Service
mark now r s =
    let marked =
      update r.id (λ p. record p { state = routing; dispatch_start_time = some now }) s in
    record marked {
      active_count = s.active_count + 1;
      active_requests = set r.id r s.active_requests;
    }

-- `await this.router.route(…)`
unfoldable pub await : Dispatch → Service → Service
await d s = record s { awaiting = set s.next_ticket d s.awaiting; next_ticket = s.next_ticket + 1 }

unfoldable pub dispatch_request : ℕ → Request → Service → Service
dispatch_request now r s = await (one_request r) (mark now r s)

unfoldable pub mark_all : ℕ → List Request → Service → Service
mark_all now [] s = s
mark_all now (r ∷ rs) s = mark_all now rs (mark now r s)

unfoldable pub dispatch_batch : ℕ → List Request → Service → Service
dispatch_batch now rs s = await (several rs now) (mark_all now rs s)

-- The callback that the constructor gives to the collector.
unfoldable pub batch_dispatch : ℕ → List Request → Service → Service
batch_dispatch now [] s = s
batch_dispatch now (r ∷ []) s = dispatch_request now r s
batch_dispatch now (r ∷ r' ∷ rs) s = dispatch_batch now (r ∷ r' ∷ rs) s

-- `for (const req of requests) req.dispatch()`
unfoldable pub dispatch_each : ℕ → List (BatchableRequest Request) → Service → Service
dispatch_each now [] s = s
dispatch_each now (b ∷ bs) s = dispatch_each now bs (dispatch_request now b.context s)

abbrev pub contexts : List (BatchableRequest Request) → List Request
contexts = map (λ b. b.context)

unfoldable pub run_delivery : ℕ → Option (Delivery Request) → Service → Service
run_delivery now none s = s
run_delivery now (some (individually bs)) s = dispatch_each now bs s
run_delivery now (some (together bs)) s = batch_dispatch now (contexts bs) s

abbrev pub batchable : Request → BatchableRequest Request
batchable r = record {
  id = r.id;
  model_id = r.dto.model;
  estimated_tokens = r.estimated_tokens;
  context = r;
}

unfoldable pub submit_request : ℕ → Request → Service → Service
submit_request now r s =
    let result = submit (batchable r) s.collector in
    run_delivery now result.1 (record s { collector = result.0 })

-- `this.activeCount < this.maxConcurrent`
unfoldable pub has_slot : Service → Bool
has_slot s = elim s.max_concurrent [ none ↦ true | some most ↦ ltb s.active_count most ]

-- The loop of `tryDispatch`. Each round takes a request out of the queues, so that the number of
-- queued requests is fuel enough.
unfoldable pub try_dispatch_loop : ℕ → ℕ → Service → Service
try_dispatch_loop zero now s = s
try_dispatch_loop (suc fuel) now s = elim (has_slot s && ltb 0 s.queues.total_queued) [
  | false ↦ s
  | true ↦ elim (dequeue_next s.queues) [
    | none ↦ s
    | some (r, q) ↦ try_dispatch_loop fuel now (submit_request now r (record s { queues = q }))
  ]
]

unfoldable pub try_dispatch : ℕ → Service → Service
try_dispatch now s = try_dispatch_loop s.queues.total_queued now s

abbrev pub clear_timer : Progress → Progress
clear_timer p = record p { timeout_timer = none }

-- The slot of an active request is given back.
unfoldable pub release : ℕ → Service → Service
release id s =
    let cleared = update id clear_timer s in
    record cleared {
      active_requests = delete id s.active_requests;
      active_count = s.active_count - 1;
    }

unfoldable pub finish_request : ℕ → ℕ → Service → Service
finish_request now id s = elim (get id s.active_requests) [
  | none ↦ s
  | some r ↦ try_dispatch now (release id s)
]
