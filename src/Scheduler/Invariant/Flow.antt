-- ===== src/Scheduler/Invariant/Flow.antt =====
-- How requests flow from the queues through the collector to the workers.
use inference_stack.Prelude.{
  ℕ, ◌+◌, ◌≡◌, refl, Option, none, some, List, [], ◌∷◌, arith, All, length, sum_of, ℕ_eq,
}
use inference_stack.Map.{Map, get, set, All-set}
use inference_stack.Map.Sums.{sum_of-set}
use inference_stack.Batching.{BatchableRequest, Delivery, individually, together}
use inference_stack.Batching.Conservation.{handed_on}
use inference_stack.Scheduler.Requests.{Request}
use inference_stack.Scheduler.Queues.Cancel.{is_id}
use inference_stack.Scheduler.State.{Dispatch, one_request, several, Service, update}
use inference_stack.Scheduler.Dispatching.{
  mark, await, dispatch_request, mark_all, dispatch_batch, batch_dispatch, dispatch_each, contexts,
  run_delivery,
}
use inference_stack.Scheduler.Events.{requests_of}
use inference_stack.Scheduler.Invariant.{
  IsKeyed, of_context, has_key, HasBegun, RouteBegan, IsSoundWith, Grows, routes-grow, streams-grow,
  HasBegun-Grows,
}

-- An id of weight zero has no entry.
pub get_of_absent : (id : ℕ) (m : Map ℕ Request) → sum_of (has_key id) m ≡ 0 → get id m ≡ none
unfolding get
get_of_absent id [] e = refl
get_of_absent id ((j, r) ∷ m) e = ground (arith, get_of_absent id m)

length-set_absent :
    (id : ℕ) (r : Request) (m : Map ℕ Request)
    → get id m ≡ none
    → length (set id r m) ≡ length m + 1
unfolding get set
length-set_absent id r [] e = omega arith
length-set_absent id r ((j, x) ∷ m) e = ground (arith, length-set_absent id r m)

mark-Grows : (now : ℕ) (r : Request) (s : Service) → Grows s (mark now r s)
unfolding mark update
mark-Grows now r s i = ground arith

-- A request in flight becomes active.
mark-IsSoundWith :
    (born flight debt : ℕ → ℕ) (now : ℕ) (r : Request) (s : Service)
    → IsSoundWith born (λ i. is_id i r + flight i) debt s
    → IsSoundWith born flight debt (mark now r s)
unfolding mark update
mark-IsSoundWith born flight debt now r s v = record {
  queues = v.queues;
  depth = v.depth;
  budget = v.budget;
  counted = omega (arith, v.counted, length-set_absent r.id r s.active_requests absent);
  exact = λ i. ground (arith, v.exact i, added i);
  issued_once = v.issued_once;
  kept = λ i. ground (arith, v.kept i, added i);
  ran = λ i. ground (arith, v.ran i, added i, v.exact i, v.issued_once i);
  keyed = All-set IsKeyed r.id r s.active_requests v.keyed refl;
  timed = λ i. ground (arith, v.timed i);
  routes = routes-grow s (mark now r s) s.awaiting (mark-Grows now r s) v.routes;
  streams = streams-grow s (mark now r s) s.streams (mark-Grows now r s) v.streams;
}
  where
    absent : get r.id s.active_requests ≡ none
    absent = get_of_absent r.id s.active_requests (ground (arith, v.exact r.id, v.issued_once r.id))

    added :
        (i : ℕ)
        → sum_of (has_key i) (set r.id r s.active_requests)
          ≡ sum_of (has_key i) s.active_requests + is_id i r
    added i = ground (arith, sum_of-set (has_key i) r.id r s.active_requests, absent)

-- What is in flight may be written another way.
reflow :
    (born flight other debt : ℕ → ℕ) (s : Service)
    → ((i : ℕ) → flight i ≡ other i)
    → IsSoundWith born flight debt s
    → IsSoundWith born other debt s
reflow born flight other debt s same v = record {
  queues = v.queues;
  depth = v.depth;
  budget = v.budget;
  counted = v.counted;
  exact = λ i. omega (arith, v.exact i, same i);
  issued_once = v.issued_once;
  kept = v.kept;
  ran = v.ran;
  keyed = v.keyed;
  timed = v.timed;
  routes = v.routes;
  streams = v.streams;
}

await-IsSoundWith :
    (born flight debt : ℕ → ℕ) (d : Dispatch) (s : Service)
    → All (HasBegun s) (requests_of d)
    → IsSoundWith born flight debt s
    → IsSoundWith born flight debt (await d s)
unfolding await
await-IsSoundWith born flight debt d s h v = record {
  queues = v.queues;
  depth = v.depth;
  budget = v.budget;
  counted = v.counted;
  exact = v.exact;
  issued_once = v.issued_once;
  kept = v.kept;
  ran = v.ran;
  keyed = v.keyed;
  timed = v.timed;
  routes = All-set (RouteBegan s) s.next_ticket d s.awaiting v.routes h;
  streams = v.streams;
}

mark-HasBegun : (now : ℕ) (r : Request) (s : Service) → HasBegun (mark now r s) r
unfolding mark update
mark-HasBegun now r s = ground arith

dispatch_request-Grows : (now : ℕ) (r : Request) (s : Service) → Grows s (dispatch_request now r s)
unfolding dispatch_request await
dispatch_request-Grows now r s = mark-Grows now r s

dispatch_request-IsSoundWith :
    (born flight debt : ℕ → ℕ) (now : ℕ) (r : Request) (s : Service)
    → IsSoundWith born (λ i. is_id i r + flight i) debt s
    → IsSoundWith born flight debt (dispatch_request now r s)
unfolding dispatch_request
dispatch_request-IsSoundWith born flight debt now r s v =
    await-IsSoundWith born flight debt (one_request r) (mark now r s) (mark-HasBegun now r s, tt)
      (mark-IsSoundWith born flight debt now r s v)

mark_all-Grows : (now : ℕ) (rs : List Request) (s : Service) → Grows s (mark_all now rs s)
unfolding mark_all
mark_all-Grows now [] s i = omega arith
mark_all-Grows now (r ∷ rs) s i =
    omega (arith, mark-Grows now r s i, mark_all-Grows now rs (mark now r s) i)

mark_all-HasBegun :
    (now : ℕ) (rs : List Request) (s : Service) → All (HasBegun (mark_all now rs s)) rs
unfolding mark_all
mark_all-HasBegun now [] s = tt
mark_all-HasBegun now (r ∷ rs) s = (
  HasBegun-Grows (mark now r s) (mark_all now rs (mark now r s))
      (mark_all-Grows now rs (mark now r s)) r (mark-HasBegun now r s),
  mark_all-HasBegun now rs (mark now r s),
)

mark_all-IsSoundWith :
    (born flight debt : ℕ → ℕ) (now : ℕ) (rs : List Request) (s : Service)
    → IsSoundWith born (λ i. sum_of (is_id i) rs + flight i) debt s
    → IsSoundWith born flight debt (mark_all now rs s)
unfolding mark_all
mark_all-IsSoundWith born flight debt now [] s v = reflow born _ flight debt s (λ i. omega arith) v
mark_all-IsSoundWith born flight debt now (r ∷ rs) s v =
    mark_all-IsSoundWith born flight debt now rs (mark now r s) (
      mark-IsSoundWith born (λ i. sum_of (is_id i) rs + flight i) debt now r s
        (reflow born _ _ debt s (λ i. omega arith) v))

batch_dispatch-IsSoundWith :
    (born flight debt : ℕ → ℕ) (now : ℕ) (rs : List Request) (s : Service)
    → IsSoundWith born (λ i. sum_of (is_id i) rs + flight i) debt s
    → IsSoundWith born flight debt (batch_dispatch now rs s)
unfolding batch_dispatch dispatch_batch
batch_dispatch-IsSoundWith born flight debt now [] s v =
    reflow born _ flight debt s (λ i. omega arith) v
batch_dispatch-IsSoundWith born flight debt now (r ∷ []) s v =
    dispatch_request-IsSoundWith born flight debt now r s
      (reflow born _ _ debt s (λ i. omega arith) v)
batch_dispatch-IsSoundWith born flight debt now (r ∷ r' ∷ rs) s v =
    await-IsSoundWith born flight debt (several (r ∷ r' ∷ rs) now) _
      (mark_all-HasBegun now (r ∷ r' ∷ rs) s)
      (mark_all-IsSoundWith born flight debt now (r ∷ r' ∷ rs) s v)

batch_dispatch-Grows :
    (now : ℕ) (rs : List Request) (s : Service) → Grows s (batch_dispatch now rs s)
unfolding batch_dispatch dispatch_batch await
batch_dispatch-Grows now [] s i = omega arith
batch_dispatch-Grows now (r ∷ []) s i = dispatch_request-Grows now r s i
batch_dispatch-Grows now (r ∷ r' ∷ rs) s i = mark_all-Grows now (r ∷ r' ∷ rs) s i

dispatch_each-IsSoundWith :
    (born flight debt : ℕ → ℕ) (now : ℕ) (bs : List (BatchableRequest Request)) (s : Service)
    → IsSoundWith born (λ i. sum_of (of_context i) bs + flight i) debt s
    → IsSoundWith born flight debt (dispatch_each now bs s)
unfolding dispatch_each
dispatch_each-IsSoundWith born flight debt now [] s v =
    reflow born _ flight debt s (λ i. omega arith) v
dispatch_each-IsSoundWith born flight debt now (b ∷ bs) s v =
    dispatch_each-IsSoundWith born flight debt now bs (dispatch_request now b.context s) (
      dispatch_request-IsSoundWith born (λ i. sum_of (of_context i) bs + flight i) debt now
        b.context s (reflow born _ _ debt s (λ i. omega arith) v))

dispatch_each-Grows :
    (now : ℕ) (bs : List (BatchableRequest Request)) (s : Service)
    → Grows s (dispatch_each now bs s)
unfolding dispatch_each
dispatch_each-Grows now [] s i = omega arith
dispatch_each-Grows now (b ∷ bs) s i = omega (
  arith,
  dispatch_request-Grows now b.context s i,
  dispatch_each-Grows now bs (dispatch_request now b.context s) i,
)

sum_of-contexts :
    (i : ℕ) (bs : List (BatchableRequest Request))
    → sum_of (is_id i) (contexts bs) ≡ sum_of (of_context i) bs
sum_of-contexts i [] = refl
sum_of-contexts i (b ∷ bs) = omega (arith, sum_of-contexts i bs)

pub run_delivery-IsSoundWith :
    (born flight debt : ℕ → ℕ) (now : ℕ) (d : Option (Delivery Request)) (s : Service)
    → IsSoundWith born (λ i. handed_on (of_context i) d + flight i) debt s
    → IsSoundWith born flight debt (run_delivery now d s)
unfolding run_delivery
run_delivery-IsSoundWith born flight debt now none s v =
    reflow born _ flight debt s (λ i. omega arith) v
run_delivery-IsSoundWith born flight debt now (some (individually bs)) s v =
    dispatch_each-IsSoundWith born flight debt now bs s v
run_delivery-IsSoundWith born flight debt now (some (together bs)) s v =
    batch_dispatch-IsSoundWith born flight debt now (contexts bs) s
      (reflow born _ _ debt s (λ i. omega (arith, sum_of-contexts i bs)) v)

pub run_delivery-Grows :
    (now : ℕ) (d : Option (Delivery Request)) (s : Service) → Grows s (run_delivery now d s)
unfolding run_delivery
run_delivery-Grows now none s i = omega arith
run_delivery-Grows now (some (individually bs)) s i = dispatch_each-Grows now bs s i
run_delivery-Grows now (some (together bs)) s i = batch_dispatch-Grows now (contexts bs) s i
