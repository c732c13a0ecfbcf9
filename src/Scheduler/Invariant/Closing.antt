-- ===== src/Scheduler/Invariant/Closing.antt =====
-- Writes to a request's fields, and how a request ends: its slot is given back, the next requests
-- are dispatched, and its promise is settled.
use inference_stack.Prelude.{
  ℕ, ◌+◌, ◌≤◌, ◌≡◌, refl, Option, none, some, [], ◌∷◌, arith, length, sum_of, ◌==◌, ℕ_eq,
  if◌then◌else◌, Option-cases, inl, inr, ℕ_discrete,
}
use inference_stack.Map.{Map, get, delete, All-delete}
use inference_stack.Map.Sums.{sum_of-delete}
use inference_stack.Scheduler.Requests.{RequestState, Request}
use inference_stack.Scheduler.Results.{Outcome, Progress}
use inference_stack.Scheduler.State.{Service, update, set_state, settle}
use inference_stack.Scheduler.Dispatching.{release, finish_request, try_dispatch}
use inference_stack.Scheduler.Events.{conclude, fail_in_place}
use inference_stack.Scheduler.Invariant.{
  IsKeyed, has_begun, is_some, has_key, begun_at, IsSoundWith, IsSound, nothing, Grows, routes-grow,
  streams-grow, begun-le-one,
}
use inference_stack.Scheduler.Invariant.Rounds.{try_dispatch-IsSoundWith, try_dispatch-Grows}

abbrev pub owed : ℕ → ℕ → ℕ
owed id i = if id == i then 1 else 0

length-delete_present :
    (id : ℕ) (r : Request) (m : Map ℕ Request)
    → get id m ≡ some r
    → length (delete id m) + 1 ≡ length m
unfolding get delete
length-delete_present id r [] e = cc
length-delete_present id r ((j, x) ∷ m) e = ground (arith, length-delete_present id r m)

pub absent_of_get : (id : ℕ) (m : Map ℕ Request) → get id m ≡ none → sum_of (has_key id) m ≡ 0
unfolding get
absent_of_get id [] e = refl
absent_of_get id ((j, r) ∷ m) e = ground (arith, absent_of_get id m)

release-Grows : (id : ℕ) (s : Service) → Grows s (release id s)
unfolding release update
release-Grows id s i = ground arith

-- An active request that is released is owed a settlement.
release-IsSoundWith :
    (born : ℕ → ℕ) (id : ℕ) (r : Request) (s : Service)
    → get id s.active_requests ≡ some r
    → IsSound born s
    → IsSoundWith born nothing (owed id) (release id s)
unfolding release update
release-IsSoundWith born id r s e v = record {
  queues = v.queues;
  depth = v.depth;
  budget = v.budget;
  counted = omega (arith, v.counted, length-delete_present id r s.active_requests e);
  exact = λ i. ground (arith, v.exact i, removed i);
  issued_once = v.issued_once;
  kept = λ i. ground (arith, v.kept i, removed i);
  ran = λ i. ground (arith, v.ran i, removed i);
  keyed = All-delete IsKeyed id s.active_requests v.keyed;
  timed = λ i. ground (arith, v.timed i);
  routes = routes-grow s (release id s) s.awaiting (release-Grows id s) v.routes;
  streams = streams-grow s (release id s) s.streams (release-Grows id s) v.streams;
}
  where
    removed :
        (i : ℕ)
        → sum_of (has_key i) (delete id s.active_requests) + owed id i
          ≡ sum_of (has_key i) s.active_requests
    removed i = ground (arith, sum_of-delete (has_key i) id s.active_requests, e)

settle-Grows : (id : ℕ) (o : Outcome) (s : Service) → Grows s (update id (settle o) s)
unfolding update settle
settle-Grows id o s i = ground arith

settle-IsSound :
    (born : ℕ → ℕ) (id : ℕ) (o : Outcome) (s : Service)
    → IsSoundWith born nothing (owed id) s
    → IsSound born (update id (settle o) s)
unfolding update settle
settle-IsSound born id o s v = record {
  queues = v.queues;
  depth = v.depth;
  budget = v.budget;
  counted = v.counted;
  exact = λ i. ground (arith, v.exact i, v.issued_once i);
  issued_once = v.issued_once;
  kept = λ i. ground (arith, v.kept i, begun-le-one (s.progress i));
  ran = λ i. ground (arith, v.ran i);
  keyed = v.keyed;
  timed = λ i. ground (arith, v.timed i);
  routes = routes-grow s (update id (settle o) s) s.awaiting (settle-Grows id o s) v.routes;
  streams = streams-grow s (update id (settle o) s) s.streams (settle-Grows id o s) v.streams;
}

is_some-le : {A : Type 0} (o : Option A) → is_some o ≤ 1
is_some-le none = omega arith
is_some-le (some a) = omega arith

-- A write to the fields of a request whose dispatch began, which leaves its outcome.
module _ (id : ℕ) (f : Progress → Progress) (s : Service)
    (stays : has_begun (f (s.progress id)).state ≡ 1) where
  pub update-Grows : Grows s (update id f s)
  unfolding update
  update-Grows i = elim (ℕ_discrete i id) [
    | yes same ↦ ground (arith, stays, begun-le-one (s.progress i))
    | no other ↦ ground arith
  ]

  pub update-IsSound :
      (born : ℕ → ℕ)
      → is_some (f (s.progress id)).outcome ≡ is_some (s.progress id).outcome
      → begun_at id s ≡ 1
      → IsSound born s
      → IsSound born (update id f s)
  unfolding update
  update-IsSound born same began v = record {
    queues = v.queues;
    depth = v.depth;
    budget = v.budget;
    counted = v.counted;
    exact = λ i. elim (ℕ_discrete i id) [
      | yes here ↦ ground (arith, v.exact i, same)
      | no other ↦ ground (arith, v.exact i)
    ];
    issued_once = v.issued_once;
    kept = λ i. elim (ℕ_discrete i id) [
      | yes here ↦ ground (arith, v.kept i, same, stays, began)
      | no other ↦ ground (arith, v.kept i)
    ];
    ran = λ i. elim (ℕ_discrete i id) [
      | yes here ↦ ground (arith, v.ran i, stays, began)
      | no other ↦ ground (arith, v.ran i)
    ];
    keyed = v.keyed;
    timed = λ i. elim (ℕ_discrete i id) [
      | yes here ↦ ground (arith, stays, is_some-le (f (s.progress i)).timeout_timer)
      | no other ↦ ground (arith, v.timed i)
    ];
    routes = routes-grow s (update id f s) s.awaiting update-Grows v.routes;
    streams = streams-grow s (update id f s) s.streams update-Grows v.streams;
  }

begun_at-update :
    (id : ℕ) (f : Progress → Progress) (s : Service)
    → has_begun (f (s.progress id)).state ≡ 1
    → begun_at id (update id f s) ≡ 1
unfolding update
begun_at-update id f s h = ground (arith, h)

finish_request-Grows : (now id : ℕ) (s : Service) → Grows s (finish_request now id s)
unfolding finish_request
finish_request-Grows now id s i = elim (Option-cases (get id s.active_requests)) [
  | inl over ↦ rw (over, finish_request) (omega arith)
  | inr (r, found) ↦
      rw (found, finish_request)
        (omega (arith, release-Grows id s i, try_dispatch-Grows now (release id s) i))
]

fail_in_place-Grows :
    (now : ℕ) (o : Outcome) (id : ℕ) (s : Service) → Grows s (fail_in_place now o id s)
unfolding fail_in_place
fail_in_place-Grows now o id s i =
    omega (arith, finish_request-Grows now id s i, settle-Grows id o (finish_request now id s) i)

-- Nothing happens to a request that is over; it is settled already.
settle_again :
    (born : ℕ → ℕ) (id : ℕ) (o : Outcome) (s : Service)
    → get id s.active_requests ≡ none
    → begun_at id s ≡ 1
    → IsSound born s
    → IsSound born (update id (settle o) s)
settle_again born id o s over began v =
    update-IsSound id (settle o) s (unfold settle in began) born settled began v
  where
    settled : is_some (settle o (s.progress id)).outcome ≡ is_some (s.progress id).outcome
    settled =
        unfold settle in ground (arith, v.kept id, absent_of_get id s.active_requests over, began)

-- A request that ends is settled once, whatever state it leaves behind.
pub fail_in_place-IsSound :
    (born : ℕ → ℕ) (now : ℕ) (o : Outcome) (id : ℕ) (s : Service)
    → begun_at id s ≡ 1
    → IsSound born s
    → IsSound born (fail_in_place now o id s)
unfolding fail_in_place finish_request
fail_in_place-IsSound born now o id s began v = elim (Option-cases (get id s.active_requests)) [
  | inl over ↦ rw (over, finish_request) (settle_again born id o s over began v)
  | inr (r, found) ↦
      rw (found, finish_request)
        (settle-IsSound born id o (try_dispatch now (release id s)) (
          try_dispatch-IsSoundWith born (owed id) now (release id s)
            (release-IsSoundWith born id r s found v)))
]

set_state-Grows :
    (id : ℕ) (st : RequestState) (s : Service)
    → has_begun st ≡ 1
    → Grows s (update id (set_state st) s)
set_state-Grows id st s h = update-Grows id (set_state st) s (unfold set_state in h)

pub conclude-Grows :
    (now : ℕ) (st : RequestState) (o : Outcome) (id : ℕ) (s : Service)
    → has_begun st ≡ 1
    → Grows s (conclude now st o id s)
unfolding conclude fail_in_place
conclude-Grows now st o id s h i = omega (
  arith,
  set_state-Grows id st s h i,
  fail_in_place-Grows now o id (update id (set_state st) s) i,
)

pub conclude-IsSound :
    (born : ℕ → ℕ) (now : ℕ) (st : RequestState) (o : Outcome) (id : ℕ) (s : Service)
    → has_begun st ≡ 1
    → begun_at id s ≡ 1
    → IsSound born s
    → IsSound born (conclude now st o id s)
unfolding conclude fail_in_place
conclude-IsSound born now st o id s h began v =
    fail_in_place-IsSound born now o id (update id (set_state st) s)
      (begun_at-update id (set_state st) s (unfold set_state in h))
      (update-IsSound id (set_state st) s (unfold set_state in h) born (unfold set_state in refl)
        began v)
