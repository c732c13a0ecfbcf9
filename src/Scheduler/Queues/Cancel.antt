-- ===== src/Scheduler/Queues/Cancel.antt =====
-- `cancel` on a queued request, and the ids that are queued.
use inference_stack.Prelude.{
  ℕ, ◌+◌, String, ◌≡◌, refl, none, some, List, [], ◌∷◌, map, arith, length, length-append,
  length-map, ℕ_eq, string_eq, ◌==◌, if◌then◌else◌, Option-cases, Bool-cases, inl, inr, sum_of,
}
use inference_stack.Map.{Map, get, IsDistinct}
use inference_stack.Scheduler.Requests.{Request}
use inference_stack.Scheduler.Queues.{
  Queues, splice, find_queued, cancel_queued, withdraw, queued_ids, get_queued_request_ids,
}
use inference_stack.Scheduler.Queues.Counters.{IsValid, waiting, one}
use inference_stack.Scheduler.Queues.Withdrawal.{IsTaken, waiting-withdraw, withdraw-IsValid}

-- How often an id occurs.
abbrev pub is_id : ℕ → Request → ℕ
is_id id r = if r.id == id then 1 else 0

splice_sound :
    (id : ℕ) (queue : List Request) (r : Request) (rest : List Request)
    → splice id queue ≡ some (r, rest)
    → (r.id ≡ id) × ((w : Request → ℕ) → sum_of w queue ≡ w r + sum_of w rest)
unfolding splice
splice_sound id [] r rest e = cc
splice_sound id (x ∷ xs) r rest e = elim (Bool-cases (x.id == id)) [
  | inl here ↦ (ground arith, λ w. ground arith)
  | inr later ↦ elim (Option-cases (splice id xs)) [
    | inl fails ↦ absurd (ground arith)
    | inr ((r', rest'), found) ↦
        let (same, sums) = splice_sound id xs r' rest' found in
        (ground arith, λ w. ground (arith, sums w))
  ]
]

splice-none : (id : ℕ) (queue : List Request) → splice id queue ≡ none → sum_of (is_id id) queue ≡ 0
unfolding splice
splice-none id [] e = refl
splice-none id (x ∷ xs) e = ground (arith, splice-none id xs)

find_queued_sound :
    (id : ℕ) (m : Map String (List Request)) (user : String) (r : Request) (rest : List Request)
    → IsDistinct m
    → find_queued id m ≡ some (user, r, rest)
    → (queue : List Request) × (get user m ≡ some queue) × (splice id queue ≡ some (r, rest))
unfolding find_queued get
find_queued_sound id [] user r rest d e = cc
find_queued_sound id ((u, queue) ∷ m) user r rest d e = elim (Option-cases (splice id queue)) [
  | inl fails ↦
      let (other, found, spliced) = find_queued_sound id m user r rest d.1 (ground arith) in
      (other, ground (arith, string_eq.beq_iff u user), spliced)
  | inr ((r', rest'), here) ↦ (queue, ground (arith, string_eq.beq_iff u user), ground arith)
]

find_queued-none :
    (id : ℕ) (m : Map String (List Request))
    → find_queued id m ≡ none
    → sum_of (λ e. sum_of (is_id id) e.1) m ≡ 0
unfolding find_queued
find_queued-none id [] e = refl
find_queued-none id ((u, queue) ∷ m) e = ground (arith, splice-none id queue, find_queued-none id m)

-- A request that is cancelled while it is queued has the id, it is the only thing that leaves the
-- queues, and they stay valid.
pub record IsCancelled (id : ℕ) (q : Queues) (r : Request) (q' : Queues) : Type 0 where
  pub same_id : r.id ≡ id
  pub valid : IsValid q'
  pub conserved : (w : Request → ℕ) → waiting w q' + w r ≡ waiting w q

-- On valid queues a request that `cancel` finds in them has the id, is the only thing that leaves
-- them, and they stay valid.
pub cancel_queued-IsCancelled :
    (id : ℕ) (q : Queues) (r : Request) (q' : Queues)
    → IsValid q
    → cancel_queued id q ≡ some (r, q')
    → IsCancelled id q r q'
unfolding cancel_queued
cancel_queued-IsCancelled id q r q' v e = elim (Option-cases (find_queued id q.user_queues)) [
  | inl missing ↦ absurd (ground arith)
  | inr ((user, r', rest), found) ↦
      let same_request : r' ≡ r = ground arith in
      let same_queues : withdraw user r' rest q ≡ q' = ground arith in
      let (queue, at, spliced) = find_queued_sound id q.user_queues user r' rest v.distinct found in
      let (same, sums) = splice_sound id queue r' rest spliced in
      let taken : IsTaken user r' rest q = record { queue = queue; found = at; others = sums } in
      rw (← same_request, ← same_queues)
        (record {
          same_id = same;
          valid = withdraw-IsValid user r' rest q taken v;
          conserved = λ w. waiting-withdraw w user r' rest q taken;
        })
]

-- `cancel` finds nothing in the queues exactly when no queued request has the id.
pub cancel_queued-none :
    (id : ℕ) (q : Queues) → cancel_queued id q ≡ none → waiting (is_id id) q ≡ 0
unfolding cancel_queued
cancel_queued-none id q e = elim (Option-cases (find_queued id q.user_queues)) [
  | inl missing ↦ find_queued-none id q.user_queues missing
  | inr ((user, r, rest), found) ↦ absurd (ground arith)
]

sum_of-one : (xs : List Request) → sum_of one xs ≡ length xs
sum_of-one [] = refl
sum_of-one (x ∷ xs) = omega (arith, sum_of-one xs)

length-queued_ids :
    (m : Map String (List Request)) → length (queued_ids m) ≡ sum_of (λ e. sum_of one e.1) m
unfolding queued_ids
length-queued_ids [] = refl
length-queued_ids ((user, queue) ∷ m) = omega (
  arith,
  length-append (map (λ (r : Request). r.id) queue) (queued_ids m),
  length-map queue (λ (r : Request). r.id),
  sum_of-one queue,
  length-queued_ids m,
)

-- On valid queues the queue depth is the number of ids that `getQueuedRequestIds` lists.
pub length-get_queued_request_ids :
    (q : Queues) → IsValid q → length (get_queued_request_ids q) ≡ q.total_queued
unfolding get_queued_request_ids
length-get_queued_request_ids q v = omega (arith, length-queued_ids q.user_queues, v.counted)
