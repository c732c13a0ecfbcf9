-- ===== src/Scheduler/Queues/Dequeue.antt =====
-- What a call of `dequeueNext` does.
use inference_stack.Prelude.{
  ℕ, ◌+◌, ◌-◌, ◌%◌, ◌≤◌, ◌<◌, String, ◌≡◌, refl, ap, ◌∙◌, true, Option, none, some, List, [], ◌∷◌,
  arith, All, length, get_elem?-lt, string_eq, Option-cases, inl, inr, sum_of, dec_lt, subst,
}
use inference_stack.Map.{Map, get, All-keys-get}
use inference_stack.Scheduler.Requests.{Request}
use inference_stack.Scheduler.Queues.{
  Queues, or_empty, queue_of, best_priority, within, take_head, Choice, choose_at, choose_from,
  choose, withdraw, take_choice, dequeue_next,
}
use inference_stack.Scheduler.Queues.Counters.{IsValid, IsOpen, waiting, one}
use inference_stack.Scheduler.Queues.Withdrawal.{
  IsTaken, waiting-withdraw, withdraw-IsValid, advance-IsValid, waiting-advance,
}
use inference_stack.Scheduler.Queues.Selection.{
  IsHead, IsFirst, AtLeast, IsAttained, choose_from-IsFirst, choose_from-none,
  best_priority-AtLeast, best_priority-IsAttained,
}

abbrev pub best_of : Queues → Option ℕ
best_of q = best_priority q q.user_keys none

-- `c` is the head of its user's queue; every head is within half a tier of it; and it is the
-- first such head in the cyclic order of the users from the round-robin index on.
pub record IsFair (q : Queues) (c : Choice) : Type 0 where
  pub head : IsHead q (best_of q) c
  pub first : IsFirst q (best_of q) c
  pub best :
      (user : String) (r : Request) (rest : List Request)
      → queue_of user q ≡ r ∷ rest
      → c.request.effective_priority ≤ r.effective_priority + 5

AtLeast-every : (q : Queues) (user : String) → IsValid q → AtLeast (best_of q) (queue_of user q)
unfolding queue_of
AtLeast-every q user v = elim (Option-cases (get user q.user_queues)) [
  | inl missing ↦ rw (ap or_empty missing) (by_best (best_of q))
  | inr (queue, found) ↦
      All-keys-get (λ u. AtLeast (best_of q) (queue_of u q)) user queue q.user_queues
        (rw (← v.current) (best_priority-AtLeast q q.user_keys none)) found
]
  where
    by_best : (best : Option ℕ) → AtLeast best []
    by_best none = tt
    by_best (some p) = tt

within-le :
    (best : Option ℕ) (r x : Request) (rest : List Request)
    → within best r ≡ true
    → AtLeast best (x ∷ rest)
    → r.effective_priority ≤ x.effective_priority + 5
within-le none r x rest h a = absurd a
within-le (some best) r x rest h a = ground arith

choose-IsFair : (q : Queues) (c : Choice) → IsValid q → choose q ≡ some c → IsFair q c
unfolding choose
choose-IsFair q c v e =
    let (head, first) =
      choose_from-IsFirst q (best_of q) (length q.user_keys) 0 c (omega arith)
        (λ j h. absurd (omega arith)) e in
    record {
      head = head;
      first = first;
      best = λ user r rest found.
          within-le (best_of q) c.request r rest head.passes
            (subst (AtLeast (best_of q)) found (AtLeast-every q user v));
    }

get-queue_of :
    (q : Queues) (user : String) {r : Request} {rest : List Request}
    → queue_of user q ≡ r ∷ rest
    → get user q.user_queues ≡ some (r ∷ rest)
unfolding queue_of
get-queue_of q user e = elim (Option-cases (get user q.user_queues)) [
  | inl missing ↦ cc (ap or_empty missing)
  | inr (queue, found) ↦ cc (ap or_empty found)
]

IsHead-IsTaken :
    (q : Queues) (best : Option ℕ) (c : Choice)
    → IsHead q best c
    → IsTaken c.user c.request c.rest q
IsHead-IsTaken q best c h = record {
  queue = c.request ∷ c.rest;
  found = get-queue_of q c.user h.head;
  others = λ w. refl;
}

-- A dequeued request with the queues that are left: the choice is fair, the queues stay valid,
-- and they hold what they held but for the request.
pub record IsDequeued (q : Queues) (r : Request) (q' : Queues) : Type 0 where
  pub choice : Choice
  pub chosen : choice.request ≡ r
  pub fair : IsFair q choice
  pub after : q' ≡ take_choice choice q
  pub valid : IsValid q'
  pub conserved : (w : Request → ℕ) → waiting w q' + w r ≡ waiting w q

take_choice-IsDequeued :
    (q : Queues) (c : Choice) → IsValid q → IsFair q c → IsDequeued q c.request (take_choice c q)
take_choice-IsDequeued q c v f = record {
  choice = c;
  chosen = refl;
  fair = f;
  after = refl;
  valid =
      unfold take_choice in
      advance-IsValid c.index _ (withdraw-IsValid c.user c.request c.rest q taken v);
  conserved = λ w.
      unfold take_choice in
      rw (waiting-advance w c.index (withdraw c.user c.request c.rest q))
        (waiting-withdraw w c.user c.request c.rest q taken);
}
  where
    taken : IsTaken c.user c.request c.rest q
    taken = IsHead-IsTaken q (best_of q) c f.head

-- On valid queues a request that `dequeueNext` returns is the head of a user's queue, no head of
-- another queue is better by more than half a tier, and it is the first such head in the cyclic order
-- of the users from the round-robin index on; it is the only thing that leaves the queues, and they
-- stay valid.
pub dequeue_next-IsDequeued :
    (q : Queues) (r : Request) (q' : Queues)
    → IsValid q
    → dequeue_next q ≡ some (r, q')
    → IsDequeued q r q'
unfolding dequeue_next
dequeue_next-IsDequeued q r q' v e = elim (Option-cases (choose q)) [
  | inl nothing ↦ absurd (ground arith)
  | inr (c, chosen) ↦
      let same_request : c.request ≡ r = ground arith in
      let same_queues : take_choice c q ≡ q' = ground arith in
      rw (← same_request, ← same_queues) (take_choice-IsDequeued q c v (choose-IsFair q c v chosen))
]

passes_self : (p : ℕ) (r : Request) → r.effective_priority ≡ p → within (some p) r ≡ true
passes_self p r e = ground arith

choose_at-attained :
    (q : Queues) (p : ℕ) (a : IsAttained q q.user_keys p)
    → (c : Choice) × (choose_at q (some p) a.index ≡ some c)
unfolding choose_at take_head
choose_at-attained q p a = (
  record { index = a.index; user = a.user; request = a.request; rest = a.rest },
  ground (arith, passes_self p a.request a.equal),
)

-- Every index is at some offset from a round-robin index in range.
offset-of : (rr i n : ℕ) → rr < n → i < n → (j : ℕ) × (j < n) × ((rr + j) % n ≡ i)
offset-of rr i n h k = elim (dec_lt i rr) [
  | yes before ↦ (i + n - rr, omega arith, grind arith)
  | no after ↦ (i - rr, omega arith, grind arith)
]

choose-attained :
    (q : Queues) (p : ℕ)
    → IsValid q
    → best_of q ≡ some p
    → IsAttained q q.user_keys p
    → (c : Choice) × (choose q ≡ some c)
unfolding choose
choose-attained q p v e a = elim (Option-cases (choose q)) [
  | inl nothing ↦ absurd (no_choice nothing)
  | inr found ↦ found
]
  where
    inside : a.index < length q.user_keys
    inside = get_elem?-lt q.user_keys a.index a.user a.listed

    no_choice : choose_from q (best_of q) (length q.user_keys) 0 ≡ none → ⊥
    no_choice nothing =
        let (j, below, place) =
          offset-of q.rr_index a.index (length q.user_keys) (omega (arith, v.in_range, inside))
            inside in
        let fails =
          choose_from-none q (best_of q) (length q.user_keys) 0 j nothing (omega arith)
            (omega arith) in
        let (c, passes) = choose_at-attained q p a in
        cc (passes, ap (choose_at q (best_of q)) place, ap (λ b. choose_at q b a.index) e)

get_here :
    (user : String) (r : Request) (rest : List Request) (m : Map String (List Request))
    → or_empty (get user ((user, r ∷ rest) ∷ m)) ≡ r ∷ rest
unfolding get
get_here user r rest m = ground (arith, string_eq.beq_iff user user)

AtLeast-every_get :
    (q : Queues) (user : String)
    → IsValid q
    → AtLeast (best_of q) (or_empty (get user q.user_queues))
unfolding queue_of
AtLeast-every_get q user v = AtLeast-every q user v

-- Some priority is best where a request is queued.
best_of-IsSome : (q : Queues) → IsValid q → 0 < q.total_queued → (p : ℕ) × (best_of q ≡ some p)
best_of-IsSome q v h = elim (Option-cases (best_of q)) [
  | inl infinite ↦ absurd (not_empty q.user_queues refl infinite)
  | inr found ↦ found
]
  where
    not_empty : (m : Map String (List Request)) → q.user_queues ≡ m → best_of q ≡ none → ⊥
    not_empty [] same infinite =
        omega (
          arith,
          v.counted,
          ap (λ m. sum_of (λ (e : String × List Request). sum_of one e.1) m) same,
        )
    not_empty ((user, []) ∷ m) same infinite =
        absurd (omega (arith, (subst (All IsOpen) same v.open_queues).0))
    not_empty ((user, r ∷ rest) ∷ m) same infinite =
        let head = ap (λ m. or_empty (get user m)) same ∙ get_here user r rest m in
        subst (λ b. AtLeast b (r ∷ rest)) infinite
          (subst (AtLeast (best_of q)) head (AtLeast-every_get q user v))

-- On valid queues with a positive queue depth, `dequeueNext` returns a request.
pub dequeue_next-total :
    (q : Queues)
    → IsValid q
    → 0 < q.total_queued
    → (r : Request) × (q' : Queues) × (dequeue_next q ≡ some (r, q'))
unfolding dequeue_next
dequeue_next-total q v h =
    let (p, best) = best_of-IsSome q v h in
    elim (best_priority-IsAttained q q.user_keys none p best) [
      | inl never ↦ cc
      | inr a ↦
          let (c, chosen) = choose-attained q p v best a in
          (c.request, take_choice c q, rw (chosen, dequeue_next))
    ]
