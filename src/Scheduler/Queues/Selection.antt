-- ===== src/Scheduler/Queues/Selection.antt =====
-- Which request `dequeue_next` takes.
use inference_stack.Prelude.{
  ℕ, zero, suc, ◌+◌, ◌%◌, ◌≤◌, ◌<◌, String, ◌≡◌, refl, true, Option, none, some, List, [], ◌∷◌,
  arith, All, length, get_elem?, string_eq, ltb, Option-cases, Bool-cases, inl, inr, ◌⊎◌, dec_lt,
  ℕ_discrete,
}
use inference_stack.Scheduler.Requests.{Request}
use inference_stack.Scheduler.Queues.{
  Queues, queue_of, lower, best_priority, within, take_head, Choice, choose_at, choose_from,
}

-- `c` is the head of its user's queue, passes the test, and stands at its index of the key list.
pub record IsHead (q : Queues) (best : Option ℕ) (c : Choice) : Type 0 where
  pub listed : get_elem? q.user_keys c.index ≡ some c.user
  pub head : queue_of c.user q ≡ c.request ∷ c.rest
  pub passes : within best c.request ≡ true

take_head_sound :
    (best : Option ℕ) (queue : List Request) (r : Request) (rest : List Request)
    → take_head best queue ≡ some (r, rest)
    → (queue ≡ r ∷ rest) × (within best r ≡ true)
unfolding take_head
take_head_sound best [] r rest e = cc
take_head_sound best (x ∷ xs) r rest e = ground arith

choose_at-IsHead :
    (q : Queues) (best : Option ℕ) (index : ℕ) (c : Choice)
    → choose_at q best index ≡ some c
    → IsHead q best c × (c.index ≡ index)
unfolding choose_at
choose_at-IsHead q best index c e = elim (Option-cases (get_elem? q.user_keys index)) [
  | inl missing ↦ absurd (ground arith)
  | inr (user, listed) ↦ elim (Option-cases (take_head best (queue_of user q))) [
    | inl fails ↦ absurd (ground arith)
    | inr ((r, rest), taken) ↦ ground (arith, take_head_sound best (queue_of user q) r rest taken)
  ]
]

-- The heads of the users at the offsets before `i` do not pass.
abbrev pub IsPassedOver : Queues → Option ℕ → ℕ → Type 0
IsPassedOver q best i =
    (j : ℕ) → j < i → choose_at q best ((q.rr_index + j) % length q.user_keys) ≡ none

pub record IsFirst (q : Queues) (best : Option ℕ) (c : Choice) : Type 0 where
  pub offset : ℕ
  pub inside : offset < length q.user_keys
  pub place : c.index ≡ (q.rr_index + offset) % length q.user_keys
  pub first : IsPassedOver q best offset

pub choose_from-IsFirst :
    (q : Queues) (best : Option ℕ) (rounds i : ℕ) (c : Choice)
    → i + rounds ≡ length q.user_keys
    → IsPassedOver q best i
    → choose_from q best rounds i ≡ some c
    → IsHead q best c × IsFirst q best c
unfolding choose_from
choose_from-IsFirst q best zero i c n p e = cc
choose_from-IsFirst q best (suc rounds) i c n p e =
    elim (Option-cases (choose_at q best ((q.rr_index + i) % length q.user_keys))) [
      | inl fails ↦
          choose_from-IsFirst q best rounds (i + 1) c (omega arith)
            (λ j h. elim (dec_lt j i) [
              | yes before ↦ p j before
              | no after ↦ let same : j ≡ i = omega arith in rw same fails
            ])
            (ground arith)
      | inr (d, found) ↦
          let same : d ≡ c = ground arith in
          let (head, place) =
            choose_at-IsHead q best ((q.rr_index + i) % length q.user_keys) c (rw (← same) found) in
          (head, record { offset = i; inside = omega arith; place = place; first = p })
    ]

pub choose_from-none :
    (q : Queues) (best : Option ℕ) (rounds i j : ℕ)
    → choose_from q best rounds i ≡ none
    → i ≤ j
    → j < i + rounds
    → choose_at q best ((q.rr_index + j) % length q.user_keys) ≡ none
unfolding choose_from
choose_from-none q best zero i j e h k = absurd (omega arith)
choose_from-none q best (suc rounds) i j e h k =
    elim (Option-cases (choose_at q best ((q.rr_index + i) % length q.user_keys))) [
      | inl fails ↦ elim (ℕ_discrete j i) [
        | yes same ↦ rw same fails
        | no other ↦
            choose_from-none q best rounds (i + 1) j (ground arith) (omega arith) (omega arith)
      ]
      | inr (d, found) ↦ absurd (ground arith)
    ]

-- No head of the queue is below the priority; for Infinity, there is no head.
abbrev pub AtLeast : Option ℕ → List Request → Type 0
AtLeast none [] = Unit {0}
AtLeast none (r ∷ rest) = ⊥
AtLeast (some best) [] = Unit {0}
AtLeast (some best) (r ∷ rest) = best ≤ r.effective_priority

lower-AtLeast : (queue : List Request) (best : Option ℕ) → AtLeast (lower queue best) queue
unfolding lower
lower-AtLeast [] none = tt
lower-AtLeast [] (some best) = tt
lower-AtLeast (r ∷ rest) none = omega arith
lower-AtLeast (r ∷ rest) (some best) = ground arith

lower_mono :
    (queue other : List Request) (best : Option ℕ)
    → AtLeast best other
    → AtLeast (lower queue best) other
unfolding lower
lower_mono [] other best h = h
lower_mono (r ∷ rest) [] none h = tt
lower_mono (r ∷ rest) (x ∷ xs) none h = absurd h
lower_mono (r ∷ rest) [] (some best) h = ground arith
lower_mono (r ∷ rest) (x ∷ xs) (some best) h = ground arith

best_priority_mono :
    (q : Queues) (users : List String) (best : Option ℕ) (other : List Request)
    → AtLeast best other
    → AtLeast (best_priority q users best) other
unfolding best_priority
best_priority_mono q [] best other h = h
best_priority_mono q (u ∷ us) best other h =
    best_priority_mono q us _ other (lower_mono (queue_of u q) other best h)

pub best_priority-AtLeast :
    (q : Queues) (users : List String) (best : Option ℕ)
    → All (λ u. AtLeast (best_priority q users best) (queue_of u q)) users
unfolding best_priority
best_priority-AtLeast q [] best = tt
best_priority-AtLeast q (u ∷ us) best = (
  best_priority_mono q us _ (queue_of u q) (lower-AtLeast (queue_of u q) best),
  best_priority-AtLeast q us (lower (queue_of u q) best),
)

-- Some listed user's head has the priority.
pub record IsAttained (q : Queues) (users : List String) (p : ℕ) : Type 0 where
  pub index : ℕ
  pub user : String
  pub request : Request
  pub rest : List Request
  pub listed : get_elem? users index ≡ some user
  pub head : queue_of user q ≡ request ∷ rest
  pub equal : request.effective_priority ≡ p

lower-cases :
    (queue : List Request) (best : Option ℕ) (p : ℕ)
    → lower queue best ≡ some p
    → (best ≡ some p)
      ⊎ ((r : Request) × (rest : List Request) × (queue ≡ r ∷ rest) × (r.effective_priority ≡ p))
unfolding lower
lower-cases [] best p e = inl e
lower-cases (r ∷ rest) none p e = inr (r, rest, refl, ground arith)
lower-cases (r ∷ rest) (some best) p e = elim (Bool-cases (ltb r.effective_priority best)) [
  | inl below ↦ inr (r, rest, refl, ground arith)
  | inr above ↦ inl (ground arith)
]

pub best_priority-IsAttained :
    (q : Queues) (users : List String) (best : Option ℕ) (p : ℕ)
    → best_priority q users best ≡ some p
    → (best ≡ some p) ⊎ IsAttained q users p
unfolding best_priority
best_priority-IsAttained q [] best p e = inl e
best_priority-IsAttained q (u ∷ us) best p e =
    elim (best_priority-IsAttained q us (lower (queue_of u q) best) p e) [
      | inl here ↦ elim (lower-cases (queue_of u q) best p here) [
        | inl before ↦ inl before
        | inr (r, rest, head, equal) ↦ inr (record {
          index = 0;
          user = u;
          request = r;
          rest = rest;
          listed = refl;
          head = head;
          equal = equal;
        })
      ]
      | inr a ↦ inr (record {
        index = suc a.index;
        user = a.user;
        request = a.request;
        rest = a.rest;
        listed = a.listed;
        head = a.head;
        equal = a.equal;
      })
    ]
