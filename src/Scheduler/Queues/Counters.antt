-- ===== src/Scheduler/Queues/Counters.antt =====
-- The counters of the queues against what the queues hold.
use inference_stack.Prelude.{
  ℕ, ◌+◌, ◌<◌, max, String, ◌≡◌, refl, sym, ◌∙◌, some, List, [], ◌∷◌, ◌++◌, arith, All, length,
  length-append, sum_of, sum_of-append, string_eq, Option-cases, inl, inr,
}
use inference_stack.Map.{
  keys, get, set, get-set_self, All-set, set-set, keys-set_present, IsDistinct, set-IsDistinct,
}
use inference_stack.Map.Sums.{sum_of-set}
use inference_stack.Scheduler.Requests.{Request}
use inference_stack.Scheduler.Queues.{
  Queues, empty, or_empty, queue_of, refresh_user_keys, ensure_queue, push_request, add_to_queue,
}

-- The weight of all queued requests.
abbrev pub waiting : (Request → ℕ) → Queues → ℕ
waiting w q = sum_of (λ e. sum_of w e.1) q.user_queues

abbrev pub one : Request → ℕ
one r = 1

abbrev pub tokens : Request → ℕ
tokens r = r.estimated_tokens

abbrev pub IsOpen : String × List Request → Type 0
IsOpen e = 0 < length e.1

pub record IsValid (q : Queues) : Type 0 where
  pub current : q.user_keys ≡ keys q.user_queues
  pub distinct : IsDistinct q.user_queues
  pub open_queues : All IsOpen q.user_queues
  pub counted : q.total_queued ≡ waiting one q
  pub tokens_counted : q.total_queued_tokens ≡ waiting tokens q
  pub in_range : q.rr_index < max (length q.user_keys) 1

pub empty-IsValid : IsValid empty
unfolding empty
empty-IsValid = record {
  current = refl;
  distinct = tt;
  open_queues = tt;
  counted = omega arith;
  tokens_counted = omega arith;
  in_range = omega arith;
}

waiting-ensure_queue :
    (w : Request → ℕ) (user : String) (q : Queues) → waiting w (ensure_queue user q) ≡ waiting w q
unfolding ensure_queue refresh_user_keys
waiting-ensure_queue w user q = elim (Option-cases (get user q.user_queues)) [
  | inl e ↦
      rw (e, ensure_queue) (ground (arith, sum_of-set (λ e. sum_of w e.1) user [] q.user_queues))
  | inr (queue, e) ↦ rw (e, ensure_queue)
]

waiting-push_request :
    (w : Request → ℕ) (r : Request) (q : Queues) → waiting w (push_request r q) ≡ waiting w q + w r
unfolding push_request queue_of
waiting-push_request w r q = ground (
  arith,
  sum_of-append w (or_empty (get r.user_id q.user_queues)) (r ∷ []),
  sum_of-set (λ (e : String × List Request). sum_of w e.1) r.user_id
      (or_empty (get r.user_id q.user_queues) ++ r ∷ []) q.user_queues,
)

-- A request that is added is all that is added.
pub waiting-add_to_queue :
    (w : Request → ℕ) (r : Request) (q : Queues) → waiting w (add_to_queue r q) ≡ waiting w q + w r
unfolding add_to_queue
waiting-add_to_queue w r q =
    omega (
      arith,
      waiting-push_request w r (ensure_queue r.user_id q),
      waiting-ensure_queue w r.user_id q,
    )

queue_of-ensure_queue :
    (user : String) (q : Queues) → queue_of user (ensure_queue user q) ≡ queue_of user q
unfolding queue_of ensure_queue refresh_user_keys
queue_of-ensure_queue user q = elim (Option-cases (get user q.user_queues)) [
  | inl e ↦ rw (e, ensure_queue) (rw (get-set_self user [] q.user_queues))
  | inr (queue, e) ↦ rw (e, ensure_queue) (rw e)
]

set-ensure_queue :
    (user : String) (queue : List Request) (q : Queues)
    → set user queue (ensure_queue user q).user_queues ≡ set user queue q.user_queues
unfolding ensure_queue refresh_user_keys
set-ensure_queue user queue q = elim (Option-cases (get user q.user_queues)) [
  | inl e ↦ rw (e, ensure_queue) (set-set user queue [] q.user_queues)
  | inr (old, e) ↦ rw (e, ensure_queue)
]

-- The queues after a request is added: its user's queue is longer by it, the others are as before.
pub user_queues-add_to_queue :
    (r : Request) (q : Queues)
    → (add_to_queue r q).user_queues ≡ set r.user_id (queue_of r.user_id q ++ r ∷ []) q.user_queues
unfolding add_to_queue push_request
user_queues-add_to_queue r q =
    rw (queue_of-ensure_queue r.user_id q) (set-ensure_queue r.user_id _ q)

ensure_queue-current :
    (user : String) (q : Queues)
    → IsValid q
    → ((ensure_queue user q).user_keys ≡ keys (ensure_queue user q).user_queues)
      × ((ensure_queue user q).rr_index < max (length (ensure_queue user q).user_keys) 1)
      × ((ensure_queue user q).total_queued ≡ q.total_queued)
      × ((ensure_queue user q).total_queued_tokens ≡ q.total_queued_tokens)
      × ((queue : List Request) × (get user (ensure_queue user q).user_queues ≡ some queue))
unfolding ensure_queue refresh_user_keys
ensure_queue-current user q v = elim (Option-cases (get user q.user_queues)) [
  | inl e ↦
      rw (e, ensure_queue)
        (refl, ground arith, refl, refl, ([], get-set_self user [] q.user_queues))
  | inr (queue, e) ↦ rw (e, ensure_queue) (v.current, v.in_range, refl, refl, (queue, e))
]

add_to_queue-current :
    (r : Request) (q : Queues)
    → IsValid q
    → ((add_to_queue r q).user_keys ≡ keys (add_to_queue r q).user_queues)
      × ((add_to_queue r q).rr_index < max (length (add_to_queue r q).user_keys) 1)
      × ((add_to_queue r q).total_queued ≡ q.total_queued + 1)
      × ((add_to_queue r q).total_queued_tokens ≡ q.total_queued_tokens + r.estimated_tokens)
unfolding add_to_queue push_request
add_to_queue-current r q v =
    let (same, range, count, toks, (queue, e)) = ensure_queue-current r.user_id q v in
    (same ∙ sym (keys-set_present _ _ queue _ e), range, omega arith, omega arith)

length-snoc : (xs : List Request) (x : Request) → 0 < length (xs ++ x ∷ [])
length-snoc xs x = omega (arith, length-append xs (x ∷ []))

-- `addToQueue` keeps the queues valid: the key list is that of the map, whose queues are not empty,
-- the two counters are right, and the round-robin index is in range.
pub add_to_queue-IsValid : (r : Request) (q : Queues) → IsValid q → IsValid (add_to_queue r q)
add_to_queue-IsValid r q v =
    let (same, range, count, toks) = add_to_queue-current r q v in
    record {
      current = same;
      distinct =
          rw (user_queues-add_to_queue r q) (set-IsDistinct r.user_id _ q.user_queues v.distinct);
      open_queues = rw (user_queues-add_to_queue r q) (
          All-set IsOpen r.user_id _ q.user_queues v.open_queues
            (length-snoc (queue_of r.user_id q) r));
      counted = omega (arith, waiting-add_to_queue one r q, v.counted);
      tokens_counted = omega (arith, waiting-add_to_queue tokens r q, v.tokens_counted);
      in_range = range;
    }
