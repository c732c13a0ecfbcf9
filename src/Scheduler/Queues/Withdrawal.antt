-- ===== src/Scheduler/Queues/Withdrawal.antt =====
-- The counters of the queues of inference-api/src/scheduler/scheduler.service.ts when a request is taken
-- out, and when the index goes on.
use inference_stack.Prelude.{
  ℕ, ◌+◌, ◌-◌, ◌<◌, max, String, ◌≡◌, refl, sym, ap, ◌∙◌, some, List, [], ◌∷◌, arith, All, length,
  sum_of, string_eq,
}
use inference_stack.Map.{
  keys, get, All-set, All-delete, keys-set_present, IsDistinct, set-IsDistinct, delete-IsDistinct,
}
use inference_stack.Map.Sums.{weight_at, sum_of-set, sum_of-delete}
use inference_stack.Scheduler.Requests.{Request}
use inference_stack.Scheduler.Queues.{Queues, refresh_user_keys, close_queue, withdraw, advance}
use inference_stack.Scheduler.Queues.Counters.{waiting, one, tokens, IsOpen, IsValid}

-- `r` is one of the requests of the user's queue, and `rest` holds the others, as often.
pub record IsTaken (user : String) (r : Request) (rest : List Request) (q : Queues) : Type 0 where
  pub queue : List Request
  pub found : get user q.user_queues ≡ some queue
  pub others : (w : Request → ℕ) → sum_of w queue ≡ w r + sum_of w rest

waiting-close_queue :
    (w : Request → ℕ) (user : String) (rest : List Request) (q : Queues)
    → waiting w (close_queue user rest q)
        + weight_at (λ e. sum_of w e.1) user (get user q.user_queues)
      ≡ waiting w q + sum_of w rest
unfolding close_queue refresh_user_keys
waiting-close_queue w user [] q =
    omega (arith, sum_of-delete (λ (e : String × List Request). sum_of w e.1) user q.user_queues)
waiting-close_queue w user (r ∷ rest) q =
    omega (
      arith,
      sum_of-set (λ (e : String × List Request). sum_of w e.1) user (r ∷ rest) q.user_queues,
    )

-- A request that is taken out is all that is taken out.
pub waiting-withdraw :
    (w : Request → ℕ) (user : String) (r : Request) (rest : List Request) (q : Queues)
    → IsTaken user r rest q
    → waiting w (withdraw user r rest q) + w r ≡ waiting w q
unfolding withdraw
waiting-withdraw w user r rest q t = omega (
  arith,
  waiting-close_queue w user rest (record q {
    total_queued = q.total_queued - 1;
    total_queued_tokens = q.total_queued_tokens - r.estimated_tokens;
  }),
  ap (weight_at (λ (e : String × List Request). sum_of w e.1) user) t.found,
  t.others w,
)

-- The entries and the keys after `close_queue`.
close_queue-current :
    (user : String) (rest : List Request) (q : Queues) {queue : List Request}
    → get user q.user_queues ≡ some queue
    → q.user_keys ≡ keys q.user_queues
    → q.rr_index < max (length q.user_keys) 1
    → All IsOpen q.user_queues
    → IsDistinct q.user_queues
    → ((close_queue user rest q).user_keys ≡ keys (close_queue user rest q).user_queues)
      × ((close_queue user rest q).rr_index < max (length (close_queue user rest q).user_keys) 1)
      × All IsOpen (close_queue user rest q).user_queues
      × ((close_queue user rest q).total_queued ≡ q.total_queued)
      × ((close_queue user rest q).total_queued_tokens ≡ q.total_queued_tokens)
      × IsDistinct (close_queue user rest q).user_queues
unfolding close_queue refresh_user_keys
close_queue-current user [] q e k i o d = (
  refl,
  ground arith,
  All-delete IsOpen user q.user_queues o,
  refl,
  refl,
  delete-IsDistinct user q.user_queues d,
)
close_queue-current user (r ∷ rest) q {queue} e k i o d = (
  k ∙ sym (keys-set_present user (r ∷ rest) queue q.user_queues e),
  i,
  All-set IsOpen user (r ∷ rest) q.user_queues o (omega arith),
  refl,
  refl,
  set-IsDistinct user (r ∷ rest) q.user_queues d,
)

pub withdraw-IsValid :
    (user : String) (r : Request) (rest : List Request) (q : Queues)
    → IsTaken user r rest q
    → IsValid q
    → IsValid (withdraw user r rest q)
withdraw-IsValid user r rest q t v = record {
  current = parts.0;
  distinct = parts.5;
  open_queues = parts.2;
  counted = omega (arith, waiting-withdraw one user r rest q t, v.counted, parts.3);
  tokens_counted =
      omega (arith, waiting-withdraw tokens user r rest q t, v.tokens_counted, parts.4);
  in_range = parts.1;
}
  where
    parts :
        ((withdraw user r rest q).user_keys ≡ keys (withdraw user r rest q).user_queues)
        × ((withdraw user r rest q).rr_index < max (length (withdraw user r rest q).user_keys) 1)
        × All IsOpen (withdraw user r rest q).user_queues
        × ((withdraw user r rest q).total_queued ≡ q.total_queued - 1)
        × ((withdraw user r rest q).total_queued_tokens
            ≡ q.total_queued_tokens - r.estimated_tokens)
        × IsDistinct (withdraw user r rest q).user_queues
    parts =
        unfold withdraw in
        close_queue-current user rest _ t.found v.current v.in_range v.open_queues v.distinct

pub advance-IsValid : (index : ℕ) (q : Queues) → IsValid q → IsValid (advance index q)
unfolding advance
advance-IsValid index q v = record {
  current = v.current;
  distinct = v.distinct;
  open_queues = v.open_queues;
  counted = v.counted;
  tokens_counted = v.tokens_counted;
  in_range = grind arith;
}

pub waiting-advance :
    (w : Request → ℕ) (index : ℕ) (q : Queues) → waiting w (advance index q) ≡ waiting w q
unfolding advance
waiting-advance w index q = refl
