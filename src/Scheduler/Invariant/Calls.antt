-- ===== src/Scheduler/Invariant/Calls.antt =====
-- `enqueue`, `cancel` and the timers.
use inference_stack.Prelude.{
  ℕ, ◌+◌, ◌≤◌, ◌≡◌, refl, subst, String, none, some, [], ◌∷◌, arith, Option-cases, inl, inr, ℕ_eq,
  sum_of,
}
use inference_stack.Map.{Map, get, delete, All-delete, All-get}
use inference_stack.Batching.{window_elapsed}
use inference_stack.Batching.Conservation.{window_elapsed-pending}
use inference_stack.Scheduler.Requests.{Priority, cancelled, timeout, CreateCompletionDto, Request}
use inference_stack.Scheduler.Results.{
  request_cancelled, request_timed_out, rejected, Timer, single_timer, batch_timer,
}
use inference_stack.Scheduler.Queues.{Queues, add_to_queue, cancel_queued}
use inference_stack.Scheduler.Queues.Counters.{
  one, tokens, waiting-add_to_queue, add_to_queue-IsValid,
}
use inference_stack.Scheduler.Queues.Cancel.{is_id, IsCancelled, cancel_queued-IsCancelled}
use inference_stack.Scheduler.State.{Service, fresh, update, set_state, settle}
use inference_stack.Scheduler.Service.{
  accepted, admission_check, new_request, admit, enqueue, unsubscribe, reject_queued, cancel_active,
  cancel, window_timer,
}
use inference_stack.Scheduler.Events.{conclude, fail_in_place, stop_stream, timer_fired}
use inference_stack.Scheduler.Invariant.{
  IsKeyed, has_key, begun_at, StreamBegan, of_context, IsSound, nothing, Grows, routes-grow,
  streams-grow, begun-le-one,
}
use inference_stack.Scheduler.Invariant.Flow.{run_delivery-IsSoundWith}
use inference_stack.Scheduler.Invariant.Rounds.{try_dispatch-IsSoundWith, recollect}
use inference_stack.Scheduler.Invariant.Closing.{owed, update-IsSound, conclude-IsSound}
use inference_stack.Scheduler.Invariant.Routes.{restream-IsSound}

-- The issued ids, with one more.
abbrev pub with_id : ℕ → (ℕ → ℕ) → ℕ → ℕ
with_id id born i = owed id i + born i

fresh-Grows : (id : ℕ) (s : Service) → begun_at id s ≡ 0 → Grows s (update id (λ p. fresh) s)
unfolding update
fresh-Grows id s h i = ground (arith, h)

add-IsSound :
    (born : ℕ → ℕ) (r : Request) (s : Service)
    → born r.id ≡ 0
    → admission_check r.estimated_tokens s ≡ none
    → IsSound born s
    → IsSound
        (with_id r.id born)
        (record (update r.id (λ p. fresh) s) { queues = add_to_queue r s.queues })
unfolding update admission_check
add-IsSound born r s unissued passes v = record {
  queues = add_to_queue-IsValid r s.queues v.queues;
  depth = ground (arith, waiting-add_to_queue one r s.queues, v.queues.counted);
  budget = ground (arith, waiting-add_to_queue tokens r s.queues, v.queues.tokens_counted);
  counted = v.counted;
  exact = λ i. ground (arith, v.exact i, waiting-add_to_queue (is_id i) r s.queues, unissued);
  issued_once = λ i. ground (arith, v.issued_once i, unissued);
  kept = λ i. ground (arith, v.kept i);
  ran = λ i. ground (arith, v.ran i, v.exact i, unissued);
  keyed = v.keyed;
  timed = λ i. ground (arith, v.timed i);
  routes = routes-grow s (update r.id (λ p. fresh) s) s.awaiting (fresh-Grows r.id s idle) v.routes;
  streams =
      streams-grow s (update r.id (λ p. fresh) s) s.streams (fresh-Grows r.id s idle) v.streams;
}
  where
    idle : begun_at r.id s ≡ 0
    idle = ground (arith, v.kept r.id, v.exact r.id, unissued)

admit-IsSound :
    (born : ℕ → ℕ) (now : ℕ) (r : Request) (s : Service)
    → born r.id ≡ 0
    → admission_check r.estimated_tokens s ≡ none
    → IsSound born s
    → IsSound (with_id r.id born) (admit now r s)
unfolding admit
admit-IsSound born now r s unissued passes v =
    try_dispatch-IsSoundWith (with_id r.id born) nothing now _
      (add-IsSound born r s unissued passes v)

-- `enqueue` with an id that was never issued keeps the invariant, and issues the id.
pub enqueue-IsSound :
    (born : ℕ → ℕ) (dto : CreateCompletionDto) (user_id : String) (priority : Priority) (id now : ℕ)
    (s t : Service)
    → born id ≡ 0
    → enqueue dto user_id priority id now s ≡ accepted t
    → IsSound born s
    → IsSound (with_id id born) t
unfolding enqueue
enqueue-IsSound born dto user_id priority id now s t unissued e v =
    elim (Option-cases (admission_check r.estimated_tokens s)) [
      | inl passes ↦
          let same : admit now r s ≡ t = ground arith in
          subst (IsSound (with_id id born)) same (
            subst (λ j. IsSound (with_id j born) (admit now r s)) same_id
              (admit-IsSound born now r s (unfold new_request in unissued) passes v))
      | inr (why, refused) ↦ absurd (ground arith)
    ]
  where
    r : Request
    r = new_request dto user_id priority id now

    same_id : r.id ≡ id
    same_id = unfold new_request in refl

unsubscribe-IsSound :
    (born : ℕ → ℕ) (id : ℕ) (s : Service) → IsSound born s → IsSound born (unsubscribe id s)
unfolding unsubscribe
unsubscribe-IsSound born id s v = elim (Option-cases (s.progress id).subscription) [
  | inl never ↦ rw (never, unsubscribe) v
  | inr (n, subscribed) ↦
      rw (subscribed, unsubscribe)
        (restream-IsSound born (delete n s.streams) s
          (All-delete (StreamBegan s) n s.streams v.streams) v)
]

begun_at-unsubscribe : (id j : ℕ) (s : Service) → begun_at j (unsubscribe id s) ≡ begun_at j s
unfolding unsubscribe
begun_at-unsubscribe id j s = ground arith

reject_queued-Grows : (r : Request) (q : Queues) (s : Service) → Grows s (reject_queued r q s)
unfolding reject_queued update set_state settle
reject_queued-Grows r q s i = ground (arith, begun-le-one (s.progress i))

reject_queued-IsSound :
    (born : ℕ → ℕ) (id : ℕ) (r : Request) (q : Queues) (s : Service)
    → IsCancelled id s.queues r q
    → IsSound born s
    → IsSound born (reject_queued r q s)
unfolding reject_queued update set_state settle
reject_queued-IsSound born id r q s c v = record {
  queues = c.valid;
  depth = omega (arith, v.depth, c.conserved one);
  budget = omega (arith, v.budget, c.conserved tokens);
  counted = v.counted;
  exact = λ i. ground (arith, v.exact i, v.issued_once i, c.conserved (is_id i));
  issued_once = v.issued_once;
  kept = λ i. ground (arith, v.kept i);
  ran = λ i. ground (arith, v.ran i, v.exact i, v.issued_once i, c.conserved (is_id i));
  keyed = v.keyed;
  timed = λ i. ground (arith, v.timed i, begun-le-one (s.progress i));
  routes = routes-grow s (reject_queued r q s) s.awaiting (reject_queued-Grows r q s) v.routes;
  streams = streams-grow s (reject_queued r q s) s.streams (reject_queued-Grows r q s) v.streams;
}

pub has_key-get :
    (id : ℕ) (r : Request) (m : Map ℕ Request) → get id m ≡ some r → 1 ≤ sum_of (has_key id) m
unfolding get
has_key-get id r [] e = cc
has_key-get id r ((j, x) ∷ m) e = ground (arith, has_key-get id r m)

cancel_active-IsSound :
    (born : ℕ → ℕ) (now id : ℕ) (r : Request) (s : Service)
    → get id s.active_requests ≡ some r
    → IsSound born s
    → IsSound born (cancel_active now r.id s)
unfolding cancel_active
cancel_active-IsSound born now id r s found v =
    unfold conclude fail_in_place in
    conclude-IsSound born now cancelled (rejected request_cancelled) r.id (unsubscribe r.id s) refl
      (rw (begun_at-unsubscribe r.id r.id s) began) (unsubscribe-IsSound born r.id s v)
  where
    keyed : id ≡ r.id
    keyed = All-get IsKeyed id r s.active_requests v.keyed found

    began : begun_at r.id s ≡ 1
    began =
        subst (λ j. begun_at j s ≡ 1) keyed
          (omega (
            arith,
            v.ran id,
            has_key-get id r s.active_requests found,
            begun-le-one (s.progress id),
          ))

-- `cancel` keeps the invariant, whether the request is queued, active or neither.
pub cancel-IsSound :
    (born : ℕ → ℕ) (now id : ℕ) (s : Service) → IsSound born s → IsSound born (cancel now id s)
unfolding cancel
cancel-IsSound born now id s v = elim (Option-cases (cancel_queued id s.queues)) [
  | inl missing ↦ elim (Option-cases (get id s.active_requests)) [
    | inl over ↦ rw (missing, cancel) (rw (over, cancel) v)
    | inr (r, found) ↦
        rw (missing, cancel) (rw (found, cancel) (cancel_active-IsSound born now id r s found v))
  ]
  | inr ((r, q), found) ↦
      rw (found, cancel)
        (reject_queued-IsSound born id r q s
          (cancel_queued-IsCancelled id s.queues r q v.queues found) v)
]

-- The collector's timer keeps the invariant.
pub window_timer-IsSound :
    (born : ℕ → ℕ) (now : ℕ) (model : String) (i : ℕ) (s : Service)
    → IsSound born s
    → IsSound born (window_timer now model i s)
unfolding window_timer
window_timer-IsSound born now model i s v =
    run_delivery-IsSoundWith born nothing nothing now (window_elapsed model i s.collector).1 _ (
      recollect born nothing _ nothing (window_elapsed model i s.collector).0 s
        (λ j. omega (arith, window_elapsed-pending (of_context j) model i s.collector)) v)

stop_stream-IsSound :
    (born : ℕ → ℕ) (t : Timer) (id : ℕ) (s : Service)
    → IsSound born s
    → IsSound born (stop_stream t id s)
unfolding stop_stream
stop_stream-IsSound born single_timer id s v = unsubscribe-IsSound born id s v
stop_stream-IsSound born batch_timer id s v = v

begun_at-stop_stream :
    (t : Timer) (id j : ℕ) (s : Service) → begun_at j (stop_stream t id s) ≡ begun_at j s
unfolding stop_stream
begun_at-stop_stream single_timer id j s = begun_at-unsubscribe id j s
begun_at-stop_stream batch_timer id j s = refl

-- A request's timer keeps the invariant.
pub timer_fired-IsSound :
    (born : ℕ → ℕ) (now id : ℕ) (s : Service) → IsSound born s → IsSound born (timer_fired now id s)
unfolding timer_fired
timer_fired-IsSound born now id s v = elim (Option-cases (s.progress id).timeout_timer) [
  | inl idle ↦ rw (idle, timer_fired) v
  | inr (t, armed) ↦ rw (armed, timer_fired) (fires t armed)
]
  where
    fired : Service
    fired = update id (λ p. record p { timeout_timer = none }) s

    fires :
        (t : Timer)
        → (s.progress id).timeout_timer ≡ some t
        → IsSound born
            (conclude now timeout (rejected request_timed_out) id (stop_stream t id fired))
    fires t armed =
        let began : begun_at id s ≡ 1 = ground (arith, v.timed id, begun-le-one (s.progress id)) in
        conclude-IsSound born now timeout (rejected request_timed_out) id (stop_stream t id fired)
          refl (rw (begun_at-stop_stream t id id fired) (unfold update in ground (arith, began)))
          (stop_stream-IsSound born t id fired
            (update-IsSound id (λ p. record p { timeout_timer = none }) s began born refl began v))
