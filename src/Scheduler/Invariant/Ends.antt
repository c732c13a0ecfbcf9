-- ===== src/Scheduler/Invariant/Ends.antt =====
-- The ends of streams keep the invariant.
use inference_stack.Prelude.{
  ℕ, ◌≡◌, refl, String, some, List, [], ◌∷◌, arith, All, Option-cases, Bool-cases, if_true,
  if_false, if_elim, inl, inr, ℕ_eq,
}
use inference_stack.Map.{Map, get, values, All-delete, All-get}
use inference_stack.Scheduler.Requests.{error, completed}
use inference_stack.Scheduler.Results.{Outcome, resolved, rejected, server_error}
use inference_stack.Scheduler.State.{Entry, Stream, single, batch, Service}
use inference_stack.Scheduler.Responses.{fallback_completion}
use inference_stack.Scheduler.Events.{
  close_stream, is_active, is_over, complete_one, complete_rest, fail_one, fail_rest,
  stream_complete, stream_error,
}
use inference_stack.Scheduler.Invariant.{
  EntryBegan, IsBegunStream, StreamBegan, IsSound, Grows, HasBegun-Grows,
}
use inference_stack.Scheduler.Invariant.Closing.{conclude-Grows, conclude-IsSound}
use inference_stack.Scheduler.Invariant.Routes.{restream-IsSound}
use inference_stack.Scheduler.Invariant.Streams.{Began}

values-Began : (s : Service) (m : Map ℕ Entry) → All (EntryBegan s) m → All (Began s) (values m)
values-Began s [] h = tt
values-Began s ((i, e) ∷ m) h = (h.0, values-Began s m h.1)

All-Began-Grows :
    (s t : Service) (es : List Entry) → Grows s t → All (Began s) es → All (Began t) es
All-Began-Grows s t [] g h = tt
All-Began-Grows s t (e ∷ es) g h =
    (HasBegun-Grows s t g e.request h.0, All-Began-Grows s t es g h.1)

complete_one-Grows :
    (now : ℕ) (worker_id : String) (e : Entry) (s : Service)
    → Grows s (complete_one now worker_id e s)
unfolding complete_one
complete_one-Grows now worker_id e s i =
    elim (Bool-cases (is_active (s.progress e.request.id).state)) [
      | inl yes_active ↦
          rw (if_true _ _ yes_active) (conclude-Grows now completed o e.request.id s refl i)
      | inr not_active ↦ rw (if_false _ _ not_active) (omega arith)
    ]
  where
    o : Outcome
    o = resolved (fallback_completion now worker_id e)

complete_one-IsSound :
    (born : ℕ → ℕ) (now : ℕ) (worker_id : String) (e : Entry) (s : Service)
    → Began s e
    → IsSound born s
    → IsSound born (complete_one now worker_id e s)
unfolding complete_one
complete_one-IsSound born now worker_id e s h v =
    if_elim (IsSound born) (is_active (s.progress e.request.id).state)
      (conclude-IsSound born now completed _ e.request.id s refl h v) v

complete_rest-IsSound :
    (born : ℕ → ℕ) (now : ℕ) (worker_id : String) (es : List Entry) (s : Service)
    → All (Began s) es
    → IsSound born s
    → IsSound born (complete_rest now worker_id es s)
unfolding complete_rest
complete_rest-IsSound born now worker_id [] s h v = v
complete_rest-IsSound born now worker_id (e ∷ es) s h v =
    complete_rest-IsSound born now worker_id es (complete_one now worker_id e s)
      (All-Began-Grows s (complete_one now worker_id e s) es (complete_one-Grows now worker_id e s)
        h.1)
      (complete_one-IsSound born now worker_id e s h.0 v)

fail_one-Grows :
    (now : ℕ) (message : String) (e : Entry) (s : Service) → Grows s (fail_one now message e s)
unfolding fail_one
fail_one-Grows now message e s i = elim (Bool-cases (is_over (s.progress e.request.id).state)) [
  | inl over ↦ rw (if_true _ _ over) (omega arith)
  | inr not_over ↦
      rw (if_false _ _ not_over)
        (conclude-Grows now error (rejected (server_error message)) e.request.id s refl i)
]

fail_one-IsSound :
    (born : ℕ → ℕ) (now : ℕ) (message : String) (e : Entry) (s : Service)
    → Began s e
    → IsSound born s
    → IsSound born (fail_one now message e s)
unfolding fail_one
fail_one-IsSound born now message e s h v =
    if_elim (IsSound born) (is_over (s.progress e.request.id).state) v
      (conclude-IsSound born now error _ e.request.id s refl h v)

fail_rest-IsSound :
    (born : ℕ → ℕ) (now : ℕ) (message : String) (es : List Entry) (s : Service)
    → All (Began s) es
    → IsSound born s
    → IsSound born (fail_rest now message es s)
unfolding fail_rest
fail_rest-IsSound born now message [] s h v = v
fail_rest-IsSound born now message (e ∷ es) s h v =
    fail_rest-IsSound born now message es (fail_one now message e s)
      (All-Began-Grows s (fail_one now message e s) es (fail_one-Grows now message e s) h.1)
      (fail_one-IsSound born now message e s h.0 v)

close_stream-IsSound :
    (born : ℕ → ℕ) (n : ℕ) (s : Service) → IsSound born s → IsSound born (close_stream n s)
close_stream-IsSound born n s v =
    restream-IsSound born _ s (All-delete (StreamBegan s) n s.streams v.streams) v

complete-IsSound :
    (born : ℕ → ℕ) (now n : ℕ) (x : Stream) (s : Service)
    → get n s.streams ≡ some x
    → IsBegunStream s x
    → IsSound born s
    → IsSound born (stream_complete now n s)
unfolding stream_complete
complete-IsSound born now n (single x) s e h v =
    rw (e, stream_complete)
      (conclude-IsSound born now completed _ x.request.id (close_stream n s) refl h
        (close_stream-IsSound born n s v))
complete-IsSound born now n (batch worker_id m) s e h v =
    rw (e, stream_complete)
      (complete_rest-IsSound born now worker_id (values m) (close_stream n s) (values-Began s m h)
        (close_stream-IsSound born n s v))

-- The completion of a stream: the invariant is kept.
pub stream_complete-IsSound :
    (born : ℕ → ℕ) (now n : ℕ) (s : Service)
    → IsSound born s
    → IsSound born (stream_complete now n s)
unfolding stream_complete
stream_complete-IsSound born now n s v = elim (Option-cases (get n s.streams)) [
  | inl over ↦ rw (over, stream_complete) v
  | inr (x, found) ↦
      complete-IsSound born now n x s found (All-get (StreamBegan s) n x s.streams v.streams found)
        v
]

error-IsSound :
    (born : ℕ → ℕ) (now n : ℕ) (message : String) (x : Stream) (s : Service)
    → get n s.streams ≡ some x
    → IsBegunStream s x
    → IsSound born s
    → IsSound born (stream_error now n message s)
unfolding stream_error
error-IsSound born now n message (single x) s e h v =
    rw (e, stream_error)
      (conclude-IsSound born now error _ x.request.id (close_stream n s) refl h
        (close_stream-IsSound born n s v))
error-IsSound born now n message (batch worker_id m) s e h v =
    rw (e, stream_error)
      (fail_rest-IsSound born now _ (values m) (close_stream n s) (values-Began s m h)
        (close_stream-IsSound born n s v))

-- The error of a stream: the invariant is kept.
pub stream_error-IsSound :
    (born : ℕ → ℕ) (now n : ℕ) (message : String) (s : Service)
    → IsSound born s
    → IsSound born (stream_error now n message s)
unfolding stream_error
stream_error-IsSound born now n message s v = elim (Option-cases (get n s.streams)) [
  | inl over ↦ rw (over, stream_error) v
  | inr (x, found) ↦
      error-IsSound born now n message x s found
        (All-get (StreamBegan s) n x s.streams v.streams found) v
]
