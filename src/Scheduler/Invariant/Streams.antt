-- ===== src/Scheduler/Invariant/Streams.antt =====
-- The messages, the completion and the error of a worker's stream.
use inference_stack.Prelude.{
  ℕ, ◌≡◌, refl, String, Option, none, some, arith, All, Option-cases, inl, inr, ℕ_eq,
}
use inference_stack.Map.{Map, get, set, All-set, All-get}
use inference_stack.Scheduler.Requests.{completed}
use inference_stack.Scheduler.Results.{
  Chunk, Complete, ResponseError, InferResponse, resolved, rejected, worker_error,
}
use inference_stack.Scheduler.State.{SingleStream, Entry, Stream, single, batch, Service}
use inference_stack.Scheduler.Responses.{batch_completion}
use inference_stack.Scheduler.Events.{
  open_stream, add_chunk, add_complete, entry_chunk, entry_usage, report_error, report_complete,
  next_single, next_batch, stream_next,
}
use inference_stack.Scheduler.Invariant.{
  begun_at, HasBegun, EntryBegan, IsBegunStream, StreamBegan, IsSound, Grows, HasBegun-Grows,
}
use inference_stack.Scheduler.Invariant.Closing.{
  conclude-Grows, conclude-IsSound, fail_in_place-IsSound,
}
use inference_stack.Scheduler.Invariant.Routes.{open_stream-IsSound}

report_error-IsSound :
    (born : ℕ → ℕ) (now : ℕ) (e : Option ResponseError) (id : ℕ) (s : Service)
    → begun_at id s ≡ 1
    → IsSound born s
    → IsSound born (report_error now e id s)
unfolding report_error
report_error-IsSound born now none id s h v = v
report_error-IsSound born now (some err) id s h v =
    fail_in_place-IsSound born now (rejected (worker_error err)) id s h v

report_complete-IsSound :
    (born : ℕ → ℕ) (now : ℕ) (worker_id : String) (e : Entry) (c : Option Complete) (s : Service)
    → HasBegun s e.request
    → IsSound born s
    → IsSound born (report_complete now worker_id e c s)
unfolding report_complete
report_complete-IsSound born now worker_id e none s h v = v
report_complete-IsSound born now worker_id e (some c) s h v =
    conclude-IsSound born now completed _ e.request.id s refl h v

report_complete-Grows :
    (now : ℕ) (worker_id : String) (e : Entry) (c : Option Complete) (s : Service)
    → Grows s (report_complete now worker_id e c s)
unfolding report_complete
report_complete-Grows now worker_id e none s i = omega arith
report_complete-Grows now worker_id e (some c) s i =
    conclude-Grows now completed
      (resolved (batch_completion now worker_id e c.finish_reason (s.progress e.request.id)))
      e.request.id s refl i

pub add-request :
    (chunk : Option Chunk) (c : Option Complete) (x : SingleStream)
    → (add_complete c (add_chunk chunk x)).request ≡ x.request
unfolding add_complete add_chunk
add-request none none x = refl
add-request none (some c) x = refl
add-request (some k) none x = ground arith
add-request (some k) (some c) x = ground arith

entry-request :
    (chunk : Option Chunk) (c : Option Complete) (e : Entry)
    → (entry_usage c (entry_chunk chunk e)).request ≡ e.request
unfolding entry_usage entry_chunk
entry-request none none e = refl
entry-request none (some c) e = refl
entry-request (some k) none e = ground arith
entry-request (some k) (some c) e = ground arith

next_single-IsSound :
    (born : ℕ → ℕ) (now n : ℕ) (x : SingleStream) (m : InferResponse) (s : Service)
    → HasBegun s x.request
    → IsSound born s
    → IsSound born (next_single now n x m s)
unfolding next_single
next_single-IsSound born now n x m s h v =
    report_error-IsSound born now m.error x.request.id _ h
      (open_stream-IsSound born n _ s (rw (add-request m.chunk m.complete x) h) v)

next_batch-IsSound :
    (born : ℕ → ℕ) (now n : ℕ) (worker_id : String) (es : Map ℕ Entry) (m : InferResponse)
    (s : Service)
    → All (EntryBegan s) es
    → IsSound born s
    → IsSound born (next_batch now n worker_id es m s)
unfolding next_batch
next_batch-IsSound born now n worker_id es m s h v = elim (Option-cases (get m.request_id es)) [
  | inl unknown ↦ rw (unknown, next_batch) v
  | inr (e, found) ↦ rw (found, next_batch) (known e (All-get (EntryBegan s) _ e es h found))
]
  where
    changed : Entry → Entry
    changed e = entry_usage m.complete (entry_chunk m.chunk e)

    written : Entry → Service
    written e = open_stream n (batch worker_id (set m.request_id (changed e) es)) s

    began : (e : Entry) → HasBegun s e.request → HasBegun s (changed e).request
    began e b = rw (entry-request m.chunk m.complete e) b

    known :
        (e : Entry)
        → HasBegun s e.request
        → IsSound born (
            report_error now m.error e.request.id
              (report_complete now worker_id (changed e) m.complete (written e)))
    known e b =
        report_error-IsSound born now m.error e.request.id
          (report_complete now worker_id (changed e) m.complete (written e))
          (HasBegun-Grows (written e)
            (report_complete now worker_id (changed e) m.complete (written e))
            (report_complete-Grows now worker_id (changed e) m.complete (written e)) e.request b)
          (report_complete-IsSound born now worker_id (changed e) m.complete (written e) (began e b)
            (open_stream-IsSound born n (batch worker_id (set m.request_id (changed e) es)) s
              (All-set (EntryBegan s) m.request_id (changed e) es h (began e b)) v))

next-IsSound :
    (born : ℕ → ℕ) (now n : ℕ) (m : InferResponse) (x : Stream) (s : Service)
    → get n s.streams ≡ some x
    → IsBegunStream s x
    → IsSound born s
    → IsSound born (stream_next now n m s)
unfolding stream_next
next-IsSound born now n m (single x) s e h v =
    rw (e, stream_next) (next_single-IsSound born now n x m s h v)
next-IsSound born now n m (batch worker_id es) s e h v =
    rw (e, stream_next) (next_batch-IsSound born now n worker_id es m s h v)

-- A message of a worker: the invariant is kept.
pub stream_next-IsSound :
    (born : ℕ → ℕ) (now n : ℕ) (m : InferResponse) (s : Service)
    → IsSound born s
    → IsSound born (stream_next now n m s)
unfolding stream_next
stream_next-IsSound born now n m s v = elim (Option-cases (get n s.streams)) [
  | inl over ↦ rw (over, stream_next) v
  | inr (x, found) ↦
      next-IsSound born now n m x s found (All-get (StreamBegan s) n x s.streams v.streams found) v
]

abbrev pub Began : Service → Entry → Type 0
Began s e = HasBegun s e.request
