-- ===== src/Scheduler/Endings.antt =====
-- How a promise is settled when a stream or a timer of inference-api/src/scheduler/scheduler.service.ts ends.
use inference_stack.Prelude.{
  ℕ, ◌≡◌, refl, ◌≢◌, ◌∙◌, Option, none, some, arith, ℕ_eq, Option-cases, inl, inr,
}
use inference_stack.Map.{Map, get, delete}
use inference_stack.Scheduler.Requests.{completed, timeout}
use inference_stack.Scheduler.Results.{
  resolved, rejected, request_timed_out, Timer, single_timer, batch_timer,
}
use inference_stack.Scheduler.Responses.{single_completion}
use inference_stack.Scheduler.State.{SingleStream, Stream, single, Service, update}
use inference_stack.Scheduler.Service.{unsubscribe}
use inference_stack.Scheduler.Events.{stream_complete, timer_fired, stop_stream, close_stream}
use inference_stack.Scheduler.Invariant.{active_at, IsSound}
use inference_stack.Scheduler.Cancelling.{conclude-frame, unsettled_of}

-- When the stream of a single request completes, on a sound service where that request is active,
-- its promise is resolved with the text, the finish reason and the usage that the stream gathered,
-- and no other promise is settled.
pub stream_complete_outcome :
    (born : ℕ → ℕ) (now n : ℕ) (x : SingleStream) (s : Service)
    → IsSound born s
    → get n s.streams ≡ some (single x)
    → active_at x.request.id s ≡ 1
    → (((stream_complete now n s).progress x.request.id).outcome
        ≡ some (resolved (single_completion now x (s.progress x.request.id))))
      × ((i : ℕ)
          → i ≢ x.request.id
          → ((stream_complete now n s).progress i).outcome ≡ (s.progress i).outcome)
unfolding stream_complete
stream_complete_outcome born now n x s v found running =
    let o = resolved (single_completion now x (s.progress x.request.id)) in
    let unsettled = unsettled_of born x.request.id s v (omega (arith, running)) in
    let (settled, streams, others) =
      conclude-frame now completed o x.request.id (close_stream n s) unsettled in
    rw (found, stream_complete) (settled, others)

-- The streams that are left when a timer fired on a request: one that `dispatchRequest` set takes the
-- stream that the request subscribed to, one that `dispatchBatch` set takes none.
abbrev pub left_streams : Timer → Option ℕ → Map ℕ Stream → Map ℕ Stream
left_streams single_timer none streams = streams
left_streams single_timer (some n) streams = delete n streams
left_streams batch_timer subscription streams = streams

stop_stream-outcome :
    (t : Timer) (id i : ℕ) (s : Service)
    → ((stop_stream t id (update id (λ p. record p { timeout_timer = none }) s)).progress i).outcome
      ≡ (s.progress i).outcome
unfolding stop_stream unsubscribe update
stop_stream-outcome single_timer id i s = ground arith
stop_stream-outcome batch_timer id i s = ground arith

stop_stream-left_streams :
    (t : Timer) (id : ℕ) (s : Service)
    → (stop_stream t id (update id (λ p. record p { timeout_timer = none }) s)).streams
      ≡ left_streams t (s.progress id).subscription s.streams
unfolding stop_stream unsubscribe update
stop_stream-left_streams batch_timer id s = refl
stop_stream-left_streams single_timer id s = elim (Option-cases (s.progress id).subscription) [
  | inl unheard ↦ rw unheard (ground (arith, unheard))
  | inr (n, heard) ↦ rw heard (ground (arith, heard))
]

-- When the timer of an active request fires on a sound service, its promise is rejected with
-- "Request timed out" and no other promise is settled. If `dispatchRequest` set the timer, the
-- stream that the request subscribed to is taken out of the streams and all others stay; if
-- `dispatchBatch` set it, every stream stays.
pub timer_fired_outcome :
    (born : ℕ → ℕ) (now id : ℕ) (t : Timer) (s : Service)
    → IsSound born s
    → (s.progress id).timeout_timer ≡ some t
    → active_at id s ≡ 1
    → (((timer_fired now id s).progress id).outcome ≡ some (rejected request_timed_out))
      × ((timer_fired now id s).streams ≡ left_streams t (s.progress id).subscription s.streams)
      × ((i : ℕ) → i ≢ id → ((timer_fired now id s).progress i).outcome ≡ (s.progress i).outcome)
unfolding timer_fired
timer_fired_outcome born now id t s v armed running =
    let fired = update id (λ p. record p { timeout_timer = none }) s in
    let unsettled = unsettled_of born id s v (omega (arith, running)) in
    let (settled, streams, others) =
      conclude-frame now timeout (rejected request_timed_out) id (stop_stream t id fired)
        (stop_stream-outcome t id id s ∙ unsettled) in
    rw (armed, timer_fired)
      (
        settled,
        streams ∙ stop_stream-left_streams t id s,
        λ i other. others i other ∙ stop_stream-outcome t id i s,
      )
