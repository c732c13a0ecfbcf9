-- ===== src/Scheduler/Cancelling.antt =====
-- What `cancel` of inference-api/src/scheduler/scheduler.service.ts does to the request that it
-- names, and to those that share a stream with it; and how `finishRequest` leaves the promises.
use inference_stack.Prelude.{
  ℕ, ◌+◌, ◌≤◌, ◌≡◌, refl, ◌≢◌, ◌∙◌, String, none, some, arith, ℕ_eq, Option-cases, inl, inr,
}
use inference_stack.Map.{get, IsDistinct, get-delete_self, All-get}
use inference_stack.Scheduler.Requests.{RequestState, cancelled, Request}
use inference_stack.Scheduler.Results.{InferResponse, Outcome, rejected, request_cancelled}
use inference_stack.Scheduler.Queues.{Queues, cancel_queued}
use inference_stack.Scheduler.Queues.Cancel.{
  is_id, IsCancelled, cancel_queued-IsCancelled, cancel_queued-none,
}
use inference_stack.Scheduler.State.{Service, update, set_state, settle}
use inference_stack.Scheduler.Dispatching.{release, finish_request}
use inference_stack.Scheduler.Service.{unsubscribe, cancel_active, reject_queued, cancel}
use inference_stack.Scheduler.Events.{conclude, stream_next, stream_complete, stream_error}
use inference_stack.Scheduler.Invariant.{IsKeyed, queued_at, pending_at, active_at, IsSound}
use inference_stack.Scheduler.Invariant.Flow.{get_of_absent}
use inference_stack.Scheduler.Invariant.Closing.{absent_of_get}
use inference_stack.Scheduler.Invariant.Calls.{has_key-get}
use inference_stack.Scheduler.Dispatches.{try_dispatch-frame}

-- Whatever leaves the queues for an id was queued under it.
cancelled-queued_at :
    (id : ℕ) (s : Service) (r : Request) (q : Queues)
    → IsCancelled id s.queues r q
    → 1 ≤ queued_at id s
cancelled-queued_at id s r q c = ground (arith, c.conserved (is_id id), c.same_id)

-- On a sound service, `cancel` of an id that is neither queued nor active changes nothing.
pub cancel_elsewhere :
    (born : ℕ → ℕ) (now id : ℕ) (s : Service)
    → IsSound born s
    → queued_at id s ≡ 0
    → active_at id s ≡ 0
    → cancel now id s ≡ s
unfolding cancel
cancel_elsewhere born now id s v unqueued idle = elim (Option-cases (cancel_queued id s.queues)) [
  | inl missing ↦ rw (missing, cancel) (rw (get_of_absent id s.active_requests idle, cancel) refl)
  | inr ((r, q), found) ↦ absurd (
      omega (
        arith,
        unqueued,
        cancelled-queued_at id s r q (cancel_queued-IsCancelled id s.queues r q v.queues found),
      ))
]

-- On a sound service, `cancel` of an id whose request waits in a bucket of the batch collector
-- changes nothing.
pub cancel_in_bucket :
    (born : ℕ → ℕ) (now id : ℕ) (s : Service)
    → IsSound born s
    → pending_at id s ≡ 1
    → cancel now id s ≡ s
cancel_in_bucket born now id s v bucketed =
    cancel_elsewhere born now id s v (omega (arith, bucketed, v.exact id, v.issued_once id))
      (omega (arith, bucketed, v.exact id, v.issued_once id))

-- `finishRequest` settles no promise and closes no stream.
finish_request-frame :
    (now id : ℕ) (s : Service)
    → ((finish_request now id s).streams ≡ s.streams)
      × ((i : ℕ) → ((finish_request now id s).progress i).outcome ≡ (s.progress i).outcome)
unfolding finish_request
finish_request-frame now id s = elim (Option-cases (get id s.active_requests)) [
  | inl over ↦ rw (over, finish_request) (refl, λ i. refl)
  | inr (r, found) ↦
      let (streams, outcomes) = try_dispatch-frame now (release id s) in
      rw (found, finish_request)
        (streams ∙ (unfold release update in refl), λ i. outcomes i ∙ released i)
]
  where
    released : (i : ℕ) → ((release id s).progress i).outcome ≡ (s.progress i).outcome
    released i = unfold release update in ground arith

-- A request that ends is settled as its caller says, if it was not settled before, and no other
-- request is settled; no stream is closed.
pub conclude-frame :
    (now : ℕ) (st : RequestState) (o : Outcome) (id : ℕ) (s : Service)
    → (s.progress id).outcome ≡ none
    → (((conclude now st o id s).progress id).outcome ≡ some o)
      × ((conclude now st o id s).streams ≡ s.streams)
      × ((i : ℕ) → i ≢ id → ((conclude now st o id s).progress i).outcome ≡ (s.progress i).outcome)
unfolding conclude update settle set_state
conclude-frame now st o id s unsettled =
    let (streams, outcomes) = finish_request-frame now id (update id (set_state st) s) in
    (ground (arith, outcomes id, unsettled), streams, λ i other. ground (arith, outcomes i))

pub unsettled_of :
    (born : ℕ → ℕ) (id : ℕ) (s : Service)
    → IsSound born s
    → 1 ≤ queued_at id s + active_at id s
    → (s.progress id).outcome ≡ none
unsettled_of born id s v lives = ground (arith, v.exact id, v.issued_once id)

has_key-lives :
    (id : ℕ) (r : Request) (s : Service)
    → get id s.active_requests ≡ some r
    → 1 ≤ queued_at id s + active_at id s
has_key-lives id r s found = omega (arith, has_key-get id r s.active_requests found)

-- The request that `activeRequests` has at an id, cancelled: its promise is rejected, no other is
-- settled, and its stream is closed.
cancel_active-frame :
    (now : ℕ) (id : ℕ) (s : Service)
    → (s.progress id).outcome ≡ none
    → (((cancel_active now id s).progress id).outcome ≡ some (rejected request_cancelled))
      × ((cancel_active now id s).streams ≡ (unsubscribe id s).streams)
      × ((i : ℕ) → i ≢ id → ((cancel_active now id s).progress i).outcome ≡ (s.progress i).outcome)
unfolding cancel_active
cancel_active-frame now id s unsettled =
    let (settled, streams, others) =
      conclude-frame now cancelled (rejected request_cancelled) id (unsubscribe id s)
        (same id ∙ unsettled) in
    (
      unfold conclude in settled,
      unfold conclude in streams,
      λ i other. unfold conclude in (others i other ∙ same i),
    )
  where
    same : (i : ℕ) → ((unsubscribe id s).progress i).outcome ≡ (s.progress i).outcome
    same i = unfold unsubscribe in ground arith

-- On a sound service, `cancel` of an id that is queued or active settles its promise with
-- "Request cancelled".
pub cancel_outcome :
    (born : ℕ → ℕ) (now id : ℕ) (s : Service)
    → IsSound born s
    → 1 ≤ queued_at id s + active_at id s
    → ((cancel now id s).progress id).outcome ≡ some (rejected request_cancelled)
unfolding cancel
cancel_outcome born now id s v lives = elim (Option-cases (cancel_queued id s.queues)) [
  | inl missing ↦ elim (Option-cases (get id s.active_requests)) [
    | inl over ↦ absurd (
        omega (
          arith,
          lives,
          absent_of_get id s.active_requests over,
          cancel_queued-none id s.queues missing,
        ))
    | inr (r, found) ↦
        let keyed : id ≡ r.id = All-get IsKeyed id r s.active_requests v.keyed found in
        rw (missing, cancel)
          (rw (found, cancel)
            (rw (← keyed) (cancel_active-frame now id s (unsettled_of born id s v lives)).0))
  ]
  | inr ((r, q), found) ↦
      let c = cancel_queued-IsCancelled id s.queues r q v.queues found in
      rw (found, cancel)
        (unfold reject_queued update set_state settle in
          ground (arith, c.same_id, unsettled_of born id s v lives))
]

cancel-closes :
    (born : ℕ → ℕ) (now id n : ℕ) (s : Service)
    → IsSound born s
    → IsDistinct s.streams
    → active_at id s ≡ 1
    → (s.progress id).subscription ≡ some n
    → ((i : ℕ) → i ≢ id → ((cancel now id s).progress i).outcome ≡ (s.progress i).outcome)
      × (get n (cancel now id s).streams ≡ none)
unfolding cancel
cancel-closes born now id n s v distinct running subscribed =
    elim (Option-cases (cancel_queued id s.queues)) [
      | inr ((r, q), found) ↦ absurd (
          omega (
            arith,
            running,
            v.exact id,
            v.issued_once id,
            cancelled-queued_at id s r q (cancel_queued-IsCancelled id s.queues r q v.queues found),
          ))
      | inl missing ↦ elim (Option-cases (get id s.active_requests)) [
        | inl over ↦ absurd (omega (arith, running, absent_of_get id s.active_requests over))
        | inr (r, found) ↦
            let keyed : id ≡ r.id = All-get IsKeyed id r s.active_requests v.keyed found in
            let unsettled = unsettled_of born id s v (has_key-lives id r s found) in
            let (settled, streams, others) = cancel_active-frame now id s unsettled in
            rw (missing, cancel)
              (rw (found, cancel)
                (rw (← keyed) (
                  others,
                  rw streams (
                      unfold unsubscribe in
                      rw (subscribed, unsubscribe) (get-delete_self n s.streams distinct)),
                )))
      ]
    ]

-- On a sound service whose streams have distinct numbers, `cancel` of an active request that is
-- subscribed to a stream, alone or with others, leaves every other promise as it was, and from then
-- on no message, completion or error of that stream does anything.
pub cancel_closes_stream :
    (born : ℕ → ℕ) (now id n : ℕ) (s : Service)
    → IsSound born s
    → IsDistinct s.streams
    → active_at id s ≡ 1
    → (s.progress id).subscription ≡ some n
    → ((i : ℕ) → i ≢ id → ((cancel now id s).progress i).outcome ≡ (s.progress i).outcome)
      × ((later : ℕ) (response : InferResponse)
          → stream_next later n response (cancel now id s) ≡ cancel now id s)
      × ((later : ℕ) → stream_complete later n (cancel now id s) ≡ cancel now id s)
      × ((later : ℕ) (message : String)
          → stream_error later n message (cancel now id s) ≡ cancel now id s)
cancel_closes_stream born now id n s v distinct running subscribed =
    let (others, closed) = cancel-closes born now id n s v distinct running subscribed in
    (
      others,
      λ later response. unfold stream_next in rw (closed, stream_next) refl,
      λ later. unfold stream_complete in rw (closed, stream_complete) refl,
      λ later message. unfold stream_error in rw (closed, stream_error) refl,
    )
