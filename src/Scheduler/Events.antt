-- ===== src/Scheduler/Events.antt =====
-- The callbacks of inference-api/src/scheduler/scheduler.service.ts: `router.route` coming back, the
-- messages of a worker's stream, its completion and its error, and a request's timer. A stream that
-- is unsubscribed, completed or failed calls back no more, and is no longer in `streams`; workers
-- answer after the subscription, never during the call.
use inference_stack.Prelude.{
  ℕ, String, Bool, true, false, Option, none, some, List, [], ◌∷◌, ltb, ◌==◌, ℕ_eq, string_eq,
  if◌then◌else◌, sub_ℕ,
}
use Prim.Native.String
use inference_stack.Map.{Map, get, set, delete, values}
use inference_stack.Scheduler.Requests.{RequestState, active, completed, error, timeout, Request}
use inference_stack.Scheduler.Results.{
  Chunk, Complete, ResponseError, InferResponse, request_timed_out, worker_error, server_error,
  thrown, Outcome, resolved, rejected, Timer, single_timer, batch_timer,
}
use inference_stack.Scheduler.Responses.{
  or_time, single_completion, batch_completion, fallback_completion,
}
use inference_stack.Scheduler.State.{
  Dispatch, one_request, several, SingleStream, Entry, Stream, single, batch, Service, update,
  set_state, settle,
}
use inference_stack.Scheduler.Dispatching.{finish_request}
use inference_stack.Scheduler.Service.{or_empty_text, unsubscribe}

-- `request.state = …; this.finishRequest(request); request.resolve(…)` or `reject(…)`, the end of
-- most paths.
unfoldable pub conclude : ℕ → RequestState → Outcome → ℕ → Service → Service
conclude now st o id s = update id (settle o) (finish_request now id (update id (set_state st) s))

-- The same where the code leaves the state: a worker's error message.
unfoldable pub fail_in_place : ℕ → Outcome → ℕ → Service → Service
fail_in_place now o id s = update id (settle o) (finish_request now id s)

-- `request.subscription = subscription`, and the timer if there is a timeout.
unfoldable pub attach : ℕ → Timer → Request → Service → Service
attach stream timer r s =
    let armed = if ltb 0 s.request_timeout_ms then some timer else none in
    update r.id
      (λ p. record p {
        subscription = some stream;
        timeout_timer = elim armed [ none ↦ p.timeout_timer | some t ↦ some t ];
      })
      s

unfoldable pub attach_all : ℕ → List Request → Service → Service
attach_all stream [] s = s
attach_all stream (r ∷ rs) s = attach_all stream rs (attach stream batch_timer r s)

-- The routing time since a start, and the state `active`.
unfoldable pub activate : ℕ → ℕ → Request → Service → Service
activate now start r s =
    update r.id (λ p. record p { routing_time_ms = some (sub_ℕ now start); state = active }) s

unfoldable pub activate_all : ℕ → ℕ → List Request → Service → Service
activate_all now start [] s = s
activate_all now start (r ∷ rs) s = activate_all now start rs (activate now start r s)

unfoldable pub entries : List Request → Map ℕ Entry → Map ℕ Entry
entries [] m = m
entries (r ∷ rs) m =
    entries rs (set r.id (record { request = r; text = ""; thinking_content = ""; usage = none }) m)

abbrev pub open_stream : ℕ → Stream → Service → Service
open_stream n x s = record s { streams = set n x s.streams }

-- What follows `await this.router.route(…)`.
unfoldable pub routed : ℕ → ℕ → String → Dispatch → Service → Service
routed now n worker_id (one_request r) s =
    let start = or_time (s.progress r.id).dispatch_start_time now in
    let x : SingleStream = record {
      request = r;
      worker_id = worker_id;
      full_text = "";
      thinking_content = "";
      usage = none;
      finish_reason = "";
    } in
    attach n single_timer r (open_stream n (single x) (activate now start r s))
routed now n worker_id (several rs start) s =
    attach_all n rs (open_stream n (batch worker_id (entries rs [])) (activate_all now start rs s))

unfoldable pub reject_all : ℕ → String → List Request → Service → Service
reject_all now err [] s = s
reject_all now err (r ∷ rs) s =
    reject_all now err rs (conclude now error (rejected (thrown err)) r.id s)

abbrev pub requests_of : Dispatch → List Request
requests_of (one_request r) = r ∷ []
requests_of (several rs start) = rs

unfoldable pub route_resolved : ℕ → ℕ → String → Service → Service
route_resolved now n worker_id s = elim (get n s.awaiting) [
  | none ↦ s
  | some d ↦ routed now n worker_id d (record s { awaiting = delete n s.awaiting })
]

unfoldable pub route_rejected : ℕ → ℕ → String → Service → Service
route_rejected now n err s = elim (get n s.awaiting) [
  | none ↦ s
  | some d ↦ reject_all now err (requests_of d) (record s { awaiting = delete n s.awaiting })
]

abbrev pub chunk_text : Chunk → String
chunk_text c = or_empty_text c.text

unfoldable pub add_chunk : Option Chunk → SingleStream → SingleStream
add_chunk none x = x
add_chunk (some c) x =
    if c.is_thinking
    then record x { thinking_content = String.◌++◌ x.thinking_content (chunk_text c) }
    else record x { full_text = String.◌++◌ x.full_text (chunk_text c) }

unfoldable pub add_complete : Option Complete → SingleStream → SingleStream
add_complete none x = x
add_complete (some c) x = record x { finish_reason = c.finish_reason; usage = c.usage }

unfoldable pub entry_chunk : Option Chunk → Entry → Entry
entry_chunk none e = e
entry_chunk (some c) e =
    if c.is_thinking
    then record e { thinking_content = String.◌++◌ e.thinking_content (chunk_text c) }
    else record e { text = String.◌++◌ e.text (chunk_text c) }

unfoldable pub entry_usage : Option Complete → Entry → Entry
entry_usage none e = e
entry_usage (some c) e = record e { usage = c.usage }

-- `if (response.error) …`
unfoldable pub report_error : ℕ → Option ResponseError → ℕ → Service → Service
report_error now none id s = s
report_error now (some err) id s = fail_in_place now (rejected (worker_error err)) id s

-- `if (response.complete) …` of a batch. The result reads the request's times, which the calls
-- before it leave alone.
unfoldable pub report_complete : ℕ → String → Entry → Option Complete → Service → Service
report_complete now worker_id e none s = s
report_complete now worker_id e (some c) s =
    let id = e.request.id in
    conclude now completed
      (resolved (batch_completion now worker_id e c.finish_reason (s.progress id))) id s

unfoldable pub next_single : ℕ → ℕ → SingleStream → InferResponse → Service → Service
next_single now n x response s =
    let x' = add_complete response.complete (add_chunk response.chunk x) in
    report_error now response.error x.request.id (open_stream n (single x') s)

unfoldable pub next_batch : ℕ → ℕ → String → Map ℕ Entry → InferResponse → Service → Service
next_batch now n worker_id m response s = elim (get response.request_id m) [
  | none ↦ s
  | some e ↦
      let e' = entry_usage response.complete (entry_chunk response.chunk e) in
      let written = open_stream n (batch worker_id (set response.request_id e' m)) s in
      report_error now response.error e.request.id
        (report_complete now worker_id e' response.complete written)
]

unfoldable pub stream_next : ℕ → ℕ → InferResponse → Service → Service
stream_next now n response s = elim (get n s.streams) [
  | none ↦ s
  | some (single x) ↦ next_single now n x response s
  | some (batch worker_id m) ↦ next_batch now n worker_id m response s
]

abbrev pub is_active : RequestState → Bool
is_active active = true
is_active _ = false

abbrev pub is_over : RequestState → Bool
is_over completed = true
is_over error = true
is_over _ = false

-- The loop of a batch's `complete` callback, and one round of it.
unfoldable pub complete_one : ℕ → String → Entry → Service → Service
complete_one now worker_id e s =
    let id = e.request.id in
    if is_active (s.progress id).state
    then conclude now completed (resolved (fallback_completion now worker_id e)) id s
    else s

unfoldable pub complete_rest : ℕ → String → List Entry → Service → Service
complete_rest now worker_id [] s = s
complete_rest now worker_id (e ∷ es) s =
    complete_rest now worker_id es (complete_one now worker_id e s)

-- The loop of a batch's `error` callback, and one round of it.
unfoldable pub fail_one : ℕ → String → Entry → Service → Service
fail_one now message e s =
    let id = e.request.id in
    if is_over (s.progress id).state
    then s
    else conclude now error (rejected (server_error message)) id s

unfoldable pub fail_rest : ℕ → String → List Entry → Service → Service
fail_rest now message [] s = s
fail_rest now message (e ∷ es) s = fail_rest now message es (fail_one now message e s)

abbrev pub close_stream : ℕ → Service → Service
close_stream n s = record s { streams = delete n s.streams }

unfoldable pub stream_complete : ℕ → ℕ → Service → Service
stream_complete now n s = elim (get n s.streams) [
  | none ↦ s
  | some (single x) ↦
      let id = x.request.id in
      conclude now completed (resolved (single_completion now x (s.progress id))) id
        (close_stream n s)
  | some (batch worker_id m) ↦ complete_rest now worker_id (values m) (close_stream n s)
]

-- `err.message || fallback`
unfoldable pub message_or : String → String → String
message_or message fallback = if message == "" then fallback else message

unfoldable pub stream_error : ℕ → ℕ → String → Service → Service
stream_error now n message s = elim (get n s.streams) [
  | none ↦ s
  | some (single x) ↦
      conclude now error (rejected (server_error (message_or message "Inference failed")))
        x.request.id (close_stream n s)
  | some (batch worker_id m) ↦
      fail_rest now (message_or message "Batch inference failed") (values m) (close_stream n s)
]

-- The timer of a single request unsubscribes, that of a member of a batch does not.
unfoldable pub stop_stream : Timer → ℕ → Service → Service
stop_stream single_timer id s = unsubscribe id s
stop_stream batch_timer id s = s

-- A request's timer, which runs once.
unfoldable pub timer_fired : ℕ → ℕ → Service → Service
timer_fired now id s = elim (s.progress id).timeout_timer [
  | none ↦ s
  | some t ↦
      let fired = update id (λ p. record p { timeout_timer = none }) s in
      conclude now timeout (rejected request_timed_out) id (stop_stream t id fired)
]
