-- ===== src/Scheduler/Invariant.antt =====
-- The invariant of the scheduler, over the definitions of `State`, `Dispatching` and `Events`.
-- `born` says which ids have been issued, `flight` which requests a call in progress has in its
-- hands, and `debt` which requests it has finished and has yet to settle; between calls the last two
-- are zero everywhere.
pub mod Flow
pub mod Rounds
pub mod Closing
pub mod Routes
pub mod Streams
pub mod Ends
pub mod Calls
use inference_stack.Prelude.{
  ℕ, zero, suc, ◌+◌, ◌-◌, ◌≤◌, ◌<◌, String, ◌≡◌, refl, ap, Bool, true, false, Option, none, some,
  List, [], ◌∷◌, ◌++◌, map, arith, All, All-imp, length, sum_of, ◌==◌, ℕ_eq, if◌then◌else◌, ltb,
}
use inference_stack.Map.{Map, get, set, delete, values}
use inference_stack.Batching.{BatchableRequest}
use inference_stack.Batching.Conservation.{pending}
use inference_stack.Scheduler.Requests.{
  RequestState, queued, routing, active, completed, error, cancelled, timeout, Request,
}
use inference_stack.Scheduler.Results.{Outcome, Timer, Progress}
use inference_stack.Scheduler.Queues.Counters.{IsValid, waiting, one, tokens}
use inference_stack.Scheduler.Queues.Cancel.{is_id}
use inference_stack.Scheduler.State.{
  Dispatch, one_request, several, SingleStream, Entry, Stream, single, batch, Service,
}
use inference_stack.Scheduler.Events.{requests_of}

abbrev pub has_begun : RequestState → ℕ
has_begun queued = 0
has_begun _ = 1

abbrev pub is_some : {A : Type 0} → Option A → ℕ
is_some none = 0
is_some (some a) = 1

-- How often an id is queued, waits in the collector, is active, and is settled; and whether its
-- dispatch has begun and its timer runs.
abbrev pub queued_at : ℕ → Service → ℕ
queued_at i s = waiting (is_id i) s.queues

abbrev pub of_context : ℕ → BatchableRequest Request → ℕ
of_context i b = is_id i b.context

abbrev pub pending_at : ℕ → Service → ℕ
pending_at i s = pending (of_context i) s.collector

abbrev pub has_key : ℕ → ℕ × Request → ℕ
has_key i e = if e.0 == i then 1 else 0

abbrev pub IsKeyed : ℕ × Request → Type 0
IsKeyed e = e.0 ≡ e.1.id

abbrev pub active_at : ℕ → Service → ℕ
active_at i s = sum_of (has_key i) s.active_requests

abbrev pub settled_at : ℕ → Service → ℕ
settled_at i s = is_some (s.progress i).outcome

abbrev pub begun_at : ℕ → Service → ℕ
begun_at i s = has_begun (s.progress i).state

abbrev pub timer_at : ℕ → Service → ℕ
timer_at i s = is_some (s.progress i).timeout_timer

abbrev pub HasBegun : Service → Request → Type 0
HasBegun s r = begun_at r.id s ≡ 1

abbrev pub RouteBegan : Service → ℕ × Dispatch → Type 0
RouteBegan s e = All (HasBegun s) (requests_of e.1)

abbrev pub EntryBegan : Service → ℕ × Entry → Type 0
EntryBegan s e = HasBegun s e.1.request

abbrev pub IsBegunStream : Service → Stream → Type 0
IsBegunStream s (single x) = HasBegun s x.request
IsBegunStream s (batch worker_id m) = All (EntryBegan s) m

abbrev pub StreamBegan : Service → ℕ × Stream → Type 0
StreamBegan s e = IsBegunStream s e.1

pub record IsSoundWith (born flight debt : ℕ → ℕ) (s : Service) : Type 0 where
  pub queues : IsValid s.queues
  pub depth : waiting one s.queues ≤ s.max_queue_depth
  pub budget : waiting tokens s.queues ≤ s.max_queued_tokens
  pub counted : s.active_count ≡ length s.active_requests
  pub exact :
      (i : ℕ)
      → queued_at i s + pending_at i s + active_at i s + settled_at i s + flight i + debt i ≡ born i
  pub issued_once : (i : ℕ) → born i ≤ 1
  pub kept : (i : ℕ) → begun_at i s ≤ active_at i s + settled_at i s + debt i
  pub ran : (i : ℕ) → active_at i s ≤ begun_at i s
  pub keyed : All IsKeyed s.active_requests
  pub timed : (i : ℕ) → timer_at i s ≤ begun_at i s
  pub routes : All (RouteBegan s) s.awaiting
  pub streams : All (StreamBegan s) s.streams

abbrev pub nothing : ℕ → ℕ
nothing i = 0

-- Between calls: the counters are right and the queues within their limits; every issued id is queued, in the collector, active or
-- settled, in exactly one of these ways and once; a request whose dispatch began is active or
-- settled, and an active one has begun; timers, awaited routes and streams are those of requests whose dispatch began.
abbrev pub IsSound : (ℕ → ℕ) → Service → Type 0
IsSound born s = IsSoundWith born nothing nothing s

-- No request goes back to the state `queued`.
abbrev pub Grows : Service → Service → Type 0
Grows s t = (i : ℕ) → begun_at i s ≤ begun_at i t

pub begun-le-one : (p : Progress) → has_begun p.state ≤ 1
begun-le-one p = ground arith

pub HasBegun-Grows : (s t : Service) → Grows s t → (r : Request) → HasBegun s r → HasBegun t r
HasBegun-Grows s t g r h = omega (arith, g r.id, begun-le-one (t.progress r.id))

pub All-HasBegun-Grows :
    (s t : Service) (rs : List Request) → Grows s t → All (HasBegun s) rs → All (HasBegun t) rs
All-HasBegun-Grows s t rs g = All-imp (HasBegun s) (HasBegun t) rs (HasBegun-Grows s t g)

pub routes-grow :
    (s t : Service) (m : Map ℕ Dispatch) → Grows s t → All (RouteBegan s) m → All (RouteBegan t) m
routes-grow s t m g =
    All-imp (RouteBegan s) (RouteBegan t) m (λ e. All-HasBegun-Grows s t (requests_of e.1) g)

IsBegunStream-Grows :
    (s t : Service) (x : Stream) → Grows s t → IsBegunStream s x → IsBegunStream t x
IsBegunStream-Grows s t (single x) g h = HasBegun-Grows s t g x.request h
IsBegunStream-Grows s t (batch worker_id m) g h =
    All-imp (EntryBegan s) (EntryBegan t) m (λ e. HasBegun-Grows s t g e.1.request) h

pub streams-grow :
    (s t : Service) (m : Map ℕ Stream) → Grows s t → All (StreamBegan s) m → All (StreamBegan t) m
streams-grow s t m g =
    All-imp (StreamBegan s) (StreamBegan t) m (λ e. IsBegunStream-Grows s t e.1 g)
