-- ===== src/Scheduler/Invariant/Routes.antt =====
-- `router.route` coming back, with a worker or with an error.
use inference_stack.Prelude.{
  ℕ, refl, String, List, [], ◌∷◌, arith, All, Option-cases, inl, inr, ℕ_eq,
}
use inference_stack.Map.{Map, get, set, delete, All-set, All-delete, All-get}
use inference_stack.Scheduler.Requests.{error, Request}
use inference_stack.Scheduler.Results.{Outcome, rejected, thrown, Timer, single_timer, batch_timer}
use inference_stack.Scheduler.State.{Dispatch, one_request, several, Entry, Stream, Service}
use inference_stack.Scheduler.Events.{
  conclude, attach, attach_all, activate, activate_all, entries, open_stream, routed, reject_all,
  requests_of, route_resolved, route_rejected,
}
use inference_stack.Scheduler.Responses.{or_time}
use inference_stack.Scheduler.Invariant.{
  HasBegun, RouteBegan, EntryBegan, IsBegunStream, StreamBegan, IsSound, Grows, HasBegun-Grows,
  All-HasBegun-Grows,
}
use inference_stack.Scheduler.Invariant.Closing.{
  update-Grows, update-IsSound, conclude-Grows, conclude-IsSound,
}

-- The awaited calls and the streams change alone.
reroute-IsSound :
    (born : ℕ → ℕ) (n : ℕ) (s : Service)
    → IsSound born s
    → IsSound born (record s { awaiting = delete n s.awaiting })
reroute-IsSound born n s v = record {
  queues = v.queues;
  depth = v.depth;
  budget = v.budget;
  counted = v.counted;
  exact = v.exact;
  issued_once = v.issued_once;
  kept = v.kept;
  ran = v.ran;
  keyed = v.keyed;
  timed = v.timed;
  routes = All-delete (RouteBegan s) n s.awaiting v.routes;
  streams = v.streams;
}

pub restream-IsSound :
    (born : ℕ → ℕ) (m : Map ℕ Stream) (s : Service)
    → All (StreamBegan s) m
    → IsSound born s
    → IsSound born (record s { streams = m })
restream-IsSound born m s h v = record {
  queues = v.queues;
  depth = v.depth;
  budget = v.budget;
  counted = v.counted;
  exact = v.exact;
  issued_once = v.issued_once;
  kept = v.kept;
  ran = v.ran;
  keyed = v.keyed;
  timed = v.timed;
  routes = v.routes;
  streams = h;
}

pub open_stream-IsSound :
    (born : ℕ → ℕ) (n : ℕ) (x : Stream) (s : Service)
    → IsBegunStream s x
    → IsSound born s
    → IsSound born (open_stream n x s)
open_stream-IsSound born n x s h v =
    restream-IsSound born (set n x s.streams) s (All-set (StreamBegan s) n x s.streams v.streams h)
      v

attach-Grows :
    (n : ℕ) (t : Timer) (r : Request) (s : Service) → HasBegun s r → Grows s (attach n t r s)
unfolding attach
attach-Grows n t r s h = update-Grows r.id _ s h

attach-IsSound :
    (born : ℕ → ℕ) (n : ℕ) (t : Timer) (r : Request) (s : Service)
    → HasBegun s r
    → IsSound born s
    → IsSound born (attach n t r s)
unfolding attach
attach-IsSound born n t r s h v = update-IsSound r.id _ s h born refl h v

attach_all-IsSound :
    (born : ℕ → ℕ) (n : ℕ) (rs : List Request) (s : Service)
    → All (HasBegun s) rs
    → IsSound born s
    → IsSound born (attach_all n rs s)
unfolding attach_all
attach_all-IsSound born n [] s h v = v
attach_all-IsSound born n (r ∷ rs) s h v =
    attach_all-IsSound born n rs (attach n batch_timer r s)
      (All-HasBegun-Grows s (attach n batch_timer r s) rs (attach-Grows n batch_timer r s h.0) h.1)
      (attach-IsSound born n batch_timer r s h.0 v)

activate-Grows : (now start : ℕ) (r : Request) (s : Service) → Grows s (activate now start r s)
unfolding activate
activate-Grows now start r s = update-Grows r.id _ s refl

activate-IsSound :
    (born : ℕ → ℕ) (now start : ℕ) (r : Request) (s : Service)
    → HasBegun s r
    → IsSound born s
    → IsSound born (activate now start r s)
unfolding activate
activate-IsSound born now start r s h v = update-IsSound r.id _ s refl born refl h v

activate_all-IsSound :
    (born : ℕ → ℕ) (now start : ℕ) (rs : List Request) (s : Service)
    → All (HasBegun s) rs
    → IsSound born s
    → IsSound born (activate_all now start rs s)
unfolding activate_all
activate_all-IsSound born now start [] s h v = v
activate_all-IsSound born now start (r ∷ rs) s h v =
    activate_all-IsSound born now start rs (activate now start r s)
      (All-HasBegun-Grows s (activate now start r s) rs (activate-Grows now start r s) h.1)
      (activate-IsSound born now start r s h.0 v)

activate_all-Grows :
    (now start : ℕ) (rs : List Request) (s : Service) → Grows s (activate_all now start rs s)
unfolding activate_all
activate_all-Grows now start [] s i = omega arith
activate_all-Grows now start (r ∷ rs) s i = omega (
  arith,
  activate-Grows now start r s i,
  activate_all-Grows now start rs (activate now start r s) i,
)

entries-EntryBegan :
    (s : Service) (rs : List Request) (m : Map ℕ Entry)
    → All (HasBegun s) rs
    → All (EntryBegan s) m
    → All (EntryBegan s) (entries rs m)
unfolding entries
entries-EntryBegan s [] m h k = k
entries-EntryBegan s (r ∷ rs) m h k =
    entries-EntryBegan s rs _ h.1 (All-set (EntryBegan s) r.id _ m k h.0)

routed-IsSound :
    (born : ℕ → ℕ) (now n : ℕ) (worker_id : String) (d : Dispatch) (s : Service)
    → All (HasBegun s) (requests_of d)
    → IsSound born s
    → IsSound born (routed now n worker_id d s)
unfolding routed
routed-IsSound born now n worker_id (one_request r) s h v =
    attach-IsSound born n single_timer r _ began
      (open_stream-IsSound born n _ _ began (activate-IsSound born now start r s h.0 v))
  where
    start : ℕ
    start = or_time (s.progress r.id).dispatch_start_time now

    began : HasBegun (activate now start r s) r
    began = HasBegun-Grows s (activate now start r s) (activate-Grows now start r s) r h.0
routed-IsSound born now n worker_id (several rs start) s h v =
    attach_all-IsSound born n rs _ began (
      open_stream-IsSound born n _ _
        (entries-EntryBegan (activate_all now start rs s) rs [] began tt)
        (activate_all-IsSound born now start rs s h v))
  where
    began : All (HasBegun (activate_all now start rs s)) rs
    began =
        All-HasBegun-Grows s (activate_all now start rs s) rs (activate_all-Grows now start rs s) h

reject_all-IsSound :
    (born : ℕ → ℕ) (now : ℕ) (err : String) (rs : List Request) (s : Service)
    → All (HasBegun s) rs
    → IsSound born s
    → IsSound born (reject_all now err rs s)
unfolding reject_all
reject_all-IsSound born now err [] s h v = v
reject_all-IsSound born now err (r ∷ rs) s h v =
    reject_all-IsSound born now err rs (conclude now error o r.id s)
      (All-HasBegun-Grows s (conclude now error o r.id s) rs
        (conclude-Grows now error o r.id s refl) h.1)
      (conclude-IsSound born now error o r.id s refl h.0 v)
  where
    o : Outcome
    o = rejected (thrown err)

-- A worker that the router returns: the invariant is kept.
pub route_resolved-IsSound :
    (born : ℕ → ℕ) (now n : ℕ) (worker_id : String) (s : Service)
    → IsSound born s
    → IsSound born (route_resolved now n worker_id s)
unfolding route_resolved
route_resolved-IsSound born now n worker_id s v = elim (Option-cases (get n s.awaiting)) [
  | inl over ↦ rw (over, route_resolved) v
  | inr (d, found) ↦
      rw (found, route_resolved)
        (routed-IsSound born now n worker_id d _
          (All-get (RouteBegan s) n d s.awaiting v.routes found) (reroute-IsSound born n s v))
]

-- An error that the router throws: the invariant is kept.
pub route_rejected-IsSound :
    (born : ℕ → ℕ) (now n : ℕ) (err : String) (s : Service)
    → IsSound born s
    → IsSound born (route_rejected now n err s)
unfolding route_rejected
route_rejected-IsSound born now n err s v = elim (Option-cases (get n s.awaiting)) [
  | inl over ↦ rw (over, route_rejected) v
  | inr (d, found) ↦
      rw (found, route_rejected)
        (reject_all-IsSound born now err (requests_of d) _
          (All-get (RouteBegan s) n d s.awaiting v.routes found) (reroute-IsSound born n s v))
]
