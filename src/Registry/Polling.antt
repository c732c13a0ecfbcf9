-- ===== src/Registry/Polling.antt =====
-- Polls of inference-api/src/worker-orchestrator/worker-registry.ts that come back.
use inference_stack.Prelude.{ℕ, String, ◌≡◌, refl, ◌≢◌, true, false, none, some, string_eq}
use inference_stack.Map.{get-set_self, get-set_ne}
use inference_stack.Registry.{
  WorkerSnapshot, WorkerState, Registry, remove_worker, get_worker, get_snapshot, to_snapshot,
  unhealthy, poll_answered, poll_failed,
}
use inference_stack.Registry.Clients.{IsTracked, absent-remove_worker}

-- A poll that answers after its worker was removed from a registry whose clients are tracked puts a
-- healthy snapshot back for an id that has no worker.
pub poll_answered-remove_worker :
    (id : String) (now : ℕ) (state : WorkerState) (r : Registry)
    → IsTracked r
    → (get_worker id (poll_answered id now state (remove_worker id r)) ≡ none)
      × (get_snapshot id (poll_answered id now state (remove_worker id r))
          ≡ some (to_snapshot id now state))
      × ((to_snapshot id now state).healthy ≡ true)
unfolding get_worker poll_answered to_snapshot
poll_answered-remove_worker id now state r v = (
  rw (absent-remove_worker id r v.distinct, get_worker) refl,
  get-set_self id _ (remove_worker id r).snapshots,
  refl,
)

-- A poll that fails marks its worker unhealthy, keeps what was known of its GPU, its models and its
-- load if there was a snapshot, and leaves the snapshots of other workers as they were.
poll_failed-get_snapshot :
    (id : String) (now : ℕ) (s : WorkerSnapshot) (r : Registry)
    → get_snapshot id r ≡ some s
    → (get_snapshot id (poll_failed id now r)
        ≡ some (record s { worker_id = id; healthy = false; last_updated = now }))
      × ((other : String)
          → id ≢ other
          → get_snapshot other (poll_failed id now r) ≡ get_snapshot other r)
unfolding poll_failed unhealthy
poll_failed-get_snapshot id now s r known = (
  rw known (get-set_self id _ r.snapshots),
  λ other apart. get-set_ne id other _ r.snapshots apart,
)
