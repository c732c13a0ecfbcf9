-- ===== src/Registry/Clients.antt =====
-- No gRPC client of inference-api/src/worker-orchestrator/worker-registry.ts is lost: each one that
-- was created is a worker's, once, or closed, once.
use inference_stack.Prelude.{
  ℕ, ◌+◌, String, ◌≡◌, true, none, List, [], ◌∷◌, arith, sum_of, ltb, ◌==◌, ℕ_eq, string_eq,
  if◌then◌else◌, Option-cases, inl, inr,
}
use inference_stack.Map.{keys, get, IsDistinct, set-IsDistinct, delete-IsDistinct, get-delete_self}
use inference_stack.Map.Sums.{sum_of-set, sum_of-delete}
use inference_stack.Registry.{
  WorkerMode, WorkerConfig, WorkerHandle, WorkerState, Registry, new_registry, drop_worker,
  remove_worker, insert_worker, add_worker, remove_all, stop_polling, start_polling, poll_answered,
  poll_failed, tensor_parallel, individual,
}
use inference_stack.Registry.Modes.{Urls, launching, switch_mode, add_mode_workers, finish_switch}

abbrev pub has_service : ℕ → String × WorkerHandle → ℕ
has_service k e = if e.1.service == k then 1 else 0

abbrev pub is_client : ℕ → ℕ → ℕ
is_client k c = if c == k then 1 else 0

-- How many workers have a client, how often it was closed, and whether it was created.
abbrev pub held_at : ℕ → Registry → ℕ
held_at k r = sum_of (has_service k) r.workers

abbrev pub closed_at : ℕ → Registry → ℕ
closed_at k r = sum_of (is_client k) r.closed

abbrev pub created_at : ℕ → Registry → ℕ
created_at k r = if ltb k r.next_client then 1 else 0

pub record IsTracked (r : Registry) : Type 0 where
  pub distinct : IsDistinct r.workers
  pub exact : (k : ℕ) → held_at k r + closed_at k r ≡ created_at k r

new_registry-IsTracked : IsTracked new_registry
unfolding new_registry
new_registry-IsTracked = record { distinct = tt; exact = λ k. ground arith }

remove_worker-IsTracked :
    (id : String) (r : Registry) → IsTracked r → IsTracked (remove_worker id r)
unfolding remove_worker drop_worker
remove_worker-IsTracked id r v = elim (Option-cases (get id r.workers)) [
  | inl missing ↦ rw (missing, remove_worker) v
  | inr (h, found) ↦
      rw (found, remove_worker)
        (record {
          distinct = delete-IsDistinct id r.workers v.distinct;
          exact = λ k. ground (arith, v.exact k, sum_of-delete (has_service k) id r.workers, found);
        })
]

pub absent-remove_worker :
    (id : String) (r : Registry) → IsDistinct r.workers → get id (remove_worker id r).workers ≡ none
unfolding remove_worker drop_worker
absent-remove_worker id r d = elim (Option-cases (get id r.workers)) [
  | inl missing ↦ rw (missing, remove_worker) missing
  | inr (h, found) ↦ rw (found, remove_worker) (get-delete_self id r.workers d)
]

insert_worker-IsTracked :
    (config : WorkerConfig) (r : Registry)
    → get config.id r.workers ≡ none
    → IsTracked r
    → IsTracked (insert_worker config r)
unfolding insert_worker
insert_worker-IsTracked config r absent v = record {
  distinct = set-IsDistinct config.id _ r.workers v.distinct;
  exact = λ k. ground (
    arith,
    v.exact k,
    sum_of-set (has_service k) config.id (record { config = config; service = r.next_client })
        r.workers,
    absent,
  );
}

add_worker-IsTracked :
    (config : WorkerConfig) (r : Registry) → IsTracked r → IsTracked (add_worker config r)
unfolding add_worker
add_worker-IsTracked config r v =
    insert_worker-IsTracked config (remove_worker config.id r)
      (absent-remove_worker config.id r v.distinct) (remove_worker-IsTracked config.id r v)

remove_all-IsTracked :
    (ids : List String) (r : Registry) → IsTracked r → IsTracked (remove_all ids r)
unfolding remove_all
remove_all-IsTracked [] r v = v
remove_all-IsTracked (id ∷ ids) r v =
    remove_all-IsTracked ids (remove_worker id r) (remove_worker-IsTracked id r v)

add_mode_workers-IsTracked :
    (urls : Urls) (mode : WorkerMode) (r : Registry)
    → IsTracked r
    → IsTracked (add_mode_workers urls mode r)
unfolding add_mode_workers
add_mode_workers-IsTracked urls tensor_parallel r v = add_worker-IsTracked _ r v
add_mode_workers-IsTracked urls individual r v =
    add_worker-IsTracked _ _ (add_worker-IsTracked _ r v)

-- One call, or one part of a call between its awaits. A poll may answer whether its worker is still
-- there or not.
pub data Step (r : Registry) : Registry → Type 0 where
  added : (config : WorkerConfig) → Step r (add_worker config r)
  removed : (id : String) → Step r (remove_worker id r)
  answered : (id : String) (now : ℕ) (state : WorkerState) → Step r (poll_answered id now state r)
  failed : (id : String) (now : ℕ) → Step r (poll_failed id now r)
  started : (interval_ms : ℕ) → Step r (start_polling interval_ms r)
  stopped : Step r (stop_polling r)
  switched : (target : WorkerMode) {t : Registry} → switch_mode target r ≡ launching t → Step r t
  launched : (urls : Urls) (target : WorkerMode) → Step r (add_mode_workers urls target r)
  finished : (target : WorkerMode) → Step r (finish_switch target r)

pub data Reach : Registry → Type 0 where
  begin : Reach new_registry
  more : {r t : Registry} → Reach r → Step r t → Reach t

switch_mode-IsTracked :
    (target : WorkerMode) (r t : Registry)
    → switch_mode target r ≡ launching t
    → IsTracked r
    → IsTracked t
unfolding switch_mode stop_polling
switch_mode-IsTracked target r t e v =
    let cleared : Registry = stop_polling (record r { switching = true }) in
    let same : remove_all (keys r.workers) cleared ≡ t = ground arith in
    rw (← same) (
      remove_all-IsTracked (keys r.workers) cleared
        (record { distinct = v.distinct; exact = v.exact }))

Step-IsTracked : {r t : Registry} → Step r t → IsTracked r → IsTracked t
unfolding poll_answered poll_failed start_polling stop_polling finish_switch
Step-IsTracked {r} (added config) v = add_worker-IsTracked config r v
Step-IsTracked {r} (removed id) v = remove_worker-IsTracked id r v
Step-IsTracked (answered id now state) v = record { distinct = v.distinct; exact = v.exact }
Step-IsTracked (failed id now) v = record { distinct = v.distinct; exact = v.exact }
Step-IsTracked (started interval_ms) v = record { distinct = v.distinct; exact = v.exact }
Step-IsTracked stopped v = record { distinct = v.distinct; exact = v.exact }
Step-IsTracked {r} (switched target {t} e) v = switch_mode-IsTracked target r t e v
Step-IsTracked {r} (launched urls target) v = add_mode_workers-IsTracked urls target r v
Step-IsTracked (finished target) v = record { distinct = v.distinct; exact = v.exact }

-- After any history of the registry's calls, polls and mode switches, in any order, every gRPC client
-- that was created is the service of one worker or was closed, in exactly one of these ways and
-- once; no other client is held or closed, and no id has two workers.
pub Reach-IsTracked : {r : Registry} → Reach r → IsTracked r
Reach-IsTracked begin = new_registry-IsTracked
Reach-IsTracked (more h s) = Step-IsTracked s (Reach-IsTracked h)
