-- ===== src/Registry/Switching.antt =====
-- `switchMode` of inference-api/src/worker-orchestrator/worker-registry.ts from its start to its end.
use inference_stack.Prelude.{
  String, ◌≡◌, refl, sym, ap, ◌∙◌, true, false, none, some, List, [], ◌∷◌, arith, string_eq, ◌⊎◌,
}
use inference_stack.Map.{Map, keys, get, set, delete}
use inference_stack.Registry.{
  WorkerMode, individual, tensor_parallel, WorkerHandle, Registry, drop_worker, remove_worker,
  insert_worker, add_worker, remove_all, stop_polling, start_polling,
}
use inference_stack.Registry.Modes.{
  Urls, already, in_progress, launching, switch_mode, add_mode_workers, finish_switch,
}

-- Removing what a map lists, in order, leaves no worker, and touches nothing of the switch.
record IsCleared (r t : Registry) : Type 0 where
  workers : t.workers ≡ []
  switching : t.switching ≡ r.switching
  mode : t.current_mode ≡ r.current_mode
  timer : t.poll_timer ≡ r.poll_timer

get-first :
    (id : String) (h : WorkerHandle) (m : Map String WorkerHandle) → get id ((id, h) ∷ m) ≡ some h
unfolding get
get-first id h m = ground (arith, string_eq.beq_iff id id)

delete-first :
    (id : String) (h : WorkerHandle) (m : Map String WorkerHandle) → delete id ((id, h) ∷ m) ≡ m
unfolding delete
delete-first id h m = ground (arith, string_eq.beq_iff id id)

remove_worker-first :
    (id : String) (h : WorkerHandle) (m : Map String WorkerHandle) (r : Registry)
    → r.workers ≡ (id, h) ∷ m
    → remove_worker id r ≡ drop_worker id h r
unfolding remove_worker
remove_worker-first id h m r e = rw (ap (get id) e ∙ get-first id h m, remove_worker) refl

remove_all-IsCleared :
    (m : Map String WorkerHandle) (r : Registry)
    → r.workers ≡ m
    → IsCleared r (remove_all (keys m) r)
unfolding remove_all
remove_all-IsCleared [] r e = record { workers = e; switching = refl; mode = refl; timer = refl }
remove_all-IsCleared ((id, h) ∷ m) r e =
    let step = remove_worker-first id h m r e in
    let rest =
      remove_all-IsCleared m (remove_worker id r) (
        ap (λ t. t.workers) step
        ∙ unfold drop_worker in (ap (delete id) e ∙ delete-first id h m)) in
    record {
      workers = rest.workers;
      switching = rest.switching ∙ ap (λ t. t.switching) step ∙ unfold drop_worker in refl;
      mode = rest.mode ∙ ap (λ t. t.current_mode) step ∙ unfold drop_worker in refl;
      timer = rest.timer ∙ ap (λ t. t.poll_timer) step ∙ unfold drop_worker in refl;
    }

-- The ids of the workers in a mode.
abbrev pub mode_ids : WorkerMode → List String
mode_ids individual = "worker-0" ∷ "worker-1" ∷ []
mode_ids tensor_parallel = "tp-worker-0" ∷ []

keys-add_mode_workers :
    (urls : Urls) (mode : WorkerMode) (r : Registry)
    → r.workers ≡ []
    → keys (add_mode_workers urls mode r).workers ≡ mode_ids mode
unfolding add_mode_workers add_worker insert_worker remove_worker get set
keys-add_mode_workers urls tensor_parallel r e = rw e refl
keys-add_mode_workers urls individual r e = rw e refl

-- A mode switch that begins stops the polls, removes every worker and refuses every other switch to
-- a new mode until it ends. When the workers of its mode are added and it ends, exactly those are
-- registered, the registry polls and is in the mode, and it is not switching.
switch_mode-finish :
    (urls : Urls) (target : WorkerMode) (r t : Registry)
    → switch_mode target r ≡ launching t
    → (t.workers ≡ [])
      × (t.poll_timer ≡ none)
      × ((other : WorkerMode)
          → (switch_mode other t ≡ already) ⊎ (switch_mode other t ≡ in_progress))
      × (keys (finish_switch target (add_mode_workers urls target t)).workers ≡ mode_ids target)
      × ((finish_switch target (add_mode_workers urls target t)).current_mode ≡ target)
      × ((finish_switch target (add_mode_workers urls target t)).switching ≡ false)
      × ((finish_switch target (add_mode_workers urls target t)).poll_timer ≡ some 5000)
unfolding finish_switch start_polling stop_polling switch_mode
switch_mode-finish urls target r t e =
    let cleared : Registry = stop_polling (record r { switching = true }) in
    let same : remove_all (keys r.workers) cleared ≡ t = ground arith in
    let done = remove_all-IsCleared r.workers cleared refl in
    let gone : t.workers ≡ [] = ap (λ u. u.workers) (sym same) ∙ done.workers in
    let busy : t.switching ≡ true = ap (λ u. u.switching) (sym same) ∙ done.switching in
    (
      gone,
      ap (λ u. u.poll_timer) (sym same) ∙ done.timer,
      λ other. ground (arith, busy),
      keys-add_mode_workers urls target t gone,
      refl,
      refl,
      refl,
    )
