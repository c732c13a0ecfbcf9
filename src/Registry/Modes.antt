-- ===== src/Registry/Modes.antt =====
-- `switchMode` of inference-api/src/worker-orchestrator/worker-registry.ts, cut at its `await`s.
use inference_stack.Prelude.{String, Bool, true, false, some, string_eq}
use inference_stack.Map.{keys}
use inference_stack.Registry.{
  WorkerMode, Registry, add_worker, remove_all, stop_polling, start_polling, individual,
  tensor_parallel,
}

-- The addresses of the workers in the environment.
pub record Urls : Type 0 where
  pub w0_url : String
  pub w1_url : String
  pub tp_url : String

pub data SwitchResult : Type 0 where
  already : SwitchResult
  in_progress : SwitchResult
  launching : Registry → SwitchResult

abbrev pub same_mode : WorkerMode → WorkerMode → Bool
same_mode individual individual = true
same_mode tensor_parallel tensor_parallel = true
same_mode _ _ = false

-- `switchMode` up to its first `await`.
unfoldable pub switch_mode : WorkerMode → Registry → SwitchResult
switch_mode target r = elim (same_mode r.current_mode target) [
  | true ↦ already
  | false ↦ elim r.switching [
    | true ↦ in_progress
    | false ↦ launching (remove_all (keys r.workers) (stop_polling (record r { switching = true })))
  ]
]

-- The workers that are added once the new processes are up.
unfoldable pub add_mode_workers : Urls → WorkerMode → Registry → Registry
add_mode_workers urls tensor_parallel r =
    add_worker (record { id = "tp-worker-0"; url = urls.tp_url; mode = some tensor_parallel }) r
add_mode_workers urls individual r =
    add_worker (record { id = "worker-1"; url = urls.w1_url; mode = some individual })
      (add_worker (record { id = "worker-0"; url = urls.w0_url; mode = some individual }) r)

-- What follows `await this.pollAllWorkers()`, with the `finally`.
unfoldable pub finish_switch : WorkerMode → Registry → Registry
finish_switch target r = record (start_polling 5000 r) { current_mode = target; switching = false }

-- The `finally` where something threw.
unfoldable abort_switch : Registry → Registry
abort_switch r = record r { switching = false }
