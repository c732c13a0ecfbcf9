-- ===== src/Routing/Steps.antt =====
-- `loadOnBestWorker` of inference-api/src/worker-orchestrator/model-manager.ts, cut where it waits for
-- an answer of a worker: every part reads the registry as it is then. The candidates and their
-- snapshots are those of its start.
pub mod Running
pub mod Refinement
use inference_stack.Prelude.{
  ℕ, String, Bool, true, false, Option, none, some, List, [], ◌∷◌, ltb, if◌then◌else◌,
}
use inference_stack.Map.{Map}
use inference_stack.Registry.{LoadedModelSnapshot, WorkerSnapshot, Registry, get_worker}
use inference_stack.Routing.{
  candidates, ModelCapabilities, Capabilities, cache_capabilities, LoadAnswer, loaded, not_loaded,
  to_evict,
}

-- Where a load is: it waits for `loadModel` on a candidate, for `unloadModel`, or for `loadModel`
-- after that, with the candidates that are left; or it has ended.
pub data Loading : Type 0 where
  asking : WorkerSnapshot → ℕ → List WorkerSnapshot → Loading
  evicting : WorkerSnapshot → ℕ → LoadedModelSnapshot → ℕ → List WorkerSnapshot → Loading
  retrying : WorkerSnapshot → ℕ → List WorkerSnapshot → Loading
  loaded_on : String → ℕ → Option Capabilities → Loading
  no_healthy_workers no_capacity : Loading

-- The head of the loop. A candidate without a worker is passed over.
pub next_candidate : Registry → List WorkerSnapshot → Loading
next_candidate r [] = no_capacity
next_candidate r (s ∷ rest) = elim (get_worker s.worker_id r) [
  | none ↦ next_candidate r rest
  | some worker ↦ asking s worker rest
]

pub start_load : String → Registry → Loading
start_load model_id r = elim (candidates model_id r) [
  | [] ↦ no_healthy_workers
  | s ∷ rest ↦ next_candidate r (s ∷ rest)
]

-- The part of `tryEvictIdle` before its `unloadModel`, or the next candidate where it returns first.
pub begin_evict : Registry → WorkerSnapshot → ℕ → List WorkerSnapshot → Loading
begin_evict r s worker rest =
    if ltb 0 s.active_inferences then next_candidate r rest else elim (to_evict s) [
      | none ↦ next_candidate r rest
      | some m ↦ elim (get_worker s.worker_id r) [
        | none ↦ next_candidate r rest
        | some evictor ↦ evicting s worker m evictor rest
      ]
    ]

-- What the worker answers, to `loadModel` and to `unloadModel`: a load waits for one of the two.
pub record Answer : Type 0 where
  pub to_load : LoadAnswer
  pub to_unload : Bool

-- What a load does with the answer that it waits for, with the registry as it is then.
pub proceed : Registry → Answer → Loading → Loading
proceed r a (asking s worker rest) = elim a.to_load [
  | loaded caps ↦ loaded_on s.worker_id worker caps
  | not_loaded ↦ begin_evict r s worker rest
]
proceed r a (evicting s worker m evictor rest) =
    if a.to_unload then retrying s worker rest else next_candidate r rest
proceed r a (retrying s worker rest) = elim a.to_load [
  | loaded caps ↦ loaded_on s.worker_id worker caps
  | not_loaded ↦ next_candidate r rest
]
proceed r a (loaded_on id worker caps) = loaded_on id worker caps
proceed r a no_healthy_workers = no_healthy_workers
proceed r a no_capacity = no_capacity

-- What a load came to, with the capabilities that are known then.
pub result_of :
    String → Map String ModelCapabilities → Loading → Option (String × Map String ModelCapabilities)
result_of model_id known (loaded_on id worker caps) =
    some (id, cache_capabilities model_id caps known)
result_of model_id known l = none
