-- ===== src/Routing.antt =====
-- inference-api/src/worker-orchestrator/router.ts and
-- inference-api/src/worker-orchestrator/model-manager.ts
-- What a worker answers to `loadModel` and `unloadModel` is a parameter, as is the answer to the
-- second `loadModel` after an eviction. `loadOnBestWorker` is modelled for a registry that stays as
-- it is while the workers answer.
pub mod Sorting
pub mod Choice
pub mod Caching
pub mod Loading
pub mod Coalescing
pub mod Steps
mod Tests
use inference_stack.Prelude.{
  ℕ, ◌+◌, String, Bool, true, false, ◌&&◌, Option, none, some, List, [], ◌∷◌, ltb, ◌==◌, string_eq,
  if◌then◌else◌,
}
use inference_stack.Map.{Map, get, set, delete}
use inference_stack.Roster.{get_default_gpu, is_tensor_parallel}
use inference_stack.Registry.{
  WorkerMode, individual, tensor_parallel, LoadedModelSnapshot, WorkerSnapshot, Registry,
  get_worker, get_all_snapshots,
}

-- `list.sort(compare)`, which is stable: `before a b` says that `compare(a, b)` is negative.
module _ {A : Type 0} (before : A → A → Bool) where
  pub insert_by : A → List A → List A
  insert_by a [] = a ∷ []
  insert_by a (b ∷ bs) = if before b a then b ∷ insert_by a bs else a ∷ b ∷ bs

  pub sort_by : List A → List A
  sort_by [] = []
  sort_by (a ∷ rest) = insert_by a (sort_by rest)

pub filter_by : {A : Type 0} → (A → Bool) → List A → List A
filter_by p [] = []
filter_by p (a ∷ rest) = if p a then a ∷ filter_by p rest else filter_by p rest

abbrev pub first_in : {A : Type 0} → List A → Option A
first_in [] = none
first_in (a ∷ rest) = some a

pub has_ready : String → List LoadedModelSnapshot → Bool
has_ready model_id [] = false
has_ready model_id (m ∷ ms) =
    if m.model_id == model_id && m.ready then true else has_ready model_id ms

abbrev pub is_ready_worker : String → WorkerSnapshot → Bool
is_ready_worker model_id s = s.healthy && has_ready model_id s.models

pub get_workers_with_model : String → Registry → List WorkerSnapshot
get_workers_with_model model_id r = filter_by (is_ready_worker model_id) (get_all_snapshots r)

abbrev pub load_of : WorkerSnapshot → ℕ
load_of s = s.active_inferences + s.queued_inferences

-- `leastLoaded` of the router and `leastBusy` of the manager.
pub least_loaded : List WorkerSnapshot → Option WorkerSnapshot
least_loaded snapshots = first_in (sort_by (λ a b. ltb (load_of a) (load_of b)) snapshots)

-- A worker that has the model, or a load that is to come.
pub data Route : Type 0 where
  -- The service is `none` where the registry has no worker for the snapshot: the source passes
  -- `undefined` on.
  direct : String → Option ℕ → Route
  load_then_infer : Route

pub route : String → Registry → Route
route model_id r = elim (least_loaded (get_workers_with_model model_id r)) [
  | some best ↦ direct best.worker_id (get_worker best.worker_id r)
  | none ↦ load_then_infer
]

-- The order of the candidates: the preferred worker first, then by free memory.
abbrev pub is_preferred : Option String → WorkerSnapshot → Bool
is_preferred none s = false
is_preferred (some id) s = s.worker_id == id

pub goes_before : Option String → WorkerSnapshot → WorkerSnapshot → Bool
goes_before preferred a b = elim (is_preferred preferred a) [
  | true ↦ elim (is_preferred preferred b) [
    | true ↦ ltb b.gpu.vram_available_bytes a.gpu.vram_available_bytes
    | false ↦ true
  ]
  | false ↦ elim (is_preferred preferred b) [
    | true ↦ false
    | false ↦ ltb b.gpu.vram_available_bytes a.gpu.vram_available_bytes
  ]
]

pub candidates : String → Registry → List WorkerSnapshot
candidates model_id r =
    sort_by (goes_before (get_default_gpu model_id))
      (filter_by (λ s. s.healthy) (get_all_snapshots r))

pub record ModelCapabilities : Type 0 where
  pub max_context_length : ℕ
  pub vocab_size : ℕ
  pub supports_logprobs : Bool
  pub supports_json_mode : Bool
  pub supports_grammar : Bool

-- The capabilities in an answer, whose fields may be absent.
pub record Capabilities : Type 0 where
  pub max_context_length : Option ℕ
  pub vocab_size : Option ℕ
  pub supports_logprobs : Option Bool
  pub supports_json_mode : Option Bool
  pub supports_grammar : Option Bool

abbrev pub or_else : {A : Type 0} → Option A → A → A
or_else none d = d
or_else (some a) d = a

unfoldable pub to_capabilities : Capabilities → ModelCapabilities
to_capabilities caps = record {
  max_context_length = or_else caps.max_context_length 0;
  vocab_size = or_else caps.vocab_size 0;
  supports_logprobs = or_else caps.supports_logprobs false;
  supports_json_mode = or_else caps.supports_json_mode false;
  supports_grammar = or_else caps.supports_grammar false;
}

pub cache_capabilities :
    String → Option Capabilities → Map String ModelCapabilities → Map String ModelCapabilities
cache_capabilities model_id none known = known
cache_capabilities model_id (some caps) known = set model_id (to_capabilities caps) known

-- An answer to `loadModel`: success with capabilities, or a failure or a thrown error.
pub data LoadAnswer : Type 0 where
  loaded : Option Capabilities → LoadAnswer
  not_loaded : LoadAnswer

-- `idleModels.sort((a, b) => a.vramUsedBytes - b.vramUsedBytes)[0]`
pub to_evict : WorkerSnapshot → Option LoadedModelSnapshot
to_evict s =
    first_in
      (sort_by (λ a b. ltb a.vram_used_bytes b.vram_used_bytes) (filter_by (λ m. m.ready) s.models))

-- The switch that `ensureModelLoaded` waits for first.
unfoldable pub needed_switch : String → WorkerMode → Option WorkerMode
needed_switch model_id individual =
    if is_tensor_parallel model_id then some tensor_parallel else none
needed_switch model_id tensor_parallel =
    if is_tensor_parallel model_id then none else some individual

-- What `ensureModelLoaded` does once it is in the right mode: it returns a worker, waits for a load
-- in flight, or starts one. `inFlightLoads` is the set of its keys.
pub data Ensured : Type 0 where
  ready_on : String → Option ℕ → Ensured
  joins : Ensured
  starts : Map String (Unit {0}) → Ensured

pub ensure_model_loaded : String → Registry → Map String (Unit {0}) → Ensured
ensure_model_loaded model_id r in_flight = elim (least_loaded (get_workers_with_model model_id r)) [
  | some best ↦ ready_on best.worker_id (get_worker best.worker_id r)
  | none ↦ elim (get model_id in_flight) [
    | some load ↦ joins
    | none ↦ starts (set model_id tt in_flight)
  ]
]

-- The `finally` of the call that started the load.
pub end_load : String → Map String (Unit {0}) → Map String (Unit {0})
end_load model_id in_flight = delete model_id in_flight

module _ (load reload : String → LoadAnswer) (unload : String → String → Bool) where
  pub try_evict_idle : Registry → WorkerSnapshot → Bool
  try_evict_idle r s = if ltb 0 s.active_inferences then false else elim (to_evict s) [
    | none ↦ false
    | some m ↦ elim (get_worker s.worker_id r) [
      | none ↦ false
      | some worker ↦ unload s.worker_id m.model_id
    ]
  ]

  -- One round of the loop of `loadOnBestWorker`.
  pub try_candidate : Registry → WorkerSnapshot → LoadAnswer
  try_candidate r s = elim (get_worker s.worker_id r) [
    | none ↦ not_loaded
    | some worker ↦ elim (load s.worker_id) [
      | loaded caps ↦ loaded caps
      | not_loaded ↦ if try_evict_idle r s then reload s.worker_id else not_loaded
    ]
  ]

  pub load_on_first : Registry → List WorkerSnapshot → Option (String × Option Capabilities)
  load_on_first r [] = none
  load_on_first r (s ∷ rest) = elim (try_candidate r s) [
    | loaded caps ↦ some (s.worker_id, caps)
    | not_loaded ↦ load_on_first r rest
  ]

  -- The worker and the capabilities that are known, or the error.
  pub load_on_best_worker :
      String
      → Registry
      → Map String ModelCapabilities
      → Option (String × Map String ModelCapabilities)
  load_on_best_worker model_id r known = elim (load_on_first r (candidates model_id r)) [
    | none ↦ none
    | some (id, caps) ↦ some (id, cache_capabilities model_id caps known)
  ]
