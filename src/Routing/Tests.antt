-- ===== src/Routing/Tests.antt =====
-- Two workers, one of them without the model, and the theorems on them.
use inference_stack.Prelude.{
  ◌≡◌, ◌≤◌, ◌*◌, refl, String, Bool, true, false, Option, none, some, List, [], ◌∷◌, All, length,
  arith, string_eq,
}
use inference_stack.Map.{Map, get, set}
use inference_stack.Roster.{get_default_gpu}
use inference_stack.Registry.{
  LoadedModelSnapshot, WorkerSnapshot, Registry, new_registry, get_worker, get_all_snapshots,
  no_gpu,
}
use inference_stack.Routing.{
  insert_by, sort_by, filter_by, has_ready, get_workers_with_model, least_loaded, load_then_infer,
  route, goes_before, candidates, ModelCapabilities, Capabilities, to_capabilities,
  cache_capabilities, LoadAnswer, loaded, not_loaded, to_evict, try_evict_idle, try_candidate,
  load_on_first, load_on_best_worker, ensure_model_loaded, starts,
}
use inference_stack.Routing.Sorting.{IsIn}
use inference_stack.Routing.Loading.{IsVictim, try_evict_idle-IsVictim}
use inference_stack.Routing.Loading.Outcomes.{
  IsLoaded, HasFailed, load_on_best_worker-IsLoaded, load_on_best_worker-none,
}
use inference_stack.Routing.Caching.{IsCached}
use inference_stack.Routing.Steps.{Answer, start_load, result_of}
use inference_stack.Routing.Steps.Running.{HasEnded, run, run_ends}
use inference_stack.Routing.Steps.Refinement.{run_fixed, run_fixed-load_on_best_worker}

abbrev small_model : LoadedModelSnapshot
small_model = record { model_id = "qwen"; ready = true; vram_used_bytes = 7 }

abbrev busy : WorkerSnapshot
busy = record {
  worker_id = "worker-0";
  healthy = true;
  gpu = record no_gpu { vram_available_bytes = 3 };
  models = small_model ∷ [];
  active_inferences = 2;
  queued_inferences = 0;
  last_updated = 0;
}

abbrev idle : WorkerSnapshot
idle = record busy { worker_id = "worker-1"; active_inferences = 0 }

abbrev two_workers : Registry
two_workers = record new_registry {
  workers =
      (
        "worker-0",
        record { config = record { id = "worker-0"; url = ""; mode = none }; service = 0 },
      )
      ∷ (
        "worker-1",
        record { config = record { id = "worker-1"; url = ""; mode = none }; service = 1 },
      )
      ∷ [];
  snapshots = ("worker-0", busy) ∷ ("worker-1", idle) ∷ [];
  next_client = 2;
}

to_load : route "sd" two_workers ≡ load_then_infer
unfolding route least_loaded get_workers_with_model has_ready filter_by sort_by
to_load = refl

-- Workers are full until something is evicted.
abbrev full : String → LoadAnswer
full id = not_loaded

abbrev answered : Capabilities
answered = record {
  max_context_length = some 4096;
  vocab_size = none;
  supports_logprobs = some true;
  supports_json_mode = none;
  supports_grammar = none;
}

abbrev roomy : String → LoadAnswer
roomy id = loaded (some answered)

abbrev obeys : String → String → Bool
obeys id model_id = true

evicts : try_evict_idle full roomy obeys two_workers idle ≡ true
unfolding try_evict_idle to_evict filter_by sort_by insert_by get_worker get
evicts = refl

try_evict_idle-IsVictim_example :
    (idle.active_inferences ≡ 0)
    × ((m : LoadedModelSnapshot) × IsVictim idle m × (obeys idle.worker_id m.model_id ≡ true))
try_evict_idle-IsVictim_example = try_evict_idle-IsVictim full roomy obeys two_workers idle evicts

abbrev known_then : Map String ModelCapabilities
known_then =
    (
      "sd",
      record {
        max_context_length = 4096;
        vocab_size = 0;
        supports_logprobs = true;
        supports_json_mode = false;
        supports_grammar = false;
      },
    )
    ∷ []

loads : load_on_best_worker full roomy obeys "sd" two_workers [] ≡ some ("worker-1", known_then)
unfolding load_on_best_worker load_on_first try_candidate try_evict_idle to_evict candidates
    goes_before get_default_gpu cache_capabilities to_capabilities filter_by sort_by insert_by
    get_worker get set
loads = refl

load_on_best_worker-IsLoaded_example :
    (s : WorkerSnapshot) × (caps : Option Capabilities) × (IsIn s (get_all_snapshots two_workers)
      × (s.healthy ≡ true))
    × (s.worker_id ≡ "worker-1")
    × IsLoaded full roomy obeys two_workers s caps
    × IsCached "sd" caps [] known_then
load_on_best_worker-IsLoaded_example =
    load_on_best_worker-IsLoaded full roomy obeys "sd" two_workers [] known_then "worker-1" loads

nobody_loads : load_on_best_worker full full obeys "sd" two_workers [] ≡ none
unfolding load_on_best_worker load_on_first try_candidate try_evict_idle to_evict candidates
    goes_before get_default_gpu cache_capabilities filter_by sort_by insert_by get_worker get
nobody_loads = refl

load_on_best_worker-none_example :
    All
      (λ s. s.healthy ≡ true → HasFailed full full obeys two_workers s)
      (get_all_snapshots two_workers)
load_on_best_worker-none_example =
    load_on_best_worker-none full full obeys "sd" two_workers [] nobody_loads

load_starts : ensure_model_loaded "sd" two_workers [] ≡ starts (("sd", tt) ∷ [])
unfolding ensure_model_loaded least_loaded get_workers_with_model has_ready filter_by sort_by get
    set
load_starts = refl

abbrev refusing : Answer
refusing = record { to_load = not_loaded; to_unload = false }

-- The registry is empty after the first answer.
abbrev events : List (Registry × Answer)
events =
    (two_workers, refusing)
    ∷ (new_registry, refusing)
    ∷ (new_registry, refusing)
    ∷ (new_registry, refusing)
    ∷ (new_registry, refusing)
    ∷ (new_registry, refusing)
    ∷ []

two_candidates : 3 * length (candidates "sd" two_workers) ≤ 6
unfolding candidates goes_before get_default_gpu filter_by sort_by insert_by get
two_candidates = omega arith

run_ends_example : HasEnded (run events (start_load "sd" two_workers))
run_ends_example = run_ends "sd" two_workers events two_candidates

run_fixed-load_on_best_worker_example :
    result_of "sd" [] (run_fixed full roomy obeys two_workers 6 (start_load "sd" two_workers))
    ≡ load_on_best_worker full roomy obeys "sd" two_workers []
run_fixed-load_on_best_worker_example =
    run_fixed-load_on_best_worker full roomy obeys two_workers "sd" [] 6 two_candidates
