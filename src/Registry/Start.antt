-- ===== src/Registry/Start.antt =====
-- `onModuleInit` of inference-api/src/worker-orchestrator/worker-orchestrator.module.ts
use inference_stack.Prelude.{
  String, Bool, false, Option, none, some, [], ◌∷◌, ◌≡◌, refl, ◌==◌, string_eq, if◌then◌else◌,
}
use inference_stack.Map.{keys, get, set}
use inference_stack.Registry.{
  individual, tensor_parallel, Registry, new_registry, set_current_mode, insert_worker,
  remove_worker, add_worker, start_polling,
}
use inference_stack.Registry.Modes.{Urls, add_mode_workers}

-- `process.env.WORKER_MODE || 'individual'` is compared with 'tensor-parallel'.
unfoldable starts_tensor_parallel : Option String → Bool
starts_tensor_parallel none = false
starts_tensor_parallel (some mode) = mode == "tensor-parallel"

-- Up to the first poll. The workers that are added are those of a switch to the mode.
unfoldable pub add_initial_workers : Option String → Urls → Registry → Registry
unfolding starts_tensor_parallel
add_initial_workers mode urls r =
    if starts_tensor_parallel mode
    then add_mode_workers urls tensor_parallel (set_current_mode tensor_parallel r)
    else add_mode_workers urls individual r

-- After `await this.registry.pollAllWorkers()`.
unfoldable pub end_init : Registry → Registry
end_init r = start_polling 5000 r

abbrev urls : Urls
urls = record { w0_url = "localhost:50051"; w1_url = "localhost:50052"; tp_url = "localhost:50051" }

two_at_start :
    keys (add_initial_workers none urls new_registry).workers ≡ "worker-0" ∷ "worker-1" ∷ []
unfolding add_initial_workers starts_tensor_parallel add_mode_workers add_worker remove_worker
    insert_worker new_registry get set
two_at_start = refl
