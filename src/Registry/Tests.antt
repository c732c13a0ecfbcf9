-- ===== src/Registry/Tests.antt =====
-- A registry with one worker, and the theorems on it.
use inference_stack.Prelude.{◌≡◌, refl, true, none, some, string_eq}
use inference_stack.Map.{keys, get, set}
use inference_stack.Registry.{
  tensor_parallel, WorkerConfig, WorkerState, Registry, new_registry, remove_worker, remove_all,
  add_worker, insert_worker, stop_polling, get_worker, get_snapshot, to_snapshot, poll_answered,
}
use inference_stack.Registry.Modes.{Urls, launching, switch_mode}
use inference_stack.Registry.Clients.{
  IsTracked, Reach, begin, more, added, answered, switched, Reach-IsTracked,
}
use inference_stack.Registry.Polling.{poll_answered-remove_worker}

abbrev urls : Urls
urls = record { w0_url = "localhost:50051"; w1_url = "localhost:50052"; tp_url = "localhost:50051" }

abbrev first_worker : WorkerConfig
first_worker = record { id = "worker-0"; url = urls.w0_url; mode = none }

abbrev idle_state : WorkerState
idle_state = record {
  gpu = none;
  models = none;
  active_inferences = none;
  queued_inferences = none;
}

abbrev polled : Registry
polled = poll_answered "worker-0" 7 idle_state (add_worker first_worker new_registry)

polled-Reach : Reach polled
polled-Reach = more (more begin (added first_worker)) (answered "worker-0" 7 idle_state)

abbrev switching : Registry
switching = remove_all (keys polled.workers) (stop_polling (record polled { switching = true }))

polled_switches : switch_mode tensor_parallel polled ≡ launching switching
unfolding switch_mode poll_answered add_worker insert_worker remove_worker new_registry get set
polled_switches = refl

Reach-IsTracked_example : IsTracked switching
Reach-IsTracked_example =
    Reach-IsTracked (more polled-Reach (switched tensor_parallel polled_switches))

poll_answered-remove_worker_example :
    (get_worker "worker-0" (poll_answered "worker-0" 9 idle_state (remove_worker "worker-0" polled))
      ≡ none)
    × (get_snapshot "worker-0"
          (poll_answered "worker-0" 9 idle_state (remove_worker "worker-0" polled))
        ≡ some (to_snapshot "worker-0" 9 idle_state))
    × ((to_snapshot "worker-0" 9 idle_state).healthy ≡ true)
poll_answered-remove_worker_example =
    poll_answered-remove_worker "worker-0" 9 idle_state polled (Reach-IsTracked polled-Reach)

known : get_snapshot "worker-0" polled ≡ some (to_snapshot "worker-0" 7 idle_state)
unfolding poll_answered add_worker insert_worker remove_worker new_registry get set
known = refl
