-- ===== src/Registry.antt =====
-- inference-api/src/worker-orchestrator/worker-registry.ts and the types of
-- inference-api/src/worker-orchestrator/interfaces.ts
-- A worker's service and the `close` of its gRPC client are one number: `createWorkerService` gives
-- each new client the next one, and `closed` lists the clients that were closed. An `async` method is
-- cut at its `await`s; other calls may come between the parts. The commands that are sent over SSH
-- are not modelled: `sshExec` catches what they throw.
pub mod Modes
pub mod Clients
pub mod Switching
pub mod Polling
pub mod Start
mod Tests
use inference_stack.Prelude.{
  ℕ, ◌+◌, String, Bool, true, false, Option, none, some, List, [], ◌∷◌, map, string_eq,
}
use inference_stack.Map.{Map, keys, values, get, set, delete}

pub data WorkerMode : Type 0 where
  individual tensor_parallel : WorkerMode

pub record WorkerConfig : Type 0 where
  pub id : String
  pub url : String
  pub mode : Option WorkerMode

pub record WorkerHandle : Type 0 where
  pub config : WorkerConfig
  pub service : ℕ

pub record GpuSnapshot : Type 0 where
  pub vram_total_bytes : ℕ
  pub vram_used_bytes : ℕ
  pub vram_available_bytes : ℕ
  pub utilization : ℕ
  pub temperature_c : ℕ
  pub healthy : Bool

pub record LoadedModelSnapshot : Type 0 where
  pub model_id : String
  pub ready : Bool
  pub vram_used_bytes : ℕ

pub record WorkerSnapshot : Type 0 where
  pub worker_id : String
  pub healthy : Bool
  pub gpu : GpuSnapshot
  pub models : List LoadedModelSnapshot
  pub active_inferences : ℕ
  pub queued_inferences : ℕ
  pub last_updated : ℕ

pub record Registry : Type 0 where
  pub workers : Map String WorkerHandle
  pub snapshots : Map String WorkerSnapshot
  -- The interval of `pollTimer`.
  pub poll_timer : Option ℕ
  pub current_mode : WorkerMode
  pub switching : Bool
  pub next_client : ℕ
  pub closed : List ℕ

pub new_registry : Registry
new_registry = record {
  workers = [];
  snapshots = [];
  poll_timer = none;
  current_mode = individual;
  switching = false;
  next_client = 0;
  closed = [];
}

pub set_current_mode : WorkerMode → Registry → Registry
set_current_mode mode r = record r { current_mode = mode }

-- The handle that is removed, and its entries.
pub drop_worker : String → WorkerHandle → Registry → Registry
drop_worker id h r = record r {
  workers = delete id r.workers;
  snapshots = delete id r.snapshots;
  closed = h.service ∷ r.closed;
}

pub remove_worker : String → Registry → Registry
remove_worker id r = elim (get id r.workers) [ none ↦ r | some h ↦ drop_worker id h r ]

-- `createWorkerService` and `this.workers.set`
pub insert_worker : WorkerConfig → Registry → Registry
insert_worker config r = record r {
  workers = set config.id (record { config = config; service = r.next_client }) r.workers;
  next_client = r.next_client + 1;
}

-- `removeWorker` does nothing for an id without a worker, so the test before it is the same.
pub add_worker : WorkerConfig → Registry → Registry
add_worker config r = insert_worker config (remove_worker config.id r)

unfoldable pub get_worker : String → Registry → Option ℕ
get_worker id r = elim (get id r.workers) [ none ↦ none | some h ↦ some h.service ]

abbrev pub get_all_workers : Registry → List WorkerHandle
get_all_workers r = values r.workers

abbrev pub get_snapshot : String → Registry → Option WorkerSnapshot
get_snapshot id r = get id r.snapshots

abbrev pub get_all_snapshots : Registry → List WorkerSnapshot
get_all_snapshots r = values r.snapshots

pub remove_all : List String → Registry → Registry
remove_all [] r = r
remove_all (id ∷ ids) r = remove_all ids (remove_worker id r)

pub stop_polling : Registry → Registry
stop_polling r = record r { poll_timer = none }

pub start_polling : ℕ → Registry → Registry
start_polling interval_ms r = record (stop_polling r) { poll_timer = some interval_ms }

unfoldable on_module_destroy : Registry → Registry
on_module_destroy r = remove_all (keys r.workers) (stop_polling r)

-- What `getWorkerState` answers.
pub record GpuState : Type 0 where
  pub vram_total_bytes : Option ℕ
  pub vram_used_bytes : Option ℕ
  pub vram_available_bytes : Option ℕ
  pub gpu_utilization : Option ℕ
  pub gpu_temperature_c : Option ℕ
  pub healthy : Option Bool

pub record ModelState : Type 0 where
  pub model_id : String
  pub ready : Bool
  pub vram_used_bytes : Option ℕ

pub record WorkerState : Type 0 where
  pub gpu : Option GpuState
  pub models : Option (List ModelState)
  pub active_inferences : Option ℕ
  pub queued_inferences : Option ℕ

abbrev pub or_default : {A : Type 0} → Option A → A → A
or_default none d = d
or_default (some a) d = a

abbrev pub no_gpu_state : GpuState
no_gpu_state = record {
  vram_total_bytes = none;
  vram_used_bytes = none;
  vram_available_bytes = none;
  gpu_utilization = none;
  gpu_temperature_c = none;
  healthy = none;
}

abbrev pub to_model : ModelState → LoadedModelSnapshot
to_model m = record {
  model_id = m.model_id;
  ready = m.ready;
  vram_used_bytes = or_default m.vram_used_bytes 0;
}

pub to_snapshot : String → ℕ → WorkerState → WorkerSnapshot
to_snapshot worker_id now state =
    let gpu : GpuState = or_default state.gpu no_gpu_state in
    record {
      worker_id = worker_id;
      healthy = true;
      gpu = record {
        vram_total_bytes = or_default gpu.vram_total_bytes 0;
        vram_used_bytes = or_default gpu.vram_used_bytes 0;
        vram_available_bytes = or_default gpu.vram_available_bytes 0;
        utilization = or_default gpu.gpu_utilization 0;
        temperature_c = or_default gpu.gpu_temperature_c 0;
        healthy = or_default gpu.healthy true;
      };
      models = map to_model (or_default state.models []);
      active_inferences = or_default state.active_inferences 0;
      queued_inferences = or_default state.queued_inferences 0;
      last_updated = now;
    }

abbrev pub no_gpu : GpuSnapshot
no_gpu = record {
  vram_total_bytes = 0;
  vram_used_bytes = 0;
  vram_available_bytes = 0;
  utilization = 0;
  temperature_c = 0;
  healthy = false;
}

pub unhealthy : String → ℕ → Option WorkerSnapshot → WorkerSnapshot
unhealthy id now none = record {
  worker_id = id;
  healthy = false;
  gpu = no_gpu;
  models = [];
  active_inferences = 0;
  queued_inferences = 0;
  last_updated = now;
}
unhealthy id now (some s) = record s { worker_id = id; healthy = false; last_updated = now }

-- What follows `await firstValueFrom(…)` in `pollWorker`, with an answer and without.
pub poll_answered : String → ℕ → WorkerState → Registry → Registry
poll_answered id now state r = record r {
  snapshots = set id (to_snapshot id now state) r.snapshots;
}

pub poll_failed : String → ℕ → Registry → Registry
poll_failed id now r = record r {
  snapshots = set id (unhealthy id now (get id r.snapshots)) r.snapshots;
}
