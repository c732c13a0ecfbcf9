-- ===== src/Routing/Loading.antt =====
-- `tryEvictIdle` of inference-api/src/worker-orchestrator/model-manager.ts.
pub mod Outcomes
use inference_stack.Prelude.{
  ℕ, ◌≤◌, ◌≡◌, refl, String, Bool, true, false, ltb, Option, none, some, List, [], ◌∷◌, arith, All,
  Option-cases, Bool-cases, inl, inr, ◌⊎◌,
}
use inference_stack.Map.{Map}
use inference_stack.Roster.{get_default_gpu}
use inference_stack.Registry.{
  LoadedModelSnapshot, WorkerSnapshot, Registry, get_worker, get_all_snapshots,
}
use inference_stack.Routing.{
  sort_by, filter_by, goes_before, candidates, ModelCapabilities, Capabilities, cache_capabilities,
  LoadAnswer, loaded, not_loaded, to_evict, try_evict_idle, try_candidate, load_on_first,
  load_on_best_worker,
}
use inference_stack.Routing.Sorting.{
  IsIn, filter_by-IsIn, All-unfilter, All-sort_by, All-unsort, All-first_in, by_key,
  first_in-sort_by, first_in-sort_by-none,
}

-- A model that is ready on the worker and takes the least memory of all that are.
pub record IsVictim (s : WorkerSnapshot) (m : LoadedModelSnapshot) : Type 0 where
  pub known : IsIn m s.models
  pub ready : m.ready ≡ true
  pub smallest : All (λ o. o.ready ≡ true → m.vram_used_bytes ≤ o.vram_used_bytes) s.models

LoadAnswer-cases :
    (a : LoadAnswer) → ((caps : Option Capabilities) × (a ≡ loaded caps)) ⊎ (a ≡ not_loaded)
LoadAnswer-cases (loaded caps) = inl (caps, refl)
LoadAnswer-cases not_loaded = inr refl

abbrev bytes : LoadedModelSnapshot → ℕ
bytes m = m.vram_used_bytes

abbrev is_ready : LoadedModelSnapshot → Bool
is_ready m = m.ready

to_evict-IsVictim :
    (s : WorkerSnapshot) (m : LoadedModelSnapshot) → to_evict s ≡ some m → IsVictim s m
unfolding to_evict
to_evict-IsVictim s m e =
    let Q : LoadedModelSnapshot → Type 0 = λ a. IsIn a s.models × (a.ready ≡ true) in
    let chosen =
      All-first_in Q m (sort_by (by_key bytes) (filter_by is_ready s.models))
        (All-sort_by (by_key bytes) Q (filter_by is_ready s.models)
          (filter_by-IsIn is_ready s.models))
        e in
    record {
      known = chosen.0;
      ready = chosen.1;
      smallest =
          All-unfilter (λ o. m.vram_used_bytes ≤ o.vram_used_bytes) is_ready s.models
            (first_in-sort_by bytes m (filter_by is_ready s.models) e);
    }

none_ready :
    (ms : List LoadedModelSnapshot) → filter_by is_ready ms ≡ [] → All (λ m. m.ready ≡ false) ms
unfolding filter_by
none_ready [] e = tt
none_ready (m ∷ ms) e = elim (Bool-cases m.ready) [
  | inl ready ↦ absurd (ground arith)
  | inr waits ↦ (waits, none_ready ms (ground arith))
]

to_evict-none : (s : WorkerSnapshot) → to_evict s ≡ none → All (λ m. m.ready ≡ false) s.models
unfolding to_evict
to_evict-none s e =
    none_ready s.models (first_in-sort_by-none bytes (filter_by is_ready s.models) e)

-- A model was evicted from an idle worker.
pub record IsEvicted (unload : String → String → Bool) (s : WorkerSnapshot) : Type 0 where
  pub idle : s.active_inferences ≡ 0
  pub victim : (m : LoadedModelSnapshot) × IsVictim s m × (unload s.worker_id m.model_id ≡ true)

-- Nothing was evicted: the worker is busy, no model is ready, or the worker kept the victim.
pub IsKept : (String → String → Bool) → WorkerSnapshot → Type 0
IsKept unload s =
    (1 ≤ s.active_inferences)
    ⊎ (All (λ m. m.ready ≡ false) s.models)
    ⊎ ((m : LoadedModelSnapshot) × IsVictim s m × (unload s.worker_id m.model_id ≡ false))

module _ (load reload : String → LoadAnswer) (unload : String → String → Bool) where
  -- Something is evicted only from a worker that the snapshot shows without active inferences; it is
  -- a ready model of that worker that takes the least memory, and the worker said that it unloaded
  -- it.
  pub try_evict_idle-IsVictim :
      (r : Registry) (s : WorkerSnapshot)
      → try_evict_idle load reload unload r s ≡ true
      → (s.active_inferences ≡ 0)
        × ((m : LoadedModelSnapshot) × IsVictim s m × (unload s.worker_id m.model_id ≡ true))
  unfolding try_evict_idle
  try_evict_idle-IsVictim r s e = elim (Option-cases (to_evict s)) [
    | inl nothing ↦ absurd (ground arith)
    | inr (m, found) ↦ (ground arith, (m, to_evict-IsVictim s m found, ground arith))
  ]

  -- Nothing is evicted from a worker with a service only if the snapshot shows active inferences or
  -- no ready model, or the worker did not unload the model that was chosen.
  pub try_evict_idle-IsKept :
      (r : Registry) (s : WorkerSnapshot) {worker : ℕ}
      → get_worker s.worker_id r ≡ some worker
      → try_evict_idle load reload unload r s ≡ false
      → IsKept unload s
  unfolding try_evict_idle IsKept
  try_evict_idle-IsKept r s there e = elim (Bool-cases (ltb 0 s.active_inferences)) [
    | inl active ↦ inl (ground arith)
    | inr idle ↦ elim (Option-cases (to_evict s)) [
      | inl nothing ↦ inr (inl (to_evict-none s nothing))
      | inr (m, found) ↦ inr (inr (m, to_evict-IsVictim s m found, ground arith))
    ]
  ]
