-- ===== src/Routing/Loading/Outcomes.antt =====
-- How the rounds of `loadOnBestWorker` of inference-api/src/worker-orchestrator/model-manager.ts end,
-- and what is known of the models then.
use inference_stack.Prelude.{
  ℕ, ◌≡◌, refl, String, Bool, true, Option, none, some, List, [], ◌∷◌, arith, All, Option-cases,
  Bool-cases, inl, inr, ◌⊎◌, string_eq, subst,
}
use inference_stack.Map.{Map}
use inference_stack.Roster.{get_default_gpu}
use inference_stack.Registry.{WorkerSnapshot, Registry, get_worker, get_all_snapshots}
use inference_stack.Routing.{
  filter_by, goes_before, candidates, ModelCapabilities, Capabilities, cache_capabilities,
  LoadAnswer, loaded, not_loaded, try_evict_idle, try_candidate, load_on_first, load_on_best_worker,
}
use inference_stack.Routing.Caching.{IsCached, cache_capabilities-IsCached}
use inference_stack.Routing.Sorting.{IsIn, filter_by-IsIn, All-unfilter, All-sort_by, All-unsort}
use inference_stack.Routing.Loading.{
  IsEvicted, IsKept, try_evict_idle-IsVictim, try_evict_idle-IsKept,
}

LoadAnswer-cases :
    (a : LoadAnswer) → ((caps : Option Capabilities) × (a ≡ loaded caps)) ⊎ (a ≡ not_loaded)
LoadAnswer-cases (loaded caps) = inl (caps, refl)
LoadAnswer-cases not_loaded = inr refl

module _ (load reload : String → LoadAnswer) (unload : String → String → Bool) where
  -- How a candidate came to have the model: at once, or after an eviction.
  pub record IsLoaded (r : Registry) (s : WorkerSnapshot) (caps : Option Capabilities)
      : Type 0 where
    pub served : (worker : ℕ) × (get_worker s.worker_id r ≡ some worker)
    pub how :
        (load s.worker_id ≡ loaded caps)
        ⊎ ((load s.worker_id ≡ not_loaded)
            × IsEvicted unload s
            × (reload s.worker_id ≡ loaded caps))

  -- How a candidate failed: it has no service, or it did not load the model, and then nothing was
  -- evicted or it did not load the model after that either.
  pub HasFailed : Registry → WorkerSnapshot → Type 0
  HasFailed r s =
      (get_worker s.worker_id r ≡ none)
      ⊎ ((load s.worker_id ≡ not_loaded)
          × (IsKept unload s ⊎ (IsEvicted unload s × (reload s.worker_id ≡ not_loaded))))

  try_evict_idle-IsEvicted :
      (r : Registry) (s : WorkerSnapshot)
      → try_evict_idle load reload unload r s ≡ true
      → IsEvicted unload s
  try_evict_idle-IsEvicted r s e =
      let (idle, victim) = try_evict_idle-IsVictim load reload unload r s e in
      record { idle = idle; victim = victim }

  try_candidate-IsLoaded :
      (r : Registry) (s : WorkerSnapshot) (caps : Option Capabilities)
      → try_candidate load reload unload r s ≡ loaded caps
      → IsLoaded r s caps
  unfolding try_candidate
  try_candidate-IsLoaded r s caps e = elim (Option-cases (get_worker s.worker_id r)) [
    | inl gone ↦ absurd (ground arith)
    | inr (worker, there) ↦ record { served = (worker, there); how = by_answer there }
  ]
    where
      by_answer :
          {worker : ℕ}
          → get_worker s.worker_id r ≡ some worker
          → (load s.worker_id ≡ loaded caps)
            ⊎ ((load s.worker_id ≡ not_loaded)
                × IsEvicted unload s
                × (reload s.worker_id ≡ loaded caps))
      by_answer there = elim (LoadAnswer-cases (load s.worker_id)) [
        | inl (found, at_once) ↦ inl (ground arith)
        | inr fails ↦ elim (Bool-cases (try_evict_idle load reload unload r s)) [
          | inl evicts ↦ inr (fails, try_evict_idle-IsEvicted r s evicts, ground arith)
          | inr stays ↦ absurd (ground arith)
        ]
      ]

  try_candidate-HasFailed :
      (r : Registry) (s : WorkerSnapshot)
      → try_candidate load reload unload r s ≡ not_loaded
      → HasFailed r s
  unfolding try_candidate HasFailed
  try_candidate-HasFailed r s e = elim (Option-cases (get_worker s.worker_id r)) [
    | inl gone ↦ inl gone
    | inr (worker, there) ↦ elim (LoadAnswer-cases (load s.worker_id)) [
      | inl (found, at_once) ↦ absurd (ground arith)
      | inr fails ↦ elim (Bool-cases (try_evict_idle load reload unload r s)) [
        | inl evicts ↦ inr (fails, inr (try_evict_idle-IsEvicted r s evicts, ground arith))
        | inr stays ↦ inr (fails, inl (try_evict_idle-IsKept load reload unload r s there stays))
      ]
    ]
  ]

  -- The first candidate that has the model in the end, and that none before it did.
  load_on_first-IsLoaded :
      (P : WorkerSnapshot → Type 0) (r : Registry) (ss : List WorkerSnapshot) (id : String)
      (caps : Option Capabilities)
      → All P ss
      → load_on_first load reload unload r ss ≡ some (id, caps)
      → (s : WorkerSnapshot) × P s × (s.worker_id ≡ id) × IsLoaded r s caps
  unfolding load_on_first
  load_on_first-IsLoaded P r [] id caps h e = cc
  load_on_first-IsLoaded P r (s ∷ ss) id caps h e =
      elim (LoadAnswer-cases (try_candidate load reload unload r s)) [
        | inl (found, here) ↦
            let same : found ≡ caps = ground arith in
            (s, h.0, ground arith, rw (← same) (try_candidate-IsLoaded r s found here))
        | inr fails ↦ load_on_first-IsLoaded P r ss id caps h.1 (ground arith)
      ]

  load_on_first-none :
      (r : Registry) (ss : List WorkerSnapshot)
      → load_on_first load reload unload r ss ≡ none
      → All (HasFailed r) ss
  unfolding load_on_first
  load_on_first-none r [] e = tt
  load_on_first-none r (s ∷ ss) e = elim (LoadAnswer-cases (try_candidate load reload unload r s)) [
    | inl (found, here) ↦ absurd (ground arith)
    | inr fails ↦ (try_candidate-HasFailed r s fails, load_on_first-none r ss (ground arith))
  ]

  -- A worker that `loadOnBestWorker` returns has a healthy snapshot and a service. It loaded the
  -- model at once, or failed to, evicted a ready model with the least memory while the snapshot
  -- showed no active inferences, and loaded the model then. The capabilities that it answered are
  -- known for the model afterwards, with 0 and false for the fields it left out, and those of the
  -- other models are as before; without an answer nothing changes.
  pub load_on_best_worker-IsLoaded :
      (model_id : String) (r : Registry) (known after : Map String ModelCapabilities) (id : String)
      → load_on_best_worker load reload unload model_id r known ≡ some (id, after)
      → (s : WorkerSnapshot) × (caps : Option Capabilities) × (IsIn s (get_all_snapshots r)
          × (s.healthy ≡ true))
        × (s.worker_id ≡ id)
        × IsLoaded r s caps
        × IsCached model_id caps known after
  unfolding load_on_best_worker candidates
  load_on_best_worker-IsLoaded model_id r known after id e =
      elim (Option-cases (load_on_first load reload unload r (candidates model_id r))) [
        | inl nobody ↦ absurd (ground arith)
        | inr ((id', caps), found) ↦
            let Q : WorkerSnapshot → Type 0 =
              λ a. IsIn a (get_all_snapshots r) × (a.healthy ≡ true) in
            let all =
              All-sort_by (goes_before (get_default_gpu model_id)) Q
                (filter_by (λ a. a.healthy) (get_all_snapshots r))
                (filter_by-IsIn (λ a. a.healthy) (get_all_snapshots r)) in
            let (s, holds, same, how) =
              load_on_first-IsLoaded Q r (candidates model_id r) id' caps all found in
            let cached : cache_capabilities model_id caps known ≡ after = ground arith in
            let known_then =
              subst (IsCached model_id caps known) cached
                (cache_capabilities-IsCached model_id caps known) in
            (s, caps, holds, ground arith, how, known_then)
      ]

  -- `loadOnBestWorker` fails only if every worker with a healthy snapshot failed: it has no service,
  -- or it did not load the model at first and then nothing was evicted (the snapshot showed active
  -- inferences or no ready model, or the worker did not unload the ready model with the least
  -- memory) or, after that model was evicted from the idle worker, it did not load the model again.
  pub load_on_best_worker-none :
      (model_id : String) (r : Registry) (known : Map String ModelCapabilities)
      → load_on_best_worker load reload unload model_id r known ≡ none
      → All (λ s. s.healthy ≡ true → HasFailed r s) (get_all_snapshots r)
  unfolding load_on_best_worker candidates
  load_on_best_worker-none model_id r known e =
      elim (Option-cases (load_on_first load reload unload r (candidates model_id r))) [
        | inr ((id', caps), found) ↦ absurd (ground arith)
        | inl nobody ↦
            All-unfilter (HasFailed r) (λ a. a.healthy) (get_all_snapshots r)
              (All-unsort (goes_before (get_default_gpu model_id)) (HasFailed r)
                (filter_by (λ a. a.healthy) (get_all_snapshots r))
                (load_on_first-none r (candidates model_id r) nobody))
      ]
