-- ===== src/Routing/Steps/Refinement.antt =====
-- The load in steps against `load_on_best_worker`, where the registry stays as it is.
use inference_stack.Prelude.{
  ℕ, zero, suc, ◌*◌, ◌≤◌, ◌≡◌, refl, ◌∙◌, String, Bool, false, Option, none, some, List, [], ◌∷◌,
  arith, length, if◌then◌else◌,
}
use inference_stack.Map.{Map}
use inference_stack.Registry.{WorkerSnapshot, Registry}
use inference_stack.Routing.{
  candidates, ModelCapabilities, Capabilities, LoadAnswer, loaded, not_loaded, try_evict_idle,
  try_candidate, load_on_first, load_on_best_worker,
}
use inference_stack.Routing.Steps.{
  Loading, asking, evicting, retrying, loaded_on, no_healthy_workers, no_capacity, next_candidate,
  start_load, begin_evict, Answer, proceed, result_of,
}
use inference_stack.Routing.Steps.Running.{left_over, proceed-left_over, start_load-left_over}

module _ (load reload : String → LoadAnswer) (unload : String → String → Bool) (r : Registry) where
  -- What the workers answer where a load is.
  abbrev pub reply : Loading → Answer
  reply (evicting s worker m evictor rest) = record {
    to_load = not_loaded;
    to_unload = unload s.worker_id m.model_id;
  }
  reply (retrying s worker rest) = record { to_load = reload s.worker_id; to_unload = false }
  reply (asking s worker rest) = record { to_load = load s.worker_id; to_unload = false }
  reply l = record { to_load = not_loaded; to_unload = false }

  pub run_fixed : ℕ → Loading → Loading
  run_fixed zero l = l
  run_fixed (suc n) l = run_fixed n (proceed r (reply l) l)

  -- A candidate's answer, and those of the rest.
  abbrev or_rest :
      WorkerSnapshot → List WorkerSnapshot → LoadAnswer → Option (String × Option Capabilities)
  or_rest s rest (loaded caps) = some (s.worker_id, caps)
  or_rest s rest not_loaded = load_on_first load reload unload r rest

  -- What a load will come to.
  abbrev meaning : Loading → Option (String × Option Capabilities)
  meaning (asking s worker rest) = or_rest s rest (elim (load s.worker_id) [
    | loaded caps ↦ loaded caps
    | not_loaded ↦ if try_evict_idle load reload unload r s then reload s.worker_id else not_loaded
  ])
  meaning (evicting s worker m evictor rest) =
      or_rest s rest (if unload s.worker_id m.model_id then reload s.worker_id else not_loaded)
  meaning (retrying s worker rest) = or_rest s rest (reload s.worker_id)
  meaning (loaded_on id worker caps) = some (id, caps)
  meaning no_healthy_workers = none
  meaning no_capacity = none

  next_candidate-meaning :
      (ss : List WorkerSnapshot)
      → meaning (next_candidate r ss) ≡ load_on_first load reload unload r ss
  unfolding next_candidate load_on_first try_candidate
  next_candidate-meaning [] = refl
  next_candidate-meaning (s ∷ ss) = ground (arith, next_candidate-meaning ss)

  begin_evict-meaning :
      (s : WorkerSnapshot) (worker : ℕ) (rest : List WorkerSnapshot)
      → meaning (begin_evict r s worker rest)
        ≡ or_rest s rest
            (if try_evict_idle load reload unload r s then reload s.worker_id else not_loaded)
  unfolding begin_evict try_evict_idle
  begin_evict-meaning s worker rest = ground (arith, next_candidate-meaning rest)

  proceed-meaning : (l : Loading) → meaning (proceed r (reply l) l) ≡ meaning l
  unfolding proceed
  proceed-meaning (asking s worker rest) = ground (arith, begin_evict-meaning s worker rest)
  proceed-meaning (evicting s worker m evictor rest) = ground (arith, next_candidate-meaning rest)
  proceed-meaning (retrying s worker rest) = ground (arith, next_candidate-meaning rest)
  proceed-meaning (loaded_on id worker caps) = refl
  proceed-meaning no_healthy_workers = refl
  proceed-meaning no_capacity = refl

  run_fixed-meaning : (n : ℕ) (l : Loading) → meaning (run_fixed n l) ≡ meaning l
  unfolding run_fixed
  run_fixed-meaning zero l = refl
  run_fixed-meaning (suc n) l = run_fixed-meaning n (proceed r (reply l) l) ∙ proceed-meaning l

  run_fixed-left_over : (n : ℕ) (l : Loading) → left_over l ≤ n → left_over (run_fixed n l) ≡ 0
  unfolding run_fixed
  run_fixed-left_over zero l enough = omega (arith, enough)
  run_fixed-left_over (suc n) l enough =
      run_fixed-left_over n (proceed r (reply l) l)
        (omega (arith, enough, proceed-left_over r (reply l) l))

  start_load-meaning :
      (model_id : String)
      → meaning (start_load model_id r) ≡ load_on_first load reload unload r (candidates model_id r)
  unfolding start_load
  start_load-meaning model_id = by_candidates (candidates model_id r) refl
    where
      by_candidates :
          (ss : List WorkerSnapshot)
          → candidates model_id r ≡ ss
          → meaning (start_load model_id r)
            ≡ load_on_first load reload unload r (candidates model_id r)
      by_candidates [] e = rw (e, start_load) (unfold load_on_first in refl)
      by_candidates (s ∷ ss) e = rw (e, start_load) (next_candidate-meaning (s ∷ ss))

  -- A load that has ended, with what it came to.
  result_of-meaning :
      (model_id : String) (known : Map String ModelCapabilities) (l : Loading)
      → left_over l ≡ 0
      → meaning l ≡ load_on_first load reload unload r (candidates model_id r)
      → result_of model_id known l ≡ load_on_best_worker load reload unload model_id r known
  unfolding load_on_best_worker result_of
  result_of-meaning model_id known (asking s worker rest) e m = absurd (omega (arith, e))
  result_of-meaning model_id known (evicting s worker v evictor rest) e m =
      absurd (omega (arith, e))
  result_of-meaning model_id known (retrying s worker rest) e m = absurd (omega (arith, e))
  result_of-meaning model_id known (loaded_on id worker caps) e m =
      rw (← m, load_on_best_worker) refl
  result_of-meaning model_id known no_healthy_workers e m = rw (← m, load_on_best_worker) refl
  result_of-meaning model_id known no_capacity e m = rw (← m, load_on_best_worker) refl

  -- Where the registry stays as it is and every worker has its answers to a first load, to an unload
  -- and to a second load, the load in steps comes, with three answers for each candidate at most, to
  -- the worker and the known capabilities that `load_on_best_worker` says, or fails where that fails.
  pub run_fixed-load_on_best_worker :
      (model_id : String) (known : Map String ModelCapabilities) (n : ℕ)
      → 3 * length (candidates model_id r) ≤ n
      → result_of model_id known (run_fixed n (start_load model_id r))
        ≡ load_on_best_worker load reload unload model_id r known
  run_fixed-load_on_best_worker model_id known n enough =
      result_of-meaning model_id known (run_fixed n (start_load model_id r))
        (run_fixed-left_over n (start_load model_id r)
          (omega (arith, enough, start_load-left_over model_id r)))
        (run_fixed-meaning n (start_load model_id r) ∙ start_load-meaning model_id)
