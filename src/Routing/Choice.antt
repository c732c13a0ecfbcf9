-- ===== src/Routing/Choice.antt =====
-- Which worker `route` of inference-api/src/worker-orchestrator/router.ts picks.
use inference_stack.Prelude.{◌≤◌, ◌≡◌, sym, subst, String, true, arith, All, Option-cases, inl, inr}
use inference_stack.Registry.{WorkerSnapshot, Registry, get_all_snapshots}
use inference_stack.Routing.{
  is_ready_worker, get_workers_with_model, load_of, least_loaded, load_then_infer, route,
}
use inference_stack.Routing.Sorting.{IsIn, All-unfilter, first_in-sort_by-none}

-- The snapshot of a healthy worker that has the model ready, with the least load of all such.
pub record IsBest (model_id : String) (r : Registry) (s : WorkerSnapshot) : Type 0 where
  pub known : IsIn s (get_all_snapshots r)
  pub ready : is_ready_worker model_id s ≡ true
  pub least :
      All (λ o. is_ready_worker model_id o ≡ true → load_of s ≤ load_of o) (get_all_snapshots r)

-- A request has to wait for a load only if no healthy worker has the model ready.
route-load_then_infer :
    (model_id : String) (r : Registry)
    → route model_id r ≡ load_then_infer
    → All (λ s. is_ready_worker model_id s ≡ true → ⊥) (get_all_snapshots r)
unfolding route
route-load_then_infer model_id r e =
    elim (Option-cases (least_loaded (get_workers_with_model model_id r))) [
      | inr (s, chosen) ↦ absurd (ground arith)
      | inl nobody ↦
          unfold least_loaded get_workers_with_model in
          All-unfilter (λ s. ⊥) (is_ready_worker model_id) (get_all_snapshots r)
            (subst (All (λ s. ⊥)) (sym (first_in-sort_by-none load_of _ nobody)) tt)
    ]
