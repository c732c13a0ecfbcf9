-- ===== src/Routing/Coalescing.antt =====
-- The coalescing of loads in `ensureModelLoaded` of
-- inference-api/src/worker-orchestrator/model-manager.ts.
use inference_stack.Prelude.{
  ◌≡◌, sym, ◌∙◌, ap, String, none, some, arith, string_eq, Option-cases, inl, inr,
}
use inference_stack.Map.{
  Map, get, set, get-set_self, IsDistinct, get-delete_self, set-IsDistinct, delete,
}
use inference_stack.Registry.{Registry}
use inference_stack.Routing.{
  least_loaded, get_workers_with_model, joins, starts, ensure_model_loaded, end_load,
}

-- When a call starts a load, every further call for the model joins it as long as no worker has the
-- model ready, and when that load ends without the model being ready on a worker, the next call
-- starts a new one. The registry is the same in these calls, and no model has two loads in flight.
ensure_model_loaded-starts :
    (model_id : String) (r : Registry) (before after : Map String (Unit {0}))
    → IsDistinct before
    → ensure_model_loaded model_id r before ≡ starts after
    → (ensure_model_loaded model_id r after ≡ joins)
      × (ensure_model_loaded model_id r (end_load model_id after)
          ≡ starts (set model_id tt (end_load model_id after)))
unfolding ensure_model_loaded end_load
ensure_model_loaded-starts model_id r before after d e =
    elim (Option-cases (least_loaded (get_workers_with_model model_id r))) [
      | inr (s, ready) ↦ absurd (ground arith)
      | inl nobody ↦ elim (Option-cases (get model_id before)) [
        | inr (load, running) ↦ absurd (ground arith)
        | inl free ↦
            let added : set model_id tt before ≡ after = ground arith in
            let held : get model_id after ≡ some tt =
              ap (get model_id) (sym added) ∙ get-set_self model_id tt before in
            let gone : get model_id (delete model_id after) ≡ none =
              get-delete_self model_id after (rw (← added) (set-IsDistinct model_id tt before d)) in
            (ground (arith, nobody, held), ground (arith, nobody, gone))
      ]
    ]
