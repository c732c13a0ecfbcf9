-- ===== src/Roster/Consistency.antt =====
-- The lookups of inference-api/src/config/model-roster.ts agree with one another.
use inference_stack.Prelude.{
  ◌≡◌, ◌≢◌, refl, ap, ◌<◌, ◌↔◌, String, true, none, some, arith, All, string_eq, Option-cases, inl,
  inr,
}
use inference_stack.Map.{get, All-get}
use inference_stack.Roster.{
  ModelRosterEntry, model_roster, get_default_gpu, is_true, is_tensor_parallel, or_one,
  get_tensor_parallel_size,
}

-- Several GPUs go with tensor parallelism, and that with the worker for it.
record IsConsistent (e : String × ModelRosterEntry) : Type 0 where
  several : (is_true e.1.tensor_parallel ≡ true) ↔ (1 < or_one e.1.tensor_parallel_size)
  worker : (is_true e.1.tensor_parallel ≡ true) ↔ (e.1.default_gpu ≡ "tp-worker-0")

one_gpu-IsConsistent :
    (e : String × ModelRosterEntry)
    → e.1.tensor_parallel ≡ none
    → e.1.tensor_parallel_size ≡ none
    → e.1.default_gpu ≢ "tp-worker-0"
    → IsConsistent e
one_gpu-IsConsistent e one single other = record {
  several = (λ h. ground (arith, h, one), λ h. ground (arith, h, single));
  worker = (λ h. ground (arith, h, one), λ h. absurd (other h));
}

first≢tensor : ◌≢◌ {A = String} "worker-0" "tp-worker-0"
first≢tensor e = absurd (cc ((string_eq.beq_iff "worker-0" "tp-worker-0").1 e))

second≢tensor : ◌≢◌ {A = String} "worker-1" "tp-worker-0"
second≢tensor e = absurd (cc ((string_eq.beq_iff "worker-1" "tp-worker-0").1 e))

roster-IsConsistent : All IsConsistent model_roster
roster-IsConsistent = (
  one_gpu-IsConsistent _ refl refl first≢tensor,
  (
    one_gpu-IsConsistent _ refl refl first≢tensor,
    (
      one_gpu-IsConsistent _ refl refl first≢tensor,
      (
        one_gpu-IsConsistent _ refl refl first≢tensor,
        (
          one_gpu-IsConsistent _ refl refl first≢tensor,
          (
            one_gpu-IsConsistent _ refl refl second≢tensor,
            (
              one_gpu-IsConsistent _ refl refl second≢tensor,
              (
                record { several = (λ h. omega arith, λ h. refl); worker = (λ h. refl, λ h. refl) },
                tt,
              ),
            ),
          ),
        ),
      ),
    ),
  ),
)

-- For every model id, known or not, a model is tensor parallel exactly when its tensor parallel size
-- is above 1, and exactly when its default GPU is the tensor-parallel worker.
pub is_tensor_parallel_iff :
    (model_id : String)
    → ((is_tensor_parallel model_id ≡ true) ↔ (1 < get_tensor_parallel_size model_id))
      × ((is_tensor_parallel model_id ≡ true) ↔ (get_default_gpu model_id ≡ some "tp-worker-0"))
unfolding is_tensor_parallel get_tensor_parallel_size get_default_gpu
is_tensor_parallel_iff model_id = elim (Option-cases (get model_id model_roster)) [
  | inl unknown ↦
      rw (unknown, is_tensor_parallel, get_tensor_parallel_size, get_default_gpu)
        ((λ h. cc, λ h. absurd (omega arith)), (λ h. cc, λ h. cc))
  | inr (e, found) ↦
      let c = All-get IsConsistent model_id e model_roster roster-IsConsistent found in
      rw (found, is_tensor_parallel, get_tensor_parallel_size, get_default_gpu)
        (c.several, (λ h. ap some (c.worker.0 h), λ h. c.worker.1 (cc h)))
]
