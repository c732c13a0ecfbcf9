-- ===== src/Batching/Tests.antt =====
-- A small collector, and the theorems on it.
use inference_stack.Prelude.{
  ℕ, ◌+◌, ◌≡◌, refl, true, ◌==◌, ℕ_eq, if◌then◌else◌, [], ◌∷◌, ◌++◌, arith,
}
use inference_stack.Batching.{
  BatchConfig, default_batch_config, BatchableRequest, BatchCollector, submit, window_elapsed,
  is_compatible, in_ratio, min_tokens, max_tokens,
}
use inference_stack.Batching.Ratio.{IsBalanced, is_compatible-IsBalanced}
use inference_stack.Batching.Buckets.{submit-IsValid, window_elapsed-IsValid, config-submit}
use inference_stack.Batching.Waiting.{IsSane, IsValid, AllDelivered}
use inference_stack.Batching.Conservation.{pending, handed_on, submit-pending}

abbrev asks : ℕ → ℕ → BatchableRequest ℕ
asks id tokens = record { id = id; model_id = "qwen"; estimated_tokens = tokens; context = id }

abbrev pairs : BatchConfig
pairs = record default_batch_config { max_batch_size = 2; batch_dispatch = true }

abbrev nothing_yet : BatchCollector ℕ
nothing_yet = record { config = pairs; buckets = [] }

-- Request 1 waits.
abbrev one_waits : BatchCollector ℕ
one_waits = (submit (asks 1 10) nothing_yet).0

pairs-IsSane : IsSane pairs
pairs-IsSane = record { size = omega arith; ratio = omega arith }

one_waits-IsSane : IsSane one_waits.config
one_waits-IsSane = rw (config-submit (asks 1 10) nothing_yet) pairs-IsSane

one_waits-enabled : one_waits.config.enabled ≡ true
one_waits-enabled = rw (config-submit (asks 1 10) nothing_yet) refl

one_waits-IsValid : IsValid one_waits
one_waits-IsValid = (submit-IsValid (asks 1 10) nothing_yet pairs-IsSane refl tt).0

submit-IsValid_example :
    IsValid (submit (asks 2 30) one_waits).0
    × AllDelivered one_waits.config "qwen" (submit (asks 2 30) one_waits).1
submit-IsValid_example =
    submit-IsValid (asks 2 30) one_waits one_waits-IsSane one_waits-enabled one_waits-IsValid

window_elapsed-IsValid_example :
    IsValid (window_elapsed "qwen" 0 one_waits).0
    × AllDelivered one_waits.config "qwen" (window_elapsed "qwen" 0 one_waits).1
window_elapsed-IsValid_example = window_elapsed-IsValid "qwen" 0 one_waits one_waits-IsValid

abbrev is_two : BatchableRequest ℕ → ℕ
is_two r = if r.id == 2 then 1 else 0

submit-pending_example :
    pending is_two (submit (asks 2 30) one_waits).0
      + handed_on is_two (submit (asks 2 30) one_waits).1
    ≡ pending is_two one_waits + is_two (asks 2 30)
submit-pending_example = submit-pending is_two (asks 2 30) one_waits

is_compatible-IsBalanced_example : IsBalanced 4 ((asks 1 10 ∷ []) ++ asks 2 30 ∷ [])
unfolding is_compatible min_tokens max_tokens in_ratio
is_compatible-IsBalanced_example =
    is_compatible-IsBalanced pairs (asks 2 30) (asks 1 10 ∷ []) (omega arith) refl
