-- ===== src/Routing/Caching.antt =====
-- What `cacheCapabilities` of inference-api/src/worker-orchestrator/model-manager.ts leaves known of the
-- models.
use inference_stack.Prelude.{◌≡◌, refl, ◌≢◌, String, false, Option, none, some, string_eq}
use inference_stack.Map.{Map, get, get-set_self, get-set_ne}
use inference_stack.Routing.{
  ModelCapabilities, Capabilities, to_capabilities, or_else, cache_capabilities,
}

-- A field that is known is the one that was answered, or the default where none was.
pub IsField : {A : Type 0} → Option A → A → A → Type 0
IsField none default a = a ≡ default
IsField (some answered) default a = a ≡ answered

pub record IsKnown (caps : Capabilities) (m : ModelCapabilities) : Type 0 where
  pub max_context_length : IsField caps.max_context_length 0 m.max_context_length
  pub vocab_size : IsField caps.vocab_size 0 m.vocab_size
  pub supports_logprobs : IsField caps.supports_logprobs false m.supports_logprobs
  pub supports_json_mode : IsField caps.supports_json_mode false m.supports_json_mode
  pub supports_grammar : IsField caps.supports_grammar false m.supports_grammar

-- What is known after an answer for a model: with capabilities, these for the model and what was
-- known for the others; without, what was known.
pub IsCached :
    String
    → Option Capabilities
    → Map String ModelCapabilities
    → Map String ModelCapabilities
    → Type 0
IsCached model_id none known after = after ≡ known
IsCached model_id (some caps) known after =
    ((m : ModelCapabilities) × (get model_id after ≡ some m) × IsKnown caps m)
    × ((other : String) → model_id ≢ other → get other after ≡ get other known)

or_else-IsField : {A : Type 0} (o : Option A) (d : A) → IsField o d (or_else o d)
unfolding IsField
or_else-IsField none d = refl
or_else-IsField (some a) d = refl

pub cache_capabilities-IsCached :
    (model_id : String) (caps : Option Capabilities) (known : Map String ModelCapabilities)
    → IsCached model_id caps known (cache_capabilities model_id caps known)
unfolding IsCached cache_capabilities to_capabilities
cache_capabilities-IsCached model_id none known = refl
cache_capabilities-IsCached model_id (some caps) known = (
  (
    to_capabilities caps,
    get-set_self model_id (to_capabilities caps) known,
    record {
      max_context_length = or_else-IsField caps.max_context_length 0;
      vocab_size = or_else-IsField caps.vocab_size 0;
      supports_logprobs = or_else-IsField caps.supports_logprobs false;
      supports_json_mode = or_else-IsField caps.supports_json_mode false;
      supports_grammar = or_else-IsField caps.supports_grammar false;
    },
  ),
  λ other h. get-set_ne model_id other (to_capabilities caps) known h,
)
