-- ===== src/Roster.antt =====
-- inference-api/src/config/model-roster.ts
-- A field that may be undefined is an `Option`.
pub mod Consistency
mod Tests
use inference_stack.Prelude.{ℕ, String, Bool, true, false, Option, none, some, [], ◌∷◌, string_eq}
use inference_stack.Map.{Map, get}

pub data ModelType : Type 0 where
  text_gen vision_language tts image_gen video_gen : ModelType

pub record ModelRosterEntry : Type 0 where
  pub type : ModelType
  pub vram_estimate_bytes : ℕ
  pub default_gpu : String
  pub tensor_parallel : Option Bool
  pub tensor_parallel_size : Option ℕ

-- An entry for one GPU.
abbrev pub one_gpu : ModelType → ℕ → String → ModelRosterEntry
one_gpu type bytes gpu = record {
  type = type;
  vram_estimate_bytes = bytes;
  default_gpu = gpu;
  tensor_parallel = none;
  tensor_parallel_size = none;
}

abbrev pub model_roster : Map String ModelRosterEntry
model_roster =
    ("HuggingFaceTB/SmolLM2-135M-Instruct", one_gpu text_gen 300000000 "worker-0")
    ∷ ("HuggingFaceTB/SmolLM2-360M-Instruct", one_gpu text_gen 700000000 "worker-0")
    ∷ ("HuggingFaceTB/SmolLM2-1.7B-Instruct", one_gpu text_gen 3500000000 "worker-0")
    ∷ ("Qwen/Qwen2.5-VL-3B-Instruct", one_gpu vision_language 7000000000 "worker-0")
    ∷ ("hexgrad/Kokoro-82M", one_gpu tts 500000000 "worker-0")
    ∷ ("stabilityai/sd-turbo", one_gpu image_gen 5500000000 "worker-1")
    ∷ ("THUDM/CogVideoX-2b", one_gpu video_gen 7000000000 "worker-1")
    ∷ (
      "Qwen/Qwen3-14B",
      record {
        type = text_gen;
        vram_estimate_bytes = 29000000000;
        default_gpu = "tp-worker-0";
        tensor_parallel = some true;
        tensor_parallel_size = some 2;
      },
    )
    ∷ []

pub get_model_type : String → Option ModelType
get_model_type model_id = elim (get model_id model_roster) [ none ↦ none | some e ↦ some e.type ]

unfoldable pub get_default_gpu : String → Option String
get_default_gpu model_id = elim (get model_id model_roster) [
  | none ↦ none
  | some e ↦ some e.default_gpu
]

abbrev pub is_true : Option Bool → Bool
is_true none = false
is_true (some b) = b

pub is_tensor_parallel : String → Bool
is_tensor_parallel model_id = elim (get model_id model_roster) [
  | none ↦ false
  | some e ↦ is_true e.tensor_parallel
]

abbrev pub or_one : Option ℕ → ℕ
or_one none = 1
or_one (some n) = n

pub get_tensor_parallel_size : String → ℕ
get_tensor_parallel_size model_id = elim (get model_id model_roster) [
  | none ↦ 1
  | some e ↦ or_one e.tensor_parallel_size
]
