-- ===== src/Completions/Records.antt =====
-- The stored record of inference-api/src/completions/entities/completion.entity.ts, and the
-- repository, whose `save` writes the record under its id and whose `delete` removes it.
-- A column that no service writes before the first `save` is `none`; `created_at` is the database's.
-- Temperatures and probabilities are in thousandths.
use inference_stack.Prelude.{ℕ, String, Bool, Option, ℕ_eq}
use inference_stack.Map.{Map, get, set, delete}

pub data Status : Type 0 where
  pending streaming completed error cancelled : Status

-- `Completion` of the source.
pub record Entity : Type 0 where
  pub id : ℕ
  pub model : String
  pub prompt : String
  pub completion_text : Option String
  pub stream : Bool
  pub status : Status
  pub finish_reason : Option String
  pub prompt_tokens : Option ℕ
  pub completion_tokens : Option ℕ
  pub total_tokens : Option ℕ
  pub prefill_time_ms : Option ℕ
  pub decode_time_ms : Option ℕ
  pub total_time_ms : Option ℕ
  pub temperature : ℕ
  pub max_tokens : ℕ
  pub top_p : ℕ
  pub error_message : Option String
  pub worker_id : Option String

abbrev pub Repository : Type 0
Repository = Map ℕ Entity

unfoldable pub save : Entity → Repository → Repository
save e repo = set e.id e repo

unfoldable pub find_one : ℕ → Repository → Option Entity
find_one id repo = get id repo

pub remove : ℕ → Repository → Repository
remove id repo = delete id repo
