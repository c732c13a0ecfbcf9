-- ===== src/Scheduler/Requests.antt =====
-- The data that the scheduler queues: inference-api/src/scheduler/interfaces.ts and
-- inference-api/src/completions/dto/create-completion.dto.ts.
-- A field that may be undefined is an `Option`; `messages`, `stop` and `images`, of which the code
-- asks only for members, are lists. Temperatures and probabilities are in thousandths. Ids from
-- `uuidv4()` are numbers, compared for equality alone.
use inference_stack.Prelude.{ℕ, ◌*◌, String, Bool, Option, List}

pub data Priority : Type 0 where
  high normal low : Priority

abbrev pub level : Priority → ℕ
level high = 0
level normal = 1
level low = 2

-- An effective priority, in tenths of a tier.
abbrev pub tenths : Priority → ℕ
tenths p = 10 * level p

pub data RequestState : Type 0 where
  queued routing active completed error cancelled timeout : RequestState

pub record Message : Type 0 where
  pub role : String
  pub content : String

pub record CreateCompletionDto : Type 0 where
  pub model : String
  pub prompt : Option String
  pub messages : List Message
  pub max_tokens : Option ℕ
  pub temperature : Option ℕ
  pub top_p : Option ℕ
  pub stream : Bool
  pub stop : List String
  pub user : Option String
  pub priority : Option String
  pub images : List String
  pub session_id : Option String

-- The part of `QueuedRequest` that is never assigned after its construction. What changes is in
-- `Progress`, kept for each id by the scheduler.
pub record Request : Type 0 where
  pub id : ℕ
  pub dto : CreateCompletionDto
  pub user_id : String
  pub priority : Priority
  pub estimated_tokens : ℕ
  pub enqueued_at : ℕ
  pub effective_priority : ℕ
