-- ===== src/Scheduler/Inference.antt =====
-- What workers are asked, in inference-api/src/scheduler/scheduler.service.ts: the argument of
-- `infer` for one request and that of `batchInfer` for several. `decode` is Node's
-- `Buffer.from(image, 'base64')`. Temperatures and probabilities are in thousandths.
use inference_stack.Prelude.{
  ℕ, String, Option, none, some, List, [], ◌∷◌, map, ◌==◌, string_eq, if◌then◌else◌,
}
use inference_stack.Scheduler.Requests.{Message, CreateCompletionDto, Request}
use inference_stack.Scheduler.Service.{or_empty_text}

pub record Params : Type 0 where
  pub max_tokens : ℕ
  pub temperature : ℕ
  pub top_p : ℕ

pub record InferRequest (A : Type 0) : Type 0 where
  pub request_id : ℕ
  pub model_id : String
  pub prompt : String
  pub params : Params
  pub image_data : Option A
  -- The empty list is an absent field.
  pub messages : List Message
  pub cache_hint : Option String

abbrev or_else : Option ℕ → ℕ → ℕ
or_else none d = d
or_else (some n) d = n

pub params_of : CreateCompletionDto → Params
params_of dto = record {
  max_tokens = or_else dto.max_tokens 50;
  temperature = or_else dto.temperature 1000;
  top_p = or_else dto.top_p 1000;
}

-- `dto.session_id && …`: an empty string counts as absent.
unfoldable pub truthy : Option String → Option String
truthy none = none
truthy (some text) = if text == "" then none else some text

-- A text, or a default where it is absent or empty.
unfoldable pub or_text : String → Option String → String
unfolding truthy
or_text default text = elim (truthy text) [ none ↦ default | some t ↦ t ]

pub first_image : CreateCompletionDto → Option String
first_image dto = elim dto.images [ [] ↦ none | image ∷ images ↦ truthy (some image) ]

module _ {A : Type 0} (decode : String → A) where
  unfoldable pub image_data_of : Option String → Option A
  image_data_of none = none
  image_data_of (some image) = some (decode image)

  pub infer_request : Request → InferRequest A
  infer_request r = record {
    request_id = r.id;
    model_id = r.dto.model;
    prompt = or_empty_text r.dto.prompt;
    params = params_of r.dto;
    image_data = image_data_of (first_image r.dto);
    messages = map (λ m. record { role = m.role; content = m.content }) r.dto.messages;
    cache_hint = truthy r.dto.session_id;
  }

pub batch_infer_request : {A : Type 0} → Request → InferRequest A
batch_infer_request r = record {
  request_id = r.id;
  model_id = r.dto.model;
  prompt = or_empty_text r.dto.prompt;
  params = params_of r.dto;
  image_data = none;
  messages = map (λ m. record { role = m.role; content = m.content }) r.dto.messages;
  cache_hint = truthy r.dto.session_id;
}
