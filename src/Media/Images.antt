-- ===== src/Media/Images.antt =====
-- inference-api/src/images/images.service.ts and images.controller.ts
use Prim.Native.String
use inference_stack.Prelude.{
  ℕ, ◌/◌, String, Bool, true, false, Option, none, some, List, length, sub_ℕ, pos,
}
use inference_stack.ClickHouse.{ClickHouse}
use inference_stack.Metrics.Windows.{decimal}
use inference_stack.Metrics.Recording.{named, InferenceMetricEvent, MetricRow, record_inference}
use inference_stack.Media.{
  MediaRequest, Times, Routed, on_worker, no_worker, Streamed, all_of, broke, Generated, generated,
  not_found, failed, MediaResponse, first_error, first_usage, collect, media_event,
}

pub record CreateImageDto : Type 0 where
  pub model : String
  pub prompt : String
  pub n : Option ℕ
  pub size : Option String

unfoldable pub image_id : Times → String
image_id t = String.◌++◌ "img-" (decimal t.id_time "")

-- What the worker is asked.
unfoldable pub image_request : Times → CreateImageDto → MediaRequest
image_request t dto = record {
  request_id = image_id t;
  model_id = dto.model;
  prompt = dto.prompt;
  max_tokens = 1;
}

pub record ImageResult : Type 0 where
  pub created : ℕ
  pub b64_json : String

-- The event of a request that a worker answers with an error.
unfoldable pub image_error_event : Times → CreateImageDto → String → String → InferenceMetricEvent
image_error_event t dto worker_id message = record {
  request_id = named (image_id t);
  model = dto.model;
  model_type = "image_gen";
  worker_id = worker_id;
  prefill_time_ms = 0;
  decode_time_ms = 0;
  total_time_ms = 0;
  queue_wait_ms = pos 0;
  routing_time_ms = sub_ℕ t.routed_time t.start_time;
  e2e_time_ms = sub_ℕ t.end_time t.start_time;
  time_to_first_token_ms = none;
  prompt_tokens = 0;
  completion_tokens = 0;
  cached_tokens = 0;
  user_id = "anonymous";
  priority = "normal";
  is_stream = false;
  finish_reason = "ERROR";
  media_type = some "image/png";
  media_size_bytes = none;
  is_error = true;
  error_message = some message;
}

-- `infer` is what a worker's service gives to a request.
-- `to_base64` is Node's `toString('base64')`.
module _ {B : Type 0} (to_base64 : List B → String) (accepts : Bool) (t : Times) where
  unfoldable pub image_responses :
      CreateImageDto
      → String
      → List (MediaResponse B)
      → ClickHouse MetricRow
      → Generated ImageResult × ClickHouse MetricRow
  image_responses dto worker_id responses ch = elim (first_error responses) [
    | some message ↦ (
      not_found message,
      record_inference accepts t.row_time (image_error_event t dto worker_id message) ch,
    )
    | none ↦ elim (collect "No image generated" responses) [
      | not_found message ↦ (not_found message, ch)
      | failed message ↦ (failed message, ch)
      | generated bytes ↦ (
        generated (record { created = t.created_time / 1000; b64_json = to_base64 bytes }),
        record_inference accepts t.row_time
            (media_event (named (image_id t)) dto.model "image_gen" "image/png" worker_id t
              (first_usage responses) (length bytes))
            ch,
      )
    ]
  ]

  unfoldable pub generate_image :
      CreateImageDto
      → Routed
      → (String → MediaRequest → Streamed B)
      → ClickHouse MetricRow
      → Generated ImageResult × ClickHouse MetricRow
  generate_image dto (no_worker err) infer ch = (failed err, ch)
  generate_image dto (on_worker worker_id) infer ch = elim (infer worker_id (image_request t dto)) [
    | broke err ↦ (failed err, ch)
    | all_of responses ↦ image_responses dto worker_id responses ch
  ]
