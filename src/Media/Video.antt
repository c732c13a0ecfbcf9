-- ===== src/Media/Video.antt =====
-- inference-api/src/video/video.service.ts and video.controller.ts
use Prim.Native.String
use inference_stack.Prelude.{String, Bool, List, [], ◌∷◌, length}
use inference_stack.ClickHouse.{ClickHouse}
use inference_stack.Metrics.Windows.{decimal}
use inference_stack.Metrics.Recording.{named, MetricRow, record_inference}
use inference_stack.Media.{
  MediaRequest, Times, Routed, on_worker, no_worker, Streamed, all_of, broke, Generated, generated,
  not_found, failed, MediaResponse, first_usage, collect, media_event,
}

pub record CreateVideoDto : Type 0 where
  pub model : String
  pub prompt : String

unfoldable pub video_id : Times → String
video_id t = String.◌++◌ "vid-" (decimal t.id_time "")

-- What the worker is asked.
unfoldable pub video_request : Times → CreateVideoDto → MediaRequest
video_request t dto = record {
  request_id = video_id t;
  model_id = dto.model;
  prompt = dto.prompt;
  max_tokens = 1;
}

-- `infer` is what a worker's service gives to a request.
module _ {B : Type 0} (accepts : Bool) (t : Times) where
  unfoldable pub generate_video_responses :
      CreateVideoDto
      → String
      → List (MediaResponse B)
      → ClickHouse MetricRow
      → Generated (List B) × ClickHouse MetricRow
  generate_video_responses dto worker_id responses ch =
      elim (collect "No video generated" responses) [
        | not_found message ↦ (not_found message, ch)
        | failed message ↦ (failed message, ch)
        | generated bytes ↦ (
          generated bytes,
          record_inference accepts t.row_time
              (media_event (named (video_id t)) dto.model "video_gen" "video/mp4" worker_id t
                (first_usage responses) (length bytes))
              ch,
        )
      ]

  unfoldable pub generate_video :
      CreateVideoDto
      → Routed
      → (String → MediaRequest → Streamed B)
      → ClickHouse MetricRow
      → Generated (List B) × ClickHouse MetricRow
  generate_video dto (no_worker err) infer ch = (failed err, ch)
  generate_video dto (on_worker worker_id) infer ch = elim (infer worker_id (video_request t dto)) [
    | broke err ↦ (failed err, ch)
    | all_of responses ↦ generate_video_responses dto worker_id responses ch
  ]

-- The headers of the answer.
unfoldable pub video_headers : {B : Type 0} → List B → List (String × String)
video_headers bytes =
    ("Content-Type", "video/mp4") ∷ ("Content-Length", decimal (length bytes) "") ∷ []
