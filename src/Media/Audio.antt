-- ===== src/Media/Audio.antt =====
-- inference-api/src/audio/audio.service.ts and audio.controller.ts
use Prim.Native.String
use inference_stack.Prelude.{String, Bool, Option, List, [], ◌∷◌, length}
use inference_stack.ClickHouse.{ClickHouse}
use inference_stack.Metrics.Windows.{decimal}
use inference_stack.Metrics.Recording.{named, MetricRow, record_inference}
use inference_stack.Media.{
  MediaRequest, Times, Routed, on_worker, no_worker, Streamed, all_of, broke, Generated, generated,
  not_found, failed, MediaResponse, first_usage, collect, media_event,
}

pub record CreateSpeechDto : Type 0 where
  pub model : String
  pub input : String
  pub voice : Option String

unfoldable pub speech_id : Times → String
speech_id t = String.◌++◌ "tts-" (decimal t.id_time "")

-- What the worker is asked.
unfoldable pub speech_request : Times → CreateSpeechDto → MediaRequest
speech_request t dto = record {
  request_id = speech_id t;
  model_id = dto.model;
  prompt = dto.input;
  max_tokens = 1;
}

-- `infer` is what a worker's service gives to a request.
module _ {B : Type 0} (accepts : Bool) (t : Times) where
  unfoldable pub speech_responses :
      CreateSpeechDto
      → String
      → List (MediaResponse B)
      → ClickHouse MetricRow
      → Generated (List B) × ClickHouse MetricRow
  speech_responses dto worker_id responses ch = elim (collect "No audio generated" responses) [
    | not_found message ↦ (not_found message, ch)
    | failed message ↦ (failed message, ch)
    | generated bytes ↦ (
      generated bytes,
      record_inference accepts t.row_time
          (media_event (named (speech_id t)) dto.model "tts" "audio/wav" worker_id t
            (first_usage responses) (length bytes))
          ch,
    )
  ]

  unfoldable pub speech :
      CreateSpeechDto
      → Routed
      → (String → MediaRequest → Streamed B)
      → ClickHouse MetricRow
      → Generated (List B) × ClickHouse MetricRow
  speech dto (no_worker err) infer ch = (failed err, ch)
  speech dto (on_worker worker_id) infer ch = elim (infer worker_id (speech_request t dto)) [
    | broke err ↦ (failed err, ch)
    | all_of responses ↦ speech_responses dto worker_id responses ch
  ]

-- The headers of the answer.
unfoldable pub speech_headers : {B : Type 0} → List B → List (String × String)
speech_headers bytes =
    ("Content-Type", "audio/wav") ∷ ("Content-Length", decimal (length bytes) "") ∷ []
