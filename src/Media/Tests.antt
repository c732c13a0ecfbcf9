-- ===== src/Media/Tests.antt =====
-- Concrete runs of the services for images, speech and video, and the theorems on them.
use inference_stack.Prelude.{ℕ, ◌/◌, ◌≡◌, refl, ◌↔◌, String, true, none, some, List, [], ◌∷◌}
use inference_stack.ClickHouse.{ClickHouse}
use inference_stack.Metrics.Windows.{decimal}
use inference_stack.Metrics.Recording.{MetricRow}
use inference_stack.Media.{
  MediaResponse, Times, on_worker, all_of, generated, not_found, first_error, media_of, concat,
  collect,
}
use inference_stack.Media.Images.{CreateImageDto, ImageResult, generate_image}
use inference_stack.Media.Audio.{CreateSpeechDto, speech, speech_headers}
use inference_stack.Media.Video.{CreateVideoDto, generate_video}
use inference_stack.Media.Outcomes.{IsWhole, answers_iff, answers_error}

abbrev media : List ℕ → MediaResponse ℕ
media bytes = record { media = some bytes; complete = none; error = none }

abbrev split : List (MediaResponse ℕ)
split = media (1 ∷ 2 ∷ []) ∷ media (3 ∷ []) ∷ []

abbrev broken : List (MediaResponse ℕ)
broken =
    media (1 ∷ []) ∷ record { media = none; complete = none; error = some "out of memory" } ∷ []

joined : collect "No audio generated" split ≡ generated (1 ∷ 2 ∷ 3 ∷ [])
unfolding collect first_error media_of concat
joined = refl

nothing_sent : collect {B = ℕ} "No audio generated" [] ≡ not_found "No audio generated"
unfolding collect first_error media_of
nothing_sent = refl

wav_headers :
    speech_headers {B = ℕ} (1 ∷ 2 ∷ 3 ∷ [])
    ≡ ("Content-Type", "audio/wav") ∷ ("Content-Length", "3") ∷ []
unfolding speech_headers decimal
wav_headers = refl

abbrev clock : Times
clock = record {
  start_time = 5000;
  id_time = 5000;
  routed_time = 5002;
  end_time = 5900;
  row_time = 5900;
  created_time = 5901;
}

abbrev table : ClickHouse MetricRow
table = record { connected = true; rows = [] }

abbrev spoken : CreateSpeechDto
spoken = record { model = "kokoro"; input = "hello"; voice = none }

abbrev filmed : CreateVideoDto
filmed = record { model = "cogvideo"; prompt = "a cat" }

abbrev drawn : CreateImageDto
drawn = record { model = "sd-turbo"; prompt = "a cat"; n = none; size = none }

abbrev as_text : List ℕ → String
as_text bytes = "AQID"

answers_iff_example :
    ((bytes : List ℕ)
      → ((speech true clock spoken (on_worker "worker-0") (λ id asked. all_of split) table).0
          ≡ generated bytes)
        ↔ IsWhole split bytes)
    × ((bytes : List ℕ)
        → ((generate_video true clock filmed
              (on_worker "worker-0")
              (λ id asked. all_of split)
              table).0
            ≡ generated bytes)
          ↔ IsWhole split bytes)
    × ((result : ImageResult)
        → ((generate_image as_text true clock drawn
              (on_worker "worker-0")
              (λ id asked. all_of split)
              table).0
            ≡ generated result)
          ↔ ((bytes : List ℕ) × IsWhole split bytes
              × (result
                  ≡ record { created = clock.created_time / 1000; b64_json = as_text bytes })))
answers_iff_example = answers_iff as_text true clock "worker-0" split table spoken filmed drawn

answers_error_example :
    (speech true clock spoken (on_worker "worker-0") (λ id asked. all_of broken) table
      ≡ (not_found "out of memory", table))
    × (generate_video true clock filmed (on_worker "worker-0") (λ id asked. all_of broken) table
        ≡ (not_found "out of memory", table))
    × ((generate_image as_text true clock drawn
          (on_worker "worker-0")
          (λ id asked. all_of broken)
          table).0
        ≡ not_found "out of memory")
    × ((row : MetricRow) × (row.is_error ≡ true)
        × (row.error_message ≡ "out of memory")
        × ((generate_image as_text true clock drawn
              (on_worker "worker-0")
              (λ id asked. all_of broken)
              table).1.rows
            ≡ ("inference_metrics", row ∷ []) ∷ []))
unfolding first_error
answers_error_example =
    answers_error as_text true clock "worker-0" broken table spoken filmed drawn "out of memory"
      refl refl refl
