-- ===== src/Media/Outcomes.antt =====
-- What the services of inference-api/src/images, inference-api/src/audio and inference-api/src/video
-- answer, whatever the worker sends.
use inference_stack.Prelude.{
  ℕ, ◌/◌, ◌≤◌, ◌≡◌, refl, sym, ap, ◌∙◌, ◌↔◌, String, Bool, true, Option, none, some, List, [], ◌∷◌,
  ◌++◌, arith, All, sum_of,
}
use inference_stack.ClickHouse.{ClickHouse, insert}
use inference_stack.Metrics.Recording.{MetricRow, metric_row, record_inference}
use inference_stack.Media.{
  MediaResponse, Times, on_worker, all_of, Generated, generated, not_found, failed, first_error,
  media_of, concat, collect,
}
use inference_stack.Media.Images.{
  CreateImageDto, ImageResult, image_error_event, image_responses, generate_image,
}
use inference_stack.Media.Audio.{CreateSpeechDto, speech_responses, speech}
use inference_stack.Media.Video.{CreateVideoDto, generate_video_responses, generate_video}

module _ {B : Type 0} where
  -- The bytes of all responses in their order.
  abbrev pub bytes_of : Option (List B) → List B
  bytes_of none = []
  bytes_of (some bytes) = bytes

  abbrev pub all_bytes : List (MediaResponse B) → List B
  all_bytes [] = []
  all_bytes (r ∷ rs) = bytes_of r.media ++ all_bytes rs

  abbrev pub has_media : MediaResponse B → ℕ
  has_media r = elim r.media [ none ↦ 0 | some bytes ↦ 1 ]

  -- The media of a stream without errors.
  pub record IsWhole (rs : List (MediaResponse B)) (bytes : List B) : Type 0 where
    pub fine : All (λ r. r.error ≡ none) rs
    pub some_media : 1 ≤ sum_of has_media rs
    pub all : bytes ≡ all_bytes rs

  first_error-none :
      (rs : List (MediaResponse B)) → (first_error rs ≡ none) ↔ All (λ r. r.error ≡ none) rs
  unfolding first_error
  first_error-none [] = (λ e. tt, λ h. refl)
  first_error-none (r ∷ rs) = (
    λ e. (ground arith, (first_error-none rs).0 (ground arith)),
    λ (h, hs). rw (h, first_error) ((first_error-none rs).1 hs),
  )

  concat-media_of : (rs : List (MediaResponse B)) → concat (media_of rs) ≡ all_bytes rs
  unfolding concat media_of
  concat-media_of [] = refl
  concat-media_of (r ∷ rs) = ground (arith, concat-media_of rs)

  media_of-empty : (rs : List (MediaResponse B)) → (media_of rs ≡ []) ↔ (sum_of has_media rs ≡ 0)
  unfolding media_of
  media_of-empty [] = (λ e. refl, λ e. refl)
  media_of-empty (r ∷ rs) = (ground (arith, media_of-empty rs), ground (arith, media_of-empty rs))

  collect_whole :
      (nothing : String) (rs : List (MediaResponse B)) (ms : List (List B))
      → first_error rs ≡ none
      → media_of rs ≡ ms
      → 1 ≤ sum_of has_media rs
      → collect nothing rs ≡ generated (all_bytes rs)
  unfolding collect
  collect_whole nothing rs [] fine found some_media =
      absurd (omega (arith, some_media, (media_of-empty rs).0 found))
  collect_whole nothing rs (m ∷ ms) fine found some_media =
      rw (fine, collect)
        (rw (found, collect) (ap generated (ap concat (sym found) ∙ concat-media_of rs)))

  collect_parts :
      (nothing : String) (rs : List (MediaResponse B)) (ms : List (List B)) (bytes : List B)
      → media_of rs ≡ ms
      → collect nothing rs ≡ generated bytes
      → (first_error rs ≡ none) × (1 ≤ sum_of has_media rs) × (bytes ≡ concat (media_of rs))
  unfolding collect
  collect_parts nothing rs [] bytes found e = absurd (ground arith)
  collect_parts nothing rs (m ∷ ms) bytes found e =
      (ground arith, ground (arith, media_of-empty rs), ground arith)

  pub collect_iff :
      (nothing : String) (rs : List (MediaResponse B)) (bytes : List B)
      → (collect nothing rs ≡ generated bytes) ↔ IsWhole rs bytes
  collect_iff nothing rs bytes = (
    λ e.
        let (fine, some_media, whole) = collect_parts nothing rs (media_of rs) bytes refl e in
        record {
          fine = (first_error-none rs).0 fine;
          some_media = some_media;
          all = whole ∙ concat-media_of rs;
        },
    λ w.
        collect_whole nothing rs (media_of rs) ((first_error-none rs).1 w.fine) refl w.some_media
        ∙ ap generated (sym w.all),
  )

module _ {B : Type 0} (to_base64 : List B → String) (accepts : Bool) (t : Times)
    (worker_id : String) (rs : List (MediaResponse B)) (ch : ClickHouse MetricRow) where
  speech-collect :
      (dto : CreateSpeechDto)
      → (speech accepts t dto (on_worker worker_id) (λ id asked. all_of rs) ch).0
        ≡ collect "No audio generated" rs
  unfolding speech speech_responses
  speech-collect dto = ground arith

  generate_video-collect :
      (dto : CreateVideoDto)
      → (generate_video accepts t dto (on_worker worker_id) (λ id asked. all_of rs) ch).0
        ≡ collect "No video generated" rs
  unfolding generate_video generate_video_responses
  generate_video-collect dto = ground arith

  -- The answer for an image, by what is collected.
  abbrev to_image : Generated (List B) → Generated ImageResult
  to_image (generated bytes) =
      generated (record { created = t.created_time / 1000; b64_json = to_base64 bytes })
  to_image (not_found message) = not_found message
  to_image (failed message) = failed message

  generate_image-collect :
      (dto : CreateImageDto)
      → (generate_image to_base64 accepts t dto (on_worker worker_id) (λ id asked. all_of rs) ch).0
        ≡ to_image (collect "No image generated" rs)
  unfolding generate_image image_responses collect
  generate_image-collect dto = ground arith

  -- Speech and video are answered with bytes exactly when no response of the worker's stream is an
  -- error and at least one has media, and the bytes are those of all responses in order, however they
  -- are split; an image is answered exactly then, with those bytes in base64 and the time in seconds.
  pub answers_iff :
      (s : CreateSpeechDto) (v : CreateVideoDto) (i : CreateImageDto)
      → ((bytes : List B)
          → ((speech accepts t s (on_worker worker_id) (λ id asked. all_of rs) ch).0
              ≡ generated bytes)
            ↔ IsWhole rs bytes)
        × ((bytes : List B)
            → ((generate_video accepts t v (on_worker worker_id) (λ id asked. all_of rs) ch).0
                ≡ generated bytes)
              ↔ IsWhole rs bytes)
        × ((result : ImageResult)
            → ((generate_image to_base64 accepts t i
                  (on_worker worker_id)
                  (λ id asked. all_of rs)
                  ch).0
                ≡ generated result)
              ↔ ((bytes : List B) × IsWhole rs bytes
                  × (result
                      ≡ record { created = t.created_time / 1000; b64_json = to_base64 bytes })))
  answers_iff s v i = (
    λ bytes. rw (speech-collect s) (collect_iff "No audio generated" rs bytes),
    λ bytes. rw (generate_video-collect v) (collect_iff "No video generated" rs bytes),
    λ result. rw (generate_image-collect i) (
      (λ e. image_of (collect "No image generated" rs) refl result e),
      (λ (bytes, whole, same).
          ap to_image ((collect_iff "No image generated" rs bytes).1 whole)
          ∙ ap generated (sym same)),
    ),
  )
    where
      image_of :
          (g : Generated (List B))
          → collect "No image generated" rs ≡ g
          → (result : ImageResult) → to_image g ≡ generated result
          → (bytes : List B) × IsWhole rs bytes
            × (result ≡ record { created = t.created_time / 1000; b64_json = to_base64 bytes })
      image_of (generated bytes) found result e =
          (bytes, (collect_iff "No image generated" rs bytes).0 found, ground arith)
      image_of (not_found message) found result e = absurd (ground arith)
      image_of (failed message) found result e = absurd (ground arith)

  -- When a response of the worker's stream is an error, and ClickHouse is connected and takes rows, all
  -- three reject the request with "not found" and the message of the first such response. The image
  -- service records it as one row that says that it is an error; the others record nothing.
  pub answers_error :
      (s : CreateSpeechDto) (v : CreateVideoDto) (i : CreateImageDto) (message : String)
      → first_error rs ≡ some message
      → ch.connected ≡ true
      → accepts ≡ true
      → (speech accepts t s (on_worker worker_id) (λ id asked. all_of rs) ch
          ≡ (not_found message, ch))
        × (generate_video accepts t v (on_worker worker_id) (λ id asked. all_of rs) ch
            ≡ (not_found message, ch))
        × ((generate_image to_base64 accepts t i (on_worker worker_id) (λ id asked. all_of rs) ch).0
            ≡ not_found message)
        × ((row : MetricRow) × (row.is_error ≡ true)
            × (row.error_message ≡ message)
            × ((generate_image to_base64 accepts t i
                  (on_worker worker_id)
                  (λ id asked. all_of rs)
                  ch).1.rows
                ≡ ("inference_metrics", row ∷ []) ∷ ch.rows))
  unfolding speech speech_responses generate_video generate_video_responses generate_image
      image_responses collect record_inference insert metric_row image_error_event
  answers_error s v i message found here takes = (
    ground (arith, found),
    ground (arith, found),
    ground (arith, found),
    (
      metric_row t.row_time (image_error_event t i worker_id message),
      refl,
      refl,
      ground (arith, found, here, takes),
    ),
  )
