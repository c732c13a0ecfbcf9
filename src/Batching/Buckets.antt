-- ===== src/Batching/Buckets.antt =====
-- What `submit` and the timers of inference-api/src/scheduler/batch-collector.ts keep of the buckets.
use inference_stack.Prelude.{
  ℕ, ◌<◌, String, ◌≡◌, refl, Bool, true, false, some, List, [], ◌∷◌, ◌++◌, arith, All, All-append,
  All-append_left, All-append_right, length, length-append, ℕ_discrete, leb, ◌==◌, ℕ_eq, string_eq,
  if◌then◌else◌, Option-cases, Bool-cases, inl, inr,
}
use inference_stack.Batching.Ratio.{is_compatible-IsBalanced}
use inference_stack.Batching.{
  BatchConfig, BatchableRequest, Bucket, BatchCollector, individually, Spot, is_compatible,
  find_bucket, find_or_create_bucket, write_buckets, dispatch_bucket, buckets_of, push_request,
  submit, spot_at, window_elapsed,
}
use inference_stack.Batching.Waiting.{
  IsSane, find_bucket_sound, spot_at_sound, IsBatch, IsWaiting, IsValid, AllDelivered,
  write_buckets-IsValid, buckets_of-IsWaiting, delivered-deliver,
}

module _ {C : Type 0} where
  append_one :
      (config : BatchConfig) (model : String) (r : BatchableRequest C) (b : Bucket C)
      → IsSane config
      → r.model_id ≡ model
      → All (λ x. x.model_id ≡ model) b.requests
      → is_compatible config b.requests r ≡ true
      → IsBatch config model (b.requests ++ r ∷ [])
  append_one config model r b sane same all compatible = record {
    filled = omega (arith, length-append b.requests (r ∷ []));
    one_model = All-append (λ x. x.model_id ≡ model) b.requests (r ∷ []) all (same, tt);
    balanced = is_compatible-IsBalanced config r b.requests sane.ratio compatible;
  }

  -- A spot of a model's list where a request may be put.
  record IsRoom (config : BatchConfig) (model : String) (r : BatchableRequest C) (s : Spot C)
      : Type 0 where
    before : All (IsWaiting config model) s.before
    after : All (IsWaiting config model) s.after
    one_model : All (λ x. x.model_id ≡ model) s.bucket.requests
    compatible : is_compatible config s.bucket.requests r ≡ true
    below : length s.bucket.requests < config.max_batch_size
    timed : (0 < length s.bucket.requests) → s.bucket.timer ≡ true

  grown_timer :
      (rs : List (BatchableRequest C)) (r : BatchableRequest C) (timer : Bool)
      → ((0 < length rs) → timer ≡ true)
      → (if length (rs ++ r ∷ []) == 1 then true else timer) ≡ true
  grown_timer rs r timer h = elim (ℕ_discrete (length rs) 0) [
    | yes none_before ↦ ground (arith, length-append rs (r ∷ []))
    | no some_before ↦ ground (arith, h (omega arith))
  ]

  push_request-IsValid :
      (r : BatchableRequest C) (s : Spot C) (c : BatchCollector C)
      → IsSane c.config
      → IsRoom c.config r.model_id r s
      → IsValid c
      → IsValid (push_request r s c).0 × AllDelivered c.config r.model_id (push_request r s c).1
  unfolding push_request dispatch_bucket
  push_request-IsValid r s c sane room v =
      elim (Bool-cases (leb c.config.max_batch_size (length (s.bucket.requests ++ r ∷ [])))) [
        | inl full ↦
            rw (full, push_request)
              (
                write_buckets-IsValid r.model_id (s.before ++ s.after) c
                    (All-append (IsWaiting c.config r.model_id) s.before s.after room.before
                      room.after)
                    v,
                record {
                  batch = rw delivered-deliver batch;
                  bounded =
                      rw delivered-deliver
                        (omega (arith, length-append s.bucket.requests (r ∷ []), room.below));
                },
              )
        | inr waits ↦
            rw (waits, push_request)
              (
                write_buckets-IsValid r.model_id _ c
                    (All-append (IsWaiting c.config r.model_id) s.before _ room.before (
                      record {
                        batch = batch;
                        below = ground arith;
                        timed = grown_timer s.bucket.requests r s.bucket.timer room.timed;
                      },
                      room.after,
                    ))
                    v,
                tt,
              )
      ]
    where
      batch : IsBatch c.config r.model_id (s.bucket.requests ++ r ∷ [])
      batch = append_one c.config r.model_id r s.bucket sane refl room.one_model room.compatible

  find_or_create_bucket-IsRoom :
      (r : BatchableRequest C) (c : BatchCollector C)
      → IsSane c.config
      → IsValid c
      → IsRoom c.config r.model_id r (find_or_create_bucket c.config r (buckets_of r.model_id c))
  unfolding find_or_create_bucket is_compatible
  find_or_create_bucket-IsRoom r c sane v =
      let old = buckets_of-IsWaiting r.model_id c v in
      elim (Option-cases (find_bucket c.config r (buckets_of r.model_id c))) [
        | inl missing ↦
            rw (missing, find_or_create_bucket)
              (record {
                before = old;
                after = tt;
                one_model = tt;
                compatible = refl;
                below = sane.size;
                timed = λ h. absurd (omega arith);
              })
        | inr (s, found) ↦
            let (place, below, compatible) =
              find_bucket_sound c.config r (buckets_of r.model_id c) s found in
            let split : All (IsWaiting c.config r.model_id) (s.before ++ s.bucket ∷ s.after) =
              rw (← place) old in
            let right =
              All-append_right (IsWaiting c.config r.model_id) s.before (s.bucket ∷ s.after)
                split in
            rw (found, find_or_create_bucket)
              (record {
                before = All-append_left (IsWaiting c.config r.model_id) s.before _ split;
                after = right.1;
                one_model = right.0.batch.one_model;
                compatible = compatible;
                below = below;
                timed = λ h. right.0.timed;
              })
      ]

  pub submit_enabled :
      (r : BatchableRequest C) (c : BatchCollector C)
      → c.config.enabled ≡ true
      → submit r c ≡ push_request r (find_or_create_bucket c.config r (buckets_of r.model_id c)) c
  unfolding submit
  submit_enabled r c on = ground arith

  pub submit_disabled :
      (r : BatchableRequest C) (c : BatchCollector C)
      → c.config.enabled ≡ false
      → submit r c ≡ (c, some (individually (r ∷ [])))
  unfolding submit
  submit_disabled r c off = ground arith

  config-write_buckets :
      (model : String) (bs : List (Bucket C)) (c : BatchCollector C)
      → (write_buckets model bs c).config ≡ c.config
  unfolding write_buckets
  config-write_buckets model [] c = refl
  config-write_buckets model (b ∷ bs) c = refl

  pub config-submit :
      (r : BatchableRequest C) (c : BatchCollector C) → (submit r c).0.config ≡ c.config
  unfolding submit push_request dispatch_bucket
  config-submit r c =
      let s : Spot C = find_or_create_bucket c.config r (buckets_of r.model_id c) in
      elim (Bool-cases c.config.enabled) [
        | inl on ↦ ground (
          arith,
          config-write_buckets r.model_id (s.before ++ s.after) c,
          config-write_buckets r.model_id
              (s.before
                ++ record {
                  requests = s.bucket.requests ++ r ∷ [];
                  timer =
                      if length (s.bucket.requests ++ r ∷ []) == 1 then true else s.bucket.timer;
                }
                  ∷ s.after)
              c,
        )
        | inr off ↦ ground arith
      ]

  -- With batching on and sane settings, `submit` keeps valid buckets valid: no bucket is empty or
  -- full, each has its timer running, one model and balanced lengths. What it hands on is a batch
  -- of this kind for the request's model and respects the size limit.
  pub submit-IsValid :
      (r : BatchableRequest C) (c : BatchCollector C)
      → IsSane c.config
      → c.config.enabled ≡ true
      → IsValid c
      → IsValid (submit r c).0 × AllDelivered c.config r.model_id (submit r c).1
  submit-IsValid r c sane on v =
      rw (submit_enabled r c on)
        (push_request-IsValid r _ c sane (find_or_create_bucket-IsRoom r c sane v) v)

  -- On valid buckets a timer that fires keeps them valid, and what it hands on, if it finds its
  -- bucket, is a batch for the timer's model that respects the size limit.
  pub window_elapsed-IsValid :
      (model : String) (i : ℕ) (c : BatchCollector C)
      → IsValid c
      → IsValid (window_elapsed model i c).0
        × AllDelivered c.config model (window_elapsed model i c).1
  unfolding window_elapsed dispatch_bucket
  window_elapsed-IsValid model i c v = elim (Option-cases (spot_at i (buckets_of model c))) [
    | inl idle ↦ rw (idle, window_elapsed) (v, tt)
    | inr (s, found) ↦
        let old = buckets_of-IsWaiting model c v in
        let place = spot_at_sound i (buckets_of model c) s found in
        let split : All (IsWaiting c.config model) (s.before ++ s.bucket ∷ s.after) =
          rw (← place) old in
        let right =
          All-append_right (IsWaiting c.config model) s.before (s.bucket ∷ s.after) split in
        rw (found, window_elapsed)
          (
            write_buckets-IsValid model (s.before ++ s.after) c
                (All-append (IsWaiting c.config model) s.before s.after
                  (All-append_left (IsWaiting c.config model) s.before _ split) right.1)
                v,
            record {
              batch = rw delivered-deliver right.0.batch;
              bounded = rw delivered-deliver (omega (arith, right.0.below));
            },
          )
  ]
