-- ===== src/Batching/Conservation.antt =====
-- What is submitted is handed on once: for every weight of requests, what waits in the buckets and
-- what is delivered add up. With the indicator of an id for a weight, this counts requests.
use inference_stack.Prelude.{
  ℕ, ◌+◌, String, ◌≡◌, ap, Option, none, some, List, [], ◌∷◌, ◌++◌, arith, length, leb, string_eq,
  Option-cases, Bool-cases, inl, inr, sum_of, sum_of-append,
}
use inference_stack.Map.Sums.{sum_of-set, sum_of-delete}
use inference_stack.Batching.{
  BatchConfig, BatchableRequest, Bucket, BatchCollector, Delivery, Spot, find_bucket,
  find_or_create_bucket, write_buckets, dispatch_bucket, buckets_of, push_request, submit, spot_at,
  window_elapsed,
}
use inference_stack.Batching.Buckets.{submit_enabled, submit_disabled}
use inference_stack.Batching.Waiting.{
  delivered, find_bucket_sound, spot_at_sound, delivered-deliver,
}

module _ {C : Type 0} (w : BatchableRequest C → ℕ) where
  abbrev in_buckets : List (Bucket C) → ℕ
  in_buckets bs = sum_of (λ b. sum_of w b.requests) bs

  -- The weight of what waits in the collector.
  abbrev pub pending : BatchCollector C → ℕ
  pending c = sum_of (λ e. sum_of (λ b. sum_of w b.requests) e.1) c.buckets

  -- The weight of what a call hands on.
  abbrev pub handed_on : Option (Delivery C) → ℕ
  handed_on none = 0
  handed_on (some d) = sum_of w (delivered d)

  pending-write_buckets :
      (model : String) (bs : List (Bucket C)) (c : BatchCollector C)
      → pending (write_buckets model bs c) + in_buckets (buckets_of model c)
        ≡ pending c + in_buckets bs
  unfolding write_buckets buckets_of
  pending-write_buckets model [] c = ground (
    arith,
    sum_of-delete
        (λ (e : String × List (Bucket C)). sum_of (λ (b : Bucket C). sum_of w b.requests) e.1) model
        c.buckets,
  )
  pending-write_buckets model (b ∷ bs) c = ground (
    arith,
    sum_of-set
        (λ (e : String × List (Bucket C)). sum_of (λ (b : Bucket C). sum_of w b.requests) e.1) model
        (b ∷ bs) c.buckets,
  )

  -- The weight of the buckets about a spot.
  abbrev around : Spot C → ℕ
  around s = in_buckets s.before + in_buckets s.after

  in_buckets-spot :
      (before : List (Bucket C)) (b : Bucket C) (after : List (Bucket C))
      → in_buckets (before ++ b ∷ after)
        ≡ in_buckets before + in_buckets after + sum_of w b.requests
  in_buckets-spot before b after =
      omega (arith, sum_of-append (λ (x : Bucket C). sum_of w x.requests) before (b ∷ after))

  in_buckets-append :
      (before after : List (Bucket C))
      → in_buckets (before ++ after) ≡ in_buckets before + in_buckets after
  in_buckets-append before after =
      sum_of-append (λ (x : Bucket C). sum_of w x.requests) before after

  find_or_create_bucket-around :
      (config : BatchConfig) (r : BatchableRequest C) (bs : List (Bucket C))
      → around (find_or_create_bucket config r bs)
          + sum_of w (find_or_create_bucket config r bs).bucket.requests
        ≡ in_buckets bs
  unfolding find_or_create_bucket
  find_or_create_bucket-around config r bs = elim (Option-cases (find_bucket config r bs)) [
    | inl missing ↦ rw (missing, find_or_create_bucket) (omega arith)
    | inr (s, found) ↦
        rw (found, find_or_create_bucket)
          (omega (
            arith,
            in_buckets-spot s.before s.bucket s.after,
            ap in_buckets (find_bucket_sound config r bs s found).0,
          ))
  ]

  push_request-pending :
      (r : BatchableRequest C) (s : Spot C) (c : BatchCollector C)
      → around s + sum_of w s.bucket.requests ≡ in_buckets (buckets_of r.model_id c)
      → pending (push_request r s c).0 + handed_on (push_request r s c).1 ≡ pending c + w r
  unfolding push_request dispatch_bucket
  push_request-pending r s c e =
      elim (Bool-cases (leb c.config.max_batch_size (length (s.bucket.requests ++ r ∷ [])))) [
        | inl full ↦
            rw (full, push_request)
              (rw delivered-deliver (
                omega (
                  arith,
                  pending-write_buckets r.model_id (s.before ++ s.after) c,
                  in_buckets-append s.before s.after,
                  sum_of-append w s.bucket.requests (r ∷ []),
                )))
        | inr waits ↦
            rw (waits, push_request)
              (omega (
                arith,
                pending-write_buckets r.model_id _ c,
                in_buckets-spot s.before _ s.after,
                sum_of-append w s.bucket.requests (r ∷ []),
              ))
      ]

  -- For every weight of requests, what waits in the collector after `submit` and what `submit` hands
  -- on weigh together what waited before and the request weigh: no request is lost or doubled.
  pub submit-pending :
      (r : BatchableRequest C) (c : BatchCollector C)
      → pending (submit r c).0 + handed_on (submit r c).1 ≡ pending c + w r
  submit-pending r c = elim (Bool-cases c.config.enabled) [
    | inl on ↦ rw (submit_enabled r c on) (
        push_request-pending r _ c
          (find_or_create_bucket-around c.config r (buckets_of r.model_id c)))
    | inr off ↦ rw (submit_disabled r c off) (omega arith)
  ]

  -- For every weight of requests, what waits in the collector after a timer fired and what the timer
  -- hands on weigh together what waited before.
  pub window_elapsed-pending :
      (model : String) (i : ℕ) (c : BatchCollector C)
      → pending (window_elapsed model i c).0 + handed_on (window_elapsed model i c).1 ≡ pending c
  unfolding window_elapsed dispatch_bucket
  window_elapsed-pending model i c = elim (Option-cases (spot_at i (buckets_of model c))) [
    | inl idle ↦ rw (idle, window_elapsed) (omega arith)
    | inr (s, found) ↦
        rw (found, window_elapsed)
          (rw delivered-deliver (
            omega (
              arith,
              pending-write_buckets model (s.before ++ s.after) c,
              in_buckets-append s.before s.after,
              in_buckets-spot s.before s.bucket s.after,
              ap in_buckets (spot_at_sound i (buckets_of model c) s found),
            )))
  ]
