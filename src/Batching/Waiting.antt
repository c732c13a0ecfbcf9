-- ===== src/Batching/Waiting.antt =====
-- The buckets of inference-api/src/scheduler/batch-collector.ts between calls, and a batch when it
-- leaves.
use inference_stack.Prelude.{
  ℕ, zero, suc, ◌≤◌, ◌<◌, String, ◌≡◌, true, Option, none, some, List, [], ◌∷◌, ◌++◌, arith, All,
  length, ℕ_eq, string_eq, Option-cases, inl, inr,
}
use inference_stack.Map.{get, All-set, All-delete, All-get}
use inference_stack.Batching.Ratio.{IsBalanced}
use inference_stack.Batching.{
  BatchConfig, BatchableRequest, Bucket, BatchCollector, Delivery, individually, together, Spot,
  is_compatible, find_bucket, write_buckets, deliver, buckets_of, spot_at,
}

-- The settings under which batching works as meant: batches of one at least, and a ratio that
-- a request has to itself.
pub record IsSane (config : BatchConfig) : Type 0 where
  pub size : 1 ≤ config.max_batch_size
  pub ratio : 1 ≤ config.max_seq_length_ratio

module _ {C : Type 0} where
  pub find_bucket_sound :
      (config : BatchConfig) (r : BatchableRequest C) (bs : List (Bucket C)) (s : Spot C)
      → find_bucket config r bs ≡ some s
      → (bs ≡ s.before ++ s.bucket ∷ s.after)
        × (length s.bucket.requests < config.max_batch_size)
        × (is_compatible config s.bucket.requests r ≡ true)
  unfolding find_bucket
  find_bucket_sound config r [] s e = cc
  find_bucket_sound config r (b ∷ bs) s e = elim (Option-cases (find_bucket config r bs)) [
    | inl none_later ↦ ground arith
    | inr (s', later) ↦ ground (arith, find_bucket_sound config r bs s' later)
  ]

  pub spot_at_sound :
      (i : ℕ) (bs : List (Bucket C)) (s : Spot C)
      → spot_at i bs ≡ some s
      → bs ≡ s.before ++ s.bucket ∷ s.after
  unfolding spot_at
  spot_at_sound i [] s e = ground arith
  spot_at_sound zero (b ∷ bs) s e = ground arith
  spot_at_sound (suc i) (b ∷ bs) s e = elim (Option-cases (spot_at i bs)) [
    | inl none_later ↦ ground arith
    | inr (s', later) ↦ ground (arith, spot_at_sound i bs s' later)
  ]

  -- A list of requests that may be handed on together: it is not empty, all are for the model, and
  -- they are balanced.
  pub record IsBatch (config : BatchConfig) (model : String) (rs : List (BatchableRequest C))
      : Type 0 where
    pub filled : 0 < length rs
    pub one_model : All (λ r. r.model_id ≡ model) rs
    pub balanced : IsBalanced config.max_seq_length_ratio rs

  -- A bucket between calls: a batch that is not full, with its timer running.
  pub record IsWaiting (config : BatchConfig) (model : String) (b : Bucket C) : Type 0 where
    pub batch : IsBatch config model b.requests
    pub below : length b.requests < config.max_batch_size
    pub timed : b.timer ≡ true

  -- Every list in the collector is not empty, and every bucket waits.
  abbrev pub IsWaitingList : BatchConfig → String × List (Bucket C) → Type 0
  IsWaitingList config e = (0 < length e.1) × All (IsWaiting config e.0) e.1

  abbrev pub IsValid : BatchCollector C → Type 0
  IsValid c = All (IsWaitingList c.config) c.buckets

  -- What a delivery holds, and that it respects the size limit.
  abbrev pub delivered : Delivery C → List (BatchableRequest C)
  delivered (individually rs) = rs
  delivered (together rs) = rs

  pub record IsDelivery (config : BatchConfig) (model : String) (d : Delivery C) : Type 0 where
    pub batch : IsBatch config model (delivered d)
    pub bounded : length (delivered d) ≤ config.max_batch_size

  abbrev pub AllDelivered : BatchConfig → String → Option (Delivery C) → Type 0
  AllDelivered config model none = Unit {0}
  AllDelivered config model (some d) = IsDelivery config model d

  pub write_buckets-IsValid :
      (model : String) (bs : List (Bucket C)) (c : BatchCollector C)
      → All (IsWaiting c.config model) bs
      → IsValid c
      → IsValid (write_buckets model bs c)
  unfolding write_buckets
  write_buckets-IsValid model [] c h v = All-delete (IsWaitingList c.config) model c.buckets v
  write_buckets-IsValid model (b ∷ bs) c h v =
      All-set (IsWaitingList c.config) model (b ∷ bs) c.buckets v (omega arith, h)

  pub buckets_of-IsWaiting :
      (model : String) (c : BatchCollector C)
      → IsValid c
      → All (IsWaiting c.config model) (buckets_of model c)
  unfolding buckets_of
  buckets_of-IsWaiting model c v = elim (Option-cases (get model c.buckets)) [
    | inl missing ↦ rw missing tt
    | inr (bs, found) ↦ rw found (All-get (IsWaitingList c.config) model bs c.buckets v found).1
  ]

  pub delivered-deliver :
      (config : BatchConfig) (rs : List (BatchableRequest C)) → delivered (deliver config rs) ≡ rs
  unfolding deliver
  delivered-deliver config rs = ground arith
