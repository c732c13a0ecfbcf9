-- ===== src/Batching.antt =====
-- inference-api/src/scheduler/batch-collector.ts
-- A bucket is an object that the code compares by reference and that stands in one place of one
-- list: here its place is a `Spot`, the buckets before and after it. The callbacks `dispatch` and
-- `batchDispatch` are the last thing that a call does, so a call returns what it hands to them. The
-- one caller, `tryDispatch`, always sets `context`, and its `dispatch` closure dispatches that same
-- request: so `context` stands for both, and the `filter(Boolean)` over it keeps all. The ratio of lengths
-- is a whole number (its default is 4.0), and `max / min <= ratio` is tested without the division.
pub mod Conservation
pub mod Waiting
pub mod Buckets
pub mod Ratio
mod Tests
use inference_stack.Prelude.{
  ℕ, zero, suc, ◌+◌, ◌*◌, ◌≤◌, String, Bool, true, false, ◌&&◌, Option, none, some, List, [], ◌∷◌,
  ◌++◌, map, length, get_elem?, min, max, leb, ltb, ◌==◌, ℕ_eq, string_eq, if◌then◌else◌,
}
use inference_stack.Map.{Map, get, set, delete}

pub record BatchConfig : Type 0 where
  pub window_ms : ℕ
  pub max_batch_size : ℕ
  pub max_seq_length_ratio : ℕ
  pub enabled : Bool
  -- Whether `batchDispatch` is set.
  pub batch_dispatch : Bool

abbrev pub default_batch_config : BatchConfig
default_batch_config = record {
  window_ms = 50;
  max_batch_size = 256;
  max_seq_length_ratio = 4;
  enabled = true;
  batch_dispatch = false;
}

-- The argument of `setConfig`: a field that it has replaces the old one.
pub record PartialBatchConfig : Type 0 where
  pub window_ms : Option ℕ
  pub max_batch_size : Option ℕ
  pub max_seq_length_ratio : Option ℕ
  pub enabled : Option Bool
  pub batch_dispatch : Option Bool

pub record BatchableRequest (C : Type 0) : Type 0 where
  pub id : ℕ
  pub model_id : String
  pub estimated_tokens : ℕ
  pub context : C

pub record Bucket (C : Type 0) : Type 0 where
  pub requests : List (BatchableRequest C)
  -- Whether `timer` holds a timer.
  pub timer : Bool

pub record BatchCollector (C : Type 0) : Type 0 where
  pub config : BatchConfig
  pub buckets : Map String (List (Bucket C))

-- What a call hands on: to each request's `dispatch` in turn, or all to `batchDispatch`.
pub data Delivery (C : Type 0) : Type 0 where
  individually : List (BatchableRequest C) → Delivery C
  together : List (BatchableRequest C) → Delivery C

pub record Spot (C : Type 0) : Type 0 where
  pub before : List (Bucket C)
  pub bucket : Bucket C
  pub after : List (Bucket C)

abbrev pub new_collector : {C : Type 0} → BatchCollector C
new_collector = record { config = default_batch_config; buckets = [] }

abbrev pub or_none : {C : Type 0} → Option (List (Bucket C)) → List (Bucket C)
or_none none = []
or_none (some bs) = bs

abbrev or_old : {A : Type 0} → Option A → A → A
or_old none old = old
or_old (some new) old = new

unfoldable set_config : {C : Type 0} → PartialBatchConfig → BatchCollector C → BatchCollector C
set_config u c = record c {
  config = record {
    window_ms = or_old u.window_ms c.config.window_ms;
    max_batch_size = or_old u.max_batch_size c.config.max_batch_size;
    max_seq_length_ratio = or_old u.max_seq_length_ratio c.config.max_seq_length_ratio;
    enabled = or_old u.enabled c.config.enabled;
    batch_dispatch = or_old u.batch_dispatch c.config.batch_dispatch;
  };
}

-- `if (min === 0) return true; return max / min <= ratio;`
pub in_ratio : ℕ → ℕ → ℕ → Bool
in_ratio ratio least most = if least == 0 then true else leb most (ratio * least)

module _ {C : Type 0} where
  pub min_tokens : ℕ → List (BatchableRequest C) → ℕ
  min_tokens n [] = n
  min_tokens n (r ∷ rs) = min r.estimated_tokens (min_tokens n rs)

  pub max_tokens : ℕ → List (BatchableRequest C) → ℕ
  max_tokens n [] = n
  max_tokens n (r ∷ rs) = max r.estimated_tokens (max_tokens n rs)

  pub is_compatible : BatchConfig → List (BatchableRequest C) → BatchableRequest C → Bool
  unfolding in_ratio
  is_compatible config [] r = true
  is_compatible config (x ∷ xs) r =
      in_ratio config.max_seq_length_ratio (min_tokens r.estimated_tokens (x ∷ xs))
        (max_tokens r.estimated_tokens (x ∷ xs))

  pub shift : Bucket C → Option (Spot C) → Option (Spot C)
  shift b none = none
  shift b (some s) = some (record s { before = b ∷ s.before })

  -- The loop of `findOrCreateBucket`.
  pub find_bucket : BatchConfig → BatchableRequest C → List (Bucket C) → Option (Spot C)
  unfolding shift
  find_bucket config r [] = none
  find_bucket config r (b ∷ bs) =
      let later = shift b (find_bucket config r bs) in
      if leb config.max_batch_size (length b.requests)
      then later
      else if is_compatible config b.requests r
      then some (record { before = []; bucket = b; after = bs })
      else later

  pub find_or_create_bucket : BatchConfig → BatchableRequest C → List (Bucket C) → Spot C
  find_or_create_bucket config r bs = elim (find_bucket config r bs) [
    | none ↦ record { before = bs; bucket = record { requests = []; timer = false }; after = [] }
    | some s ↦ s
  ]

  -- A model's list of buckets, which goes when its last bucket does.
  pub write_buckets : String → List (Bucket C) → BatchCollector C → BatchCollector C
  write_buckets model [] c = record c { buckets = delete model c.buckets }
  write_buckets model (b ∷ bs) c = record c { buckets = set model (b ∷ bs) c.buckets }

  pub deliver : BatchConfig → List (BatchableRequest C) → Delivery C
  deliver config rs =
      if ltb 1 (length rs) && config.batch_dispatch then together rs else individually rs

  -- The bucket at the spot is emptied and removed; its timer, which is cleared, goes with it.
  pub dispatch_bucket : String → Spot C → BatchCollector C → BatchCollector C × Delivery C
  unfolding write_buckets deliver
  dispatch_bucket model s c =
      (write_buckets model (s.before ++ s.after) c, deliver c.config s.bucket.requests)

  pub buckets_of : String → BatchCollector C → List (Bucket C)
  buckets_of model c = or_none (get model c.buckets)

  -- `bucket.requests.push(request)` and what follows it in `submit`.
  pub push_request :
      BatchableRequest C → Spot C → BatchCollector C → BatchCollector C × Option (Delivery C)
  push_request r s c =
      let rs = s.bucket.requests ++ r ∷ [] in
      let timer = if length rs == 1 then true else s.bucket.timer in
      let grown : Bucket C = record { requests = rs; timer = timer } in
      let full : BatchCollector C × Delivery C =
        dispatch_bucket r.model_id (record s { bucket = grown }) c in
      if leb c.config.max_batch_size (length rs)
      then (full.0, some full.1)
      else (write_buckets r.model_id (s.before ++ grown ∷ s.after) c, none)

  pub submit : BatchableRequest C → BatchCollector C → BatchCollector C × Option (Delivery C)
  submit r c =
      if c.config.enabled
      then push_request r (find_or_create_bucket c.config r (buckets_of r.model_id c)) c
      else (c, some (individually (r ∷ [])))

  -- The bucket at an index, if its timer is set.
  pub spot_at : ℕ → List (Bucket C) → Option (Spot C)
  unfolding shift
  spot_at i [] = none
  spot_at zero (b ∷ bs) =
      if b.timer then some (record { before = []; bucket = b; after = bs }) else none
  spot_at (suc i) (b ∷ bs) = shift b (spot_at i bs)

  -- The callback of `setTimeout`, for the model's bucket at the index. Without a timer it never runs.
  pub window_elapsed : String → ℕ → BatchCollector C → BatchCollector C × Option (Delivery C)
  window_elapsed model i c = elim (spot_at i (buckets_of model c)) [
    | none ↦ (c, none)
    | some s ↦ ((dispatch_bucket model s c).0, some (dispatch_bucket model s c).1)
  ]

  -- Every timer is cleared and every bucket dropped.
  pub destroy : BatchCollector C → BatchCollector C
  destroy c = record c { buckets = [] }
