-- ===== src/Batching/Ratio.antt =====
-- The lengths of the requests in one batch.
use inference_stack.Prelude.{
  ℕ, ◌*◌, ◌≤◌, ◌≡◌, true, List, [], ◌∷◌, ◌++◌, arith, All, All-imp, ℕ_eq, ℕ_discrete, ◌⊎◌, inl, inr,
}
use inference_stack.Batching.{
  BatchConfig, BatchableRequest, min_tokens, max_tokens, in_ratio, is_compatible,
}

module _ {C : Type 0} where
  -- Some request of the list has no tokens.
  abbrev pub HasZero : List (BatchableRequest C) → Type 0
  HasZero [] = ⊥
  HasZero (r ∷ rs) = (r.estimated_tokens ≡ 0) ⊎ HasZero rs

  -- No request is longer than `ratio` times another.
  abbrev pub IsEven : ℕ → List (BatchableRequest C) → Type 0
  IsEven ratio rs = All (λ a. All (λ b. b.estimated_tokens ≤ ratio * a.estimated_tokens) rs) rs

  abbrev pub IsBalanced : ℕ → List (BatchableRequest C) → Type 0
  IsBalanced ratio rs = HasZero rs ⊎ IsEven ratio rs

  min_tokens-zero :
      (r : BatchableRequest C) (rs : List (BatchableRequest C))
      → min_tokens r.estimated_tokens rs ≡ 0
      → HasZero (rs ++ r ∷ [])
  unfolding min_tokens
  min_tokens-zero r [] e = inl e
  min_tokens-zero r (x ∷ xs) e = elim (ℕ_discrete x.estimated_tokens 0) [
    | yes here ↦ inl here
    | no later ↦ inr (min_tokens-zero r xs (omega arith))
  ]

  le-min_tokens :
      (k : ℕ) (r : BatchableRequest C) (rs : List (BatchableRequest C))
      → k ≤ min_tokens r.estimated_tokens rs
      → All (λ a. k ≤ a.estimated_tokens) (rs ++ r ∷ [])
  unfolding min_tokens
  le-min_tokens k r [] h = (h, tt)
  le-min_tokens k r (x ∷ xs) h = (omega arith, le-min_tokens k r xs (omega arith))

  max_tokens-le :
      (k : ℕ) (r : BatchableRequest C) (rs : List (BatchableRequest C))
      → max_tokens r.estimated_tokens rs ≤ k
      → All (λ a. a.estimated_tokens ≤ k) (rs ++ r ∷ [])
  unfolding max_tokens
  max_tokens-le k r [] h = (h, tt)
  max_tokens-le k r (x ∷ xs) h = (omega arith, max_tokens-le k r xs (omega arith))

  in_ratio-IsBalanced :
      (ratio : ℕ) (r : BatchableRequest C) (rs : List (BatchableRequest C))
      → in_ratio ratio (min_tokens r.estimated_tokens rs) (max_tokens r.estimated_tokens rs) ≡ true
      → IsBalanced ratio (rs ++ r ∷ [])
  unfolding in_ratio
  in_ratio-IsBalanced ratio r rs e =
      let least = min_tokens r.estimated_tokens rs in
      let most = max_tokens r.estimated_tokens rs in
      elim (ℕ_discrete least 0) [
        | yes zero_least ↦ inl (min_tokens-zero r rs zero_least)
        | no positive ↦
            let spread : most ≤ ratio * least = ground arith in
            inr (
              All-imp (λ a. least ≤ a.estimated_tokens) _ (rs ++ r ∷ [])
                (λ a h. max_tokens-le (ratio * a.estimated_tokens) r rs (grind arith))
                (le-min_tokens least r rs (omega arith)))
      ]

  -- If a request is compatible with a bucket, and the ratio is at least 1, the bucket with the request
  -- is balanced: some request of it has no tokens, or none is longer than the ratio times another.
  pub is_compatible-IsBalanced :
      (config : BatchConfig) (r : BatchableRequest C) (rs : List (BatchableRequest C))
      → 1 ≤ config.max_seq_length_ratio
      → is_compatible config rs r ≡ true
      → IsBalanced config.max_seq_length_ratio (rs ++ r ∷ [])
  unfolding is_compatible
  is_compatible-IsBalanced config r [] h e = inr ((grind arith, tt), tt)
  is_compatible-IsBalanced config r (x ∷ xs) h e =
      in_ratio-IsBalanced config.max_seq_length_ratio r (x ∷ xs) e
