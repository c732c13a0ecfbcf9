-- ===== src/Map/Sums.antt =====
-- Weights over the entries of a map: what one write adds and takes away.
use inference_stack.Prelude.{ℕ, ◌+◌, ◌≡◌, [], ◌∷◌, Option, none, some, Eq, arith, sum_of}
use inference_stack.Map.{Map, get, set, delete}

module _ {ℓ κ} {K : Type ℓ} {V : Type κ} where
  -- The weight of what stands at a key.
  abbrev pub weight_at : (K × V → ℕ) → K → Option V → ℕ
  weight_at w k none = 0
  weight_at w k (some v) = w (k, v)

module _ {ℓ κ} {K : Type ℓ} {V : Type κ} ⦃e : Eq K⦄ (w : K × V → ℕ) where
  pub sum_of-set :
      (k : K) (v : V) (m : Map K V)
      → sum_of w (set k v m) + weight_at w k (get k m) ≡ sum_of w m + w (k, v)
  unfolding get set
  sum_of-set k v [] = omega arith
  sum_of-set k v ((j, u) ∷ m) = ground (arith, sum_of-set k v m, e.beq_iff j k)

  pub sum_of-delete :
      (k : K) (m : Map K V) → sum_of w (delete k m) + weight_at w k (get k m) ≡ sum_of w m
  unfolding get delete
  sum_of-delete k [] = omega arith
  sum_of-delete k ((j, u) ∷ m) = ground (arith, sum_of-delete k m, e.beq_iff j k)
