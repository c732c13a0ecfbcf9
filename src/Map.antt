-- ===== src/Map.antt =====
-- JavaScript's `Map`, as the services use it: entries in the order of insertion, an entry that is
-- set again keeps its place.
pub mod Sums
use inference_stack.Prelude.{
  ◌≡◌, refl, ◌≢◌, List, [], ◌∷◌, ◌++◌, map, Option, none, some, Bool, true, false, Eq, ◌==◌,
  if◌then◌else◌, arith, All,
}

abbrev pub Map {ℓ κ} : Type ℓ → Type κ → Type (ℓ ⊔ κ)
Map K V = List (K × V)

module _ {ℓ κ} {K : Type ℓ} {V : Type κ} where
  abbrev pub keys : Map K V → List K
  keys [] = []
  keys ((k, v) ∷ m) = k ∷ keys m

  abbrev pub values : Map K V → List V
  values [] = []
  values ((k, v) ∷ m) = v ∷ values m

module _ {ℓ κ} {K : Type ℓ} {V : Type κ} ⦃e : Eq K⦄ where
  unfoldable pub get : K → Map K V → Option V
  get k [] = none
  get k ((j, v) ∷ m) = if j == k then some v else get k m

  unfoldable pub set : K → V → Map K V → Map K V
  set k v [] = (k, v) ∷ []
  set k v ((j, w) ∷ m) = if j == k then (j, v) ∷ m else (j, w) ∷ set k v m

  unfoldable pub delete : K → Map K V → Map K V
  delete k [] = []
  delete k ((j, w) ∷ m) = if j == k then m else (j, w) ∷ delete k m

  unfoldable pub has : K → Map K V → Bool
  unfolding get
  has k m = elim (get k m) [ none ↦ false | some v ↦ true ]

  pub keys-set_present :
      (k : K) (v w : V) (m : Map K V) → get k m ≡ some w → keys (set k v m) ≡ keys m
  unfolding get set
  keys-set_present k v w [] h = cc
  keys-set_present k v w ((j, u) ∷ m) h = ground (arith, keys-set_present k v w m)

  pub get-set_self : (k : K) (v : V) (m : Map K V) → get k (set k v m) ≡ some v
  unfolding get set
  get-set_self k v [] = ground (arith, e.beq_iff k k)
  get-set_self k v ((j, u) ∷ m) = ground (arith, get-set_self k v m)

  pub get-set_ne : (k j : K) (v : V) (m : Map K V) → k ≢ j → get j (set k v m) ≡ get j m
  unfolding get set
  get-set_ne k j v [] h = ground (arith, e.beq_iff k j)
  get-set_ne k j v ((i, u) ∷ m) h = ground (arith, get-set_ne k j v m, e.beq_iff i k, e.beq_iff i j)

  pub set-set : (k : K) (v u : V) (m : Map K V) → set k v (set k u m) ≡ set k v m
  unfolding set
  set-set k v u [] = ground (arith, e.beq_iff k k)
  set-set k v u ((j, w) ∷ m) = ground (arith, set-set k v u m)

  get-delete_ne : (k j : K) (m : Map K V) → k ≢ j → get j (delete k m) ≡ get j m
  unfolding get delete
  get-delete_ne k j [] h = refl
  get-delete_ne k j ((i, u) ∷ m) h =
      ground (arith, get-delete_ne k j m, e.beq_iff i k, e.beq_iff i j)

  -- No key has two entries.
  abbrev pub IsDistinct : Map K V → Type κ
  IsDistinct [] = Unit
  IsDistinct ((j, w) ∷ m) = (get j m ≡ none) × IsDistinct m

  pub set-IsDistinct : (k : K) (v : V) (m : Map K V) → IsDistinct m → IsDistinct (set k v m)
  unfolding get set
  set-IsDistinct k v [] d = (refl, tt)
  set-IsDistinct k v ((j, w) ∷ m) d =
      ground (arith, set-IsDistinct k v m, get-set_ne k j v m, e.beq_iff j k)

  pub delete-IsDistinct : (k : K) (m : Map K V) → IsDistinct m → IsDistinct (delete k m)
  unfolding delete
  delete-IsDistinct k [] d = tt
  delete-IsDistinct k ((j, w) ∷ m) d =
      ground (arith, delete-IsDistinct k m, get-delete_ne k j m, e.beq_iff j k)

  pub get-delete_self : (k : K) (m : Map K V) → IsDistinct m → get k (delete k m) ≡ none
  unfolding get delete
  get-delete_self k [] d = refl
  get-delete_self k ((j, w) ∷ m) d = ground (arith, get-delete_self k m, e.beq_iff j k)

  -- What holds of every key holds of one that is found.
  pub All-keys-get {μ} :
      (P : K → Type μ) (k : K) (v : V) (m : Map K V) → All P (keys m) → get k m ≡ some v → P k
  unfolding get
  All-keys-get P k v [] h p = cc
  All-keys-get P k v ((j, w) ∷ m) h p = ground (arith, e.beq_iff j k, All-keys-get P k v m h.1)

  -- What holds of every entry is kept by both writes.
  module _ {μ} (P : K × V → Type μ) where
    pub All-set : (k : K) (v : V) (m : Map K V) → All P m → P (k, v) → All P (set k v m)
    unfolding set
    All-set k v [] h p = (p, tt)
    All-set k v ((j, w) ∷ m) h p = ground (arith, e.beq_iff j k, All-set k v m h.1 p)

    pub All-delete : (k : K) (m : Map K V) → All P m → All P (delete k m)
    unfolding delete
    All-delete k [] h = tt
    All-delete k ((j, w) ∷ m) h = ground (arith, All-delete k m h.1)

    pub All-get : (k : K) (v : V) (m : Map K V) → All P m → get k m ≡ some v → P (k, v)
    unfolding get
    All-get k v [] h p = cc
    All-get k v ((j, w) ∷ m) h p = ground (arith, e.beq_iff j k, All-get k v m h.1)
