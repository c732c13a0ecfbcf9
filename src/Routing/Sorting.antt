-- ===== src/Routing/Sorting.antt =====
-- What sorting and filtering keep, and what stands first.
use inference_stack.Prelude.{
  ℕ, ◌≤◌, ◌≡◌, refl, subst, Bool, true, false, Option, none, some, List, [], ◌∷◌, arith, All, ltb,
  ◌⊎◌, inl, inr, Bool-cases, All-imp, dec_lt,
}
use inference_stack.Routing.{insert_by, sort_by, filter_by, first_in}

module _ {A : Type 0} where
  -- `a` is an element of the list.
  abbrev pub IsIn : A → List A → Type 0
  IsIn a [] = ⊥
  IsIn a (b ∷ bs) = (b ≡ a) ⊎ IsIn a bs

  All-IsIn : (xs : List A) → All (λ a. IsIn a xs) xs
  All-IsIn [] = tt
  All-IsIn (x ∷ xs) =
      (inl refl, All-imp (λ a. IsIn a xs) (λ a. IsIn a (x ∷ xs)) xs (λ a h. inr h) (All-IsIn xs))

  All-filter_by :
      (P : A → Type 0) (p : A → Bool) (xs : List A)
      → All P xs
      → All (λ a. P a × (p a ≡ true)) (filter_by p xs)
  unfolding filter_by
  All-filter_by P p [] h = tt
  All-filter_by P p (x ∷ xs) (here, later) = elim (Bool-cases (p x)) [
    | inl kept ↦ rw (kept, filter_by) ((here, kept), All-filter_by P p xs later)
    | inr dropped ↦ rw (dropped, filter_by) (All-filter_by P p xs later)
  ]

  -- The elements that pass are elements.
  pub filter_by-IsIn :
      (p : A → Bool) (xs : List A) → All (λ a. IsIn a xs × (p a ≡ true)) (filter_by p xs)
  filter_by-IsIn p xs = All-filter_by (λ a. IsIn a xs) p xs (All-IsIn xs)

  filter_by_kept :
      (p : A → Bool) (x : A) (xs : List A) → p x ≡ true → filter_by p (x ∷ xs) ≡ x ∷ filter_by p xs
  unfolding filter_by
  filter_by_kept p x xs e = rw e refl

  filter_by_dropped :
      (p : A → Bool) (x : A) (xs : List A) → p x ≡ false → filter_by p (x ∷ xs) ≡ filter_by p xs
  unfolding filter_by
  filter_by_dropped p x xs e = rw e refl

  -- What holds of all that pass holds of every element if it passes.
  pub All-unfilter :
      (P : A → Type 0) (p : A → Bool) (xs : List A)
      → All P (filter_by p xs)
      → All (λ a. p a ≡ true → P a) xs
  All-unfilter P p [] h = tt
  All-unfilter P p (x ∷ xs) h = elim (Bool-cases (p x)) [
    | inl kept ↦
        let kept_all : All P (x ∷ filter_by p xs) = subst (All P) (filter_by_kept p x xs kept) h in
        (λ passes. kept_all.0, All-unfilter P p xs kept_all.1)
    | inr dropped ↦
        let rest : All P (filter_by p xs) = subst (All P) (filter_by_dropped p x xs dropped) h in
        (λ passes. cc, All-unfilter P p xs rest)
  ]

  pub All-first_in : (P : A → Type 0) (a : A) (xs : List A) → All P xs → first_in xs ≡ some a → P a
  All-first_in P a [] h e = cc
  All-first_in P a (x ∷ xs) h e = let same : x ≡ a = ground arith in rw (← same) h.0

  module _ (before : A → A → Bool) (P : A → Type 0) where
    All-insert_by : (a : A) (xs : List A) → P a → All P xs → All P (insert_by before a xs)
    unfolding insert_by
    All-insert_by a [] p h = (p, tt)
    All-insert_by a (b ∷ bs) p h = ground (arith, All-insert_by a bs p h.1)

    pub All-sort_by : (xs : List A) → All P xs → All P (sort_by before xs)
    unfolding sort_by
    All-sort_by [] h = tt
    All-sort_by (x ∷ xs) h = All-insert_by x (sort_by before xs) h.0 (All-sort_by xs h.1)

    All-uninsert : (a : A) (xs : List A) → All P (insert_by before a xs) → P a × All P xs
    unfolding insert_by
    All-uninsert a [] h = (h.0, tt)
    All-uninsert a (b ∷ bs) h = ground (arith, All-uninsert a bs)

    pub All-unsort : (xs : List A) → All P (sort_by before xs) → All P xs
    unfolding sort_by
    All-unsort [] h = tt
    All-unsort (x ∷ xs) h =
        let (here, later) = All-uninsert x (sort_by before xs) h in (here, All-unsort xs later)

  -- Sorted by a key, the first element has the least.
  module _ (key : A → ℕ) where
    abbrev pub by_key : A → A → Bool
    by_key a b = ltb (key a) (key b)

    abbrev IsLeast : Option A → List A → Type 0
    IsLeast none xs = xs ≡ []
    IsLeast (some a) xs = All (λ o. key a ≤ key o) xs

    IsLeast-insert_by :
        (x : A) (xs ys : List A)
        → IsLeast (first_in ys) xs
        → IsLeast (first_in (insert_by by_key x ys)) (x ∷ xs)
    unfolding insert_by
    IsLeast-insert_by x xs [] h = (omega arith, rw h tt)
    IsLeast-insert_by x xs (y ∷ ys) h = elim (dec_lt (key y) (key x)) [
      | yes less ↦ ground (arith, less, h)
      | no other ↦
          let below : All (λ o. key x ≤ key o) xs =
            All-imp (λ o. key y ≤ key o) (λ o. key x ≤ key o) xs (λ o le. omega (arith, le, other))
              h in
          ground (arith, other, below)
    ]

    IsLeast-sort_by : (xs : List A) → IsLeast (first_in (sort_by by_key xs)) xs
    unfolding sort_by
    IsLeast-sort_by [] = refl
    IsLeast-sort_by (x ∷ xs) = IsLeast-insert_by x xs (sort_by by_key xs) (IsLeast-sort_by xs)

    pub first_in-sort_by :
        (a : A) (xs : List A) → first_in (sort_by by_key xs) ≡ some a → All (λ o. key a ≤ key o) xs
    first_in-sort_by a xs e = subst (λ o. IsLeast o xs) e (IsLeast-sort_by xs)

    pub first_in-sort_by-none : (xs : List A) → first_in (sort_by by_key xs) ≡ none → xs ≡ []
    first_in-sort_by-none xs e = subst (λ o. IsLeast o xs) e (IsLeast-sort_by xs)
