-- ===== src/Metrics/Queries/Literals.antt =====
-- What stands outside the literals of a query of inference-api/src/metrics/metrics.service.ts, where
-- a literal goes from one single quote to the next.
use Prim.Native.Char.{Char, code}
use text.Mathlib.TextLemmas.{nil-append, cons-append}
use inference_stack.Prelude.{
  ℕ, zero, suc, ◌/◌, ◌%◌, ◌≡◌, ◌≢◌, refl, ◌∙◌, sym, ap, String, Bool, true, false, not, ◌&&◌, ◌==◌,
  ℕ_eq, if◌then◌else◌, Bool-cases, inl, inr, arith,
}
use inference_stack.Metrics.Windows.{put_digits, decimal}
use inference_stack.Metrics.Windows.RoundTrip.{code-digit_char}
use inference_stack.Metrics.Queries.{◌<>◌}

-- Whether a text ends inside a literal, read from inside one or not.
unfoldable pub ends_inside : Bool → String → Bool
ends_inside inside String.[] = inside
ends_inside inside (String.◌∷◌ c rest) =
    let kept = ends_inside inside rest in
    let turned = ends_inside (not inside) rest in if code c == 39 then turned else kept

-- What stands outside the literals, without their quotes.
unfoldable pub outside : Bool → String → String
outside inside String.[] = String.[]
outside inside (String.◌∷◌ c rest) =
    let kept = outside inside rest in
    let turned = outside (not inside) rest in
    if code c == 39 then turned else if inside then kept else String.◌∷◌ c kept

-- No quote, and no backslash that could escape one.
unfoldable pub IsPlain : String → Type 0
IsPlain String.[] = Unit
IsPlain (String.◌∷◌ c rest) = (code c ≢ 39) × (code c ≢ 92) × IsPlain rest

abbrev pub is_plain : String → Bool
is_plain String.[] = true
is_plain (String.◌∷◌ c rest) = not (code c == 39) && not (code c == 92) && is_plain rest

pub is_plain-IsPlain : (s : String) → is_plain s ≡ true → IsPlain s
unfolding IsPlain
is_plain-IsPlain String.[] h = tt
is_plain-IsPlain (String.◌∷◌ c s) h =
    (ground arith, ground arith, is_plain-IsPlain s (ground arith))

pub ends_inside-append :
    (b : Bool) (s t : String) → ends_inside b (s <> t) ≡ ends_inside (ends_inside b s) t
unfolding ends_inside
ends_inside-append b String.[] t = rw nil-append refl
ends_inside-append b (String.◌∷◌ c s) t =
    rw cons-append (ground (arith, ends_inside-append b s t, ends_inside-append (not b) s t))

pub outside-append :
    (b : Bool) (s t : String) → outside b (s <> t) ≡ outside b s <> outside (ends_inside b s) t
unfolding outside ends_inside
outside-append b String.[] t = rw (nil-append t) (sym (nil-append (outside b t)))
outside-append b (String.◌∷◌ c s) t =
    let kept = outside-append b s t in
    let turned = outside-append (not b) s t in
    rw cons-append (elim (Bool-cases (code c == 39)) [
      | inl quote ↦ rw quote turned
      | inr other ↦ rw other (outer b c s t kept)
    ])
  where
    outer :
        (b : Bool) (c : Char) (s t : String)
        → outside b (s <> t) ≡ outside b s <> outside (ends_inside b s) t
        → (if b then outside b (s <> t) else String.◌∷◌ c (outside b (s <> t)))
          ≡ (if b then outside b s else String.◌∷◌ c (outside b s)) <> outside (ends_inside b s) t
    outer true c s t e = e
    outer false c s t e =
        ap (String.◌∷◌ c) e
        ∙ sym (cons-append c (outside false s) (outside (ends_inside false s) t))

pub ends_inside-IsPlain : (b : Bool) (s : String) → IsPlain s → ends_inside b s ≡ b
unfolding ends_inside IsPlain
ends_inside-IsPlain b String.[] h = refl
ends_inside-IsPlain b (String.◌∷◌ c s) h = ground (arith, ends_inside-IsPlain b s h.2, h.0)

-- A plain text inside a literal leaves nothing outside.
pub outside-inner : (s : String) → IsPlain s → outside true s ≡ ""
unfolding outside IsPlain
outside-inner String.[] h = refl
outside-inner (String.◌∷◌ c s) h = ground (arith, outside-inner s h.2, h.0)

pub outside-outer : (s : String) → IsPlain s → outside false s ≡ s
unfolding outside IsPlain
outside-outer String.[] h = refl
outside-outer (String.◌∷◌ c s) h = ground (arith, outside-outer s h.2, h.0)

IsPlain-put_digits : (fuel n : ℕ) (out : String) → IsPlain out → IsPlain (put_digits fuel n out)
unfolding put_digits IsPlain
IsPlain-put_digits zero n out h = h
IsPlain-put_digits (suc fuel) n out h = elim (Bool-cases (n == 0)) [
  | inl at_end ↦ rw at_end h
  | inr more ↦ rw more (
      IsPlain-put_digits fuel (n / 10) _ (
        λ e. omega (arith, code-digit_char (n % 10) (omega arith), e),
        λ e. omega (arith, code-digit_char (n % 10) (omega arith), e),
        h,
      ))
]

put_digits-append :
    (fuel n : ℕ) (out rest : String)
    → put_digits fuel n (out <> rest) ≡ put_digits fuel n out <> rest
unfolding put_digits
put_digits-append zero n out rest = refl
put_digits-append (suc fuel) n out rest = elim (Bool-cases (n == 0)) [
  | inl at_end ↦ rw at_end refl
  | inr more ↦ rw (more, ← cons-append) (put_digits-append fuel (n / 10) _ rest)
]

pub decimal-append : (n : ℕ) (rest : String) → decimal n rest ≡ decimal n "" <> rest
unfolding decimal
decimal-append n rest = elim (Bool-cases (n == 0)) [
  | inl zeros ↦
      rw zeros (ap (String.◌∷◌ "0") (sym (nil-append rest)) ∙ sym (cons-append "0" "" rest))
  | inr some_left ↦
      rw some_left (ap (put_digits n n) (sym (nil-append rest)) ∙ put_digits-append n n "" rest)
]

pub IsPlain-decimal : (n : ℕ) → IsPlain (decimal n "")
unfolding decimal IsPlain
IsPlain-decimal n = elim (Bool-cases (n == 0)) [
  | inl zeros ↦ rw zeros (λ e. omega (arith, e), λ e. omega (arith, e), tt)
  | inr some_left ↦ rw some_left (IsPlain-put_digits n n "" tt)
]

-- A text that ends outside the literals, whatever stands in them.
pub record IsClosed (s : String) : Type 0 where
  pub even : ends_inside false s ≡ false

pub IsClosed-append : {s t : String} → IsClosed s → IsClosed t → IsClosed (s <> t)
IsClosed-append {s = s} {t = t} h k = record {
  even = ends_inside-append false s t ∙ ap (λ b. ends_inside b t) h.even ∙ k.even;
}

pub outside-closed :
    (s t : String) → IsClosed s → outside false (s <> t) ≡ outside false s <> outside false t
outside-closed s t h = outside-append false s t ∙ ap (λ b. outside false s <> outside b t) h.even
