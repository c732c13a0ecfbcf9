-- ===== src/Metrics/Windows/RoundTrip.antt =====
-- Every window that is written as a whole number and a unit is read back.
use Prim.Native.Char.{Char, code}
use inference_stack.Prelude.{
  ℕ, zero, suc, ◌+◌, ◌*◌, ◌/◌, ◌%◌, ◌≤◌, ◌<◌, ◌≡◌, refl, ◌∙◌, ap, String, true, false, some, arith,
  ◌==◌, ℕ_eq, Bool-cases, inl, inr,
}
use inference_stack.Metrics.Windows.{
  is_digit, seconds_of, read_window, or_five_minutes, parse_window, digit_char, put_digits, decimal,
}

pub code-digit_char : (d : ℕ) → d < 10 → code (digit_char d) ≡ 48 + d
code-digit_char zero h = refl
code-digit_char (suc zero) h = refl
code-digit_char (suc (suc zero)) h = refl
code-digit_char (suc (suc (suc zero))) h = refl
code-digit_char (suc (suc (suc (suc zero)))) h = refl
code-digit_char (suc (suc (suc (suc (suc zero))))) h = refl
code-digit_char (suc (suc (suc (suc (suc (suc zero)))))) h = refl
code-digit_char (suc (suc (suc (suc (suc (suc (suc zero))))))) h = refl
code-digit_char (suc (suc (suc (suc (suc (suc (suc (suc zero)))))))) h = refl
code-digit_char (suc (suc (suc (suc (suc (suc (suc (suc (suc zero))))))))) h = refl
code-digit_char (suc (suc (suc (suc (suc (suc (suc (suc (suc (suc d)))))))))) h =
    absurd (omega arith)

is_digit-digit_char : (d : ℕ) → d < 10 → is_digit (digit_char d) ≡ true
is_digit-digit_char d h = ground (arith, code-digit_char d h)

-- A digit that is read counts in the value.
read_window-digit :
    (n d : ℕ) (rest : String)
    → d < 10
    → read_window n (String.◌∷◌ (digit_char d) rest) ≡ read_window (n * 10 + d) rest
unfolding read_window
read_window-digit n d rest h =
    rw (is_digit-digit_char d h, code-digit_char d h) (ap (λ v. read_window v rest) (omega arith))

read_window-put_digits :
    (fuel n : ℕ) (out : String)
    → n ≤ fuel
    → read_window 0 (put_digits fuel n out) ≡ read_window n out
unfolding put_digits
read_window-put_digits zero n out h = ap (λ v. read_window v out) (omega arith)
read_window-put_digits (suc fuel) n out h = elim (Bool-cases (n == 0)) [
  | inl done ↦ rw done (ap (λ v. read_window v out) (ground arith))
  | inr more ↦ rw more (
      read_window-put_digits fuel (n / 10) (String.◌∷◌ (digit_char (n % 10)) out) (ground arith)
      ∙ read_window-digit (n / 10) (n % 10) out (omega arith)
      ∙ ap (λ v. read_window v out) (omega arith))
]

-- What follows a leading digit is read by its value.
parse_window-digit :
    (c : Char) (rest : String)
    → is_digit c ≡ true
    → parse_window (String.◌∷◌ c rest) ≡ or_five_minutes (read_window 0 (String.◌∷◌ c rest))
unfolding parse_window
parse_window-digit c rest h = rw h refl

-- The text begins with a digit.
abbrev Leads : String → Type 0
Leads String.[] = ⊥
Leads (String.◌∷◌ c rest) = is_digit c ≡ true

put_digits-Leads : (fuel n : ℕ) (out : String) → Leads out → Leads (put_digits fuel n out)
unfolding put_digits
put_digits-Leads zero n out h = h
put_digits-Leads (suc fuel) n out h = elim (Bool-cases (n == 0)) [
  | inl done ↦ rw done h
  | inr more ↦
      rw more (put_digits-Leads fuel (n / 10) _ (is_digit-digit_char (n % 10) (omega arith)))
]

parse_window-Leads :
    (text : String) → Leads text → parse_window text ≡ or_five_minutes (read_window 0 text)
parse_window-Leads String.[] h = absurd h
parse_window-Leads (String.◌∷◌ c rest) h = parse_window-digit c rest h

put_digits_pos-Leads :
    (fuel n : ℕ) (out : String) → 0 < n → n ≤ fuel → Leads (put_digits fuel n out)
unfolding put_digits
put_digits_pos-Leads zero n out pos h = absurd (omega arith)
put_digits_pos-Leads (suc fuel) n out pos h =
    let positive : (n == 0) ≡ false = ground arith in
    rw positive (put_digits-Leads fuel (n / 10) _ (is_digit-digit_char (n % 10) (omega arith)))

decimal-Leads : (n : ℕ) (out : String) → Leads (decimal n out)
unfolding decimal
decimal-Leads n out = elim (Bool-cases (n == 0)) [
  | inl none_left ↦ rw none_left refl
  | inr some_left ↦ rw some_left (put_digits_pos-Leads n n out (ground arith) (omega arith))
]

read_window-decimal : (n : ℕ) (out : String) → read_window 0 (decimal n out) ≡ read_window n out
unfolding decimal
read_window-decimal n out = elim (Bool-cases (n == 0)) [
  | inl none_left ↦
      rw none_left
        (read_window-digit 0 0 out (omega arith) ∙ ap (λ v. read_window v out) (ground arith))
  | inr some_left ↦ rw some_left (read_window-put_digits n n out (omega arith))
]

read_window-unit :
    (n k : ℕ) (unit : Char)
    → seconds_of unit ≡ some k
    → read_window n (String.◌∷◌ unit "") ≡ some (n * k)
unfolding read_window
read_window-unit n k unit h = let other : is_digit unit ≡ false = ground arith in rw (other, h) refl

parse_window-unit :
    (n k : ℕ) (unit : Char)
    → seconds_of unit ≡ some k
    → parse_window (decimal n (String.◌∷◌ unit "")) ≡ n * k
parse_window-unit n k unit h =
    parse_window-Leads (decimal n (String.◌∷◌ unit "")) (decimal-Leads n (String.◌∷◌ unit ""))
    ∙ ap or_five_minutes (read_window-decimal n (String.◌∷◌ unit "") ∙ read_window-unit n k unit h)

-- A window that is written as a whole number in decimal and one of the units `s`, `m`, `h` and `d` is
-- read by `parseWindow` as that number of seconds, of minutes of 60 seconds, of hours of 3600 and of
-- days of 86400.
pub parse_window-decimal :
    (n : ℕ)
    → (parse_window (decimal n "s") ≡ n)
      × (parse_window (decimal n "m") ≡ n * 60)
      × (parse_window (decimal n "h") ≡ n * 3600)
      × (parse_window (decimal n "d") ≡ n * 86400)
parse_window-decimal n = (
  parse_window-unit n 1 "s" refl ∙ omega arith,
  parse_window-unit n 60 "m" refl,
  parse_window-unit n 3600 "h" refl,
  parse_window-unit n 86400 "d" refl,
)
