-- ===== src/Metrics/Windows.antt =====
-- `parseWindow` of inference-api/src/metrics/metrics.service.ts, and the text of a whole number as a
-- template string has it.
pub mod RoundTrip
use Prim.Native.Char.{Char, code}
use Prim.Native.String
use inference_stack.Prelude.{
  ℕ, zero, suc, ◌+◌, ◌-◌, ◌*◌, ◌/◌, ◌%◌, String, Bool, true, false, ◌&&◌, Option, none, some, ◌==◌,
  ℕ_eq, leb, if◌then◌else◌, ◌≡◌, refl,
}

abbrev pub is_digit : Char → Bool
is_digit c = leb 48 (code c) && leb (code c) 57

abbrev pub seconds_of : Char → Option ℕ
seconds_of c =
    if code c == 115
    then some 1
    else if code c == 109
    then some 60
    else if code c == 104
    then some 3600
    else if code c == 100
    then some 86400
    else none

abbrev pub times : ℕ → Option ℕ → Option ℕ
times n none = none
times n (some k) = some (n * k)

-- What is left of `/^(\d+)(s|m|h|d)$/` after digits with the value `n`.
pub read_window : ℕ → String → Option ℕ
read_window n String.[] = none
read_window n (String.◌∷◌ c rest) =
    let more = read_window (n * 10 + (code c - 48)) rest in
    if is_digit c
    then more
    else elim rest [ String.[] ↦ times n (seconds_of c) | String.◌∷◌ d others ↦ none ]

abbrev pub or_five_minutes : Option ℕ → ℕ
or_five_minutes none = 300
or_five_minutes (some n) = n

-- The expression wants a digit to begin with.
unfoldable pub parse_window : String → ℕ
unfolding read_window
parse_window String.[] = 300
parse_window (String.◌∷◌ c rest) =
    if is_digit c then or_five_minutes (read_window 0 (String.◌∷◌ c rest)) else 300

abbrev pub digit_char : ℕ → Char
digit_char zero = "0"
digit_char (suc zero) = "1"
digit_char (suc (suc zero)) = "2"
digit_char (suc (suc (suc zero))) = "3"
digit_char (suc (suc (suc (suc zero)))) = "4"
digit_char (suc (suc (suc (suc (suc zero))))) = "5"
digit_char (suc (suc (suc (suc (suc (suc zero)))))) = "6"
digit_char (suc (suc (suc (suc (suc (suc (suc zero))))))) = "7"
digit_char (suc (suc (suc (suc (suc (suc (suc (suc zero)))))))) = "8"
digit_char _ = "9"

-- The digits of a number before a text. The number itself is fuel enough.
unfoldable pub put_digits : ℕ → ℕ → String → String
put_digits zero n out = out
put_digits (suc fuel) n out =
    let rest = put_digits fuel (n / 10) (String.◌∷◌ (digit_char (n % 10)) out) in
    if n == 0 then out else rest

-- `${n}` with a text behind it.
unfoldable pub decimal : ℕ → String → String
unfolding put_digits
decimal n out = if n == 0 then String.◌∷◌ "0" out else put_digits n n out

half_hour : parse_window (decimal 30 "m") ≡ 1800
unfolding parse_window decimal
half_hour = refl

bad_window : parse_window "5 m" ≡ 300
unfolding parse_window
bad_window = refl
