-- ===== src/Tokenizer.antt =====
-- inference-api/src/tokenizer/tokenizer.service.ts
-- `text.length` counts UTF-16 code units: a code point above 0xffff is two.
pub mod Bounds
mod Tests
use Prim.Native.Char.{code}
use Prim.Native.String
use inference_stack.Prelude.{
  ℕ, suc, ◌+◌, ◌/◌, String, Bool, Option, none, some, if◌then◌else◌, ltb, ◌==◌, ℕ_eq,
}

pub utf16_length : String → ℕ
utf16_length String.[] = 0
utf16_length (String.◌∷◌ c s) = (if ltb (code c) 0x10000 then 1 else 2) + utf16_length s

-- `Math.ceil(n / 4)`
pub ceil_quarter : ℕ → ℕ
ceil_quarter n = (n + 3) / 4

unfoldable pub estimate_token_count : String → ℕ
unfolding utf16_length ceil_quarter
estimate_token_count String.[] = 0
estimate_token_count (String.◌∷◌ c s) = ceil_quarter (utf16_length (String.◌∷◌ c s))

-- The 400 error of `validateContextWindow`, with the numbers in its message.
pub record ContextOverflow : Type 0 where
  pub total : ℕ
  pub prompt_tokens : ℕ
  pub max_tokens : ℕ
  pub max_context_length : ℕ

pub validate_context_window : ℕ → ℕ → ℕ → Option ContextOverflow
validate_context_window prompt_tokens max_tokens max_context_length =
    let total = prompt_tokens + max_tokens in
    if ltb max_context_length total
    then some (record {
      total = total;
      prompt_tokens = prompt_tokens;
      max_tokens = max_tokens;
      max_context_length = max_context_length;
    })
    else none
