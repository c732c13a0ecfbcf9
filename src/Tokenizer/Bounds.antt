-- ===== src/Tokenizer/Bounds.antt =====
-- Bounds of inference-api/src/tokenizer/tokenizer.service.ts.
use inference_stack.Prelude.{ℕ, ◌+◌, ◌*◌, ◌≤◌, ◌<◌, ◌≡◌, ◌↔◌, String, none, arith}
use inference_stack.Tokenizer.{
  utf16_length, ceil_quarter, estimate_token_count, validate_context_window,
}

ceil_quarter-bounds : (n : ℕ) → (n ≤ 4 * ceil_quarter n) × (4 * ceil_quarter n < n + 4)
unfolding ceil_quarter
ceil_quarter-bounds n = (omega arith, omega arith)

-- The estimate is the length of the text in UTF-16 code units over 4, rounded up: four times the
-- estimate covers the length and is less than 4 above it.
pub estimate_token_count-bounds :
    (text : String)
    → (utf16_length text ≤ 4 * estimate_token_count text)
      × (4 * estimate_token_count text < utf16_length text + 4)
unfolding estimate_token_count utf16_length
estimate_token_count-bounds String.[] = (omega arith, omega arith)
estimate_token_count-bounds (String.◌∷◌ c s) = ceil_quarter-bounds (utf16_length (String.◌∷◌ c s))

-- `validateContextWindow` lets a request pass exactly when its prompt and its answer fit the context
-- window together.
pub validate_context_window_iff :
    (prompt_tokens max_tokens max_context_length : ℕ)
    → (validate_context_window prompt_tokens max_tokens max_context_length ≡ none)
      ↔ (prompt_tokens + max_tokens ≤ max_context_length)
unfolding validate_context_window
validate_context_window_iff p m c = (λ h. ground (arith, h), λ h. ground (arith, h))
