-- ===== src/Tokenizer/Tests.antt =====
-- The tokenizer's theorems on a text.
use inference_stack.Prelude.{◌+◌, ◌*◌, ◌≤◌, ◌<◌}
use inference_stack.Tokenizer.{utf16_length, estimate_token_count}
use inference_stack.Tokenizer.Bounds.{estimate_token_count-bounds}

estimate_token_count-bounds_example :
    (utf16_length "hello" ≤ 4 * estimate_token_count "hello")
    × (4 * estimate_token_count "hello" < utf16_length "hello" + 4)
estimate_token_count-bounds_example = estimate_token_count-bounds "hello"
