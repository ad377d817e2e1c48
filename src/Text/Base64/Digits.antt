-- ===== src/Text/Base64/Digits.antt =====
-- The two tables are inverse to each other.
use smolmux.Base.{ℕ, ◌<◌, true, false, ◌&&◌, not, ◌≡◌, refl, arith, passes, passes_at, ◌==◌}
use smolmux.Text.Base64.{digit, decode_table, is_b64_char}

digit_table :
    passes (λ k. decode_table (digit k) == k && is_b64_char (digit k) && not (digit k == b'=')) 64
    ≡ true
unfolding passes decode_table digit is_b64_char
digit_table = refl

pub digit_lem :
    (k : ℕ)
    → k < 64
    → (decode_table (digit k) ≡ k) × (is_b64_char (digit k) ≡ true) × ((digit k == b'=') ≡ false)
digit_lem k h =
    let t =
      passes_at (λ k. decode_table (digit k) == k && is_b64_char (digit k) && not (digit k == b'='))
        64 digit_table k h in
    ground arith
