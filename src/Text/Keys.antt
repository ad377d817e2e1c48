-- ===== src/Text/Keys.antt =====
-- src/util/keyspec.c: the monitor's escape key, written `esc` or in caret notation. A C string is the
-- list of its bytes.
use smolmux.Base.{
  codes, ℕ, zero, suc, ◌+◌, ◌-◌, ◌≤◌, ◌<◌, Bool, true, false, ◌&&◌, Option, none, some, [], ◌∷◌,
  ◌≡◌, refl, ap, ◌⊎◌, inl, inr, arith, Bytes, ltb, leb, ◌==◌, if◌then◌else◌, length, length-take,
  take, passes, passes_at, ==_iff, subst, ◌↔◌,
}
use Prim.Native.Nat.{bit_xor}

-- `toupper` in the C locale, and `strcasecmp` against a lower-case word.
pub to_upper : ℕ → ℕ
to_upper c = if leb b'a' c && leb c b'z' then c - 32 else c

pub same_letters : Bytes → Bytes → Bool
same_letters [] [] = true
same_letters (x ∷ xs) (y ∷ ys) = to_upper x == to_upper y && same_letters xs ys
same_letters _ _ = false

-- `none` is the result -1.
pub parse_escape_key : Bytes → Option ℕ
parse_escape_key (a ∷ c ∷ []) =
    if a == b'^'
    then (if c == b'?'
        then some 0x7f
        else if leb 0x40 (to_upper c) && leb (to_upper c) 0x5f
        then some (bit_xor (to_upper c) 0x40)
        else none)
    else none
parse_escape_key spec = if same_letters spec (codes "esc") then some 0x1b else none

pub key_text : ℕ → Bytes
key_text ch =
    if ch == 0x1b
    then (codes "ESC")
    else if ch == 0x7f
    then b'^' ∷ b'?' ∷ []
    else if ltb ch 0x20
    then b'C' ∷ b't' ∷ b'r' ∷ b'l' ∷ b'-' ∷ bit_xor ch 0x40 ∷ []
    else ch ∷ []

-- `snprintf` into a buffer of `n` bytes keeps the first `n - 1`; `none` for n = 0, where nothing
-- is written.
pub format_escape_key : ℕ → ℕ → Option Bytes
format_escape_key ch zero = none
format_escape_key ch (suc n) = some (take n (key_text ch))

xor_table : passes (λ k. bit_xor (k + 0x40) 0x40 == k) 32 ≡ true
unfolding passes
xor_table = refl

xor_caret : (k : ℕ) → k < 32 → bit_xor (k + 0x40) 0x40 ≡ k
xor_caret k h = (==_iff _ k).0 (passes_at (λ k. bit_xor (k + 0x40) 0x40 == k) 32 xor_table k h)

-- The value of a caret key.
caret_control : (u : ℕ) → 0x40 ≤ u → u ≤ 0x5f → bit_xor u 0x40 < 0x20
caret_control u lo hi =
    let e : u - 0x40 + 0x40 ≡ u = omega arith in
    let x : bit_xor u 0x40 ≡ u - 0x40 =
      subst (λ w. bit_xor w 0x40 ≡ u - 0x40) e (xor_caret (u - 0x40) (omega arith)) in
    omega arith

parse_escape_key-control :
    (spec : Bytes) {k : ℕ} → parse_escape_key spec ≡ some k → (k < 0x20) ⊎ (k ≡ 0x7f)
unfolding parse_escape_key
parse_escape_key-control [] h = ground arith
parse_escape_key-control (a ∷ []) h = ground arith
parse_escape_key-control (a ∷ c ∷ []) h = ground (arith, caret_control (to_upper c))
parse_escape_key-control (a ∷ c ∷ d ∷ s) h = ground arith

caret_lem : (k : ℕ) → (k < 0x20) ⊎ (k ≡ 0x7f) → (spec : Bytes) × (parse_escape_key spec ≡ some k)
unfolding parse_escape_key to_upper
caret_lem k (inl h) = (b'^' ∷ (k + 0x40) ∷ [], ground (arith, xor_caret k h))
caret_lem k (inr e) = (b'^' ∷ b'?' ∷ [], ground arith)

-- The keys that some text names are exactly the control codes and DEL.
pub parse_escape_key_range :
    (k : ℕ) → ((spec : Bytes) × (parse_escape_key spec ≡ some k)) ↔ ((k < 0x20) ⊎ (k ≡ 0x7f))
parse_escape_key_range k = ((λ s. parse_escape_key-control s.0 s.1), caret_lem k)

-- The printed form fits in the buffer with its terminator, and nothing is written at size 0.
pub length-format_escape_key :
    (ch n : ℕ) {out : Bytes} → format_escape_key ch n ≡ some out → length out < n
unfolding format_escape_key
length-format_escape_key ch zero h = ground arith
length-format_escape_key ch (suc n) {out} h =
    let e : take n (key_text ch) ≡ out = cc in
    omega (arith, length-take n (key_text ch), ap (length {0}) e)
