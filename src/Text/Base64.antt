-- ===== src/Text/Base64.antt =====
-- src/util/base64.c. A C string is the list of its bytes without the terminator; `uint32_t` values
-- stay below 2 ^ 24, so shifts and masks are quotients and remainders.
pub mod Digits
pub mod RoundTrip
pub mod Chars
use smolmux.Base.{
  codes, ℕ, zero, suc, ◌+◌, ◌-◌, ◌*◌, ◌/◌, ◌%◌, ◌^◌, Bool, true, false, not, ◌&&◌, ◌||◌, Option,
  none, some, List, [], ◌∷◌, ◌++◌, Bytes, ltb, leb, ◌==◌, if◌then◌else◌, length, get_or, take,
}

-- `b64_table`
abbrev b64_table : Bytes
b64_table = codes "ABCDEFGHIJKLMNOPQRSTUVWXYZabcdefghijklmnopqrstuvwxyz0123456789+/"

unfoldable pub digit : ℕ → ℕ
digit k = get_or b64_table k 0

-- `b64_decode_table`; entries that the table does not name are 0.
unfoldable pub decode_table : ℕ → ℕ
decode_table c =
    if leb b'A' c && leb c b'Z'
    then c - b'A'
    else if leb b'a' c && leb c b'z'
    then c - b'a' + 26
    else if leb b'0' c && leb c b'9'
    then c - b'0' + 52
    else if c == b'+'
    then 62
    else if c == b'/'
    then 63
    else 0

-- The four digits of the 24-bit value `v`, from the top: `b64_table[(v >> s) & 0x3F]`.
abbrev pub sextet : ℕ → ℕ → ℕ
sextet v shift = digit (v / 2 ^ shift % 64)

unfoldable pub encode : Bytes → Bytes
encode [] = []
encode (a ∷ []) = let v = a * 2 ^ 16 in sextet v 18 ∷ sextet v 12 ∷ b'=' ∷ b'=' ∷ []
encode (a ∷ b ∷ []) =
    let v = a * 2 ^ 16 + b * 2 ^ 8 in sextet v 18 ∷ sextet v 12 ∷ sextet v 6 ∷ b'=' ∷ []
encode (a ∷ b ∷ c ∷ rest) =
    let v = a * 2 ^ 16 + b * 2 ^ 8 + c in
    sextet v 18 ∷ sextet v 12 ∷ sextet v 6 ∷ sextet v 0 ∷ encode rest

unfoldable pub is_b64_char : ℕ → Bool
is_b64_char c =
    (leb b'A' c && leb c b'Z')
    || (leb b'a' c && leb c b'z')
    || (leb b'0' c && leb c b'9')
    || c == b'+'
    || c == b'/'
    || c == b'='

-- The validation loop from index `i` on, in a text of `len` bytes.
unfoldable pub valid_from : ℕ → ℕ → Bytes → Bool
valid_from len i [] = true
valid_from len i (c ∷ cs) =
    is_b64_char c && not (c == b'=' && ltb i (len - 2)) && valid_from len (i + 1) cs

-- The decoding loop: each four characters give three bytes.
unfoldable pub quads : Bytes → Bytes
quads (a ∷ b ∷ c ∷ d ∷ rest) =
    let v =
      decode_table a * 2 ^ 18 + decode_table b * 2 ^ 12 + decode_table c * 2 ^ 6 + decode_table d in
    v / 2 ^ 16 % 256 ∷ v / 2 ^ 8 % 256 ∷ v % 256 ∷ quads rest
quads _ = []

abbrev pub padding : Bytes → ℕ
padding b64 =
    (if get_or b64 (length b64 - 1) 0 == b'=' then 1 else 0)
    + (if get_or b64 (length b64 - 2) 0 == b'=' then 1 else 0)

-- Three bytes are written for each four characters, as long as `j < decoded_len`: the first
-- `decoded_len` of them are kept. `none` is the NULL of an invalid text.
unfoldable pub decode : Bytes → Option Bytes
decode [] = some []
decode (c ∷ cs) =
    let b64 = c ∷ cs in
    if not (length b64 % 4 == 0)
    then none
    else if not (valid_from (length b64) 0 b64)
    then none
    else some (take (length b64 / 4 * 3 - padding b64) (quads b64))
