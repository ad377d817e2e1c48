-- ===== src/Text/Escape.antt =====
-- `sm_str_unescape` of src/util/str.c, on the bytes of a C string in front of its terminator.
use smolmux.Base.{
  ℕ, zero, suc, ◌≤◌, false, [], ◌∷◌, ◌≡◌, refl, arith, Bytes, ◌==◌, if◌then◌else◌, length, take,
}

-- The byte that stands for a backslash and `c`.
pub escaped : ℕ → ℕ
escaped c =
    if c == b'n'
    then b'\n'
    else if c == b'r'
    then b'\r'
    else if c == b't'
    then b'\t'
    else if c == b'0'
    then 0
    else if c == b'\\'
    then b'\\'
    else c

-- `room` is `out_max - n`. A backslash at the end of the string stands for itself.
pub unescape : ℕ → Bytes → Bytes
unescape zero s = []
unescape (suc room) [] = []
unescape (suc room) (c ∷ []) = c ∷ []
unescape (suc room) (c ∷ d ∷ s) =
    let after_escape = escaped d ∷ unescape room s in
    let after_plain = c ∷ unescape room (d ∷ s) in if c == b'\\' then after_escape else after_plain

-- A way to write any bytes as a C string: what the callers document for their input.
pub escape : Bytes → Bytes
escape [] = []
escape (c ∷ s) =
    let rest = escape s in
    if c == b'\n'
    then b'\\' ∷ b'n' ∷ rest
    else if c == b'\r'
    then b'\\' ∷ b'r' ∷ rest
    else if c == b'\t'
    then b'\\' ∷ b't' ∷ rest
    else if c == 0
    then b'\\' ∷ b'0' ∷ rest
    else if c == b'\\'
    then b'\\' ∷ b'\\' ∷ rest
    else c ∷ rest

-- The output never overruns its buffer.
pub length-unescape : (room : ℕ) (s : Bytes) → length (unescape room s) ≤ room
unfolding unescape
length-unescape zero s = omega arith
length-unescape (suc room) [] = omega arith
length-unescape (suc room) (c ∷ []) = omega arith
length-unescape (suc room) (c ∷ d ∷ s) =
    ground (arith, length-unescape room s, length-unescape room (d ∷ s))

unescape_plain :
    (room c : ℕ) (s : Bytes)
    → (c == b'\\') ≡ false
    → unescape (suc room) (c ∷ s) ≡ c ∷ unescape room s
unfolding unescape
unescape_plain zero c [] h = refl
unescape_plain (suc room) c [] h = refl
unescape_plain room c (d ∷ s) h = ground arith

-- What was escaped comes back, cut off at the size of the buffer.
pub unescape-escape : (room : ℕ) (s : Bytes) → unescape room (escape s) ≡ take room s
unfolding unescape escape escaped
unescape-escape zero s = refl
unescape-escape (suc room) [] = refl
unescape-escape (suc room) (c ∷ s) =
    ground (arith, unescape-escape room s, unescape_plain room c (escape s))
