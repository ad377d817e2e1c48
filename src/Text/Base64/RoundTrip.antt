-- ===== src/Text/Base64/RoundTrip.antt =====
-- `sm_base64_decode` gives back what `sm_base64_encode` was given.
use smolmux.Base.{
  ℕ, suc, ◌+◌, ◌-◌, ◌*◌, ◌/◌, ◌%◌, ◌^◌, ◌≤◌, ◌<◌, true, false, some, [], ◌∷◌, ◌++◌, ◌≡◌, refl, ap,
  ap₂, ◌∙◌, arith, ◌==◌, if◌then◌else◌, Bytes, length, get_or, take, replicate, take-append_le,
  take-all,
}
use smolmux.Text.Base64.{
  decode_table, is_b64_char, sextet, encode, valid_from, quads, padding, decode,
}
use smolmux.Text.Base64.Digits.{digit_lem}

abbrev pub AllBytes : Bytes → Type 0
AllBytes [] = Unit
AllBytes (c ∷ cs) = (c < 256) × AllBytes cs

decode_table_pad : decode_table b'=' ≡ 0
unfolding decode_table
decode_table_pad = refl

sextet_lem :
    (v shift : ℕ)
    → (decode_table (sextet v shift) ≡ v / 2 ^ shift % 64)
      × (is_b64_char (sextet v shift) ≡ true)
      × ((sextet v shift == b'=') ≡ false)
sextet_lem v shift = digit_lem (v / 2 ^ shift % 64) (omega arith)

pub length-encode : (bytes : Bytes) → length (encode bytes) ≡ 4 * ((length bytes + 2) / 3)
unfolding encode
length-encode [] = omega arith
length-encode (a ∷ []) = omega arith
length-encode (a ∷ b ∷ []) = omega arith
length-encode (a ∷ b ∷ c ∷ rest) = omega (arith, length-encode rest)

-- The value that the decoder puts together from the digits of `v` is `v`.
quad_value :
    (v : ℕ)
    → v < 2 ^ 24
    → decode_table (sextet v 18) * 2 ^ 18
        + decode_table (sextet v 12) * 2 ^ 12
        + decode_table (sextet v 6) * 2 ^ 6
        + decode_table (sextet v 0)
      ≡ v
quad_value v h =
    omega (arith, (sextet_lem v 18).0, (sextet_lem v 12).0, (sextet_lem v 6).0, (sextet_lem v 0).0)

triple :
    (x a b c : ℕ) (rest : Bytes)
    → a < 256
    → b < 256
    → c < 256
    → x ≡ a * 2 ^ 16 + b * 2 ^ 8 + c
    → x / 2 ^ 16 % 256 ∷ x / 2 ^ 8 % 256 ∷ x % 256 ∷ rest ≡ a ∷ b ∷ c ∷ rest
triple x a b c rest ha hb hc e =
    ap₂ ◌∷◌ (omega arith) (ap₂ ◌∷◌ (omega arith) (ap₂ ◌∷◌ (omega arith) refl))

quads-encode :
    (bytes : Bytes)
    → AllBytes bytes
    → quads (encode bytes) ≡ bytes ++ replicate (3 * ((length bytes + 2) / 3) - length bytes) 0
unfolding encode quads
quads-encode [] h = refl
quads-encode (a ∷ []) h = triple _ a 0 0 [] h.0 (omega arith) (omega arith) (
    omega (
      arith,
      (sextet_lem (a * 2 ^ 16) 18).0,
      (sextet_lem (a * 2 ^ 16) 12).0,
      decode_table_pad,
      h.0,
    ))
quads-encode (a ∷ b ∷ []) h =
    let v = a * 2 ^ 16 + b * 2 ^ 8 in
    triple _ a b 0 [] h.0 h.1.0 (omega arith) (
      omega (
        arith,
        (sextet_lem v 18).0,
        (sextet_lem v 12).0,
        (sextet_lem v 6).0,
        decode_table_pad,
        h.0,
        h.1.0,
      ))
quads-encode (a ∷ b ∷ c ∷ rest) h =
    triple _ a b c (quads (encode rest)) h.0 h.1.0 h.1.1.0
      (quad_value (a * 2 ^ 16 + b * 2 ^ 8 + c) (omega (arith, h.0, h.1.0, h.1.1.0)))
    ∙ ap (λ l. a ∷ b ∷ c ∷ l)
        (quads-encode rest h.1.1.1 ∙ ap (λ k. rest ++ replicate k 0) (omega arith))

valid_from-sextet :
    (len i v shift : ℕ) (cs : Bytes)
    → valid_from len i (sextet v shift ∷ cs) ≡ valid_from len (i + 1) cs
unfolding valid_from
valid_from-sextet len i v shift cs = let s = sextet_lem v shift in rw (s.1, s.2)

valid_from_pad :
    (len i : ℕ) (cs : Bytes)
    → len - 2 ≤ i
    → valid_from len i (b'=' ∷ cs) ≡ valid_from len (i + 1) cs
unfolding valid_from is_b64_char
valid_from_pad len i cs h = ground arith

valid_from-encode :
    (len i : ℕ) (bytes : Bytes)
    → i + length (encode bytes) ≡ len
    → valid_from len i (encode bytes) ≡ true
unfolding encode
valid_from-encode len i [] h = unfold valid_from in refl
valid_from-encode len i (a ∷ []) h =
    valid_from-sextet len i _ 18 _
    ∙ valid_from-sextet len (i + 1) _ 12 _
    ∙ valid_from_pad len (i + 1 + 1) _ (omega arith)
    ∙ valid_from_pad len (i + 1 + 1 + 1) [] (omega arith)
    ∙ unfold valid_from in refl
valid_from-encode len i (a ∷ b ∷ []) h =
    valid_from-sextet len i _ 18 _
    ∙ valid_from-sextet len (i + 1) _ 12 _
    ∙ valid_from-sextet len (i + 1 + 1) _ 6 _
    ∙ valid_from_pad len (i + 1 + 1 + 1) [] (omega arith)
    ∙ unfold valid_from in refl
valid_from-encode len i (a ∷ b ∷ c ∷ rest) h =
    valid_from-sextet len i _ 18 _
    ∙ valid_from-sextet len (i + 1) _ 12 _
    ∙ valid_from-sextet len (i + 1 + 1) _ 6 _
    ∙ valid_from-sextet len (i + 1 + 1 + 1) _ 0 _
    ∙ valid_from-encode len (i + 1 + 1 + 1 + 1) rest (omega arith)

-- Four characters in front of at least four others do not change the padding.
padding_behind :
    (a b c d : ℕ) (xs : Bytes) → 2 ≤ length xs → padding (a ∷ b ∷ c ∷ d ∷ xs) ≡ padding xs
padding_behind a b c d xs h =
    ap₂
      (λ i j.
        (if get_or (a ∷ b ∷ c ∷ d ∷ xs) i 0 == b'=' then 1 else 0)
        + (if get_or (a ∷ b ∷ c ∷ d ∷ xs) j 0 == b'=' then 1 else 0))
      one two
  where
    one : suc (suc (suc (suc (length xs)))) - 1 ≡ suc (suc (suc (suc (length xs - 1))))
    one = omega arith

    two : suc (suc (suc (suc (length xs)))) - 2 ≡ suc (suc (suc (suc (length xs - 2))))
    two = omega arith

padding-encode :
    (bytes : Bytes) → padding (encode bytes) + length bytes ≡ 3 * ((length bytes + 2) / 3)
unfolding encode
padding-encode [] = refl
padding-encode (a ∷ []) = ground (arith, (sextet_lem (a * 2 ^ 16) 12).2)
padding-encode (a ∷ b ∷ []) = let v = a * 2 ^ 16 + b * 2 ^ 8 in ground (arith, (sextet_lem v 6).2)
padding-encode (a ∷ b ∷ c ∷ []) =
    let v = a * 2 ^ 16 + b * 2 ^ 8 + c in ground (arith, (sextet_lem v 6).2, (sextet_lem v 0).2)
padding-encode (a ∷ b ∷ c ∷ d ∷ rest) =
    let v = a * 2 ^ 16 + b * 2 ^ 8 + c in
    omega (
      arith,
      padding_behind (sextet v 18) (sextet v 12) (sextet v 6) (sextet v 0) (encode (d ∷ rest))
          (omega (arith, length-encode (d ∷ rest))),
      padding-encode (d ∷ rest),
    )

decode_valid :
    (b64 : Bytes)
    → 0 < length b64
    → length b64 % 4 ≡ 0
    → valid_from (length b64) 0 b64 ≡ true
    → decode b64 ≡ some (take (length b64 / 4 * 3 - padding b64) (quads b64))
unfolding decode
decode_valid [] h m v = absurd (omega arith)
decode_valid (c ∷ cs) h m v = let e : (length (c ∷ cs) % 4 == 0) ≡ true = ground arith in rw (e, v)

-- Whatever bytes are encoded, decoding the text succeeds and gives them back.
pub decode-encode : (bytes : Bytes) → AllBytes bytes → decode (encode bytes) ≡ some bytes
decode-encode [] h = unfold decode encode in refl
decode-encode (a ∷ bytes) h =
    let input : Bytes = a ∷ bytes in
    let n = length-encode input in
    let kept : length (encode input) / 4 * 3 - padding (encode input) ≡ length input =
      omega (arith, n, padding-encode input) in
    decode_valid (encode input) (omega (arith, n)) (omega (arith, n))
      (valid_from-encode (length (encode input)) 0 input (omega arith))
    ∙ ap some (
        ap₂ take kept (quads-encode input h)
        ∙ take-append_le (length input) input _ (omega arith)
        ∙ take-all (length input) input (omega arith))
