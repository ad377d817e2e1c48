-- ===== src/Text/Base64/Chars.antt =====
-- What the two directions of base64 consist of.
use smolmux.Base.{
  ℕ, zero, suc, ◌-◌, ◌*◌, ◌/◌, ◌%◌, ◌^◌, true, not, some, [], ◌∷◌, ◌≡◌, refl, subst, arith, ◌==◌,
  if-elim, Bytes, length, take,
}
use smolmux.Text.Base64.{sextet, is_b64_char, encode, valid_from, quads, padding, decode}
use smolmux.Text.Base64.Digits.{digit_lem}
use smolmux.Text.Base64.RoundTrip.{AllBytes}

-- Every character is one of base64.
abbrev pub AllBase64 : Bytes → Type 0
AllBase64 [] = Unit
AllBase64 (c ∷ cs) = (is_b64_char c ≡ true) × AllBase64 cs

sextet_char : (v shift : ℕ) → is_b64_char (sextet v shift) ≡ true
sextet_char v shift = (digit_lem (v / 2 ^ shift % 64) (omega arith)).1

pad_char : is_b64_char b'=' ≡ true
unfolding is_b64_char
pad_char = refl

pub encode-AllBase64 : (bytes : Bytes) → AllBase64 (encode bytes)
unfolding encode
encode-AllBase64 [] = tt
encode-AllBase64 (a ∷ []) = (sextet_char _ 18, (sextet_char _ 12, (pad_char, (pad_char, tt))))
encode-AllBase64 (a ∷ b ∷ []) =
    (sextet_char _ 18, (sextet_char _ 12, (sextet_char _ 6, (pad_char, tt))))
encode-AllBase64 (a ∷ b ∷ c ∷ rest) = (
  sextet_char _ 18,
  (sextet_char _ 12, (sextet_char _ 6, (sextet_char _ 0, encode-AllBase64 rest))),
)

take-AllBytes : (n : ℕ) (bytes : Bytes) → AllBytes bytes → AllBytes (take n bytes)
take-AllBytes zero bytes h = tt
take-AllBytes (suc n) [] h = tt
take-AllBytes (suc n) (c ∷ cs) h = (h.0, take-AllBytes n cs h.1)

quads-AllBytes : (text : Bytes) → AllBytes (quads text)
unfolding quads
quads-AllBytes (a ∷ b ∷ c ∷ d ∷ rest) =
    (omega arith, (omega arith, (omega arith, quads-AllBytes rest)))
quads-AllBytes [] = tt
quads-AllBytes (a ∷ []) = tt
quads-AllBytes (a ∷ b ∷ []) = tt
quads-AllBytes (a ∷ b ∷ c ∷ []) = tt

pub decode-AllBytes : (text bytes : Bytes) → decode text ≡ some bytes → AllBytes bytes
unfolding decode
decode-AllBytes [] [] h = tt
decode-AllBytes [] (b ∷ bs) h = absurd cc
decode-AllBytes (c ∷ cs) bytes h =
    if-elim (λ o. o ≡ some bytes → AllBytes bytes) (not (length (c ∷ cs) % 4 == 0)) _ _
      (λ _ e. absurd cc)
      (λ _.
        if-elim (λ o. o ≡ some bytes → AllBytes bytes)
          (not (valid_from (length (c ∷ cs)) 0 (c ∷ cs))) _ _ (λ _ e. absurd cc)
          (λ _ e.
            let all = quads (c ∷ cs) in
            let size = length (c ∷ cs) / 4 * 3 - padding (c ∷ cs) in
            let same : take size all ≡ bytes = cc in
            subst (λ l. AllBytes l) same (take-AllBytes size all (quads-AllBytes (c ∷ cs)))))
      h
