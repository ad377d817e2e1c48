-- ===== src/Tests/Text.antt =====
-- The theorems on text at concrete texts.
use smolmux.Base.{codes, ℕ, true, false, some, [], ◌∷◌, ◌++◌, ◌≡◌, refl, arith, ◌⊎◌, inl}
use smolmux.Text.Base64.{encode, decode}
use smolmux.Text.Base64.RoundTrip.{decode-encode}
use smolmux.Text.StrBuf.{StrBuf, empty, append, IsValid, append_lem}

decode-encode_example :
    decode (encode (b'h' ∷ 0 ∷ b'i' ∷ 255 ∷ [])) ≡ some (b'h' ∷ 0 ∷ b'i' ∷ 255 ∷ [])
decode-encode_example =
    decode-encode (b'h' ∷ 0 ∷ b'i' ∷ 255 ∷ [])
      (omega arith, (omega arith, (omega arith, (omega arith, tt))))

hello : StrBuf
hello = append true empty (codes "hello")

empty-IsValid : IsValid empty
empty-IsValid = record { fits = inl refl; none_left = λ _. refl }

append_lem_example :
    IsValid (append true empty (codes "hello"))
    × (((append true empty (codes "hello")).text ≡ empty.text ++ (codes "hello"))
        ⊎ ((true ≡ false) × (append true empty (codes "hello") ≡ empty)))
append_lem_example = append_lem true empty (codes "hello") empty-IsValid

abbrev telnet : ℕ
telnet = 0x1d

abbrev suspend : ℕ
suspend = b'z'
