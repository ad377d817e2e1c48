-- ===== src/Protocol/Frames.antt =====
-- The lines that carry serial output: what `sm_msg_output` and `sm_msg_encode` make of some bytes,
-- `sm_msg_decode` and `sm_base64_decode` give back.
use smolmux.Base.{
  codes, ℕ, ◌-◌, Bool, true, false, not, ◌&&◌, ◌||◌, Option, some, [], ◌∷◌, ◌++◌, ◌≡◌, refl, ap,
  ◌∙◌, arith, Bytes, ◌==◌, length, take, get_or, until_nul, ◌>>=◌, when, append_assoc,
  length-append, take-append_le, take-all,
}
use smolmux.Text.Base64.{is_b64_char, encode, decode}
use smolmux.Text.Base64.RoundTrip.{AllBytes, decode-encode}
use smolmux.Text.Base64.Chars.{AllBase64, encode-AllBase64}
use smolmux.Protocol.{
  Json, is_shallow, stripped, get_string, msg_encode, msg_decode, msg_output, make_msg,
  add_b64_data,
}
use smolmux.Protocol.Types.{number, lookup_type, type_in, type_output}

-- Neither the end of a text or a line nor a bracket.
unfoldable pub is_plain : ℕ → Bool
is_plain c = not (c == 0 || c == b'\n' || c == b'{' || c == b'}' || c == b'[' || c == b']')

abbrev pub AllPlain : Bytes → Type 0
AllPlain [] = Unit
AllPlain (c ∷ cs) = (is_plain c ≡ true) × AllPlain cs

abbrev all_plain : Bytes → Bool
all_plain [] = true
all_plain (c ∷ cs) = is_plain c && all_plain cs

plain_text : (cs : Bytes) → all_plain cs ≡ true → AllPlain cs
plain_text [] h = tt
plain_text (c ∷ cs) h = (ground (arith, h), plain_text cs (ground (arith, h)))

AllPlain-append : (xs ys : Bytes) → AllPlain xs → AllPlain ys → AllPlain (xs ++ ys)
AllPlain-append [] ys h k = k
AllPlain-append (x ∷ xs) ys h k = (h.0, AllPlain-append xs ys h.1 k)

plain_base64 : (cs : Bytes) → AllBase64 cs → AllPlain cs
unfolding is_plain is_b64_char
plain_base64 [] h = tt
plain_base64 (c ∷ cs) h = (ground (arith, h.0), plain_base64 cs h.1)

abbrev pub head_text : Bytes
head_text = codes "\"type\":\"output\",\"data\":\""

abbrev pub time_text : Bytes
time_text = codes "\",\"timestamp\":"

-- What stands between the braces of a message of serial output.
abbrev pub fields : Bytes → Bytes → Bytes
fields text digits = head_text ++ (text ++ (time_text ++ digits))

-- The message without white space, as RFC 8259 writes it.
abbrev pub frame : Bytes → Bytes → Bytes
frame text digits = b'{' ∷ (fields text digits ++ b'}' ∷ [])

fields-AllPlain :
    (text digits : Bytes) → AllBase64 text → AllPlain digits → AllPlain (fields text digits)
unfolding is_plain
fields-AllPlain text digits h k =
    AllPlain-append head_text (text ++ (time_text ++ digits)) head_plain (
      AllPlain-append text (time_text ++ digits) (plain_base64 text h)
        (AllPlain-append time_text digits time_plain k))
  where
    head_plain : AllPlain head_text
    head_plain = plain_text head_text refl

    time_plain : AllPlain time_text
    time_plain = plain_text time_text refl

shallow-plain :
    (o c : ℕ) (xs ys : Bytes) → AllPlain xs → is_shallow o c (xs ++ ys) ≡ is_shallow o c ys
unfolding is_shallow is_plain
shallow-plain o c [] ys h = refl
shallow-plain o c (x ∷ xs) ys h =
    let a : (x == b'{' || x == b'[') ≡ false = ground (arith, h.0) in
    let b : (x == b'}' || x == b']') ≡ false = ground (arith, h.0) in
    rw (a, b) (shallow-plain o c xs ys h.1)

until_nul-plain : (xs ys : Bytes) → AllPlain xs → until_nul (xs ++ ys) ≡ xs ++ until_nul ys
unfolding is_plain
until_nul-plain [] ys h = refl
until_nul-plain (x ∷ xs) ys h =
    let a : (x == 0) ≡ false = ground (arith, h.0) in
    rw a (ap (λ l. x ∷ l) (until_nul-plain xs ys h.1))

get_or_end : (xs : Bytes) (y d : ℕ) → get_or (xs ++ y ∷ []) (length xs) d ≡ y
get_or_end [] y d = refl
get_or_end (x ∷ xs) y d = get_or_end xs y d

pub is_shallow-frame :
    (text digits : Bytes)
    → AllBase64 text
    → AllPlain digits
    → is_shallow 0 0 (frame text digits ++ b'\n' ∷ []) ≡ true
unfolding is_shallow
is_shallow-frame text digits h k =
    ap (λ l. is_shallow 1 0 l) (append_assoc (fields text digits) (b'}' ∷ []) (b'\n' ∷ []))
    ∙ shallow-plain 1 0 (fields text digits) (b'}' ∷ b'\n' ∷ []) (fields-AllPlain text digits h k)

pub stripped-frame :
    (text digits : Bytes)
    → AllBase64 text
    → AllPlain digits
    → stripped (frame text digits ++ b'\n' ∷ []) ≡ frame text digits
unfolding stripped
stripped-frame text digits h k =
    let line = frame text digits in
    let len : length (line ++ b'\n' ∷ []) - 1 ≡ length line =
      omega (arith, length-append line (b'\n' ∷ [])) in
    let newline : (get_or (line ++ b'\n' ∷ []) (length (line ++ b'\n' ∷ []) - 1) 0 == b'\n')
        ≡ true =
      ap (λ k. get_or (line ++ b'\n' ∷ []) k 0 == b'\n') len
      ∙ ap (λ c. c == b'\n') (get_or_end line b'\n' 0) in
    rw newline (
      ap (λ k. until_nul (take k (line ++ b'\n' ∷ []))) len
      ∙ ap until_nul (
          take-append_le (length line) line (b'\n' ∷ []) (omega arith)
          ∙ take-all (length line) line (omega arith))
      ∙ ap (λ l. b'{' ∷ l)
          (until_nul-plain (fields text digits) (b'}' ∷ []) (fields-AllPlain text digits h k)))

module _ (J : Json) where
  -- The serial output that a line carries.
  unfoldable pub payload : Bytes → Option Bytes
  payload line = do
    msg ← msg_decode J true line
    when (number msg.type == number type_output)
        (do text ← get_string J msg.root (codes "data"); decode text)

  -- What the messages of serial output rely on: cJSON prints their three fields in order and without white
  -- space, a number in some digits, and finds the two strings again when it parses such a text.
  pub record IsJson : Type 0 where
    pub digits : J.Number → Bytes
    pub plain : (t : J.Number) → AllPlain (digits t)
    pub print_frame :
        (text : Bytes) (t : J.Number)
        → AllBase64 text
        → J.print_unformatted (
            J.add_number
              (J.add_string
                (J.add_string J.create_object (codes "type") (codes "output"))
                (codes "data")
                text)
              (codes "timestamp")
              t)
          ≡ some (frame text (digits t))
    pub parse_frame :
        (text : Bytes) (t : J.Number)
        → AllBase64 text
        → (root : J.Item) × (J.parse (frame text (digits t)) ≡ some root)
          × ((J.get_object_item root (codes "type") >>= J.string_value) ≡ some (codes "output"))
          × ((J.get_object_item root (codes "data") >>= J.string_value) ≡ some text)

  module _ (law : IsJson) where
    -- The line of some output.
    abbrev pub output_line : Bytes → J.Number → Bytes
    output_line bytes t = frame (encode bytes) (law.digits t) ++ b'\n' ∷ []

    pub msg_encode-msg_output :
        (bytes : Bytes) (t : J.Number)
        → msg_encode J true (msg_output J true bytes t) ≡ some (output_line bytes t)
    unfolding msg_encode msg_output make_msg add_b64_data
    msg_encode-msg_output bytes t =
        ap (λ o. o >>= (λ json. some (json ++ b'\n' ∷ [])))
          (law.print_frame (encode bytes) t (encode-AllBase64 bytes))

    pub payload-output_line :
        (bytes : Bytes) (t : J.Number) → AllBytes bytes → payload (output_line bytes t) ≡ some bytes
    unfolding payload msg_decode get_string number lookup_type type_in
    payload-output_line bytes t h =
        let text = encode bytes in
        let chars = encode-AllBase64 bytes in
        let (root, parsed, type, text_of) = law.parse_frame text t chars in
        rw
          (
            is_shallow-frame text (law.digits t) chars (law.plain t),
            stripped-frame text (law.digits t) chars (law.plain t),
            parsed,
            type,
            text_of,
          )
          (decode-encode bytes h)

    -- For any bytes and any time: `sm_msg_encode` of what `sm_msg_output` builds gives a line, `sm_msg_decode` takes
    -- it for a message of serial output, and its base64 text decodes to the same bytes, when no allocation
    -- fails and cJSON prints the three fields and finds the strings again that it has printed.
    pub payload-msg_encode :
        (bytes : Bytes) (t : J.Number)
        → AllBytes bytes
        → (msg_encode J true (msg_output J true bytes t) >>= payload) ≡ some bytes
    payload-msg_encode bytes t h =
        ap (λ o. o >>= payload) (msg_encode-msg_output bytes t) ∙ payload-output_line bytes t h
