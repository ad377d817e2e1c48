-- ===== src/Client/Queue/Merge.antt =====
-- `try_coalesce_output`: the merged line carries the output of both.
use smolmux.Base.{
  codes, Bool, true, false, ◌&&◌, some, [], ◌∷◌, ◌++◌, ◌≡◌, ap, subst, ◌∙◌, arith, Bytes, length,
  ◌==◌, if-elim, >>=-eq_some, when, when-eq_some,
}
use smolmux.Text.Base64.{decode}
use smolmux.Text.Base64.RoundTrip.{AllBytes}
use smolmux.Text.Base64.Chars.{decode-AllBytes}
use smolmux.Protocol.{
  Json, Msg, msg_decode, msg_encode, msg_output, get_string, get_double, is_shallow,
}
use smolmux.Protocol.Types.{number, type_output}
use smolmux.Protocol.Frames.{
  payload, IsJson, output_line, msg_encode-msg_output, payload-output_line,
}
use smolmux.Client.Queue.{Memory, merged_line, encode_merged, is_output_msg, shared_line_new}

AllBytes-append : (xs ys : Bytes) → AllBytes xs → AllBytes ys → AllBytes (xs ++ ys)
AllBytes-append [] ys h k = k
AllBytes-append (x ∷ xs) ys h k = (h.0, AllBytes-append xs ys h.1 k)

both_true : (a b : Bool) → (a && b) ≡ true → (a ≡ true) × (b ≡ true)
both_true a b h = ground (arith, h)

shared_line_new-eq_some :
    (memory : Bool) (line out : Bytes) → shared_line_new memory line ≡ some out → out ≡ line
unfolding shared_line_new
shared_line_new-eq_some memory line out h =
    if-elim (λ o. o ≡ some out → out ≡ line) (length line == 0) _ _ (λ _ e. absurd cc)
      (λ _ e. let (ok, same) = when-eq_some memory (some line) out e in cc) h

module _ (J : Json) where
  decode_memory :
      (memory : Bool) (line : Bytes) (msg : Msg J)
      → msg_decode J memory line ≡ some msg
      → msg_decode J true line ≡ some msg
  unfolding msg_decode
  decode_memory true line msg h = h
  decode_memory false [] msg h = absurd cc
  decode_memory false (c ∷ cs) msg h =
      if-elim (λ o. o ≡ some msg → msg_decode J true (c ∷ cs) ≡ some msg) (is_shallow 0 0 (c ∷ cs))
        _ _ (λ _ e. absurd cc) (λ _ e. absurd cc) h

  encode_memory :
      (memory : Bool) (msg : J.Item) (line : Bytes)
      → msg_encode J memory msg ≡ some line
      → msg_encode J true msg ≡ some line
  unfolding msg_encode
  encode_memory memory msg line h =
      let (json, printed, h1) =
        >>=-eq_some (J.print_unformatted msg) (λ json. when memory (some (json ++ b'\n' ∷ []))) line
          h in
      let (ok, whole) = when-eq_some memory (some (json ++ b'\n' ∷ [])) line h1 in rw printed whole

  payload_of :
      (memory : Bool) (line : Bytes) (msg : Msg J) (text bytes : Bytes)
      → msg_decode J memory line ≡ some msg
      → (number msg.type == number type_output) ≡ true
      → get_string J msg.root (codes "data") ≡ some text
      → decode text ≡ some bytes
      → payload J line ≡ some bytes
  unfolding payload
  payload_of memory line msg text bytes d t g r = rw (decode_memory memory line msg d, t, g) r

  encode_merged_lem :
      (law : IsJson J) (m : Memory) (bytes : Bytes) (t : J.Number) (both : Bytes)
      → m.text ≡ true
      → encode_merged J m bytes t ≡ some both
      → both ≡ output_line J law bytes t
  unfolding encode_merged
  encode_merged_lem law m bytes t both text_ok h =
      let (line, encoded, made) =
        >>=-eq_some (msg_encode J m.line (msg_output J m.text bytes t)) (shared_line_new m.shared)
          both h in
      let e : msg_encode J m.line (msg_output J true bytes t) ≡ some line =
        subst (λ k. msg_encode J m.line (msg_output J k bytes t) ≡ some line) text_ok encoded in
      let p = encode_memory m.line (msg_output J true bytes t) line e in
      let q = msg_encode-msg_output J law bytes t in
      let same : line ≡ output_line J law bytes t = cc in
      shared_line_new-eq_some m.shared line both made ∙ same

  -- Both lines carry serial output, and the merged line that of the first and then that of the second.
  pub record Merged (old new both : Bytes) : Type 0 where
    pub first : Bytes
    pub second : Bytes
    pub payload_old : payload J old ≡ some first
    pub payload_new : payload J new ≡ some second
    pub payload_both : payload J both ≡ some (first ++ second)

  pub merged_line-Merged :
      IsJson J
      → (m : Memory) (old new both : Bytes) → m.text ≡ true
      → merged_line J m old new ≡ some both
      → Merged old new both
  unfolding merged_line is_output_msg
  merged_line-Merged law m old new both text_ok h =
      let (old_msg, old_decoded, h1) = >>=-eq_some _ _ both h in
      let (new_msg, new_decoded, h2) = >>=-eq_some _ _ both h1 in
      let (outputs, h3) = when-eq_some _ _ both h2 in
      let (old_b64, old_text, h4) = >>=-eq_some _ _ both h3 in
      let (new_b64, new_text, h5) = >>=-eq_some _ _ both h4 in
      let (old_raw, old_when, h6) = >>=-eq_some _ _ both h5 in
      let (new_raw, new_when, h7) = >>=-eq_some _ _ both h6 in
      let (enough, h8) = when-eq_some _ _ both h7 in
      let (r1, old_bytes) = when-eq_some _ _ old_raw old_when in
      let (r2, new_bytes) = when-eq_some _ _ new_raw new_when in
      let whole =
        AllBytes-append old_raw new_raw (decode-AllBytes old_b64 old_raw old_bytes)
          (decode-AllBytes new_b64 new_raw new_bytes) in
      record {
        first = old_raw;
        second = new_raw;
        payload_old =
            payload_of m.old_line old old_msg old_b64 old_raw old_decoded (both_true _ _ outputs).0
              old_text old_bytes;
        payload_new =
            payload_of m.new_line new new_msg new_b64 new_raw new_decoded (both_true _ _ outputs).1
              new_text new_bytes;
        payload_both =
            ap (payload J) (
              encode_merged_lem law m (old_raw ++ new_raw)
                (get_double J new_msg.root (codes "timestamp") J.nought) both text_ok h8)
            ∙ payload-output_line J law (old_raw ++ new_raw)
                (get_double J new_msg.root (codes "timestamp") J.nought) whole;
      }
