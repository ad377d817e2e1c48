-- ===== src/Broker/Paging/Pieces.antt =====
-- The bytes that a pending history request has encoded, and those that it has yet to encode.
use smolmux.Base.{
  ℕ, zero, suc, ◌+◌, ◌-◌, ◌<◌, false, ◌&&◌, Option, none, some, List, [], ◌∷◌, ◌++◌, ◌≡◌, refl, sym,
  ap, ◌∙◌, arith, Bytes, ltb, ◌==◌, if◌then◌else◌, if-elim, Bool-cases, inl, inr, drop-nil, length,
  get_or, take, drop, min, append_assoc, append-nil,
}
use smolmux.Text.Base64.{decode}
use smolmux.Text.Base64.RoundTrip.{AllBytes, decode-encode}
use smolmux.History.{Chunk, no_chunk}
use smolmux.History.Inv.{concat}
use smolmux.Broker.Paging.{Piece, Pending, clip, piece_off, piece_bytes, next_chunk, encode_chunk}

-- The bytes of a piece of the response.
unfoldable pub or_nothing : Option Bytes → Bytes
or_nothing none = []
or_nothing (some bytes) = bytes

-- What a client reads from the pieces: their base64 texts decoded, one behind the other.
abbrev pub sent_bytes : List Piece → Bytes
sent_bytes [] = []
sent_bytes (p ∷ ps) = or_nothing (decode p.text) ++ sent_bytes ps

sent_bytes-append : (ps qs : List Piece) → sent_bytes (ps ++ qs) ≡ sent_bytes ps ++ sent_bytes qs
sent_bytes-append [] qs = refl
sent_bytes-append (p ∷ ps) qs =
    ap (λ l. or_nothing (decode p.text) ++ l) (sent_bytes-append ps qs)
    ∙ sym (append_assoc (or_nothing (decode p.text)) (sent_bytes ps) (sent_bytes qs))

-- The chunks from the next one on, the first without its first `skip` bytes.
abbrev pub upcoming : ℕ → List Chunk → Bytes
upcoming skip [] = []
upcoming skip (c ∷ cs) = drop skip c.bytes ++ concat cs

abbrev pub skipped : Pending → ℕ
skipped p = if p.encode_index == 0 then p.first_skip else 0

-- The bytes that the request has yet to encode.
abbrev pub left : Pending → Bytes
left p = clip p.page_bytes p.bytes_encoded (upcoming (skipped p) (drop p.encode_index p.chunks))

pub AllBytes-take : (n : ℕ) (xs : Bytes) → AllBytes xs → AllBytes (take n xs)
AllBytes-take zero xs h = tt
AllBytes-take (suc n) [] h = tt
AllBytes-take (suc n) (x ∷ xs) h = (h.0, AllBytes-take n xs h.1)

pub AllBytes-drop : (n : ℕ) (xs : Bytes) → AllBytes xs → AllBytes (drop n xs)
AllBytes-drop zero xs h = h
AllBytes-drop (suc n) [] h = tt
AllBytes-drop (suc n) (x ∷ xs) h = AllBytes-drop n xs h.1

pub AllBytes-halves : (xs ys : Bytes) → AllBytes (xs ++ ys) → AllBytes xs × AllBytes ys
AllBytes-halves [] ys h = (tt, h)
AllBytes-halves (x ∷ xs) ys h = let (a, b) = AllBytes-halves xs ys h.1 in ((h.0, a), b)

take-append :
    (n : ℕ) (xs ys : Bytes) → take n (xs ++ ys) ≡ take n xs ++ take (n - length (take n xs)) ys
take-append zero xs ys = refl
take-append (suc n) [] ys = let e : suc n ≡ suc n - 0 = omega arith in ap (λ k. take k ys) e
take-append (suc n) (x ∷ xs) ys =
    let e : n - length (take n xs) ≡ suc n - suc (length (take n xs)) = omega arith in
    ap (λ l. x ∷ l) (take-append n xs ys) ∙ ap (λ k. x ∷ (take n xs ++ take k ys)) e

-- A page that takes the first of two texts has so much less room for the second.
clip-append :
    (page enc : ℕ) (xs ys : Bytes)
    → clip page enc (xs ++ ys) ≡ clip page enc xs ++ clip page (enc + length (clip page enc xs)) ys
clip-append page enc xs ys = elim (Bool-cases (ltb 0 page)) [
  | inl e ↦ rw e (
      take-append (page - enc) xs ys
      ∙ ap (λ k. take (page - enc) xs ++ take k ys) (room (length (take (page - enc) xs))))
  | inr e ↦ rw e refl
]
  where
    room : (n : ℕ) → page - enc - n ≡ page - (enc + n)
    room n = omega arith

AllBytes-clip : (page enc : ℕ) (xs : Bytes) → AllBytes xs → AllBytes (clip page enc xs)
AllBytes-clip page enc xs h =
    if-elim (λ l. AllBytes l) (ltb 0 page) _ _ (λ _. AllBytes-take (page - enc) xs h) (λ _. h)

pub drop_next :
    (i : ℕ) (cs : List Chunk) → i < length cs → drop i cs ≡ get_or cs i no_chunk ∷ drop (suc i) cs
drop_next i [] h = absurd (omega arith)
drop_next zero (c ∷ cs) h = refl
drop_next (suc i) (c ∷ cs) h = drop_next i cs (omega arith)

AllBytes-chunk :
    (i : ℕ) (cs : List Chunk) → AllBytes (concat cs) → AllBytes (get_or cs i no_chunk).bytes
AllBytes-chunk i [] h = tt
AllBytes-chunk zero (c ∷ cs) h = (AllBytes-halves c.bytes (concat cs) h).0
AllBytes-chunk (suc i) (c ∷ cs) h = AllBytes-chunk i cs (AllBytes-halves c.bytes (concat cs) h).1

drop-min : (n : ℕ) (xs : Bytes) → drop (min n (length xs)) xs ≡ drop n xs
drop-min zero xs = let e : min 0 (length xs) ≡ 0 = omega arith in ap (λ k. drop k xs) e
drop-min (suc n) [] = drop-nil (min (suc n) 0)
drop-min (suc n) (x ∷ xs) =
    let e : min (suc n) (suc (length xs)) ≡ suc (min n (length xs)) = omega arith in
    ap (λ k. drop k (x ∷ xs)) e ∙ drop-min n xs

pub upcoming_whole : (cs : List Chunk) → upcoming 0 cs ≡ concat cs
upcoming_whole [] = refl
upcoming_whole (c ∷ cs) = refl

module _ (p : Pending) where
  drop-piece_off : (c : Chunk) → drop (piece_off p c) c.bytes ≡ drop (skipped p) c.bytes
  drop-piece_off c =
      if-elim (λ k. drop k c.bytes ≡ drop (skipped p) c.bytes)
        (p.encode_index == 0 && ltb 0 p.first_skip) _ _
        (λ e.
          let same : p.first_skip ≡ skipped p = ground (arith, e) in
          drop-min p.first_skip c.bytes ∙ ap (λ k. drop k c.bytes) same)
        (λ e. let same : 0 ≡ skipped p = ground (arith, e) in ap (λ k. drop k c.bytes) same)

  -- The bytes to come are those of the next piece, and then those to come behind it.
  pub left-encode_chunk :
      p.encode_index < length p.chunks
      → left p ≡ piece_bytes p (next_chunk p) ++ left (encode_chunk p)
  unfolding encode_chunk
  left-encode_chunk h =
      let c = next_chunk p in
      ap (λ l. clip p.page_bytes p.bytes_encoded (upcoming (skipped p) l))
        (drop_next p.encode_index p.chunks h)
      ∙ ap
          (λ l.
            clip p.page_bytes p.bytes_encoded (l ++ concat (drop (suc p.encode_index) p.chunks)))
          (sym (drop-piece_off c))
      ∙ clip-append p.page_bytes p.bytes_encoded (drop (piece_off p c) c.bytes)
          (concat (drop (suc p.encode_index) p.chunks))
      ∙ ap
          (λ l. piece_bytes p c ++ clip p.page_bytes (p.bytes_encoded + length (piece_bytes p c)) l)
          (sym (later p.encode_index p.chunks))
    where
      later :
          (i : ℕ) (cs : List Chunk)
          → upcoming (if i + 1 == 0 then p.first_skip else 0) (drop (i + 1) cs)
            ≡ concat (drop (suc i) cs)
      later i cs =
          let e : i + 1 ≡ suc i = omega arith in
          let z : (suc i == 0) ≡ false = ground arith in
          rw (e, z) (upcoming_whole (drop (suc i) cs))

  -- A chunk that is encoded adds its bytes to those that the client reads.
  pub sent_bytes-encode_chunk :
      AllBytes (concat p.chunks)
      → sent_bytes (encode_chunk p).response ≡ sent_bytes p.response ++ piece_bytes p (next_chunk p)
  unfolding encode_chunk or_nothing
  sent_bytes-encode_chunk h =
      let c = next_chunk p in
      let valid =
        AllBytes-clip p.page_bytes p.bytes_encoded (drop (piece_off p c) c.bytes)
          (AllBytes-drop (piece_off p c) c.bytes (AllBytes-chunk p.encode_index p.chunks h)) in
      sent_bytes-append p.response _
      ∙ ap (λ l. sent_bytes p.response ++ l)
          (append-nil _ ∙ ap or_nothing (decode-encode (piece_bytes p c) valid))
