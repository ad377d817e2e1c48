-- ===== src/Broker/Paging/Encode.antt =====
-- A turn of `process_history_pending`: it goes on with the request, and no byte is lost, doubled or moved.
use smolmux.Base.{
  ℕ, zero, suc, ◌+◌, ◌-◌, ◌≤◌, ◌<◌, true, false, ◌||◌, [], ◌++◌, ◌≡◌, ◌≢◌, refl, sym, ap, subst,
  ◌∙◌, arith, Bytes, ltb, leb, if-elim, length, append_assoc, drop-all, take-nil,
}
use smolmux.Text.Base64.RoundTrip.{AllBytes}
use smolmux.History.Inv.{concat}
use smolmux.Broker.Paging.{
  Pending, clip, piece_bytes, next_chunk, encode_chunk, page_full, encode_chunks, encode_max_bytes,
}
use smolmux.Broker.Paging.Pieces.{
  sent_bytes, upcoming, skipped, left, left-encode_chunk, sent_bytes-encode_chunk,
}

-- The next chunk is inside, and a limited page that is not at its end has room.
pub record Inv (p : Pending) : Type 0 where
  pub inside : p.encode_index ≤ length p.chunks
  pub room : 0 < p.page_bytes → p.encode_index < length p.chunks → p.bytes_encoded < p.page_bytes

-- What is encoded and what is to come are together as before; nothing else of the request changes.
pub record Encoded (p q : Pending) : Type 0 where
  pub inv : Inv q
  pub conserved : sent_bytes q.response ++ left q ≡ sent_bytes p.response ++ left p
  pub same : q ≡ record p {
    response = q.response;
    bytes_encoded = q.bytes_encoded;
    encode_index = q.encode_index;
  }
  pub onward : p.encode_index ≤ q.encode_index

Encoded-stay : (p : Pending) → Inv p → Encoded p p
Encoded-stay p v = record { inv = v; conserved = refl; same = refl; onward = omega arith }

clip-full : (page enc : ℕ) (xs : Bytes) → 0 < page → page ≤ enc → clip page enc xs ≡ []
clip-full page enc xs pos full =
    let e : ltb 0 page ≡ true = ground arith in
    let z : page - enc ≡ 0 = omega arith in rw (e, z) refl

clip-nil : (page enc : ℕ) → clip page enc [] ≡ []
clip-nil page enc = if-elim (λ l. l ≡ []) (ltb 0 page) _ _ (λ _. take-nil (page - enc)) (λ _. refl)

-- Nothing is to come behind the last chunk.
pub left-end : (p : Pending) → p.encode_index ≡ length p.chunks → left p ≡ []
left-end p e =
    ap (λ l. clip p.page_bytes p.bytes_encoded (upcoming (skipped p) l))
      (drop-all p.encode_index p.chunks (omega arith))
    ∙ clip-nil p.page_bytes p.bytes_encoded

module _ (p : Pending) (v : Inv p) (valid : AllBytes (concat p.chunks))
    (more : p.encode_index < length p.chunks) where
  conserved_chunk :
      sent_bytes (encode_chunk p).response ++ left (encode_chunk p)
      ≡ sent_bytes p.response ++ left p
  conserved_chunk =
      ap (λ l. l ++ left (encode_chunk p)) (sent_bytes-encode_chunk p valid)
      ∙ append_assoc (sent_bytes p.response) (piece_bytes p (next_chunk p)) (left (encode_chunk p))
      ∙ ap (λ l. sent_bytes p.response ++ l) (sym (left-encode_chunk p more))

  -- The page has room left behind the chunk.
  after_chunk :
      page_full (encode_chunk p) ≡ false
      → Encoded p (encode_chunk p) × (p.encode_index < (encode_chunk p).encode_index)
  unfolding encode_chunk page_full
  after_chunk roomy = (
    record {
      inv = record { inside = omega arith; room = λ pos _. ground arith };
      conserved = conserved_chunk;
      same = refl;
      onward = omega arith;
    },
    omega arith,
  )

  abbrev at_end : Pending
  at_end = record (encode_chunk p) { encode_index = length p.chunks }

  -- The page is full behind the chunk.
  after_end :
      page_full (encode_chunk p) ≡ true → Encoded p at_end × (p.encode_index < at_end.encode_index)
  unfolding encode_chunk page_full
  after_end full =
      let pos : 0 < p.page_bytes = ground arith in
      let all : p.page_bytes ≤ (encode_chunk p).bytes_encoded = ground arith in
      (
        record {
          inv = record { inside = omega arith; room = λ _ h. absurd (omega arith) };
          conserved =
              ap (λ l. sent_bytes (encode_chunk p).response ++ l)
                (left-end at_end refl
                  ∙ sym (clip-full p.page_bytes (encode_chunk p).bytes_encoded _ pos all))
              ∙ conserved_chunk;
          same = refl;
          onward = omega arith;
        },
        more,
      )

Encoded-trans : (p q r : Pending) → Encoded p q → Encoded q r → Encoded p r
Encoded-trans p q r a b = record {
  inv = b.inv;
  conserved = b.conserved ∙ a.conserved;
  same =
      b.same
      ∙ ap
          (λ (x : Pending). record x {
            response = r.response;
            bytes_encoded = r.bytes_encoded;
            encode_index = r.encode_index;
          })
          a.same;
  onward = omega (arith, a.onward, b.onward);
}

no_room : (p : Pending) → Inv p → p.encode_index < length p.chunks → page_full p ≢ true
unfolding page_full
no_room p v more full =
    let pos : 0 < p.page_bytes = ground arith in
    let all : p.page_bytes ≤ p.bytes_encoded = ground arith in omega (arith, v.room pos more)

chunks_same : (p : Pending) → p.chunks ≡ (encode_chunk p).chunks
unfolding encode_chunk
chunks_same p = refl

-- What a turn does that starts with `bytes` bytes done and may encode `room` chunks: it encodes one unless
-- there is none left to encode.
abbrev Turn : ℕ → ℕ → Pending → Pending → Type 0
Turn room bytes p q =
    Encoded p q
    × (0 < room
        → bytes < encode_max_bytes
        → p.encode_index < length p.chunks
        → p.encode_index < q.encode_index)

pub encode_chunks-Turn :
    (room bytes : ℕ) (p : Pending)
    → Inv p
    → AllBytes (concat p.chunks)
    → Turn room bytes p (encode_chunks room bytes p)
unfolding encode_chunks
encode_chunks-Turn zero bytes p v valid = (Encoded-stay p v, λ h. absurd (omega arith))
encode_chunks-Turn (suc room) bytes p v valid =
    let next = encode_chunk p in
    let later = encode_chunks-Turn room (bytes + (next.bytes_encoded - p.bytes_encoded)) next in
    if-elim (λ (q : Pending). Turn (suc room) bytes p q)
      (leb (length p.chunks) p.encode_index || leb encode_max_bytes bytes) _ _
      (λ e. (Encoded-stay p v, λ _ b h. absurd (ground arith)))
      (λ go.
        let more : p.encode_index < length p.chunks = ground arith in
        if-elim (λ (q : Pending). Turn (suc room) bytes p q) (page_full p) _ _
          (λ full. absurd (no_room p v more full))
          (λ _.
            if-elim (λ (q : Pending). Turn (suc room) bytes p q) (page_full next) _ _
              (λ full. let (a, b) = after_end p v valid more full in (a, λ _ _ _. b))
              (λ roomy.
                let (a, b) = after_chunk p v valid more roomy in
                let (c, d) = later a.inv (subst (λ l. AllBytes (concat l)) (chunks_same p) valid) in
                (Encoded-trans p next _ a c, λ _ _ _. omega (arith, b, c.onward)))))
