-- ===== src/Stream/Expect/Buffer.antt =====
-- The buffer of a pending request.
use smolmux.Base.{
  ℕ, zero, suc, ◌+◌, ◌-◌, ◌*◌, ◌≤◌, ◌<◌, Bool, true, false, ◌++◌, ◌≡◌, refl, sym, subst, arith,
  Bytes, ltb, leb, length, length-append, length-drop, Bool-cases, inl, inr,
}
use smolmux.Stream.Matcher.{Matcher}
use smolmux.Stream.Window.Laws.{last_of, last_of-append_ge, last_of-append_le, last_of_short}
use smolmux.Stream.Expect.{
  Request, grow_buffer, slide, try_match, fill, grow_and_fill, feed_request, max_buffer, doublings,
}

abbrev doubled : ℕ → ℕ → ℕ
doubled zero now = now
doubled (suc fuel) now = doubled fuel (now * 2)

grow_buffer-fits :
    (ok : ℕ → Bool) (fuel now need : ℕ)
    → (now ≤ (grow_buffer ok fuel now need).0)
      × ((grow_buffer ok fuel now need).1 ≡ true → need < (grow_buffer ok fuel now need).0)
unfolding grow_buffer
grow_buffer-fits ok zero now need = (omega arith, λ h. ground arith)
grow_buffer-fits ok (suc fuel) now need =
    let next = grow_buffer-fits ok fuel (now * 2) need in
    elim (Bool-cases (leb now need)) [
      | inl tight ↦ elim (Bool-cases (ok (now * 2))) [
        | inl got ↦ rw (tight, got, grow_buffer) (omega (arith, next.0), next.1)
        | inr refused ↦ rw (tight, refused, grow_buffer) (omega arith, λ h. cc)
      ]
      | inr room ↦ rw (room, grow_buffer) (omega arith, λ _. ground arith)
    ]

grow_buffer-got :
    (ok : ℕ → Bool) (fuel now need : ℕ)
    → ((size : ℕ) → ok size ≡ true)
    → need < doubled fuel now
    → (grow_buffer ok fuel now need).1 ≡ true
unfolding grow_buffer
grow_buffer-got ok zero now need all h = ground arith
grow_buffer-got ok (suc fuel) now need all h = elim (Bool-cases (leb now need)) [
  | inl tight ↦
      rw (tight, all (now * 2), grow_buffer) (grow_buffer-got ok fuel (now * 2) need all h)
  | inr room ↦ rw (room, grow_buffer) refl
]

module _ {E : Type 0} where
  pub record IsValid (r : Request E) : Type 0 where
    pub few : length r.buffer ≤ max_buffer
    pub block : length r.buffer < r.buf_cap
    pub scanned : r.search_offset ≤ length r.buffer

  -- The request and the bytes that `slide` makes of a request and an input.
  record Slid (r : Request E) (input : Bytes) (out : Request E × Bytes) : Type 0 where
    pub same_cap : out.0.buf_cap ≡ r.buf_cap
    pub same_match : out.0.matched ≡ r.matched
    pub shorter : length out.0.buffer ≤ length r.buffer
    pub scanned : out.0.search_offset ≤ length out.0.buffer
    pub kept : out.0.buffer ++ out.1 ≡ last_of max_buffer (r.buffer ++ input)
    pub few : length out.0.buffer + length out.1 ≤ max_buffer

  slide-Slid : (r : Request E) (input : Bytes) → IsValid r → Slid r input (slide r input)
  unfolding slide
  slide-Slid r input v = elim (Bool-cases (ltb max_buffer (length input))) [
    | inl big ↦ rw big (record {
      same_cap = refl;
      same_match = refl;
      shorter = omega arith;
      scanned = omega arith;
      kept = sym (last_of-append_ge max_buffer r.buffer input (ground arith));
      few = omega (arith, length-drop (length input - max_buffer) input);
    })
    | inr small ↦ elim (Bool-cases (ltb max_buffer (length r.buffer + length input))) [
      | inl over ↦
          let cut = length r.buffer + length input - max_buffer in
          rw (small, over)
            (record {
              same_cap = refl;
              same_match = refl;
              shorter = omega (arith, length-drop cut r.buffer);
              scanned = ground (arith, v.scanned, length-drop cut r.buffer);
              kept = sym (last_of-append_le max_buffer r.buffer input (ground arith));
              few = ground (arith, length-drop cut r.buffer);
            })
      | inr room ↦
          rw (small, room)
            (record {
              same_cap = refl;
              same_match = refl;
              shorter = omega arith;
              scanned = v.scanned;
              kept = sym (
                  last_of_short max_buffer (r.buffer ++ input)
                    (ground (arith, length-append r.buffer input)));
              few = ground arith;
            })
    ]
  ]

  -- What `feed_request` makes of a request that is not matched yet.
  pub record Fed (r : Request E) (input : Bytes) (ok : ℕ → Bool) (r' : Request E) : Type 0 where
    pub valid : IsValid r'
    pub kept :
        ((size : ℕ) → ok size ≡ true)
        → (r'.buffer ≡ last_of max_buffer (r.buffer ++ input))
          × (r'.search_offset ≡ length r'.buffer)

  fill-Fed :
      (m : Matcher E) (ok : ℕ → Bool) (r slid : Request E) (input src : Bytes) (room : ℕ × Bool)
      → IsValid r
      → Slid r input (slid, src)
      → slid.buf_cap ≤ room.0
      → (room.1 ≡ true → length slid.buffer + length src < room.0)
      → (((size : ℕ) → ok size ≡ true) → room.1 ≡ true)
      → Fed r input ok (fill m slid src room)
  unfolding fill try_match
  fill-Fed m ok r slid input src (new_cap, true) v s more fits got = record {
    valid = record {
      few = omega (arith, length-append slid.buffer src, s.few);
      block = omega (arith, length-append slid.buffer src, fits refl);
      scanned = omega arith;
    };
    kept = λ all. (s.kept, refl);
  }
  fill-Fed m ok r slid input src (new_cap, false) v s more fits got = record {
    valid = record {
      few = omega (arith, s.few);
      block = omega (arith, s.same_cap, s.shorter, v.block);
      scanned = s.scanned;
    };
    kept = λ all. absurd (never (got all));
  }
    where
      never : false ≡ true → ⊥
      never h = cc

  grow_and_fill-Fed :
      (m : Matcher E) (ok : ℕ → Bool) (r : Request E) (input : Bytes) (out : Request E × Bytes)
      → IsValid r
      → Slid r input out
      → Fed r input ok (grow_and_fill m ok out)
  unfolding grow_and_fill
  grow_and_fill-Fed m ok r input (slid, src) v s =
      let g = grow_buffer-fits ok doublings slid.buf_cap (length slid.buffer + length src) in
      fill-Fed m ok r slid input src _ v s g.0 g.1 (λ all.
        grow_buffer-got ok doublings slid.buf_cap (length slid.buffer + length src) all
          (omega (arith, s.few, s.same_cap, v.block)))

  feed_request_pending :
      (m : Matcher E) (ok : ℕ → Bool) (input : Bytes) (r : Request E)
      → r.matched ≡ false
      → feed_request m ok input r ≡ grow_and_fill m ok (slide r input)
  unfolding feed_request
  feed_request_pending m ok input r h = simp h

  -- The loop body of `sm_expect_feed` on a pending request writes inside its block, whichever `realloc`
  -- fails. If none fails, the buffer holds the last 256 KiB of what it held and the new bytes, and
  -- the search goes on behind them.
  pub feed_request-Fed :
      (m : Matcher E) (ok : ℕ → Bool) (input : Bytes) (r : Request E)
      → IsValid r
      → r.matched ≡ false
      → Fed r input ok (feed_request m ok input r)
  feed_request-Fed m ok input r v pending =
      subst (Fed r input ok) (sym (feed_request_pending m ok input r pending))
        (grow_and_fill-Fed m ok r input (slide r input) v (slide-Slid r input v))
