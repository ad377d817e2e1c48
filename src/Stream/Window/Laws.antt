-- ===== src/Stream/Window/Laws.antt =====
-- The window keeps the last bytes, and the place where the search goes on.
use smolmux.Base.{
  ℕ, ◌+◌, ◌-◌, ◌≤◌, ◌<◌, false, ◌++◌, ◌≡◌, refl, sym, ap, ◌∙◌, arith, Bytes, ltb, leb, ◌==◌, inl,
  inr, length, drop, length-append, length-drop, drop-append_le, drop-append_ge, drop-drop,
  drop_none, Bool-cases, if◌then◌else◌,
}
use smolmux.Stream.Window.{Window, window_append}

pub record IsValid (w : Window) : Type 0 where
  pub fits : 0 < w.cap → length w.bytes < w.cap
  pub scanned : w.search_offset ≤ length w.bytes

abbrev pub unscanned : Window → Bytes
unscanned w = drop w.search_offset w.bytes

-- The last `n` elements.
abbrev pub last_of : ℕ → Bytes → Bytes
last_of n s = drop (length s - n) s

pub record Appended (w : Window) (input : Bytes) (w' : Window) : Type 0 where
  pub valid : IsValid w'
  pub same_cap : w'.cap ≡ w.cap
  pub kept : w'.bytes ≡ last_of (w.cap - 1) (w.bytes ++ input)
  pub fresh : unscanned w' ≡ last_of (w.cap - 1) (unscanned w ++ input)

pub last_of-append_ge : (n : ℕ) (s t : Bytes) → n ≤ length t → last_of n (s ++ t) ≡ last_of n t
last_of-append_ge n s t h =
    drop-append_ge _ s t (omega (arith, length-append s t))
    ∙ ap (λ k. drop k t) (omega (arith, length-append s t))

pub last_of-append_le :
    (n : ℕ) (s t : Bytes)
    → length t ≤ n
    → last_of n (s ++ t) ≡ drop (length s + length t - n) s ++ t
last_of-append_le n s t h =
    ap (λ k. drop k (s ++ t)) (omega (arith, length-append s t))
    ∙ drop-append_le _ s t (omega arith)

pub last_of_short : (n : ℕ) (s : Bytes) → length s ≤ n → last_of n s ≡ s
last_of_short n s h = drop_none _ s (omega arith)

module _ (w : Window) (input : Bytes) (v : IsValid w) (small : length input < w.cap)
    (over : w.cap - 1 < length w.bytes + length input) where
  abbrev need : ℕ
  need = length w.bytes + length input - (w.cap - 1)

  slid_fresh :
      drop
        (if ltb need w.search_offset then w.search_offset - need else 0)
        (drop need w.bytes ++ input)
      ≡ last_of (w.cap - 1) (unscanned w ++ input)
  slid_fresh = elim (Bool-cases (ltb need w.search_offset)) [
    | inl part ↦ rw part (
        drop-append_le (w.search_offset - need) (drop need w.bytes) input
          (omega (arith, length-drop need w.bytes, v.scanned))
        ∙ ap (λ l. l ++ input)
            (drop-drop (w.search_offset - need) need w.bytes
              ∙ ap (λ k. drop k w.bytes) (ground arith))
        ∙ sym (
            last_of_short (w.cap - 1) (unscanned w ++ input) (
              ground
                (arith, length-append (unscanned w) input, length-drop w.search_offset w.bytes))))
    | inr all ↦ rw all (
        sym (
          last_of-append_le (w.cap - 1) (unscanned w) input (omega arith)
          ∙ ap (λ l. l ++ input)
              (drop-drop _ w.search_offset w.bytes
                ∙ ap (λ k. drop k w.bytes)
                    (ground (arith, v.scanned, length-drop w.search_offset w.bytes)))))
  ]

  slid : Appended w input (record w {
    bytes = drop need w.bytes ++ input;
    search_offset = if ltb need w.search_offset then w.search_offset - need else 0;
  })
  slid = record {
    valid = record {
      fits = λ _. omega (arith, length-append (drop need w.bytes) input, length-drop need w.bytes);
      scanned =
          ground
            (arith, v.scanned, length-append (drop need w.bytes) input, length-drop need w.bytes);
    };
    same_cap = refl;
    kept = sym (last_of-append_le (w.cap - 1) w.bytes input (omega arith));
    fresh = slid_fresh;
  }

-- `window_append` on a valid window with memory keeps the last `window_cap - 1` bytes of the old text
-- and the new; of the text that was not searched yet and the new, too, so that no byte is passed
-- over that the window still holds.
pub window_append-Appended :
    (w : Window) (input : Bytes) → 0 < w.cap → IsValid w → Appended w input (window_append w input)
unfolding window_append
window_append-Appended w input pos v = elim (Bool-cases (leb w.cap (length input))) [
  | inl big ↦
      rw (zero_cap, big, window_append)
        (record {
          valid = record {
            fits = λ _. omega (arith, length-drop (length input - (w.cap - 1)) input);
            scanned = omega arith;
          };
          same_cap = refl;
          kept = sym (last_of-append_ge (w.cap - 1) w.bytes input (ground arith));
          fresh = sym (last_of-append_ge (w.cap - 1) (unscanned w) input (ground arith));
        })
  | inr small ↦ elim (Bool-cases (ltb (w.cap - 1) (length w.bytes + length input))) [
    | inl over ↦
        rw (zero_cap, small, over, window_append) (slid w input v (ground arith) (ground arith))
    | inr room ↦
        rw (zero_cap, small, room, window_append)
          (record {
            valid = record {
              fits = λ _. ground (arith, length-append w.bytes input);
              scanned = omega (arith, v.scanned, length-append w.bytes input);
            };
            same_cap = refl;
            kept = sym (
                last_of_short (w.cap - 1) (w.bytes ++ input)
                  (ground (arith, length-append w.bytes input)));
            fresh =
                drop-append_le w.search_offset w.bytes input v.scanned
                ∙ sym (
                    last_of_short (w.cap - 1) (unscanned w ++ input) (
                      ground (
                        arith,
                        length-append (unscanned w) input,
                        length-drop w.search_offset w.bytes,
                      )));
          })
  ]
]
  where
    zero_cap : (w.cap == 0) ≡ false
    zero_cap = ground arith
