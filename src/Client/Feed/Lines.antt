-- ===== src/Client/Feed/Lines.antt =====
-- The messages of a text, and what one pass over the buffer takes of them.
use smolmux.Base.{
  ℕ, ◌-◌, ◌<◌, ◌≤◌, ◌≡◌, refl, sym, ap, ap₂, ◌∙◌, Bool, true, false, ◌&&◌, not, Option, List, [],
  ◌∷◌, ◌++◌, Bytes, ◌==◌, if-elim, length, take, take-nil, take-append_ge, Option-cases,
  length-append, arith, append-nil, append_assoc, inl, inr,
}
use smolmux.Client.Feed.{as_list, line_message, found, line_after, extract, newline}

-- A text without a newline.
abbrev pub plain_text : Bytes → Bool
plain_text [] = true
plain_text (b ∷ bs) = not (b == newline) && plain_text bs

plain_text-snoc :
    (line : Bytes) (b : ℕ)
    → plain_text line ≡ true
    → (b == newline) ≡ false
    → plain_text (line ++ b ∷ []) ≡ true
plain_text-snoc [] b p e = ground arith
plain_text-snoc (c ∷ line) b p e = ground (arith, plain_text-snoc line b (ground arith) e)

line_grows : (line : Bytes) (b : ℕ) → (b == newline) ≡ false → line_after line b ≡ line ++ b ∷ []
unfolding line_after
line_grows line b e = rw e refl

line_after-plain_text :
    (line : Bytes) (b : ℕ) → plain_text line ≡ true → plain_text (line_after line b) ≡ true
unfolding line_after
line_after-plain_text line b p =
    if-elim (λ l. plain_text l ≡ true) (b == newline) _ _ (λ e. refl) (plain_text-snoc line b p)

is_zero : (n : ℕ) → (n == 0) ≡ true → n ≡ 0
is_zero n e = ground arith

nonzero : (n : ℕ) → (n == 0) ≡ false → 0 < n
nonzero n e = ground arith

module _ {M : Type 0} (decode : Bytes → Option M) where
  pub one : (line : Bytes) (b : ℕ) → length (found decode line b) ≤ 1
  unfolding found as_list
  one line b =
      if-elim (λ (l : List M). length l ≤ 1) (b == newline) _ _
        (λ e. elim (Option-cases (line_message decode line)) [
          | inl nothing ↦ rw nothing (omega arith)
          | inr (m, some_message) ↦ rw some_message (omega arith)
        ])
        (λ e. omega arith)

  none_found : (line : Bytes) (b : ℕ) → (b == newline) ≡ false → found decode line b ≡ []
  unfolding found
  none_found line b e = rw e refl

module _ {M : Type 0} (decode : Bytes → Option M) where
  -- The messages of all lines that a text ends, the first of which begins with `line`.
  unfoldable pub messages : Bytes → Bytes → List M
  messages line [] = []
  messages line (b ∷ rest) = found decode line b ++ messages (line_after line b) rest

  -- A line that is not ended yet may stand in the text as well as before it.
  pub messages_shift :
      (line more rest : Bytes)
      → plain_text more ≡ true
      → messages line (more ++ rest) ≡ messages (line ++ more) rest
  unfolding messages
  messages_shift line [] rest p = ap (λ l. messages l rest) (sym (append-nil line))
  messages_shift line (b ∷ more) rest p =
      let other : (b == newline) ≡ false = ground arith in
      ap₂ (λ ms l. ms ++ messages l (more ++ rest)) (none_found decode line b other)
        (line_grows line b other)
      ∙ messages_shift (line ++ b ∷ []) more rest (ground arith)
      ∙ ap (λ l. messages l rest) (append_assoc line (b ∷ []) more)

  -- What one pass leaves in the buffer still has the messages that it does not hand out, whatever
  -- follows; it hands out the first ones, as many as there is room for.
  pub record Passed (room : ℕ) (line bytes : Bytes) (out : List M × Bytes) : Type 0 where
    pub rest : (more : Bytes) → out.0 ++ messages [] (out.1 ++ more) ≡ messages line (bytes ++ more)
    pub first : out.0 ≡ take room (messages line bytes)
    pub all : length out.0 < room → messages [] out.1 ≡ []

  pub extract-Passed :
      (room : ℕ) (line bytes : Bytes)
      → plain_text line ≡ true
      → Passed room line bytes (extract decode room line bytes)
  unfolding extract messages
  extract-Passed room line [] p = record {
    rest = λ more. messages_shift [] line more p;
    first = sym (take-nil room);
    all = λ h. ap (messages []) (sym (append-nil line)) ∙ messages_shift [] line [] p;
  }
  extract-Passed room line (b ∷ bytes) p =
      let now = found decode line b in
      let later =
        extract-Passed (room - length now) (line_after line b) bytes
          (line_after-plain_text line b p) in
      if-elim (Passed room line (b ∷ bytes)) (room == 0) _ _
        (λ e. record {
          rest = λ more.
              ap (messages []) (append_assoc line (b ∷ bytes) more)
              ∙ messages_shift [] line (b ∷ bytes ++ more) p;
          first = ap (λ n. take n (messages line (b ∷ bytes))) (sym (is_zero room e));
          all = λ h. absurd (ground arith);
        })
        (λ e. record {
          rest = λ more. append_assoc now _ _ ∙ ap (now ++◌) (later.rest more);
          first = ap (now ++◌) later.first ∙ sym (take-append_ge room now _ (few room e));
          all = λ h. later.all (
              omega (
                arith,
                h,
                length-append now (extract decode (room - length now) (line_after line b) bytes).0,
                few room e,
              ));
        })
    where
      few : (room : ℕ) → (room == 0) ≡ false → length (found decode line b) ≤ room
      few room e = omega (arith, one decode line b, nonzero room e)
