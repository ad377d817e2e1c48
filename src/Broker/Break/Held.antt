-- ===== src/Broker/Break/Held.antt =====
-- Which control lines the calls so far leave raised.
use smolmux.Base.{
  ℕ, ◌≡◌, refl, Bool, true, false, ◌&&◌, List, [], ◌∷◌, Bytes, if◌then◌else◌, arith, Bool-cases,
  if-elim, inl, inr,
}
use smolmux.Broker.Line.{
  Pin, Action, raise, clear, word, same_pin, Call, set_param, send_break, write_data, Line, Written,
  call, do_write,
}
use smolmux.Broker.Break.{Phase, idle, asserted, delay}

unfoldable pub is_raise : Action → Bool
is_raise raise = true
is_raise clear = false
is_raise (word w) = false

-- Whether the last action on the line that succeeded has raised it; the newest call stands first.
unfoldable pub holds : Pin → List (Call × Bool) → Bool
holds pin [] = false
holds pin ((set_param p action, ok) ∷ calls) =
    let before = holds pin calls in if ok && same_pin p pin then is_raise action else before
holds pin ((send_break ms, ok) ∷ calls) = holds pin calls
holds pin ((write_data bytes, ok) ∷ calls) = holds pin calls

-- No line is raised.
abbrev pub Quiet : List (Call × Bool) → Type 0
Quiet calls = (q : Pin) → holds q calls ≡ false

-- No line but this one is raised.
abbrev pub Only : Pin → List (Call × Bool) → Type 0
Only pin calls = (q : Pin) → same_pin pin q ≡ false → holds q calls ≡ false

abbrev pub Held : Phase → Pin → List (Call × Bool) → Type 0
Held idle pin calls = Quiet calls
Held asserted pin calls = Only pin calls
Held delay pin calls = Quiet calls

-- The link never fails to release a line.
abbrev pub Clears : (List (Call × Bool) → Call → Bool) → Type 0
Clears link = (calls : List (Call × Bool)) (pin : Pin) → link calls (set_param pin clear) ≡ true

module _ (calls : List (Call × Bool)) (pin : Pin) where
  pub raised-Only : (ok : Bool) → Quiet calls → Only pin ((set_param pin raise, ok) ∷ calls)
  unfolding holds
  raised-Only true h q e = rw e (h q)
  raised-Only false h q e = h q

  pub not_raised-Quiet :
      (ok : Bool) → ok ≡ false → Quiet calls → Quiet ((set_param pin raise, ok) ∷ calls)
  unfolding holds
  not_raised-Quiet true fails h q = absurd (ground arith)
  not_raised-Quiet false fails h q = h q

  pub cleared-Quiet :
      (ok : Bool) → ok ≡ true → Only pin calls → Quiet ((set_param pin clear, ok) ∷ calls)
  unfolding holds is_raise
  cleared-Quiet true works h q = elim (Bool-cases (same_pin pin q)) [
    | inl same ↦ rw same refl
    | inr other ↦ rw other (h q other)
  ]
  cleared-Quiet false works h q = absurd (ground arith)

  pub Quiet-Only : Quiet calls → Only pin calls
  Quiet-Only h q e = h q

  -- While no line is raised, releasing one leaves them so.
  pub cleared_other-Quiet : (ok : Bool) → Quiet calls → Quiet ((set_param pin clear, ok) ∷ calls)
  unfolding holds is_raise
  cleared_other-Quiet true h q = elim (Bool-cases (same_pin pin q)) [
    | inl same ↦ rw same refl
    | inr other ↦ rw other (h q)
  ]
  cleared_other-Quiet false h q = h q

pub broken-Quiet :
    (calls : List (Call × Bool)) (ms : ℕ) (ok : Bool)
    → Quiet calls
    → Quiet ((send_break ms, ok) ∷ calls)
unfolding holds
broken-Quiet calls ms ok h q = h q

module _ (link : List (Call × Bool) → Call → Bool) where
  pub do_write-Quiet :
      (line : Line) (bytes : Bytes) → Quiet line.calls → Quiet (do_write link line bytes).1.calls
  unfolding do_write call holds
  do_write-Quiet line bytes h q =
      if-elim {A = Written × Line} (λ r. holds q r.1.calls ≡ false) line.suspended _ _ (λ e. h q)
        (λ e.
          if-elim {A = Written × Line} (λ r. holds q r.1.calls ≡ false) line.link_disconnected _ _
            (λ e. h q)
            (λ e.
              if-elim {A = Written × Line} (λ r. holds q r.1.calls ≡ false)
                (link line.calls (write_data bytes)) _ _ (λ e. h q) (λ e. h q)))
