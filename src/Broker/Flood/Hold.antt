-- ===== src/Broker/Flood/Hold.antt =====
-- The reset line that the calls of the link hold, and its release.
use smolmux.Base.{
  ◌≡◌, refl, sym, subst, ◌∙◌, Bool, true, false, ◌&&◌, Option, none, some, List, [], ◌∷◌, Bytes,
  if◌then◌else◌, if-elim,
}
use smolmux.Stream.Matcher.{Matcher}
use smolmux.Broker.Line.{
  Pin, pin_break, rts, dtr, Action, raise, clear, word, same_pin, Call, set_param, send_break,
  write_data, Line, Written, call, do_write,
}
use smolmux.Broker.Flood.{Flood, Pulse, opposite, assert_action, release_reset}

unfoldable pub same_action : Action → Action → Bool
same_action raise raise = true
same_action clear clear = true
same_action _ _ = false

-- The line that is held behind one more action, if one was held: an action on a free line that succeeds
-- holds it, and the opposite action on the same line frees it.
unfoldable pub hold_step : Option (Pin × Action) → Pin → Action → Bool → Option (Pin × Action)
hold_step none p a ok = if ok then some (p, a) else none
hold_step (some (q, on)) p a ok =
    if same_pin q p && same_action a (opposite on) then none else some (q, on)

-- The line that the calls so far hold, the newest call first.
unfoldable pub hold : List (Call × Bool) → Option (Pin × Action)
hold [] = none
hold ((set_param p a, ok) ∷ calls) = hold_step (hold calls) p a ok
hold ((send_break ms, ok) ∷ calls) = hold calls
hold ((write_data bytes, ok) ∷ calls) = hold calls

abbrev pub Holds : Bool → Pin → Action → List (Call × Bool) → Type 0
Holds true pin off calls = (on : Action) × (hold calls ≡ some (pin, on)) × (off ≡ opposite on)
Holds false pin off calls = hold calls ≡ none

same_pin_refl : (p : Pin) → same_pin p p ≡ true
unfolding same_pin
same_pin_refl pin_break = refl
same_pin_refl rts = refl
same_pin_refl dtr = refl

same_opposite : (a : Action) → same_action (opposite a) (opposite a) ≡ true
unfolding same_action opposite
same_opposite raise = refl
same_opposite clear = refl
same_opposite (word w) = refl

-- The invariant.
pub record Inv {E : Type 0} (b : Flood E) : Type 0 where
  pub idle : b.active ≡ false → b.reset_pending ≡ false
  pub held : Holds b.reset_pending b.reset_pin b.reset_deassert b.line.calls

freed :
    (pin : Pin) (off : Action) (ok : Bool) (calls : List (Call × Bool))
    → (on : Action) × (hold calls ≡ some (pin, on)) × (off ≡ opposite on)
    → hold ((set_param pin off, ok) ∷ calls) ≡ none
unfolding hold hold_step
freed pin off ok calls (on, e, f) = rw (e, f, same_pin_refl pin, same_opposite on) refl

pub held_now :
    (p : Pulse) (ok : Bool) (calls : List (Call × Bool))
    → ok ≡ true
    → hold calls ≡ none
    → hold ((set_param p.pin (assert_action p.assert), ok) ∷ calls)
      ≡ some (p.pin, assert_action p.assert)
unfolding hold hold_step
held_now p ok calls e h = rw (h, e) refl

pub not_held :
    (p : Pulse) (ok : Bool) (calls : List (Call × Bool))
    → ok ≡ false
    → hold calls ≡ none
    → hold ((set_param p.pin (assert_action p.assert), ok) ∷ calls) ≡ none
unfolding hold hold_step
not_held p ok calls e h = rw (h, e) refl

pub Holds-same :
    (pending : Bool) (pin : Pin) (off : Action) (cs ds : List (Call × Bool))
    → hold ds ≡ hold cs
    → Holds pending pin off cs
    → Holds pending pin off ds
Holds-same true pin off cs ds e h = (h.0, e ∙ h.1, h.2)
Holds-same false pin off cs ds e h = e ∙ h

module _ (link : List (Call × Bool) → Call → Bool) where
  pub do_write-hold :
      (line : Line) (bytes : Bytes) → hold (do_write link line bytes).1.calls ≡ hold line.calls
  unfolding do_write call hold
  do_write-hold line bytes =
      if-elim (λ (r : Written × Line). hold r.1.calls ≡ hold line.calls) line.suspended _ _
        (λ e. refl)
        (λ e.
          if-elim (λ (r : Written × Line). hold r.1.calls ≡ hold line.calls) line.link_disconnected
            _ _ (λ e. refl)
            (λ e.
              if-elim (λ (r : Written × Line). hold r.1.calls ≡ hold line.calls)
                (link line.calls (write_data bytes)) _ _ (λ e. refl) (λ e. refl)))

module _ {E : Type 0} where
  -- No line is held, and none is to be released.
  abbrev pub Free : Flood E → Type 0
  Free b = (b.reset_pending ≡ false) × (hold b.line.calls ≡ none)

  abbrev pub HoldsIn : Bool → Flood E → Type 0
  HoldsIn pending b = Holds pending b.reset_pin b.reset_deassert b.line.calls

  pub Free-Inv : (b : Flood E) → Free b → Inv b
  Free-Inv b free = record {
    idle = λ _. free.0;
    held = subst (λ p. HoldsIn p b) (sym free.0) free.1;
  }

module _ {E : Type 0} (m : Matcher E) (link : List (Call × Bool) → Call → Bool) where
  pub release_reset-Free : (b : Flood E) → HoldsIn b.reset_pending b → Free (release_reset m link b)
  unfolding release_reset call
  release_reset-Free b h =
      if-elim Free b.reset_pending _ _
        (λ e.
          (refl, freed b.reset_pin b.reset_deassert _ b.line.calls (subst (λ p. HoldsIn p b) e h)))
        (λ e. (e, subst (λ p. HoldsIn p b) e h))
