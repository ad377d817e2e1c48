-- ===== src/Broker/Break/Schedule.antt =====
-- What a request to the machine does to its invariant and to the callbacks that it owes.
use smolmux.Base.{
  ℕ, ◌≡◌, refl, ap, sym, subst, ◌∙◌, Bool, true, false, not, ◌||◌, Option, none, some, List, [],
  ◌∷◌, Bytes, arith, ltb, length, if-elim, ◌==◌,
}
use smolmux.Broker.Line.{
  ℤ, Pin, pin_break, rts, dtr, Call, call, Line, raise, clear, set_param, send_break,
}
use smolmux.Broker.Break.{
  Phase, idle, asserted, delay, Break, fire, break_timer_ensure, is_idle, break_at_once,
  break_start, schedule_break, other_pin, reset_with, schedule_line_reset, max_followup,
}
use smolmux.Broker.Break.Held.{
  Quiet, Only, Held, Clears, raised-Only, not_raised-Quiet, cleared-Quiet, cleared_other-Quiet,
  do_write-Quiet, broken-Quiet,
}
use smolmux.Broker.Break.Inv.{Awaits, Inv, Kept, refused, owed, owed-none, fires, fires-fire}

not_busy : (p : Phase) → not (is_idle p) ≡ false → p ≡ idle
unfolding is_idle
not_busy idle e = refl
not_busy asserted e = absurd (ground arith)
not_busy delay e = absurd (ground arith)

module _ (link : List (Call × Bool) → Call → Bool) where
  break_start-Kept :
      (armed : Bool) (b b' : Break) (pin : Pin) (o : Option ℕ) (fu : Bytes) (ms : ℕ)
      → b.done ≡ none
      → b'.fired ≡ b.fired
      → (Clears link → Only pin b'.line.calls)
      → Kept link b o (break_start link armed b' pin o fu ms)
  unfolding break_start call
  break_start-Kept true b b' pin o fu ms hd hf h = record {
    inv = record { awaits = refl; held = h };
    counted = λ k. omega (arith, ap (owed k) hd, ap (fires k) hf, owed-none k);
  }
  break_start-Kept false b b' pin o fu ms hd hf h = record {
    inv = record {
      awaits = refl;
      held = λ c. cleared-Quiet b'.line.calls pin _ (c b'.line.calls pin) (h c);
    };
    counted = λ k. omega (arith, ap (owed k) hd, ap (fires k) hf, owed-none k);
  }

  pub idle-Inv :
      (b : Break) → b.phase ≡ idle → b.done ≡ none → (Clears link → Quiet b.line.calls) → Inv link b
  idle-Inv b hp hd h = record {
    awaits = subst (λ p. Awaits p b.done b.armed) (sym hp) hd;
    held = λ c. subst (λ p. Held p b.pin b.line.calls) (sym hp) (h c);
  }

  pub Inv-idle :
      (b : Break)
      → b.phase ≡ idle
      → Inv link b
      → (b.done ≡ none) × (Clears link → Quiet b.line.calls)
  Inv-idle b hp i = (
    subst (λ p. Awaits p b.done b.armed) hp i.awaits,
    λ c. subst (λ p. Held p b.pin b.line.calls) hp (i.held c),
  )

  -- A callback that runs in the call itself.
  answered :
      (b b' : Break) (o : Option ℕ) (rc : Bool)
      → Inv link b'
      → b'.done ≡ b.done
      → b'.fired ≡ fire o rc b.fired
      → Kept link b o (true, b')
  answered b b' o rc i hd hf = record {
    inv = i;
    counted = λ k. omega (arith, ap (owed k) hd, ap (fires k) hf, fires-fire k o rc b.fired);
  }

  break_at_once-Kept :
      (b b' : Break) (ms : ℕ) (fu : Bytes) (o : Option ℕ)
      → b'.phase ≡ idle
      → b'.done ≡ none
      → b.done ≡ none
      → b'.fired ≡ b.fired
      → (Clears link → Quiet b'.line.calls)
      → Kept link b o (true, break_at_once link b' ms fu o)
  unfolding break_at_once call
  break_at_once-Kept b b' ms fu o hp hd hn hf h =
      if-elim (λ x. Kept link b o (true, x)) ok _ _
        (λ e.
          if-elim (λ x. Kept link b o (true, x)) (length fu == 0) _ _
            (λ e. answered b _ o true (idle-Inv _ hp hd sent) (hd ∙ sym hn) (ap (fire o true) hf))
            (λ e.
              answered b _ o _ (idle-Inv _ hp hd (λ c. do_write-Quiet link line fu (sent c)))
                (hd ∙ sym hn) (ap (fire o _) hf)))
        (λ e. answered b _ o false (idle-Inv _ hp hd sent) (hd ∙ sym hn) (ap (fire o false) hf))
    where
      ok : Bool
      ok = link b'.line.calls (send_break ms)

      line : Line
      line = record b'.line { calls = (send_break ms, ok) ∷ b'.line.calls }

      sent : Clears link → Quiet ((send_break ms, ok) ∷ b'.line.calls)
      sent c = broken-Quiet b'.line.calls ms ok (h c)

  pub schedule_break-Kept :
      (created armed : Bool) (b : Break) (ms : ℤ) (fu : Bytes) (wait : ℤ) (o : Option ℕ)
      → Inv link b
      → Kept link b o (schedule_break link created armed b ms fu wait o)
  unfolding schedule_break call break_timer_ensure
  schedule_break-Kept created armed b ms fu wait o i =
      if-elim (Kept link b o) (b.line.suspended || b.line.link_disconnected) _ _ (λ e. no_change)
        (λ e.
          if-elim (Kept link b o) (not (is_idle b.phase)) _ _ (λ e. no_change)
            (λ e.
              let idles : b.phase ≡ idle = not_busy b.phase e in
              let q = Inv-idle b idles i in
              if-elim (Kept link b o) (ltb max_followup (length fu)) _ _ (λ e. no_change)
                (λ e.
                  if-elim (Kept link b o) (not ok) _ _
                    (λ f.
                      break_at_once-Kept b _ _ fu o idles q.0 q.0 refl
                        (λ c. not_raised-Quiet b.line.calls pin_break ok (ground arith) (q.1 c)))
                    (λ f.
                      if-elim (Kept link b o) (not (b.has_timer || created)) _ _
                        (λ e.
                          refused link b _ o
                            (idle-Inv _ idles q.0 (λ c.
                              cleared-Quiet _ pin_break _ (c _ pin_break)
                                (raised-Only b.line.calls pin_break ok (q.1 c))))
                            refl refl)
                        (λ e.
                          break_start-Kept armed b _ pin_break o fu _ q.0 refl
                            (λ c. raised-Only b.line.calls pin_break ok (q.1 c)))))))
    where
      no_change : Kept link b o (false, b)
      no_change = refused link b b o i refl refl

      ok : Bool
      ok = link b.line.calls (set_param pin_break raise)

  reset_with-Kept :
      (created armed : Bool) (b : Break) (pin other : Pin) (hold : ℤ) (o : Option ℕ)
      → Inv link b
      → Kept link b o (reset_with link created armed b pin other hold o)
  unfolding reset_with call break_timer_ensure
  reset_with-Kept created armed b pin other hold o i =
      if-elim (Kept link b o) (b.line.suspended || b.line.link_disconnected) _ _ (λ e. no_change)
        (λ e.
          if-elim (Kept link b o) (not (is_idle b.phase)) _ _ (λ e. no_change)
            (λ e.
              let idles : b.phase ≡ idle = not_busy b.phase e in
              let q = Inv-idle b idles i in
              let quiet : Clears link → Quiet cleared =
                λ c. cleared_other-Quiet b.line.calls other ok (q.1 c) in
              if-elim (Kept link b o) (not ok) _ _
                (λ f. refused link b _ o (idle-Inv _ idles q.0 quiet) refl refl)
                (λ f.
                  if-elim (Kept link b o) (not (b.has_timer || created)) _ _
                    (λ f. refused link b _ o (idle-Inv _ idles q.0 quiet) refl refl)
                    (λ f.
                      if-elim (Kept link b o) (not raised) _ _
                        (λ f.
                          refused link b _ o
                            (idle-Inv _ idles q.0
                              (λ c. not_raised-Quiet cleared pin raised (ground arith) (quiet c)))
                            refl refl)
                        (λ f.
                          break_start-Kept armed b _ pin o [] _ q.0 refl
                            (λ c. raised-Only cleared pin raised (quiet c)))))))
    where
      no_change : Kept link b o (false, b)
      no_change = refused link b b o i refl refl

      ok : Bool
      ok = link b.line.calls (set_param other clear)

      cleared : List (Call × Bool)
      cleared = (set_param other clear, ok) ∷ b.line.calls

      raised : Bool
      raised = link cleared (set_param pin raise)

  pub schedule_line_reset-Kept :
      (created armed : Bool) (b : Break) (pin : Option Pin) (hold : ℤ) (o : Option ℕ)
      → Inv link b
      → Kept link b o (schedule_line_reset link created armed b pin hold o)
  unfolding schedule_line_reset other_pin
  schedule_line_reset-Kept created armed b none hold o i = refused link b b o i refl refl
  schedule_line_reset-Kept created armed b (some rts) hold o i =
      reset_with-Kept created armed b rts dtr hold o i
  schedule_line_reset-Kept created armed b (some dtr) hold o i =
      reset_with-Kept created armed b dtr rts hold o i
  schedule_line_reset-Kept created armed b (some pin_break) hold o i =
      refused link b b o i refl refl
