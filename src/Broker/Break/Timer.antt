-- ===== src/Broker/Break/Timer.antt =====
-- What an expiry and a cancellation do to the machine's invariant and to the callbacks that it owes.
use smolmux.Base.{
  ℕ, ◌≡◌, refl, ap₂, subst, Bool, true, false, not, ◌&&◌, Option, List, arith, ltb, length, if-elim,
  ◌==◌,
}
use smolmux.Broker.Line.{Call, call, do_write, is_written, clear, set_param}
use smolmux.Broker.Break.{
  Phase, idle, asserted, delay, Break, fire, break_complete, cancel_at, send_followup, released,
  expire_at,
}
use smolmux.Broker.Break.Held.{Quiet, Only, Held, Clears, cleared-Quiet, do_write-Quiet}
use smolmux.Broker.Break.Inv.{Inv, Kept, refused, completed}
use smolmux.Broker.Break.Schedule.{Inv-idle, idle-Inv}

module _ (link : List (Call × Bool) → Call → Bool) where
  pub cancel_at-Kept :
      (p : Phase) (b : Break) (o : Option ℕ)
      → b.phase ≡ p
      → Inv link b
      → Kept link b o (false, cancel_at link p b)
  unfolding cancel_at call break_complete
  cancel_at-Kept idle b o e i = refused link b b o i refl refl
  cancel_at-Kept asserted b o e i =
      completed link b _ o false
        (record {
          awaits = refl;
          held = λ c.
              cleared-Quiet b.line.calls b.pin _ (c b.line.calls b.pin)
                (subst (λ p. Held p b.pin b.line.calls) e (i.held c));
        })
        refl refl
  cancel_at-Kept delay b o e i =
      completed link b _ o false
        (record { awaits = refl; held = λ c. subst (λ p. Held p b.pin b.line.calls) e (i.held c) })
        refl refl

  -- A step that ends the pulse, on the machine `b'` that `b` became on the way.
  send_followup-Kept :
      (b b' : Break) (o : Option ℕ)
      → b'.done ≡ b.done
      → b'.fired ≡ b.fired
      → (Clears link → Quiet b'.line.calls)
      → Kept link b o (false, send_followup link b')
  unfolding send_followup break_complete
  send_followup-Kept b b' o hd hf h =
      completed link b _ o _
        (record { awaits = refl; held = λ c. do_write-Quiet link b'.line b'.followup (h c) }) refl
        (ap₂ (λ d f. fire d (is_written (do_write link b'.line b'.followup).0) f) hd hf)

  released-Kept :
      (rearmed rc : Bool) (b b' : Break) (o : Option ℕ)
      → b'.done ≡ b.done
      → b'.fired ≡ b.fired
      → (Clears link → Quiet b'.line.calls)
      → Kept link b o (false, released link rearmed b' rc)
  unfolding released break_complete
  released-Kept rearmed rc b b' o hd hf h =
      if-elim (λ x. Kept link b o (false, x)) (rc && not (length b'.followup == 0)) _ _
        (λ e.
          if-elim (λ x. Kept link b o (false, x)) (ltb 0 b'.delay_ms && rearmed) _ _
            (λ f. refused link b _ o (record { awaits = refl; held = h }) hd hf)
            (λ f. send_followup-Kept b b' o hd hf h))
        (λ e.
          completed link b _ o rc (record { awaits = refl; held = h }) refl
            (ap₂ (λ d f. fire d rc f) hd hf))

  pub expire_at-Kept :
      (rearmed : Bool) (p : Phase) (b : Break) (o : Option ℕ)
      → b.phase ≡ p
      → Inv link b
      → Kept link b o (false, expire_at link rearmed p (record b { armed = false }))
  unfolding expire_at call
  expire_at-Kept rearmed idle b o e i =
      let q = Inv-idle link b e i in refused link b _ o (idle-Inv link _ e q.0 q.1) refl refl
  expire_at-Kept rearmed asserted b o e i =
      if-elim (λ x. Kept link b o (false, x)) ok _ _
        (λ f.
          released-Kept rearmed true b _ o refl refl
            (λ c. cleared-Quiet b.line.calls b.pin ok f (only c)))
        (λ f.
          released-Kept rearmed _ b _ o refl refl
            (λ c. absurd (ground (arith, c b.line.calls b.pin))))
    where
      ok : Bool
      ok = link b.line.calls (set_param b.pin clear)

      only : Clears link → Only b.pin b.line.calls
      only c = subst (λ p. Held p b.pin b.line.calls) e (i.held c)
  expire_at-Kept rearmed delay b o e i =
      send_followup-Kept b _ o refl refl (λ c. subst (λ p. Held p b.pin b.line.calls) e (i.held c))
