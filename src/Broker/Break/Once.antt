-- ===== src/Broker/Break/Once.antt =====
-- What holds of the machine over every list of events.
use smolmux.Base.{
  ℕ, ◌+◌, ◌-◌, ◌≤◌, not, ◌&&◌, ltb, length, ◌≡◌, refl, subst, ap, Bool, true, false, Option, none,
  List, [], ◌∷◌, arith, ◌==◌, if◌then◌else◌, if-elim,
}
use smolmux.Broker.Line.{Call, Line, call, set_param, clear}
use smolmux.Broker.Break.{
  Phase, idle, asserted, delay, Break, Event, ask_break, ask_reset, expire, cancel, link_state,
  step, run, init, expire_at, released, send_followup, break_complete,
}
use smolmux.Broker.Break.Held.{Held, Clears}
use smolmux.Broker.Break.Inv.{Awaits, Inv, owed-none, Kept, refused, fires, owed, init-Inv}
use smolmux.Broker.Break.Schedule.{schedule_break-Kept, schedule_line_reset-Kept}
use smolmux.Broker.Break.Timer.{cancel_at-Kept, expire_at-Kept}

-- The callback that an event brings.
unfoldable pub callback : Event → Option ℕ
callback (ask_break created armed ms followup pause done) = done
callback (ask_reset created armed pin hold done) = done
callback _ = none

-- How many expiries a phase lasts at most.
abbrev rank : Phase → ℕ
rank idle = 0
rank delay = 1
rank asserted = 2

rank_two : (p : Phase) → rank p ≤ 2
rank_two idle = omega arith
rank_two asserted = omega arith
rank_two delay = omega arith

rank_zero : (p : Phase) → rank p ≤ 0 → p ≡ idle
rank_zero idle h = refl
rank_zero asserted h = absurd (omega arith)
rank_zero delay h = absurd (omega arith)

module _ (link : List (Call × Bool) → Call → Bool) where
  -- How often a request with the callback `k` was accepted.
  unfoldable pub accepted : ℕ → Break → List Event → ℕ
  accepted k b [] = 0
  accepted k b (e ∷ es) =
      let r = step link b e in (if r.0 then owed k (callback e) else 0) + accepted k r.1 es

  step-Kept : (b : Break) (e : Event) → Inv link b → Kept link b (callback e) (step link b e)
  unfolding step callback
  step-Kept b (ask_break created armed ms followup pause o) i =
      schedule_break-Kept link created armed b ms followup pause o i
  step-Kept b (ask_reset created armed pin hold o) i =
      schedule_line_reset-Kept link created armed b pin hold o i
  step-Kept b (expire rearmed) i = expire_at-Kept link rearmed b.phase b none refl i
  step-Kept b cancel i = cancel_at-Kept link b.phase b none refl i
  step-Kept b (link_state suspended disconnected) i =
      refused link b _ none (record { awaits = i.awaits; held = i.held }) refl refl

  run-Inv : (b : Break) (es : List Event) → Inv link b → Inv link (run link b es)
  unfolding run
  run-Inv b [] i = i
  run-Inv b (e ∷ es) i = run-Inv (step link b e).1 es (step-Kept b e i).inv

  run-counted :
      (k : ℕ) (b : Break) (es : List Event)
      → Inv link b
      → fires k (run link b es).fired + owed k (run link b es).done
        ≡ fires k b.fired + owed k b.done + accepted k b es
  unfolding run accepted
  run-counted k b [] i = omega arith
  run-counted k b (e ∷ es) i =
      let s = step-Kept b e i in
      omega (arith, s.counted k, run-counted k (step link b e).1 es s.inv)

  rank-released : (rearmed rc : Bool) (b : Break) → rank (released link rearmed b rc).phase ≤ 1
  unfolding released send_followup break_complete
  rank-released rearmed rc b =
      if-elim (λ (x : Break). rank x.phase ≤ 1) (rc && not (length b.followup == 0)) _ _
        (λ e.
          if-elim (λ (x : Break). rank x.phase ≤ 1) (ltb 0 b.delay_ms && rearmed) _ _
            (λ f. omega arith) (λ f. omega arith))
        (λ e. omega arith)

  rank-expire_at :
      (rearmed : Bool) (p : Phase) (b : Break)
      → b.phase ≡ p
      → rank (expire_at link rearmed p (record b { armed = false })).phase ≤ rank p - 1
  unfolding expire_at call send_followup break_complete
  rank-expire_at rearmed idle b e = rw e (omega arith)
  rank-expire_at rearmed asserted b e =
      if-elim (λ (x : Break). rank x.phase ≤ 1) (link b.line.calls (set_param b.pin clear)) _ _
        (λ f. rank-released rearmed true _) (λ f. rank-released rearmed _ _)
  rank-expire_at rearmed delay b e = omega arith

  two_expiries-idle :
      (r s : Bool) (b : Break) → (run link b (expire r ∷ expire s ∷ [])).phase ≡ idle
  unfolding run step
  two_expiries-idle r s b =
      let once : Break = expire_at link r b.phase (record b { armed = false }) in
      rank_zero _ (
        omega (
          arith,
          rank-expire_at r b.phase b refl,
          rank-expire_at s once.phase once refl,
          rank_two b.phase,
        ))

  accepted_expiries : (k : ℕ) (b : Break) (r s : Bool) → accepted k b (expire r ∷ expire s ∷ []) ≡ 0
  unfolding accepted step
  accepted_expiries k b r s = omega arith

  module _ (line : Line) (unused : line.calls ≡ []) (es : List Event) where
    -- After any events on a new machine, the callback of each request that was accepted has run once
    -- or is the one that the machine still owes; that of a refused request never runs.
    pub callbacks_once :
        (k : ℕ)
        → let b = run link (init line) es in
          fires k b.fired + owed k b.done ≡ accepted k (init line) es
    unfolding init fires owed
    callbacks_once k = omega (arith, run-counted k (init line) es (init-Inv link line unused))

    -- After any events on a new machine whose link never fails to release a line, no line is raised
    -- but while the machine asserts one, and then no other.
    pub lines_Held :
        Clears link → let b = run link (init line) es in Held b.phase b.pin b.line.calls
    lines_Held c = (run-Inv (init line) es (init-Inv link line unused)).held c

    -- After any events on a new machine, a busy machine has its timer armed, and with two expiries, the
    -- timer armed again between them or not, the machine is idle and the callback of each request that
    -- was accepted has run once.
    pub callbacks_run :
        (k : ℕ) (r s : Bool)
        → let b = run link (init line) es in
          let ended = run link b (expire r ∷ expire s ∷ []) in
          Awaits b.phase b.done b.armed
          × (ended.phase ≡ idle)
          × (fires k ended.fired ≡ accepted k (init line) es)
    callbacks_run k r s =
        let b = run link (init line) es in
        let ends : List Event = expire r ∷ expire s ∷ [] in
        let i = run-Inv (init line) es (init-Inv link line unused) in
        let quiet = two_expiries-idle r s b in
        let none_left =
          subst (λ p. Awaits p (run link b ends).done (run link b ends).armed) quiet
            (run-Inv b ends i).awaits in
        (
          i.awaits,
          quiet,
          omega (
            arith,
            callbacks_once k,
            run-counted k b ends i,
            accepted_expiries k b r s,
            ap (owed k) none_left,
            owed-none k,
          ),
        )
