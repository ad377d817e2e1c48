-- ===== src/Broker/Flood/Reset.antt =====
-- The flood never leaves the device in reset.
use smolmux.Base.{
  ℕ, ◌≡◌, refl, subst, Bool, true, false, not, ◌||◌, Option, none, some, List, [], ◌∷◌, Bytes, ltb,
  leb, ◌==◌, if◌then◌else◌, if-elim, length, arith,
}
use smolmux.Stream.Matcher.{Matcher}
use smolmux.Broker.Line.{ℤ, Call, set_param, call, do_write, is_written, limited}
use smolmux.Broker.Flood.{
  Flood, Reason, matched, timeout, aborted, cancelled, Pulse, assert_action, pulse_fits, max_key,
  release_reset, flood_finish, flood_cancel, search_ended, search, flood_feed, is_written, send_key,
  handle_flood_timer, start_timer, start_reset, start_with, compile_stop, start_compiled,
  start_flood, Event, ask, expire, arrive, cancel, link_state, step, run,
}
use smolmux.Broker.Flood.Hold.{
  hold, Holds, Inv, Free, HoldsIn, release_reset-Free, Free-Inv, do_write-hold, Holds-same,
  held_now, not_held,
}

module _ {E : Type 0} (m : Matcher E) (link : List (Call × Bool) → Call → Bool) where
  flood_finish-Inv : (b : Flood E) (reason : Reason) → Inv b → Inv (flood_finish m link b reason)
  unfolding flood_finish
  flood_finish-Inv b reason i =
      if-elim Inv (not b.active) _ _ (λ e. i)
        (λ e.
          Free-Inv _
            (release_reset-Free m link (record b { armed = false; stop_re = none }) i.held))

  send_key-Inv : (b : Flood E) → Inv b → Inv (send_key m link b).1
  unfolding send_key
  send_key-Inv b i =
      if-elim (λ (x : Bool × Flood E). Inv x.1) (is_written (do_write link b.line b.key).0) _ _
        (λ e. record { idle = i.idle; held = kept }) (λ e. record { idle = i.idle; held = kept })
    where
      kept : Holds b.reset_pending b.reset_pin b.reset_deassert (do_write link b.line b.key).1.calls
      kept =
          Holds-same b.reset_pending b.reset_pin b.reset_deassert b.line.calls _
            (do_write-hold link b.line b.key) i.held

  handle_flood_timer-Inv : (now : ℕ) (b : Flood E) → Inv b → Inv (handle_flood_timer m link now b)
  unfolding handle_flood_timer
  handle_flood_timer-Inv now b i =
      if-elim Inv (not b.active) _ _ (λ e. i)
        (λ e.
          if-elim Inv (leb freed.deadline now) _ _ (λ f. flood_finish-Inv freed timeout freed-Inv)
            (λ f.
              if-elim Inv (send_key m link freed).0 _ _ (λ g. send_key-Inv freed freed-Inv)
                (λ g. flood_finish-Inv _ aborted (send_key-Inv freed freed-Inv))))
    where
      freed : Flood E
      freed = if leb b.reset_deassert_time now then release_reset m link b else b

      freed-Inv : Inv (if leb b.reset_deassert_time now then release_reset m link b else b)
      freed-Inv =
          if-elim Inv (leb b.reset_deassert_time now) _ _
            (λ e. Free-Inv _ (release_reset-Free m link b i.held)) (λ e. i)

  search_ended-Inv : (b : Flood E) (o : Option ℕ) → Inv b → Inv (search_ended m link b o)
  unfolding search_ended
  search_ended-Inv b none i = i
  search_ended-Inv b (some off) i = flood_finish-Inv b matched i

  search-Inv :
      (behind : Bytes) (b : Flood E) (input : Bytes) (o : Option E)
      → Inv b
      → Inv (search m link behind b input o)
  unfolding search
  search-Inv behind b input none i = i
  search-Inv behind b input (some re) i =
      search_ended-Inv _ _ (record { idle = i.idle; held = i.held })

  start_timer-Inv :
      (armed : Bool) (b : Flood E) → b.active ≡ true → Inv b → Inv (start_timer m link armed b).1
  unfolding start_timer
  start_timer-Inv true b on i =
      send_key-Inv (record b { armed = true }) (record { idle = i.idle; held = i.held })
  start_timer-Inv false b on i = Free-Inv _ (release_reset-Free m link b i.held)

  start_reset-Inv :
      (armed : Bool) (b : Flood E) (now : ℕ) (p : Option Pulse)
      → b.active ≡ true
      → Free b
      → Inv (start_reset m link armed b now p).1
  unfolding start_reset call
  start_reset-Inv armed b now none on free = start_timer-Inv armed b on (Free-Inv b free)
  start_reset-Inv armed b now (some p) on free =
      if-elim (λ (x : Bool × Flood E). Inv x.1)
        (link b.line.calls (set_param p.pin (assert_action p.assert))) _ _
        (λ e. start_timer-Inv armed _ on (record {
          idle = λ off. absurd (ground (arith, on, off));
          held = (
            assert_action p.assert,
            held_now p (link b.line.calls (set_param p.pin (assert_action p.assert))) b.line.calls e
                free.1,
            refl,
          );
        }))
        (λ e. Free-Inv _ (
          free.0,
          not_held p (link b.line.calls (set_param p.pin (assert_action p.assert))) b.line.calls e
              free.1,
        ))

  start_compiled-Inv :
      (created armed : Bool) (b : Flood E) (key : Bytes) (ms : ℕ) (pulse : Option Pulse) (now : ℕ)
      (o : Option (Option E))
      → b.active ≡ false
      → Inv b
      → Inv (start_compiled m link created armed b key ms pulse now o).1
  unfolding start_compiled start_with
  start_compiled-Inv created armed b key ms pulse now none off i = i
  start_compiled-Inv created armed b key ms pulse now (some re) off i =
      if-elim (λ (x : Bool × Flood E). Inv x.1) (b.has_timer || created) _ _
        (λ e.
          start_reset-Inv armed _ now pulse refl
            (refl, subst (λ p. HoldsIn p b) (i.idle off) i.held))
        (λ e. i)

  start_flood-Inv :
      (created armed : Bool) (b : Flood E) (key : Bytes) (duration : ℤ) (stop : Option Bytes)
      (pulse : Option Pulse) (now : ℕ)
      → Inv b
      → Inv (start_flood m link created armed b key duration stop pulse now).1
  unfolding start_flood
  start_flood-Inv created armed b key duration stop pulse now i =
      if-elim (λ (x : Bool × Flood E). Inv x.1) (b.line.suspended || b.line.link_disconnected) _ _
        (λ e. i)
        (λ e.
          if-elim (λ (x : Bool × Flood E). Inv x.1) b.active _ _ (λ e. i)
            (λ off.
              if-elim (λ (x : Bool × Flood E). Inv x.1)
                (length key == 0 || ltb max_key (length key)) _ _ (λ e. i)
                (λ e.
                  if-elim (λ (x : Bool × Flood E). Inv x.1)
                    (not (pulse_fits pulse (limited duration 2000 15000))) _ _ (λ e. i)
                    (λ e.
                      start_compiled-Inv created armed b key (limited duration 2000 15000) pulse now
                        (compile_stop m link stop) off i))))

  step-Inv : (b : Flood E) (e : Event) → Inv b → Inv (step m link b e)
  unfolding step flood_feed flood_cancel
  step-Inv b (ask created armed key duration stop pulse now) i =
      start_flood-Inv created armed b key duration stop pulse now i
  step-Inv b (expire now) i = handle_flood_timer-Inv now b i
  step-Inv b (arrive behind input) i =
      if-elim Inv (not b.active || length input == 0) _ _ (λ e. i)
        (λ e. search-Inv behind b input b.stop_re i)
  step-Inv b cancel i = if-elim Inv b.active _ _ (λ e. flood_finish-Inv b cancelled i) (λ e. i)
  step-Inv b (link_state suspended disconnected) i = record { idle = i.idle; held = i.held }

  run-Inv : (b : Flood E) (es : List Event) → Inv b → Inv (run m link b es)
  unfolding run
  run-Inv b [] i = i
  run-Inv b (e ∷ es) i = run-Inv (step m link b e) es (step-Inv b e i)

  -- After any events on a machine without a flood that holds no line: when no flood runs, no line is held.
  -- Each action of a flood on a reset line that succeeded has been followed by the opposite one.
  pub lines_freed :
      (b : Flood E) (es : List Event)
      → b.reset_pending ≡ false
      → hold b.line.calls ≡ none
      → (run m link b es).active ≡ false
      → hold (run m link b es).line.calls ≡ none
  lines_freed b es free none_held over =
      let i = run-Inv b es (Free-Inv b (free, none_held)) in
      subst (λ p. HoldsIn p (run m link b es)) (i.idle over) i.held
