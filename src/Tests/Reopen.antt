-- ===== src/Tests/Reopen.antt =====
-- The theorems on the life of the device link at small inputs.
use smolmux.Base.{◌≡◌, refl, true, false, some, List, [], ◌∷◌, ◌++◌, arith}
use smolmux.Broker.Line.{do_write, write_data}
use smolmux.Broker.Reopen
use smolmux.Broker.Reopen.{
  Life, started, closed, opening, turn, link_ready, suspend, resume, connected, in_progress, failed,
  opens, Event, poll_pending, poll_done, do_suspend, is_suspended, is_disconnected,
}
use smolmux.Broker.Reopen.Inv.{Guarded, do_suspend-Guarded}
use smolmux.Broker.Reopen.Runs.{started-Guarded, run-Guarded, connecting_writes, stale_resume}
use smolmux.Broker.Reopen.Suspended.{is_resume, no_resume, run_suspended}
use smolmux.Broker.Reopen.Failing.{Lost, is_open, is_refused, poll_opens}
use smolmux.Broker.Reopen.Backoff.{IsUp, turns, reopens, paced}

-- The link as the broker starts, and the same suspended and lost.
abbrev link_up : Life
link_up = started true

link_held : Life
link_held = (do_suspend link_up).1

link_held-Guarded : Guarded link_held
unfolding link_held
link_held-Guarded = do_suspend-Guarded link_up (started-Guarded true)

run-Guarded_example : Guarded (
    Reopen.run link_up
      (link_ready 7 true false false poll_pending ∷ turn 8 false failed ∷ suspend ∷ []))
run-Guarded_example =
    run-Guarded link_up
      (link_ready 7 true false false poll_pending ∷ turn 8 false failed ∷ suspend ∷ [])
      (started-Guarded true)

held_now : is_suspended link_held ≡ true
unfolding link_held do_suspend
held_now = refl

no_one :
    no_resume (turn 8 false connected ∷ link_ready 9 true true true poll_done ∷ suspend ∷ []) ≡ true
unfolding no_resume is_resume
no_one = refl

run_suspended_example :
    Reopen.run link_held
      (turn 8 false connected ∷ link_ready 9 true true true poll_done ∷ suspend ∷ [])
    ≡ link_held
run_suspended_example =
    run_suspended link_held
      (turn 8 false connected ∷ link_ready 9 true true true poll_done ∷ suspend ∷ [])
      link_held-Guarded held_now no_one

abbrev link_lost : Life
link_lost = record link_up {
  line = record { suspended = false; link_disconnected = true; calls = [] };
  delay = 2;
  next = 7;
  wire = closed;
}

link_lost-Lost : Lost 30 link_lost
link_lost-Lost = record {
  free = refl;
  gone = refl;
  auto = refl;
  no_ack = refl;
  short = omega arith;
  soon = omega arith;
  watched = λ e. absurd cc;
}

-- An attempt that is refused, one that hangs until it is given up, and a device that has moved.
abbrev bad_luck : List Event
bad_luck =
    turn 7 false (opens false)
    ∷ turn 9 false in_progress
    ∷ link_ready 10 true false false poll_pending
    ∷ turn 15 true failed
    ∷ turn 30 true failed
    ∷ []

no_answer :
    (is_open (opens false) ≡ false) × (is_open in_progress ≡ false) × (is_open failed ≡ false)
unfolding is_open
no_answer = (refl, refl, refl)

not_done : poll_opens poll_pending ≡ false
unfolding poll_opens
not_done = refl

refuses : (is_refused failed ≡ true) × (is_refused (opens false) ≡ true)
unfolding is_refused
refuses = (refl, refl)

opens_it : is_open (opens true) ≡ true
unfolding is_open
opens_it = refl

reopens_example :
    IsUp
      (Reopen.run link_lost (bad_luck ++ turn 40 false failed ∷ turn 100 false (opens true) ∷ []))
reopens_example =
    reopens 30 40 100 bad_luck false failed (opens true) link_lost link_lost-Lost
      (
        (omega arith, no_answer.0),
        (
          (omega arith, no_answer.1),
          ((omega arith, not_done), ((omega arith, no_answer.2), ((omega arith, no_answer.2), tt))),
        ),
      )
      (omega arith) refuses.0 (omega arith) opens_it

paced_example :
    Reopen.run link_lost
      (turn 7 false (opens false) ∷ turns ((8, false, connected) ∷ (8, true, in_progress) ∷ []))
    ≡ Reopen.run link_lost (turn 7 false (opens false) ∷ [])
paced_example =
    paced 30 7 (opens false) ((8, false, connected) ∷ (8, true, in_progress) ∷ []) link_lost
      link_lost-Lost refl (omega arith) refuses.1 (omega arith, (omega arith, tt))

connecting_writes_example :
    let s' = Reopen.run link_up (suspend ∷ resume 3 false in_progress (some (b'7' ∷ [])) ∷ []) in
    (s'.wire ≡ opening)
    × ((do_write (λ calls c. true) s'.line (b'x' ∷ [])).1.calls
        ≡ (write_data (b'x' ∷ []), true) ∷ [])
connecting_writes_example =
    connecting_writes link_up refl refl 3 (b'7' ∷ []) (λ calls c. true) (b'x' ∷ [])

stale_resume_example :
    let s' = Reopen.run link_up (
      suspend
      ∷ resume 3 false in_progress (some (b'7' ∷ []))
      ∷ suspend
      ∷ resume 5 false connected (some (b'8' ∷ []))
      ∷ link_ready 100 true false false poll_pending
      ∷ turn 100 false in_progress
      ∷ turn 106 false in_progress
      ∷ []) in
    (is_suspended s' ≡ true) × (is_disconnected s' ≡ true)
stale_resume_example =
    stale_resume link_up refl refl (b'7' ∷ []) (b'8' ∷ []) 3 5 100 100 106 (omega arith)
      (omega arith)
