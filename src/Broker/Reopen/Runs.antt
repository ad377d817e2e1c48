-- ===== src/Broker/Reopen/Runs.antt =====
-- The link's flags over any events, and two runs that end as they should not.
use smolmux.Base.{
  ℕ, ◌+◌, ◌≤◌, ◌<◌, Bool, true, false, some, List, [], ◌∷◌, ◌&&◌, Bytes, ◌≡◌, refl, ap, ◌∙◌, arith,
  ltb, if◌then◌else◌, if-elim,
}
use smolmux.Broker.Line.{Call, write_data, do_write, call, Line, Written}
use smolmux.Broker.Reopen.{
  Life, closed, opening, begin_link, say_suspended, close_link, cancel_expects, disarm_stall,
  cancel_pulses, started, Event, turn, link_ready, out_ready, suspend, resume, step, run, Answer,
  connected, in_progress, poll_pending, is_suspended, is_disconnected, link_schedule_retry,
  announce, link_bring_up, link_watch_connecting, link_connect_give_up, handle_link_disconnect,
  link_event, reconnect_with, attempt_reconnect, each_turn, do_suspend, resume_up, resume_with,
  do_resume, note_id, handle_resume,
}
use smolmux.Broker.Reopen.Inv.{
  Guarded, each_turn-Guarded, link_event-Guarded, out_event-Guarded, do_suspend-Guarded,
  handle_resume-Guarded,
}

pub started-Guarded : (reconnect : Bool) → Guarded (started reconnect)
started-Guarded reconnect = record {
  let_go = λ h. absurd cc;
  up = λ _ _ _. refl;
  watched = λ h. absurd cc;
  used = λ _. (refl, refl, refl);
  short = omega arith;
  fenced = tt;
  last = λ _. refl;
}

step-Guarded : (s : Life) (e : Event) → Guarded s → Guarded (step s e)
unfolding step
step-Guarded s (turn now blocked answer) v = each_turn-Guarded now blocked answer s v
step-Guarded s (link_ready now ended hangup flush_failed poll) v =
    link_event-Guarded now ended hangup flush_failed poll s v
step-Guarded s (out_ready now flush_failed) v = out_event-Guarded now flush_failed s v
step-Guarded s suspend v = do_suspend-Guarded s v
step-Guarded s (resume now blocked answer id) v = handle_resume-Guarded now blocked answer id s v

-- Over any turns, events of the link, suspends and resumes, whatever the link's calls answer: while the link is
-- suspended the broker holds no device; when neither `suspended` nor `link_disconnected` nor `link_connecting`
-- is set the device is open, and when it is open none is; the delay is at most 60 s; and in the history
-- there is a fence of the link's return between any two of its loss.
pub run-Guarded : (s : Life) (es : List Event) → Guarded s → Guarded (run s es)
unfolding run
run-Guarded s [] v = v
run-Guarded s (e ∷ es) v = run-Guarded (step s e) es (step-Guarded s e v)

-- The state behind a suspend of a link that is not suspended.
abbrev held : Life → Life
held s = record s {
  line = record s.line { suspended = true };
  connecting = false;
  wire = closed;
  log = say_suspended ∷ close_link ∷ cancel_expects ∷ disarm_stall ∷ cancel_pulses ∷ s.log;
}

step-suspend : (s : Life) → is_suspended s ≡ false → step s suspend ≡ held s
unfolding step do_suspend
step-suspend s free =
    if-elim (λ (out : Bool × Life). out.1 ≡ held s) (is_suspended s) _ _ (λ e. absurd cc)
      (λ _. refl)

-- A link that is up and a resume that is not done yet: from the request on `sm_broker_do_write` writes to a
-- device that is not open.
pub connecting_writes :
    (s : Life)
    → is_suspended s ≡ false
    → is_disconnected s ≡ false
    → (now : ℕ) (id : Bytes) (link : List (Call × Bool) → Call → Bool) (bytes : Bytes)
    → let s' = run s (suspend ∷ resume now false in_progress (some id) ∷ []) in
      (s'.wire ≡ opening)
      × ((do_write link s'.line bytes).1.calls
          ≡ (write_data bytes, link s.line.calls (write_data bytes)) ∷ s.line.calls)
unfolding run step handle_resume do_resume resume_with link_watch_connecting note_id
connecting_writes s free live now id link bytes =
    let resumed_from : Life → Life = λ x. run x (resume now false in_progress (some id) ∷ []) in
    (
      ap (λ x. (resumed_from x).wire) (step-suspend s free),
      ap (λ x. (do_write link (resumed_from x).line bytes).1.calls) (step-suspend s free)
          ∙ ap
              (λ (b : Bool).
                (do_write link
                  (record { suspended = false; link_disconnected = b; calls = s.line.calls })
                  bytes).1.calls)
              live
          ∙ writes,
    )
  where
    writes :
        (do_write link
          (record { suspended = false; link_disconnected = false; calls = s.line.calls })
          bytes).1.calls
        ≡ (write_data bytes, link s.line.calls (write_data bytes)) ∷ s.line.calls
    writes =
        unfold do_write call in
        if-elim
          (λ (out : Written × Line).
            out.1.calls ≡ (write_data bytes, link s.line.calls (write_data bytes)) ∷ s.line.calls)
          (link s.line.calls (write_data bytes)) _ _ (λ _. refl) (λ _. refl)

-- A turn that finds a lost link begins to connect.
tries :
    (now : ℕ) (s : Life)
    → is_suspended s ≡ false
    → s.connecting ≡ false
    → is_disconnected s ≡ true
    → s.reconnect ≡ true
    → s.next ≤ now
    → each_turn now false in_progress s
      ≡ link_watch_connecting now (record s { wire = opening; log = begin_link ∷ s.log })
unfolding each_turn attempt_reconnect reconnect_with
tries now s free idle lost auto due =
    let begun : Life =
      link_watch_connecting now (record s { wire = opening; log = begin_link ∷ s.log }) in
    let early : ltb now s.next ≡ false = ground arith in
    let attempt : attempt_reconnect now false in_progress s ≡ begun =
      unfold attempt_reconnect reconnect_with in rw (free, idle, lost, auto, early) refl in
    ap (λ (x : Life). if x.connecting && ltb x.deadline now then link_connect_give_up now x else x)
      attempt
    ∙ in_time
  where
    in_time :
        let begun : Life =
          link_watch_connecting now (record s { wire = opening; log = begin_link ∷ s.log }) in
        (if begun.connecting && ltb begun.deadline now
          then link_connect_give_up now begun
          else begun)
        ≡ begun
    in_time =
        let e : ltb (now + 5) now ≡ false = ground arith in
        unfold link_watch_connecting in rw e refl

-- A turn behind the deadline gives up, and then the mark of a resume suspends the link.
times_out :
    (now : ℕ) (blocked : Bool) (answer : Answer) (s : Life)
    → is_suspended s ≡ false
    → s.connecting ≡ true
    → s.resume_ack ≡ true
    → s.deadline < now
    → (is_suspended (each_turn now blocked answer s) ≡ true)
      × (is_disconnected (each_turn now blocked answer s) ≡ true)
unfolding each_turn attempt_reconnect link_connect_give_up link_schedule_retry
times_out now blocked answer s free busy ack late =
    let e : ltb s.deadline now ≡ true = ground arith in rw (free, busy, ack, e) (refl, refl)

-- A resume that is under way when the link is suspended again leaves its mark: after a resume that succeeds at
-- once, a loss of the link and a reconnect that times out, the broker is suspended and does not try again,
-- although no client has asked for that.
pub stale_resume :
    (s : Life)
    → is_suspended s ≡ false
    → s.reconnect ≡ true
    → (id id' : Bytes) (t t' lost tried late : ℕ) → lost ≤ tried
    → tried + 5 < late
    → let s' = run s (
        suspend
        ∷ resume t false in_progress (some id)
        ∷ suspend
        ∷ resume t' false connected (some id')
        ∷ link_ready lost true false false poll_pending
        ∷ turn tried false in_progress
        ∷ turn late false in_progress
        ∷ []) in
      (is_suspended s' ≡ true) × (is_disconnected s' ≡ true)
unfolding run step do_suspend handle_resume do_resume resume_with link_watch_connecting note_id
    resume_up link_bring_up announce link_event handle_link_disconnect
stale_resume s free auto id id' t t' lost tried late h k =
    let lose : Life → Life = λ x. run x (
      resume t false in_progress (some id)
      ∷ suspend
      ∷ resume t' false connected (some id')
      ∷ link_ready lost true false false poll_pending
      ∷ []) in
    let first = step-suspend s free in
    let c = lose (step s suspend) in
    let again =
      tries tried c (ap (λ x. is_suspended (lose x)) first) (ap (λ x. (lose x).connecting) first)
        (ap (λ x. is_disconnected (lose x)) first) (ap (λ x. (lose x).reconnect) first ∙ auto)
        (omega (arith, ap (λ x. (lose x).next) first)) in
    let d = each_turn tried false in_progress c in
    times_out late false in_progress d
      (ap (λ x. is_suspended x) again ∙ ap (λ x. is_suspended (lose x)) first)
      (ap (λ x. x.connecting) again)
      (ap (λ x. x.resume_ack) again ∙ ap (λ x. (lose x).resume_ack) first)
      (omega (arith, ap (λ x. x.deadline) again))
