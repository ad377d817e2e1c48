-- ===== src/Broker/Reopen/Failing.antt =====
-- A lost link stays lost in all that does not open it, and its next attempt is due before long.
use smolmux.Base.{
  ℕ, ◌+◌, ◌*◌, ◌≤◌, Bool, true, false, List, [], ◌∷◌, ◌≡◌, refl, arith, ltb, if◌then◌else◌, if-elim,
  not, ◌||◌, ◌&&◌, Option, none, some, Bytes,
}
use smolmux.Broker.Reopen.{
  Life, Event, turn, link_ready, out_ready, suspend, resume, step, Answer, connected, in_progress,
  failed, opens, Poll, poll_failed, poll_pending, poll_done, is_suspended, is_disconnected,
  reconnect_max, each_turn, attempt_reconnect, reconnect_with, link_schedule_retry,
  link_watch_connecting, link_connect_give_up, handle_link_connecting, link_event, out_event,
  handle_resume, do_resume, note_id, Resumed, not_suspended,
}

-- The answer opens the link at once; it fails at once.
unfoldable pub is_open : Answer → Bool
is_open connected = true
is_open (opens b) = b
is_open _ = false

unfoldable pub is_refused : Answer → Bool
is_refused failed = true
is_refused (opens b) = not b
is_refused _ = false

unfoldable pub poll_opens : Poll → Bool
poll_opens poll_done = true
poll_opens _ = false

-- A link that is lost and may be opened again, and no resume is under way: no later than 60 s behind `t` the next
-- attempt is due, and no later than 5 s behind it one that has begun is given up.
pub record Lost (t : ℕ) (s : Life) : Type 0 where
  pub free : is_suspended s ≡ false
  pub gone : is_disconnected s ≡ true
  pub auto : s.reconnect ≡ true
  pub no_ack : s.resume_ack ≡ false
  pub short : s.delay ≤ reconnect_max
  pub soon : s.next ≤ t + reconnect_max
  pub watched : s.connecting ≡ true → s.deadline ≤ t + 5

-- An event up to the time `t` that does not open the link and is no suspend: a turn whose attempt is refused or
-- only begins, an event of the link that does not end a connect with success, a client's resume.
abbrev pub Fails : ℕ → Event → Type 0
Fails t (turn now blocked answer) = (now ≤ t) × (is_open answer ≡ false)
Fails t (link_ready now ended hangup flush_failed poll) = (now ≤ t) × (poll_opens poll ≡ false)
Fails t (out_ready now flush_failed) = Unit
Fails t suspend = ⊥
Fails t (resume now blocked answer id) = Unit

abbrev pub AllFail : ℕ → List Event → Type 0
AllFail t [] = Unit
AllFail t (e ∷ es) = Fails t e × AllFail t es

pub give_up-Lost : (t now : ℕ) (s : Life) → Lost t s → now ≤ t → Lost t (link_connect_give_up now s)
unfolding link_connect_give_up link_schedule_retry
give_up-Lost t now s l h =
    if-elim
      (λ (x : Life). Lost t (record x {
        next = now + x.delay;
        delay = if ltb reconnect_max (x.delay * 2) then reconnect_max else x.delay * 2;
      }))
      s.resume_ack _ _ (λ e. let f = l.no_ack in absurd cc)
      (λ _. record {
        free = l.free;
        gone = refl;
        auto = l.auto;
        no_ack = l.no_ack;
        short = ground arith;
        soon = omega (arith, l.short);
        watched = λ e. absurd cc;
      })

-- What an attempt does: nothing; the device has moved; or the link is opened.
pub attempt_cases :
    (now : ℕ) (blocked : Bool) (answer : Answer) (s : Life) (P : Life → Type 0)
    → P s
    → P (record s { next = now + 30 })
    → (s.connecting ≡ false → P (reconnect_with now answer s))
    → P (attempt_reconnect now blocked answer s)
unfolding attempt_reconnect
attempt_cases now blocked answer s P same moved tried =
    if-elim P (is_suspended s) _ _ (λ _. same)
      (λ _.
        if-elim P s.connecting _ _ (λ _. same)
          (λ idle.
            if-elim P (not (is_disconnected s) || not s.reconnect) _ _ (λ _. same)
              (λ _.
                if-elim P (ltb now s.next) _ _ (λ _. same)
                  (λ _. if-elim P blocked _ _ (λ _. moved) (λ _. tried idle)))))

-- The attempt of a lost link that is due.
pub attempt_due :
    (now : ℕ) (answer : Answer) (s : Life)
    → is_suspended s ≡ false
    → is_disconnected s ≡ true
    → s.reconnect ≡ true
    → s.connecting ≡ false
    → s.next ≤ now
    → attempt_reconnect now false answer s ≡ reconnect_with now answer s
unfolding attempt_reconnect
attempt_due now answer s free gone auto idle due =
    let early : ltb now s.next ≡ false = ground arith in rw (free, idle, gone, auto, early) refl

pub moved-Lost : (t now : ℕ) (s : Life) → Lost t s → now ≤ t → Lost t (record s { next = now + 30 })
moved-Lost t now s l h = record {
  free = l.free;
  gone = l.gone;
  auto = l.auto;
  no_ack = l.no_ack;
  short = l.short;
  soon = omega arith;
  watched = l.watched;
}

-- An answer that does not open the link, whatever the flags say else.
pub reconnect-Lost :
    (t now : ℕ) (answer : Answer) (s : Life)
    → Lost t s
    → now ≤ t
    → s.connecting ≡ false
    → is_open answer ≡ false
    → Lost t (reconnect_with now answer s)
unfolding reconnect_with is_open link_schedule_retry link_watch_connecting
reconnect-Lost t now connected s l h idle no_open = absurd cc
reconnect-Lost t now in_progress s l h idle no_open = record {
  free = l.free;
  gone = l.gone;
  auto = l.auto;
  no_ack = l.no_ack;
  short = l.short;
  soon = l.soon;
  watched = λ _. omega arith;
}
reconnect-Lost t now failed s l h idle no_open = record {
  free = l.free;
  gone = l.gone;
  auto = l.auto;
  no_ack = l.no_ack;
  short = ground arith;
  soon = omega (arith, l.short);
  watched = l.watched;
}
reconnect-Lost t now (opens true) s l h idle no_open = absurd cc
reconnect-Lost t now (opens false) s l h idle no_open = record {
  free = l.free;
  gone = l.gone;
  auto = l.auto;
  no_ack = l.no_ack;
  short = ground arith;
  soon = omega (arith, l.short);
  watched = l.watched;
}

pub turn-Lost :
    (t now : ℕ) (blocked : Bool) (answer : Answer) (s : Life)
    → Lost t s
    → now ≤ t
    → is_open answer ≡ false
    → Lost t (each_turn now blocked answer s)
unfolding each_turn
turn-Lost t now blocked answer s l h no_open =
    let w : Lost t (attempt_reconnect now blocked answer s) =
      attempt_cases now blocked answer s (λ x. Lost t x) l (moved-Lost t now s l h)
        (λ idle. reconnect-Lost t now answer s l h idle no_open) in
    if-elim (λ (x : Life). Lost t x) _ _ _
      (λ _. give_up-Lost t now (attempt_reconnect now blocked answer s) w h) (λ _. w)

connecting-Lost :
    (t now : ℕ) (poll : Poll) (s : Life)
    → Lost t s
    → now ≤ t
    → poll_opens poll ≡ false
    → Lost t (handle_link_connecting now poll s)
unfolding handle_link_connecting poll_opens
connecting-Lost t now poll_failed s l h undone = give_up-Lost t now s l h
connecting-Lost t now poll_pending s l h undone = l
connecting-Lost t now poll_done s l h undone = absurd cc

pub step-Lost : (t : ℕ) (s : Life) (e : Event) → Lost t s → Fails t e → Lost t (step s e)
unfolding step
step-Lost t s (turn now blocked answer) l f = turn-Lost t now blocked answer s l f.0 f.1
step-Lost t s (link_ready now ended hangup flush_failed poll) l f =
    unfold link_event in
    if-elim (λ (x : Life). Lost t x) (s.connecting && not (is_suspended s)) _ _
      (λ _. connecting-Lost t now poll s l f.0 f.1)
      (λ _.
        if-elim (λ (x : Life). Lost t x) (not (is_suspended s) && not (is_disconnected s)) _ _
          (λ e. absurd (ground (arith, e, l.gone))) (λ _. l))
step-Lost t s (out_ready now flush_failed) l f =
    unfold out_event in
    if-elim (λ (x : Life). Lost t x)
      (not (is_suspended s) && not (is_disconnected s) && flush_failed) _ _
      (λ e. absurd (ground (arith, e, l.gone))) (λ _. l)
step-Lost t s suspend l f = absurd f
step-Lost t s (resume now blocked answer id) l f =
    unfold handle_resume do_resume in
    if-elim (λ (out : Resumed × Life). Lost t (note_id id out)) (not (is_suspended s)) _ _
      (λ _. noted id) (λ e. absurd (ground (arith, e, l.free)))
  where
    noted : (o : Option Bytes) → Lost t (note_id o (not_suspended, s))
    noted none = unfold note_id in l
    noted (some _) = unfold note_id in l
