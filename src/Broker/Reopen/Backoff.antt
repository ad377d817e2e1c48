-- ===== src/Broker/Reopen/Backoff.antt =====
-- A lost link is opened again, however often that fails before, and the broker waits between its attempts.
use smolmux.Base.{
  ℕ, ◌+◌, ◌≤◌, ◌<◌, Bool, true, false, List, [], ◌∷◌, ◌++◌, ◌≡◌, refl, sym, subst, ap, ◌∙◌, arith,
  ltb, if◌then◌else◌, if-elim, not, ◌&&◌, ◌||◌, Bool-cases, inl, inr,
}
use smolmux.Broker.Reopen.{
  Life, opened, Event, turn, step, run, Answer, connected, in_progress, failed, opens, is_suspended,
  is_disconnected, reconnect_max, each_turn, attempt_reconnect, reconnect_with, link_schedule_retry,
  link_bring_up, link_connect_give_up, announce,
}
use smolmux.Broker.Reopen.Failing.{
  Lost, is_open, is_refused, AllFail, step-Lost, attempt_cases, attempt_due, reconnect-Lost,
  moved-Lost, give_up-Lost,
}

-- A turn in which nothing is in progress behind its attempt is that attempt.
turn_idle :
    (now : ℕ) (blocked : Bool) (answer : Answer) (s : Life)
    → (attempt_reconnect now blocked answer s).connecting ≡ false
    → each_turn now blocked answer s ≡ attempt_reconnect now blocked answer s
unfolding each_turn
turn_idle now blocked answer s idle =
    if-elim (λ (x : Life). x ≡ attempt_reconnect now blocked answer s)
      ((attempt_reconnect now blocked answer s).connecting
        && ltb (attempt_reconnect now blocked answer s).deadline now)
      _ _ (λ e. absurd (ground (arith, e, idle))) (λ _. refl)

-- A turn behind the deadline of an attempt in progress gives it up.
turn_late :
    (now : ℕ) (blocked : Bool) (answer : Answer) (s : Life)
    → is_suspended s ≡ false
    → s.connecting ≡ true
    → s.deadline < now
    → each_turn now blocked answer s ≡ link_connect_give_up now s
unfolding each_turn attempt_reconnect
turn_late now blocked answer s free busy late =
    let e : ltb s.deadline now ≡ true = ground arith in
    let left : attempt_reconnect now blocked answer s ≡ s =
      unfold attempt_reconnect in rw (free, busy) refl in
    ap (λ (x : Life). if x.connecting && ltb x.deadline now then link_connect_give_up now x else x)
      left
    ∙ if-elim (λ (x : Life). x ≡ link_connect_give_up now s) (s.connecting && ltb s.deadline now) _
        _ (λ _. refl) (λ f. absurd (ground (arith, f, e, busy)))

gives_up_idle : (now : ℕ) (s : Life) → (link_connect_give_up now s).connecting ≡ false
unfolding link_connect_give_up link_schedule_retry
gives_up_idle now s =
    if-elim (λ (x : Life). x.connecting ≡ false) s.resume_ack _ _ (λ _. refl) (λ _. refl)

later_Lost : (t late : ℕ) (s : Life) → Lost t s → t ≤ late → Lost late s
later_Lost t late s l h = record {
  free = l.free;
  gone = l.gone;
  auto = l.auto;
  no_ack = l.no_ack;
  short = l.short;
  soon = omega (arith, l.soon);
  watched = λ e. omega (arith, l.watched e);
}

refused_idle :
    (now : ℕ) (answer : Answer) (s : Life)
    → is_refused answer ≡ true
    → s.connecting ≡ false
    → (is_open answer ≡ false) × ((reconnect_with now answer s).connecting ≡ false)
unfolding is_open is_refused reconnect_with link_schedule_retry
refused_idle now connected s refused idle = absurd cc
refused_idle now in_progress s refused idle = absurd cc
refused_idle now failed s refused idle = (refl, idle)
refused_idle now (opens true) s refused idle = absurd cc
refused_idle now (opens false) s refused idle = (refl, idle)

refused_turn :
    (t late : ℕ) (blocked : Bool) (answer : Answer) (s : Life)
    → Lost t s
    → t + 5 < late
    → is_refused answer ≡ true
    → Lost late (each_turn late blocked answer s)
      × ((each_turn late blocked answer s).connecting ≡ false)
refused_turn t late blocked answer s l h refused = elim (Bool-cases s.connecting) [
  | inl busy ↦
      subst Waits
        (sym (turn_late late blocked answer s l.free busy (omega (arith, l.watched busy))))
        (give_up-Lost late late s now_lost (omega arith), gives_up_idle late s)
  | inr idle ↦
      let w : Waits (attempt_reconnect late blocked answer s) =
        attempt_cases late blocked answer s Waits (now_lost, idle)
          (moved-Lost late late s now_lost (omega arith), idle)
          (λ _.
            let (shut, stays) = refused_idle late answer s refused idle in
            (reconnect-Lost late late answer s now_lost (omega arith) idle shut, stays)) in
      subst Waits (sym (turn_idle late blocked answer s w.1)) w
]
  where
    now_lost : Lost late s
    now_lost = later_Lost t late s l (omega arith)

    Waits : Life → Type 0
    Waits x = Lost late x × (x.connecting ≡ false)

-- The device is open and no flag of the link is set.
abbrev pub IsUp : Life → Type 0
IsUp s =
    (s.wire ≡ opened)
    × (is_suspended s ≡ false)
    × (is_disconnected s ≡ false)
    × (s.connecting ≡ false)

announced : (s : Life) → IsUp s → IsUp (announce true s)
unfolding announce
announced s up = if-elim (λ (x : Life). IsUp x) s.resume_ack _ _ (λ _. up) (λ _. up)

opened-IsUp :
    (now : ℕ) (answer : Answer) (s : Life)
    → is_suspended s ≡ false
    → is_open answer ≡ true
    → IsUp (reconnect_with now answer s)
unfolding is_open reconnect_with link_bring_up
opened-IsUp now connected s free ok = announced _ (refl, free, refl, refl)
opened-IsUp now in_progress s free ok = absurd cc
opened-IsUp now failed s free ok = absurd cc
opened-IsUp now (opens true) s free ok = announced _ (refl, free, refl, refl)
opened-IsUp now (opens false) s free ok = absurd cc

opened_turn :
    (late now : ℕ) (answer : Answer) (s : Life)
    → Lost late s × (s.connecting ≡ false)
    → late + reconnect_max ≤ now
    → is_open answer ≡ true
    → IsUp (each_turn now false answer s)
opened_turn late now answer s (l, idle) h ok =
    let tried = attempt_due now answer s l.free l.gone l.auto idle (omega (arith, l.soon)) in
    let up = subst IsUp (sym tried) (opened-IsUp now answer s l.free ok) in
    subst IsUp (sym (turn_idle now false answer s up.3)) up

-- A lost link that may be opened again, with no resume under way and the next attempt due no later than 60 s behind
-- a time `t`, and any turns, events of the link and resumes up to `t` that do not open it: the device has moved, an attempt is refused, or it is begun and
-- fails, hangs or times out. With a turn more than 5 s later, whose attempt, if it makes one, is refused at once,
-- and one 60 s or more behind that in which the link can be opened, by `connect_begin` or by `open`, it is up.
pub reopens :
    (t late now : ℕ) (tries : List Event) (blocked : Bool) (answer answer' : Answer) (s : Life)
    → Lost t s
    → AllFail t tries
    → t + 5 < late
    → is_refused answer ≡ true
    → late + reconnect_max ≤ now
    → is_open answer' ≡ true
    → IsUp (run s (tries ++ turn late blocked answer ∷ turn now false answer' ∷ []))
unfolding run step
reopens t late now [] blocked answer answer' s l f h refused k ok =
    opened_turn late now answer' _ (refused_turn t late blocked answer s l h refused) k ok
reopens t late now (e ∷ es) blocked answer answer' s l f h refused k ok =
    reopens t late now es blocked answer answer' (step s e) (step-Lost t s e l f.0) f.1 h refused k
      ok

-- Turns with their times, whether the device has moved, and the link's answers.
abbrev pub turns : List (ℕ × Bool × Answer) → List Event
turns [] = []
turns ((now, blocked, answer) ∷ rest) = turn now blocked answer ∷ turns rest

abbrev pub AllBefore : ℕ → List (ℕ × Bool × Answer) → Type 0
AllBefore t [] = Unit
AllBefore t ((now, blocked, answer) ∷ rest) = (now < t) × AllBefore t rest

early_turn :
    (at : ℕ) (blocked : Bool) (answer : Answer) (s : Life)
    → is_suspended s ≡ false
    → s.connecting ≡ false
    → at < s.next
    → each_turn at blocked answer s ≡ s
unfolding attempt_reconnect
early_turn at blocked answer s free idle early =
    let e : ltb at s.next ≡ true = ground arith in
    let left : attempt_reconnect at blocked answer s ≡ s =
      if-elim (λ (x : Life). x ≡ s) (is_suspended s) _ _ (λ _. refl)
        (λ _.
          if-elim (λ (x : Life). x ≡ s) s.connecting _ _ (λ _. refl)
            (λ _.
              if-elim (λ (x : Life). x ≡ s) (not (is_disconnected s) || not s.reconnect) _ _
                (λ _. refl)
                (λ _.
                  if-elim (λ (x : Life). x ≡ s) (ltb at s.next) _ _ (λ _. refl)
                    (λ f. absurd (ground (arith, e, f)))))) in
    turn_idle at blocked answer s (ap (λ (x : Life). x.connecting) left ∙ idle) ∙ left

early_turns :
    (t : ℕ) (later : List (ℕ × Bool × Answer)) (s : Life)
    → is_suspended s ≡ false
    → s.connecting ≡ false
    → s.next ≡ t
    → AllBefore t later
    → run s (turns later) ≡ s
unfolding run step
early_turns t [] s free idle due h = refl
early_turns t ((at, blocked, answer) ∷ rest) s free idle due h =
    ap (λ (x : Life). run x (turns rest))
      (early_turn at blocked answer s free idle (omega (arith, h.0)))
    ∙ early_turns t rest s free idle due h.1

refused_next :
    (now : ℕ) (answer : Answer) (s : Life)
    → is_refused answer ≡ true
    → ((reconnect_with now answer s).next ≡ now + s.delay)
      × (is_suspended (reconnect_with now answer s) ≡ is_suspended s)
unfolding is_refused reconnect_with link_schedule_retry
refused_next now connected s refused = absurd cc
refused_next now in_progress s refused = absurd cc
refused_next now failed s refused = (refl, refl)
refused_next now (opens true) s refused = absurd cc
refused_next now (opens false) s refused = (refl, refl)

-- An attempt on a lost link, when it is due and none is in progress, that is refused at once, by `connect_begin` or by `open`: whatever the link would
-- answer, no turn before the delay is over changes anything or calls the link.
pub paced :
    (t now : ℕ) (answer : Answer) (later : List (ℕ × Bool × Answer)) (s : Life)
    → Lost t s
    → s.connecting ≡ false
    → s.next ≤ now
    → is_refused answer ≡ true
    → AllBefore (now + s.delay) later
    → run s (turn now false answer ∷ turns later) ≡ run s (turn now false answer ∷ [])
unfolding run step
paced t now answer later s l idle due refused before =
    let tried = reconnect_with now answer s in
    let (_, stays) = refused_idle now answer s refused idle in
    let (next, free) = refused_next now answer s refused in
    let attempt = attempt_due now answer s l.free l.gone l.auto idle due in
    let made : each_turn now false answer s ≡ tried =
      turn_idle now false answer s (ap (λ (x : Life). x.connecting) attempt ∙ stays) ∙ attempt in
    ap (λ (x : Life). run x (turns later)) made
    ∙ early_turns (now + s.delay) later tried (free ∙ l.free) stays next before
    ∙ sym made
