-- ===== src/Broker/Reopen/Inv.antt =====
-- What holds of the link's flags, and that every operation keeps it.
use smolmux.Base.{
  ℕ, ◌≤◌, Bool, true, false, not, ◌&&◌, ◌||◌, List, [], ◌∷◌, ◌≡◌, refl, ◌∙◌, arith, Bytes, ltb,
  if◌then◌else◌, if-elim, Option, none, some,
}
use smolmux.Broker.Reopen.{
  Effect, fence_down, fence_up, begin_link, open_link, closed, opening, opened, Life, Answer,
  connected, in_progress, failed, opens, reconnect_max, is_suspended, is_disconnected,
  link_schedule_retry, announce, link_bring_up, link_watch_connecting, link_connect_give_up, Poll,
  poll_failed, poll_pending, poll_done, handle_link_connecting, handle_link_disconnect, link_event,
  out_event, reconnect_with, attempt_reconnect, each_turn, do_suspend, Resumed, resumed, resume_up,
  resume_with, do_resume, note_id, handle_resume, not_suspended, not_opened,
}

-- The last fence in the history says that the link is down.
abbrev pub last_down : List Effect → Bool
last_down [] = false
last_down (fence_down ∷ log) = true
last_down (fence_up ∷ log) = false
last_down (_ ∷ log) = last_down log

-- A fence of the link's loss never follows another without one of its return.
abbrev pub Alternate : List Effect → Type 0
Alternate [] = Unit
Alternate (fence_down ∷ log) = (last_down log ≡ false) × Alternate log
Alternate (_ ∷ log) = Alternate log

pub record Guarded (s : Life) : Type 0 where
  -- While the link is suspended the broker holds no device.
  pub let_go : is_suspended s ≡ true → (s.wire ≡ closed) × (s.connecting ≡ false)
  -- When no flag is set the device is open.
  pub up :
      is_suspended s ≡ false → is_disconnected s ≡ false → s.connecting ≡ false → s.wire ≡ opened
  pub watched : s.wire ≡ opening → s.connecting ≡ true
  -- When the device is open no flag is set.
  pub used :
      s.wire ≡ opened
      → (is_suspended s ≡ false) × (is_disconnected s ≡ false) × (s.connecting ≡ false)
  pub short : s.delay ≤ reconnect_max
  pub fenced : Alternate s.log
  pub last : is_disconnected s ≡ false → last_down s.log ≡ false

-- What none of the flags says may change, and the log by what is no fence.
carried :
    (s : Life) (ack : Bool) (id : Bytes) (next : ℕ) (log : List Effect)
    → last_down log ≡ last_down s.log
    → (Alternate s.log → Alternate log)
    → Guarded s
    → Guarded (record s { resume_ack = ack; resume_id = id; next = next; log = log })
carried s ack id next log same alt v = record {
  let_go = v.let_go;
  up = v.up;
  watched = v.watched;
  used = v.used;
  short = v.short;
  fenced = alt v.fenced;
  last = λ h. same ∙ v.last h;
}

announce-Guarded : (b : Bool) (s : Life) → Guarded s → Guarded (announce b s)
unfolding announce
announce-Guarded false s v = v
announce-Guarded true s v =
    if-elim (λ (s' : Life). Guarded s') s.resume_ack _ _ (λ _. carried s _ _ _ _ refl (λ a. a) v)
      (λ _. carried s _ _ _ _ refl (λ a. a) v)

pub link_bring_up-Guarded :
    (b : Bool) (s : Life)
    → s.wire ≡ opened
    → is_suspended s ≡ false
    → s.delay ≤ reconnect_max
    → Alternate s.log
    → Guarded (link_bring_up b s)
unfolding link_bring_up
link_bring_up-Guarded b s open_now free short alt = announce-Guarded b _ (record {
  let_go = λ h. absurd cc;
  up = λ _ _ _. open_now;
  watched = λ h. absurd cc;
  used = λ _. (free, refl, refl);
  short = short;
  fenced = alt;
  last = λ _. refl;
})

pub watch-Guarded :
    (now : ℕ) (s : Life)
    → s.wire ≡ opening
    → is_suspended s ≡ false
    → s.delay ≤ reconnect_max
    → Alternate s.log
    → (is_disconnected s ≡ false → last_down s.log ≡ false)
    → Guarded (link_watch_connecting now s)
unfolding link_watch_connecting
watch-Guarded now s begun free short alt l = record {
  let_go = λ h. absurd cc;
  up = λ _ _ h. absurd cc;
  watched = λ _. refl;
  used = λ h. absurd cc;
  short = short;
  fenced = alt;
  last = l;
}

-- The retry of a link that is closed and lost.
retry-Guarded :
    (now : ℕ) (s : Life)
    → s.wire ≡ closed
    → s.connecting ≡ false
    → is_disconnected s ≡ true
    → Alternate s.log
    → Guarded (link_schedule_retry now s)
unfolding link_schedule_retry
retry-Guarded now s shut idle lost alt = record {
  let_go = λ _. (shut, idle);
  up = λ _ h _. absurd cc;
  watched = λ h. absurd cc;
  used = λ h. absurd cc;
  short = ground arith;
  fenced = alt;
  last = λ h. absurd cc;
}

pub give_up-Guarded : (now : ℕ) (s : Life) → Guarded s → Guarded (link_connect_give_up now s)
unfolding link_connect_give_up
give_up-Guarded now s v =
    if-elim (λ (s' : Life). Guarded (link_schedule_retry now s')) s.resume_ack _ _
      (λ _. retry-Guarded now _ refl refl refl v.fenced)
      (λ _. retry-Guarded now _ refl refl refl v.fenced)

pub disconnect-Guarded : (now : ℕ) (s : Life) → Guarded s → Guarded (handle_link_disconnect now s)
unfolding handle_link_disconnect
disconnect-Guarded now s v =
    if-elim (λ (s' : Life). Guarded s') (is_disconnected s) _ _ (λ _. v)
      (λ live. record {
        let_go = λ h. (refl, (v.let_go h).1);
        up = λ _ h _. absurd cc;
        watched = λ h. absurd cc;
        used = λ h. absurd cc;
        short = omega arith;
        fenced = (v.last live, v.fenced);
        last = λ h. absurd cc;
      })

connecting-Guarded :
    (now : ℕ) (poll : Poll) (s : Life)
    → is_suspended s ≡ false
    → Guarded s
    → Guarded (handle_link_connecting now poll s)
unfolding handle_link_connecting
connecting-Guarded now poll_failed s free v = give_up-Guarded now s v
connecting-Guarded now poll_pending s free v = v
connecting-Guarded now poll_done s free v = link_bring_up-Guarded true _ refl free v.short v.fenced

pub link_event-Guarded :
    (now : ℕ) (ended hangup flush_failed : Bool) (poll : Poll) (s : Life)
    → Guarded s
    → Guarded (link_event now ended hangup flush_failed poll s)
unfolding link_event
link_event-Guarded now ended hangup flush_failed poll s v =
    if-elim (λ (s' : Life). Guarded s') (s.connecting && not (is_suspended s)) _ _
      (λ e. connecting-Guarded now poll s (ground (arith, e)) v)
      (λ _.
        if-elim (λ (s' : Life). Guarded s') (not (is_suspended s) && not (is_disconnected s)) _ _
          (λ _. maybe flush_failed _ (maybe hangup _ (maybe ended s v))) (λ _. v))
  where
    maybe :
        (b : Bool) (s : Life) → Guarded s → Guarded (if b then handle_link_disconnect now s else s)
    maybe true s v = disconnect-Guarded now s v
    maybe false s v = v

pub out_event-Guarded :
    (now : ℕ) (flush_failed : Bool) (s : Life) → Guarded s → Guarded (out_event now flush_failed s)
unfolding out_event
out_event-Guarded now flush_failed s v =
    if-elim (λ (s' : Life). Guarded s')
      (not (is_suspended s) && not (is_disconnected s) && flush_failed) _ _
      (λ _. disconnect-Guarded now s v) (λ _. v)

reconnect-Guarded :
    (now : ℕ) (answer : Answer) (s : Life)
    → is_suspended s ≡ false
    → s.connecting ≡ false
    → is_disconnected s ≡ true
    → Guarded s
    → Guarded (reconnect_with now answer s)
unfolding reconnect_with
reconnect-Guarded now connected s free idle lost v =
    link_bring_up-Guarded true _ refl free v.short v.fenced
reconnect-Guarded now in_progress s free idle lost v =
    watch-Guarded now _ refl free v.short v.fenced v.last
reconnect-Guarded now failed s free idle lost v = retry-Guarded now _ refl idle lost v.fenced
reconnect-Guarded now (opens true) s free idle lost v =
    link_bring_up-Guarded true _ refl free v.short v.fenced
reconnect-Guarded now (opens false) s free idle lost v = retry-Guarded now _ refl idle lost v.fenced

attempt-Guarded :
    (now : ℕ) (blocked : Bool) (answer : Answer) (s : Life)
    → Guarded s
    → Guarded (attempt_reconnect now blocked answer s)
unfolding attempt_reconnect
attempt-Guarded now blocked answer s v =
    if-elim (λ (s' : Life). Guarded s') (is_suspended s) _ _ (λ _. v)
      (λ free.
        if-elim (λ (s' : Life). Guarded s') s.connecting _ _ (λ _. v)
          (λ idle.
            if-elim (λ (s' : Life). Guarded s') (not (is_disconnected s) || not s.reconnect) _ _
              (λ _. v)
              (λ lost.
                if-elim (λ (s' : Life). Guarded s') (ltb now s.next) _ _ (λ _. v)
                  (λ _.
                    if-elim (λ (s' : Life). Guarded s') blocked _ _
                      (λ _. carried s _ _ _ _ refl (λ a. a) v)
                      (λ _. reconnect-Guarded now answer s free idle (ground (arith, lost)) v)))))

pub each_turn-Guarded :
    (now : ℕ) (blocked : Bool) (answer : Answer) (s : Life)
    → Guarded s
    → Guarded (each_turn now blocked answer s)
unfolding each_turn
each_turn-Guarded now blocked answer s v =
    let w = attempt-Guarded now blocked answer s v in
    if-elim (λ (s' : Life). Guarded s') _ _ _
      (λ _. give_up-Guarded now (attempt_reconnect now blocked answer s) w) (λ _. w)

pub do_suspend-Guarded : (s : Life) → Guarded s → Guarded (do_suspend s).1
unfolding do_suspend
do_suspend-Guarded s v =
    if-elim (λ (out : Bool × Life). Guarded out.1) (is_suspended s) _ _ (λ _. v)
      (λ _. record {
        let_go = λ _. (refl, refl);
        up = λ h. absurd cc;
        watched = λ h. absurd cc;
        used = λ h. absurd cc;
        short = v.short;
        fenced = v.fenced;
        last = v.last;
      })

resume_up-Guarded :
    (s : Life)
    → s.wire ≡ opened
    → s.delay ≤ reconnect_max
    → Alternate s.log
    → Guarded (resume_up s).1
unfolding resume_up
resume_up-Guarded s open_now short alt =
    carried _ _ _ _ _ refl (λ a. a)
      (link_bring_up-Guarded false (record s { line = record s.line { suspended = false } })
        open_now refl short alt)

-- An attempt to resume that fails leaves the link suspended.
still_shut :
    (s : Life) (e : Effect)
    → last_down (e ∷ s.log) ≡ last_down s.log
    → Alternate (e ∷ s.log)
    → is_suspended s ≡ true
    → Guarded s
    → Guarded (record s { wire = closed; log = e ∷ s.log })
still_shut s e same alt held v = record {
  let_go = λ h. (refl, (v.let_go h).1);
  up = λ h. absurd cc;
  watched = λ h. absurd cc;
  used = λ h. absurd cc;
  short = v.short;
  fenced = alt;
  last = λ h. same ∙ v.last h;
}

resume-Guarded :
    (now : ℕ) (answer : Answer) (s : Life)
    → is_suspended s ≡ true
    → Guarded s
    → Guarded (resume_with now answer s).1
unfolding resume_with
resume-Guarded now connected s held v = resume_up-Guarded _ refl v.short v.fenced
resume-Guarded now in_progress s held v = watch-Guarded now _ refl refl v.short v.fenced v.last
resume-Guarded now failed s held v = still_shut s begin_link refl v.fenced held v
resume-Guarded now (opens true) s held v = resume_up-Guarded _ refl v.short v.fenced
resume-Guarded now (opens false) s held v = still_shut s open_link refl v.fenced held v

noted : (id : Option Bytes) (rc : Resumed) (s : Life) → Guarded s → Guarded (note_id id (rc, s))
unfolding note_id
noted none rc s v = v
noted (some id) not_suspended s v = v
noted (some id) not_opened s v = v
noted (some id) resumed s v =
    if-elim (λ (s' : Life). Guarded s') s.resume_ack _ _ (λ _. carried s _ _ _ _ refl (λ a. a) v)
      (λ _. v)

pub handle_resume-Guarded :
    (now : ℕ) (blocked : Bool) (answer : Answer) (id : Option Bytes) (s : Life)
    → Guarded s
    → Guarded (handle_resume now blocked answer id s)
unfolding handle_resume do_resume
handle_resume-Guarded now blocked answer id s v =
    if-elim (λ (out : Resumed × Life). Guarded (note_id id out)) (not (is_suspended s)) _ _
      (λ _. noted id not_suspended s v)
      (λ held.
        if-elim (λ (out : Resumed × Life). Guarded (note_id id out)) blocked _ _
          (λ _. noted id not_opened s v)
          (λ _.
            noted id (resume_with now answer s).0 (resume_with now answer s).1
              (resume-Guarded now answer s (ground (arith, held)) v)))
