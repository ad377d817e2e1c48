-- ===== src/Broker/Reopen/Suspended.antt =====
-- A suspended link is left alone until it is resumed.
use smolmux.Base.{
  ℕ, Bool, true, false, not, ◌&&◌, List, [], ◌∷◌, ◌≡◌, refl, ap, ◌∙◌, arith, ltb, if◌then◌else◌,
  if-elim,
}
use smolmux.Broker.Reopen.{
  Life, Event, turn, link_ready, out_ready, suspend, resume, step, run, Answer, Poll, is_suspended,
  is_disconnected, each_turn, attempt_reconnect, link_event, out_event, do_suspend,
  link_connect_give_up,
}
use smolmux.Broker.Reopen.Inv.{Guarded}

unfoldable pub is_resume : Event → Bool
is_resume (resume now blocked answer id) = true
is_resume _ = false

-- No event is a resume.
unfoldable pub no_resume : List Event → Bool
no_resume [] = true
no_resume (e ∷ es) = not (is_resume e) && no_resume es

module _ (s : Life) (v : Guarded s) (held : is_suspended s ≡ true) where
  turn_held : (now : ℕ) (blocked : Bool) (answer : Answer) → each_turn now blocked answer s ≡ s
  unfolding each_turn attempt_reconnect
  turn_held now blocked answer =
      let idle = (v.let_go held).1 in
      let left : attempt_reconnect now blocked answer s ≡ s =
        unfold attempt_reconnect in
        if-elim (λ (x : Life). x ≡ s) (is_suspended s) _ _ (λ _. refl) (λ e. absurd cc) in
      ap
        (λ (x : Life). if x.connecting && ltb x.deadline now then link_connect_give_up now x else x)
        left
      ∙ if-elim (λ (x : Life). x ≡ s) (s.connecting && ltb s.deadline now) _ _
          (λ e. absurd (ground (arith, e, idle))) (λ _. refl)

  event_held :
      (now : ℕ) (ended hangup flush_failed : Bool) (poll : Poll)
      → link_event now ended hangup flush_failed poll s ≡ s
  unfolding link_event
  event_held now ended hangup flush_failed poll =
      if-elim (λ (x : Life). x ≡ s) (s.connecting && not (is_suspended s)) _ _
        (λ e. absurd (ground (arith, e, held)))
        (λ _.
          if-elim (λ (x : Life). x ≡ s) (not (is_suspended s) && not (is_disconnected s)) _ _
            (λ e. absurd (ground (arith, e, held))) (λ _. refl))

  step_held : (e : Event) → is_resume e ≡ false → step s e ≡ s
  unfolding step is_resume
  step_held (turn now blocked answer) h = turn_held now blocked answer
  step_held (link_ready now ended hangup flush_failed poll) h =
      event_held now ended hangup flush_failed poll
  step_held (out_ready now flush_failed) h =
      unfold out_event in
      if-elim (λ (x : Life). x ≡ s)
        (not (is_suspended s) && not (is_disconnected s) && flush_failed) _ _
        (λ e. absurd (ground (arith, e, held))) (λ _. refl)
  step_held suspend h =
      unfold do_suspend in
      if-elim (λ (out : Bool × Life). out.1 ≡ s) (is_suspended s) _ _ (λ _. refl) (λ e. absurd cc)
  step_held (resume now blocked answer id) h = absurd cc

-- While the link is suspended and no client resumes it, turns of the event loop, events of the link and further
-- suspends change nothing and call nothing: the broker does not touch the device.
pub run_suspended :
    (s : Life) (es : List Event)
    → Guarded s
    → is_suspended s ≡ true
    → no_resume es ≡ true
    → run s es ≡ s
unfolding run no_resume
run_suspended s [] v held h = refl
run_suspended s (e ∷ es) v held h =
    ap (λ x. run x es) (step_held s v held e (ground (arith, h)))
    ∙ run_suspended s es v held (ground (arith, h))
