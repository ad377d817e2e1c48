-- ===== src/Broker/Reopen.antt =====
-- src/broker.c: the life of the device link. It is lost and opened again with growing delays, or a client
-- suspends it, so that another program can use the device, and resumes it.
pub mod Inv
pub mod Runs
pub mod Suspended
pub mod Failing
pub mod Backoff
use smolmux.Base.{
  ℕ, zero, suc, ◌+◌, ◌*◌, Bool, true, false, not, ◌&&◌, ◌||◌, Option, none, some, List, [], ◌∷◌,
  Bytes, ltb, if◌then◌else◌, copied,
}
use smolmux.Broker.Line.{Line}

-- What the broker does besides changing its flags: calls of the link, the watchers' state that it clears, the
-- lines that it writes into the history, and messages to all clients.
pub data Effect : Type 0 where
  cancel_pulses disarm_stall cancel_expects abort_expects fresh_windows : Effect
  close_link begin_link open_link : Effect
  fence_down fence_up : Effect
  say_suspended say_resumed say_link_down say_link_up : Effect
  say_reopen_failed : Bytes → Effect

-- Where the calls of the link have left the device, as their answers say.
pub data Device : Type 0 where
  closed opening opened : Device

-- The fields of `sm_broker_t` for the link, and what was done so far, newest first. Times are seconds.
pub record Life : Type 0 where
  pub line : Line
  pub connecting : Bool
  pub resume_ack : Bool
  pub resume_id : Bytes
  pub reconnect : Bool
  pub delay : ℕ
  pub next : ℕ
  pub deadline : ℕ
  pub wire : Device
  pub log : List Effect

-- What `connect_begin` of the link returns, or `open` for a link without it.
pub data Answer : Type 0 where
  connected in_progress failed : Answer
  opens : Bool → Answer

-- `SM_RECONNECT_BASE_S`, `SM_RECONNECT_MAX_S`, `SM_LINK_CONNECT_TIMEOUT_S`
abbrev pub reconnect_base : ℕ
reconnect_base = 2

abbrev pub reconnect_max : ℕ
reconnect_max = 60

abbrev pub connect_timeout : ℕ
connect_timeout = 5

abbrev pub is_suspended : Life → Bool
is_suspended s = s.line.suspended

abbrev pub is_disconnected : Life → Bool
is_disconnected s = s.line.link_disconnected

-- The flag `suspended` or `link_disconnected` gets a value.
abbrev pub with_suspended : Bool → Life → Life
with_suspended v s = record s { line = record s.line { suspended = v } }

abbrev pub with_disconnected : Bool → Life → Life
with_disconnected v s = record s { line = record s.line { link_disconnected = v } }

-- `link_schedule_retry`
unfoldable pub link_schedule_retry : ℕ → Life → Life
link_schedule_retry now s = record s {
  next = now + s.delay;
  delay = if ltb reconnect_max (s.delay * 2) then reconnect_max else s.delay * 2;
}

unfoldable pub announce : Bool → Life → Life
announce false s = s
announce true s =
    if s.resume_ack
    then record s { resume_ack = false; log = say_resumed ∷ s.log }
    else record s { log = say_link_up ∷ s.log }

-- `link_bring_up`
unfoldable pub link_bring_up : Bool → Life → Life
link_bring_up broadcast_up s = announce broadcast_up (record s {
  line = record s.line { link_disconnected = false };
  connecting = false;
  log = fence_up ∷ fresh_windows ∷ s.log;
})

-- `link_watch_connecting`
unfoldable pub link_watch_connecting : ℕ → Life → Life
link_watch_connecting now s = record s { connecting = true; deadline = now + connect_timeout }

-- `link_connect_give_up`
unfoldable pub link_connect_give_up : ℕ → Life → Life
link_connect_give_up now s =
    let shut : Life = record s {
      line = record s.line { link_disconnected = true };
      connecting = false;
      wire = closed;
      log = close_link ∷ s.log;
    } in
    link_schedule_retry now (
      if s.resume_ack
      then record shut {
        line = record shut.line { suspended = true };
        resume_ack = false;
        resume_id = [];
        log = say_reopen_failed s.resume_id ∷ shut.log;
      }
      else shut)

-- What epoll and `connect_poll` say of a connect in progress: an error, still pending, or done.
pub data Poll : Type 0 where
  poll_failed poll_pending poll_done : Poll

-- `handle_link_connecting`
unfoldable pub handle_link_connecting : ℕ → Poll → Life → Life
handle_link_connecting now poll_failed s = link_connect_give_up now s
handle_link_connecting now poll_pending s = s
handle_link_connecting now poll_done s = link_bring_up true (record s { wire = opened })

-- `handle_link_disconnect`
unfoldable pub handle_link_disconnect : ℕ → Life → Life
handle_link_disconnect now s = if is_disconnected s then s else record s {
  line = record s.line { link_disconnected = true };
  delay = reconnect_base;
  next = now;
  wire = closed;
  log =
      say_link_down ∷ abort_expects ∷ fence_down ∷ close_link ∷ disarm_stall ∷ cancel_pulses
      ∷ s.log;
}

-- An epoll event of the link: the end of its data or an error, and a failing flush of its write queue.
unfoldable pub link_event : ℕ → Bool → Bool → Bool → Poll → Life → Life
link_event now ended hangup flush_failed poll s =
    let drained = if ended then handle_link_disconnect now s else s in
    let hung_up = if hangup then handle_link_disconnect now drained else drained in
    let flushed = if flush_failed then handle_link_disconnect now hung_up else hung_up in
    if s.connecting && not (is_suspended s)
    then handle_link_connecting now poll s
    else if not (is_suspended s) && not (is_disconnected s)
    then flushed
    else s

-- An epoll event of a separate descriptor for writing.
unfoldable pub out_event : ℕ → Bool → Life → Life
out_event now flush_failed s =
    if not (is_suspended s) && not (is_disconnected s) && flush_failed
    then handle_link_disconnect now s
    else s

-- An attempt to open the link, from `attempt_reconnect`.
unfoldable pub reconnect_with : ℕ → Answer → Life → Life
reconnect_with now connected s =
    link_bring_up true (record s { wire = opened; log = begin_link ∷ s.log })
reconnect_with now in_progress s =
    link_watch_connecting now (record s { wire = opening; log = begin_link ∷ s.log })
reconnect_with now failed s =
    link_schedule_retry now (record s { wire = closed; log = begin_link ∷ s.log })
reconnect_with now (opens true) s =
    link_bring_up true (record s { wire = opened; log = open_link ∷ s.log })
reconnect_with now (opens false) s =
    link_schedule_retry now (record s { wire = closed; log = open_link ∷ s.log })

-- `attempt_reconnect`; `blocked` is `broker_identity_blocks_reopen`.
unfoldable pub attempt_reconnect : ℕ → Bool → Answer → Life → Life
attempt_reconnect now blocked answer s =
    if is_suspended s
    then s
    else if s.connecting
    then s
    else if not (is_disconnected s) || not s.reconnect
    then s
    else if ltb now s.next
    then s
    else if blocked
    then record s { next = now + 30 }
    else reconnect_with now answer s

-- What each turn of the event loop does about the link, before the events.
unfoldable pub each_turn : ℕ → Bool → Answer → Life → Life
each_turn now blocked answer s =
    let tried = attempt_reconnect now blocked answer s in
    if tried.connecting && ltb tried.deadline now then link_connect_give_up now tried else tried

-- `sm_broker_do_suspend`; the result is true for 0.
unfoldable pub do_suspend : Life → Bool × Life
do_suspend s = if is_suspended s then (false, s) else (
  true,
  record s {
    line = record s.line { suspended = true };
    connecting = false;
    wire = closed;
    log = say_suspended ∷ close_link ∷ cancel_expects ∷ disarm_stall ∷ cancel_pulses ∷ s.log;
  },
)

-- What `sm_broker_do_resume` returns: 0, -1 and -2.
pub data Resumed : Type 0 where
  resumed not_suspended not_opened : Resumed

unfoldable pub resume_up : Life → Resumed × Life
resume_up s =
    let up = link_bring_up false (with_suspended false s) in
    (resumed, record up { log = say_resumed ∷ up.log })

unfoldable pub resume_with : ℕ → Answer → Life → Resumed × Life
resume_with now connected s = resume_up (record s { wire = opened; log = begin_link ∷ s.log })
resume_with now in_progress s =
    let begun : Life = record s { resume_ack = true; wire = opening; log = begin_link ∷ s.log } in
    (resumed, link_watch_connecting now (with_suspended false begun))
resume_with now failed s = (not_opened, record s { wire = closed; log = begin_link ∷ s.log })
resume_with now (opens true) s = resume_up (record s { wire = opened; log = open_link ∷ s.log })
resume_with now (opens false) s = (not_opened, record s { wire = closed; log = open_link ∷ s.log })

-- `sm_broker_do_resume`
unfoldable pub do_resume : ℕ → Bool → Answer → Life → Resumed × Life
do_resume now blocked answer s =
    if not (is_suspended s)
    then (not_suspended, s)
    else if blocked
    then (not_opened, s)
    else resume_with now answer s

unfoldable pub note_id : Option Bytes → Resumed × Life → Life
note_id (some id) (resumed, s) = if s.resume_ack then record s { resume_id = copied 64 id } else s
note_id _ (rc, s) = s

-- `handle_resume` of a client that may send; the reply to the client is left out.
unfoldable pub handle_resume : ℕ → Bool → Answer → Option Bytes → Life → Life
handle_resume now blocked answer id s = note_id id (do_resume now blocked answer s)

-- What happens to the link, with the time and what its calls answer.
pub data Event : Type 0 where
  turn : ℕ → Bool → Answer → Event
  link_ready : ℕ → Bool → Bool → Bool → Poll → Event
  out_ready : ℕ → Bool → Event
  suspend : Event
  resume : ℕ → Bool → Answer → Option Bytes → Event

unfoldable pub step : Life → Event → Life
step s (turn now blocked answer) = each_turn now blocked answer s
step s (link_ready now ended hangup flush_failed poll) =
    link_event now ended hangup flush_failed poll s
step s (out_ready now flush_failed) = out_event now flush_failed s
step s suspend = (do_suspend s).1
step s (resume now blocked answer id) = handle_resume now blocked answer id s

unfoldable pub run : Life → List Event → Life
run s [] = s
run s (e ∷ es) = run (step s e) es

-- The broker when `broker_setup` has opened the link.
abbrev pub started : Bool → Life
started reconnect = record {
  line = record { suspended = false; link_disconnected = false; calls = [] };
  connecting = false;
  resume_ack = false;
  resume_id = [];
  reconnect = reconnect;
  delay = 0;
  next = 0;
  deadline = 0;
  wire = opened;
  log = [];
}
