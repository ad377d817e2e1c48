-- ===== src/Broker/Break.antt =====
-- src/broker.c: the state machine that pulses BREAK, RTS or DTR and then sends the SysRq bytes.
pub mod Held
pub mod Inv
pub mod Schedule
pub mod Timer
pub mod Once
use smolmux.Base.{
  ℕ, ◌+◌, Bool, true, false, ◌&&◌, ◌||◌, not, Option, none, some, List, [], ◌∷◌, Bytes, ltb, ◌==◌,
  if◌then◌else◌, length,
}
use smolmux.Broker.Line.{
  ℤ, pos, negsuc, limited, Pin, pin_break, rts, dtr, Action, raise, clear, Call, set_param,
  send_break, Line, Written, written, call, do_write, is_written,
}

-- `break_state`
pub data Phase : Type 0 where
  idle asserted delay : Phase

-- `done` is the callback with its context, known by a number. `fired` are the callbacks so far, newest
-- first, with the success that they were given.
pub record Break : Type 0 where
  pub line : Line
  pub phase : Phase
  pub pin : Pin
  pub followup : Bytes
  pub delay_ms : ℕ
  pub done : Option ℕ
  pub has_timer : Bool
  pub armed : Bool
  pub fired : List (ℕ × Bool)

abbrev pub max_followup : ℕ
max_followup = 8

unfoldable pub fire : Option ℕ → Bool → List (ℕ × Bool) → List (ℕ × Bool)
fire none rc fired = fired
fire (some k) rc fired = (k, rc) ∷ fired

-- `break_complete`
unfoldable pub break_complete : Break → Bool → Break
break_complete b rc = record b {
  phase = idle;
  followup = [];
  done = none;
  armed = false;
  fired = fire b.done rc b.fired;
}

-- `break_timer_ensure`; the flag is the success of creating and registering the timer.
unfoldable pub break_timer_ensure : Bool → Break → Bool × Break
break_timer_ensure created b =
    let ready = b.has_timer || created in (ready, record b { has_timer = ready })

unfoldable pub is_idle : Phase → Bool
is_idle idle = true
is_idle asserted = false
is_idle delay = false

-- What happens to the machine: requests with the success of the timer calls, an expiry, a
-- cancellation, and the broker's own changes of the link's flags.
pub data Event : Type 0 where
  ask_break : Bool → Bool → ℤ → Bytes → ℤ → Option ℕ → Event
  ask_reset : Bool → Bool → Option Pin → ℤ → Option ℕ → Event
  expire : Bool → Event
  cancel : Event
  link_state : Bool → Bool → Event

module _ (link : List (Call × Bool) → Call → Bool) where
  abbrev pub set_line : Break → Pin → Action → Bool × Break
  set_line b pin action =
      let (ok, line) = call link b.line (set_param pin action) in (ok, record b { line = line })

  unfoldable pub cancel_at : Phase → Break → Break
  cancel_at idle b = b
  cancel_at asserted b = break_complete (set_line b b.pin clear).1 false
  cancel_at delay b = break_complete b false

  -- `break_cancel`
  abbrev pub break_cancel : Break → Break
  break_cancel b = cancel_at b.phase b

  -- The link without assert and release: the sequence at once, in the call.
  unfoldable pub break_at_once : Break → ℕ → Bytes → Option ℕ → Break
  break_at_once b ms followup callback =
      let (sent, line) = call link b.line (send_break ms) in
      let (rc, line') = do_write link line followup in
      if sent
      then (if length followup == 0
          then record b { line = line; fired = fire callback true b.fired }
          else record b { line = line'; fired = fire callback (is_written rc) b.fired })
      else record b { line = line; fired = fire callback false b.fired }

  -- The machine behind `SM_BRK_ASSERTED`, its timer armed or not.
  unfoldable pub break_start : Bool → Break → Pin → Option ℕ → Bytes → ℕ → Bool × Break
  break_start armed b pin callback followup delay_ms =
      if armed
      then (
        true,
        record b {
          phase = asserted;
          pin = pin;
          followup = followup;
          delay_ms = delay_ms;
          done = callback;
          armed = true;
        },
      )
      else (
        false,
        record (set_line b pin clear).1 {
          phase = idle;
          pin = pin;
          followup = [];
          delay_ms = delay_ms;
          done = none;
        },
      )

  -- `sm_broker_schedule_break`. The flags are the success of `timerfd_create` and `timerfd_settime`.
  unfoldable pub schedule_break : Bool → Bool → Break → ℤ → Bytes → ℤ → Option ℕ → Bool × Break
  schedule_break created armed b duration followup pause callback =
      let ms = limited duration 250 2000 in
      let wait = limited pause 0 500 in
      let (raised, b') = set_line b pin_break raise in
      let (ready, timed) = break_timer_ensure created b' in
      if b.line.suspended || b.line.link_disconnected
      then (false, b)
      else if not (is_idle b.phase)
      then (false, b)
      else if ltb max_followup (length followup)
      then (false, b)
      else if not raised
      then (true, break_at_once (record b' { pin = pin_break }) ms followup callback)
      else if not ready
      then (false, (set_line (record timed { pin = pin_break }) pin_break clear).1)
      else break_start armed timed pin_break callback followup wait

  unfoldable pub other_pin : Pin → Option Pin
  other_pin rts = some dtr
  other_pin dtr = some rts
  other_pin pin_break = none

  -- `sm_broker_schedule_line_reset` with one of its two pins; the flags are those of `schedule_break`.
  unfoldable pub reset_with : Bool → Bool → Break → Pin → Pin → ℤ → Option ℕ → Bool × Break
  reset_with created armed b pin other hold callback =
      let (cleared, b') = set_line b other clear in
      let (ready, timed) = break_timer_ensure created b' in
      let (raised, held) = set_line timed pin raise in
      if b.line.suspended || b.line.link_disconnected
      then (false, b)
      else if not (is_idle b.phase)
      then (false, b)
      else if not cleared
      then (false, b')
      else if not ready
      then (false, timed)
      else if not raised
      then (false, held)
      else break_start armed held pin callback [] held.delay_ms

  -- `sm_broker_schedule_line_reset`: any other pin is refused, as is no pin at all.
  unfoldable pub schedule_line_reset :
      Bool → Bool → Break → Option Pin → ℤ → Option ℕ → Bool × Break
  schedule_line_reset created armed b none hold callback = (false, b)
  schedule_line_reset created armed b (some pin) hold callback = elim (other_pin pin) [
    | none ↦ (false, b)
    | some other ↦ reset_with created armed b pin other hold callback
  ]

  -- The followup bytes, and the end of the pulse.
  unfoldable pub send_followup : Break → Break
  send_followup b =
      let (rc, line) = do_write link b.line b.followup in
      break_complete (record b { line = line }) (is_written rc)

  -- `handle_break_timer` when the line is released, or is not after two tries. The flag is the success
  -- of arming the timer again.
  unfoldable pub released : Bool → Break → Bool → Break
  released rearmed b rc =
      if rc && not (length b.followup == 0)
      then (if ltb 0 b.delay_ms && rearmed
          then record b { phase = delay; armed = true }
          else send_followup b)
      else break_complete b rc

  unfoldable pub expire_at : Bool → Phase → Break → Break
  expire_at rearmed idle b = b
  expire_at rearmed asserted b =
      let (rc, once) = set_line b b.pin clear in
      let (again, twice) = set_line once once.pin clear in
      if rc then released rearmed once true else released rearmed twice again
  expire_at rearmed delay b = send_followup b

  -- `handle_break_timer`: the timer is not armed any more.
  abbrev pub handle_break_timer : Bool → Break → Break
  handle_break_timer rearmed b = expire_at rearmed b.phase (record b { armed = false })

  -- A step, and whether it accepted a request.
  unfoldable pub step : Break → Event → Bool × Break
  step b (ask_break created armed ms followup pause callback) =
      schedule_break created armed b ms followup pause callback
  step b (ask_reset created armed pin hold callback) =
      schedule_line_reset created armed b pin hold callback
  step b (expire rearmed) = (false, handle_break_timer rearmed b)
  step b cancel = (false, break_cancel b)
  step b (link_state suspended disconnected) = (
    false,
    record b { line = record b.line { suspended = suspended; link_disconnected = disconnected } },
  )

  unfoldable pub run : Break → List Event → Break
  run b [] = b
  run b (e ∷ es) = run (step b e).1 es

pub init : Line → Break
init line = record {
  line = line;
  phase = idle;
  pin = pin_break;
  followup = [];
  delay_ms = 0;
  done = none;
  has_timer = false;
  armed = false;
  fired = [];
}
