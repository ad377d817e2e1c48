-- ===== src/Broker/Flood.antt =====
-- src/broker.c: the autoboot flood, which sends a key again and again until the device's prompt shows,
-- and may hold the device in reset at its start. Times are milliseconds.
pub mod Hold
pub mod Reset
use smolmux.Base.{
  ℕ, suc, ◌+◌, ◌-◌, Bool, true, false, not, ◌&&◌, ◌||◌, Option, none, some, List, [], ◌∷◌, ◌++◌,
  Bytes, ltb, leb, ◌==◌, if◌then◌else◌, length, take, drop, replicate, until_nul,
}
use smolmux.Stream.Matcher.{Matcher}
use smolmux.Broker.Line.{
  ℤ, pos, negsuc, limited, Pin, pin_break, rts, dtr, Action, raise, clear, word, Call, set_param,
  Line, Written, written, call, do_write, is_written,
}

abbrev pub max_key : ℕ
max_key = 8

abbrev pub tail_size : ℕ
tail_size = 256

-- Why a flood has ended: the `reason` of the result.
pub data Reason : Type 0 where
  matched timeout aborted cancelled : Reason

-- The flood's part of `sm_broker_t`; `results` are those that were broadcast, newest first. `tail` is the
-- whole array, of which the first `tail_len` bytes are in use.
pub record Flood (E : Type 0) : Type 0 where
  pub line : Line
  pub active : Bool
  pub key : Bytes
  pub deadline : ℕ
  pub stop_re : Option E
  pub tail : Bytes
  pub tail_len : ℕ
  pub sent : ℕ
  pub reset_pin : Pin
  pub reset_deassert : Action
  pub reset_pending : Bool
  pub reset_deassert_time : ℕ
  pub has_timer : Bool
  pub armed : Bool
  pub results : List Reason

-- What a request asks to be done with a reset line: a pin other than the two is `pin_break`.
pub record Pulse : Type 0 where
  pub pin : Pin
  pub assert : Option Action
  pub hold : ℤ

unfoldable pub is_reset_pin : Pin → Bool
is_reset_pin pin_break = false
is_reset_pin rts = true
is_reset_pin dtr = true

-- `assert_act`
unfoldable pub assert_action : Option Action → Action
assert_action none = clear
assert_action (some action) = action

-- `deassert_act`
unfoldable pub opposite : Action → Action
opposite raise = clear
opposite clear = raise
opposite (word w) = raise

-- The checks of a reset pulse before any side effect.
unfoldable pub pulse_fits : Option Pulse → ℕ → Bool
pulse_fits none duration = true
pulse_fits (some p) duration = is_reset_pin p.pin && ltb (limited p.hold 100 2000) duration

-- The array behind new bytes.
unfoldable pub slid : Bytes → ℕ → Bytes → Bytes × ℕ
slid tail len input =
    let n = length input in
    let keep = if ltb tail_size (len + n) then tail_size - n else len in
    if leb tail_size n
    then (drop (n - tail_size) input, tail_size)
    else (take keep (drop (len - keep) tail) ++ input ++ drop (keep + n) tail, keep + n)

-- What happens to the flood: a request at a time, with the success of the timer calls; an expiry of the
-- timer; bytes from the device, and what follows the array in memory; a cancellation; and the broker's
-- own changes of the link's flags.
pub data Event : Type 0 where
  ask : Bool → Bool → Bytes → ℤ → Option Bytes → Option Pulse → ℕ → Event
  expire : ℕ → Event
  arrive : Bytes → Bytes → Event
  cancel : Event
  link_state : Bool → Bool → Event

module _ {E : Type 0} (m : Matcher E) (link : List (Call × Bool) → Call → Bool) where
  abbrev set_line : Flood E → Pin → Action → Bool × Flood E
  set_line b pin action =
      let (ok, line) = call link b.line (set_param pin action) in (ok, record b { line = line })

  -- The reset line is let go, if it is held.
  unfoldable pub release_reset : Flood E → Flood E
  release_reset b =
      if b.reset_pending
      then record (set_line b b.reset_pin b.reset_deassert).1 { reset_pending = false }
      else b

  -- `flood_finish`
  unfoldable pub flood_finish : Flood E → Reason → Flood E
  flood_finish b reason =
      if not b.active
      then b
      else record (release_reset (record b { armed = false; stop_re = none })) {
        active = false;
        results = reason ∷ b.results;
      }

  -- `flood_cancel`
  unfoldable pub flood_cancel : Flood E → Flood E
  flood_cancel b = if b.active then flood_finish b cancelled else b

  unfoldable pub search_ended : Flood E → Option ℕ → Flood E
  search_ended b none = b
  search_ended b (some off) = flood_finish b matched

  -- `flood_feed` with a stop pattern and bytes: the regex reads the array as a C string, and `behind` is
  -- what follows the array in memory.
  unfoldable pub search : Bytes → Flood E → Bytes → Option E → Flood E
  search behind b input none = b
  search behind b input (some re) =
      let (tail, len) = slid b.tail b.tail_len input in
      let (found, re') = m.exec re (until_nul (tail ++ behind)) in
      let searched = record b { tail = tail; tail_len = len; stop_re = some re' } in
      search_ended searched found

  -- `flood_feed`
  unfoldable pub flood_feed : Bytes → Flood E → Bytes → Flood E
  flood_feed behind b input =
      if not b.active || length input == 0 then b else search behind b input b.stop_re

  -- The key is sent once more.
  unfoldable pub send_key : Flood E → Bool × Flood E
  send_key b =
      let (rc, line) = do_write link b.line b.key in
      if is_written rc
      then (true, record b { line = line; sent = b.sent + 1 })
      else (false, record b { line = line })

  -- `handle_flood_timer` at the time `now`
  unfoldable pub handle_flood_timer : ℕ → Flood E → Flood E
  handle_flood_timer now b =
      let freed = if leb b.reset_deassert_time now then release_reset b else b in
      let (ok, keyed) = send_key freed in
      if not b.active
      then b
      else if leb freed.deadline now
      then flood_finish freed timeout
      else if ok
      then keyed
      else flood_finish keyed aborted

  -- The end of `sm_broker_start_flood`, when the reset line is asserted or none is wanted.
  unfoldable pub start_timer : Bool → Flood E → Bool × Flood E
  start_timer armed b =
      if armed
      then (true, (send_key (record b { armed = true })).1)
      else (false, record (release_reset b) { active = false; stop_re = none })

  unfoldable pub start_reset : Bool → Flood E → ℕ → Option Pulse → Bool × Flood E
  start_reset armed b now none = start_timer armed b
  start_reset armed b now (some p) =
      let action = assert_action p.assert in
      let (ok, held) = set_line b p.pin action in
      if ok
      then start_timer armed (record held {
        reset_pin = p.pin;
        reset_deassert = opposite action;
        reset_pending = true;
        reset_deassert_time = now + limited p.hold 100 2000;
      })
      else (false, record held { active = false; stop_re = none })

  -- The flood is set up; the stop pattern has been compiled.
  unfoldable pub start_with :
      Bool → Bool → Flood E → Bytes → ℕ → Option Pulse → ℕ → Option E → Bool × Flood E
  start_with created armed b key duration pulse now re =
      let ready = b.has_timer || created in
      if ready
      then start_reset armed
          (record b {
            has_timer = true;
            key = key;
            stop_re = re;
            tail_len = 0;
            sent = 0;
            deadline = now + duration;
            reset_pending = false;
            active = true;
          })
          now pulse
      else (false, b)

  -- The stop pattern: an empty one is none; one that does not compile refuses the flood.
  unfoldable pub compile_stop : Option Bytes → Option (Option E)
  compile_stop none = some none
  compile_stop (some []) = some none
  compile_stop (some (c ∷ pattern)) = elim (m.compile (c ∷ pattern)) [
    | none ↦ none
    | some re ↦ some (some re)
  ]

  unfoldable pub start_compiled :
      Bool → Bool → Flood E → Bytes → ℕ → Option Pulse → ℕ → Option (Option E) → Bool × Flood E
  start_compiled created armed b key duration pulse now none = (false, b)
  start_compiled created armed b key duration pulse now (some re) =
      start_with created armed b key duration pulse now re

  -- `sm_broker_start_flood` at the time `now`. The flags are the success of `timerfd_create` and
  -- `timerfd_settime`; the interval is an argument of the latter only.
  unfoldable pub start_flood :
      Bool → Bool → Flood E → Bytes → ℤ → Option Bytes → Option Pulse → ℕ → Bool × Flood E
  start_flood created armed b key duration stop pulse now =
      let ms = limited duration 2000 15000 in
      if b.line.suspended || b.line.link_disconnected
      then (false, b)
      else if b.active
      then (false, b)
      else if length key == 0 || ltb max_key (length key)
      then (false, b)
      else if not (pulse_fits pulse ms)
      then (false, b)
      else start_compiled created armed b key ms pulse now (compile_stop stop)

  unfoldable pub step : Flood E → Event → Flood E
  step b (ask created armed key duration stop pulse now) =
      (start_flood created armed b key duration stop pulse now).1
  step b (expire now) = handle_flood_timer now b
  step b (arrive behind input) = flood_feed behind b input
  step b cancel = flood_cancel b
  step b (link_state suspended disconnected) = record b {
    line = record b.line { suspended = suspended; link_disconnected = disconnected };
  }

  unfoldable pub run : Flood E → List Event → Flood E
  run b [] = b
  run b (e ∷ es) = run (step b e) es
