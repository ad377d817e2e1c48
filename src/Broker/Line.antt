-- ===== src/Broker/Line.antt =====
-- src/broker.c: what the broker asks of the device link, and `sm_broker_do_write`.
use smolmux.Base.{ℕ, Bool, true, false, List, ◌∷◌, Bytes, ltb, if◌then◌else◌, zero, suc}

-- An `int` of a request; `negsuc n` is the number -(n + 1).
pub data ℤ : Type 0 where
  pos negsuc : ℕ → ℤ

-- A time of a request: the default when it is not positive, and at most the largest.
unfoldable pub limited : ℤ → ℕ → ℕ → ℕ
limited (pos zero) default largest = default
limited (pos (suc n)) default largest = if ltb largest (suc n) then largest else suc n
limited (negsuc n) default largest = default

-- The control lines that the broker pulses by itself, and the actions of `set_param` on them: `set`,
-- `clear` and any other word that a request brings.
pub data Pin : Type 0 where
  pin_break rts dtr : Pin

pub data Action : Type 0 where
  raise clear : Action
  word : Bytes → Action

unfoldable pub same_pin : Pin → Pin → Bool
same_pin pin_break pin_break = true
same_pin rts rts = true
same_pin dtr dtr = true
same_pin _ _ = false

-- A call of the link's `set_param`, `send_break` and `write_data`.
pub data Call : Type 0 where
  set_param : Pin → Action → Call
  send_break : ℕ → Call
  write_data : Bytes → Call

-- The broker's flags of the link, and the calls so far, newest first, with their success.
pub record Line : Type 0 where
  pub suspended : Bool
  pub link_disconnected : Bool
  pub calls : List (Call × Bool)

pub data Written : Type 0 where
  written is_suspended is_disconnected write_failed : Written

unfoldable pub is_written : Written → Bool
is_written written = true
is_written _ = false

-- `link calls c` is the success of the call `c` behind `calls`.
module _ (link : List (Call × Bool) → Call → Bool) where
  unfoldable pub call : Line → Call → Bool × Line
  call line c = let ok = link line.calls c in (ok, record line { calls = (c, ok) ∷ line.calls })

  -- `sm_broker_do_write`; what it logs of the input is not part of the state.
  unfoldable pub do_write : Line → Bytes → Written × Line
  do_write line bytes =
      let (ok, line') = call line (write_data bytes) in
      if line.suspended
      then (is_suspended, line)
      else if line.link_disconnected
      then (is_disconnected, line)
      else if ok
      then (written, line')
      else (write_failed, line')
