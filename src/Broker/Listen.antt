-- ===== src/Broker/Listen.antt =====
-- src/broker.c: requests to wait for a pattern without writing anything, and their limit per second.
pub mod Rate
use smolmux.Base.{
  ℕ, ◌+◌, ◌-◌, ◌*◌, Bool, true, false, not, Option, none, some, List, [], ◌∷◌, Bytes, ltb, leb,
  ◌==◌, if◌then◌else◌, length,
}
use smolmux.Broker.Line.{ℤ}
use smolmux.Stream.Matcher.{Matcher}
use smolmux.Stream.Expect.{Expects, AddStatus, added, full, per_client, bad_pattern, no_memory, add}
use smolmux.Broker.Clients.{
  Client, Control, Reply, reply, port_suspended, port_disconnected, missing_pattern, rate_limited,
  expect_refused,
}
use smolmux.Broker.Control.{clamped_timeout}

-- The rate limit's fields of `sm_client_t`; times are milliseconds.
pub record Listener : Type 0 where
  pub window_start : ℕ
  pub window_count : ℕ

-- `SM_LISTEN_EXPECT_RATE`, `SM_LISTEN_EXPECT_RATE_WINDOW_S`
abbrev pub rate : ℕ
rate = 8

abbrev pub rate_window : ℕ
rate_window = 1000

-- What `handle_listen_expect` reads: the fields of the message, the time, and the success of the two allocations of
-- `sm_expect_add`.
pub record ListenAsk : Type 0 where
  pub id : Option Bytes
  pub pattern : Option Bytes
  pub timeout : ℤ
  pub now : ℕ
  pub table : Bool
  pub block : Bool

-- The window that counts the request, with the request in it.
unfoldable pub counted : ℕ → Listener → Listener
counted now l =
    if leb rate_window (now - l.window_start)
    then record { window_start = now; window_count = 1 }
    else record l { window_count = l.window_count + 1 }

module _ {E : Type 0} where
  -- The reply to a request that was handed to `sm_expect_add`.
  unfoldable pub listened : Control E → Client → AddStatus × Expects E → Control E
  listened b c (added, eng) = record b { expect = eng }
  listened b c (full, eng) = reply c.number (expect_refused full) (record b { expect = eng })
  listened b c (per_client, eng) =
      reply c.number (expect_refused per_client) (record b { expect = eng })
  listened b c (bad_pattern, eng) =
      reply c.number (expect_refused bad_pattern) (record b { expect = eng })
  listened b c (no_memory, eng) =
      reply c.number (expect_refused no_memory) (record b { expect = eng })

  module _ (id_text : ℕ → Bytes) (mt : Matcher E) where
    -- A request with an id and a pattern.
    unfoldable pub listen :
        Control E → Client → Listener → ListenAsk → Bytes → Bytes → Control E × Listener
    listen b c l ask id pattern =
        let l' = counted ask.now l in
        let out =
          add mt ask.table ask.block ask.now b.expect id pattern (clamped_timeout ask.timeout)
            (id_text c.number) in
        (if ltb rate l'.window_count then reply c.number rate_limited b else listened b c out, l')

    unfoldable pub listen_fields :
        Control E
        → Client
        → Listener
        → ListenAsk
        → Option Bytes
        → Option Bytes
        → Control E × Listener
    listen_fields b c l ask (some id) (some pattern) =
        if length pattern == 0
        then (reply c.number missing_pattern b, l)
        else listen b c l ask id pattern
    listen_fields b c l ask _ _ = (reply c.number missing_pattern b, l)

    -- `handle_listen_expect`
    unfoldable pub handle_listen_expect :
        Control E → Client → Listener → ListenAsk → Control E × Listener
    handle_listen_expect b c l ask =
        if b.line.suspended
        then (reply c.number port_suspended b, l)
        else if b.line.link_disconnected
        then (reply c.number port_disconnected b, l)
        else listen_fields b c l ask ask.id ask.pattern

    -- The requests of one client, one after the other.
    unfoldable pub listen_all :
        Control E → Client → Listener → List ListenAsk → Control E × Listener
    listen_all b c l [] = (b, l)
    listen_all b c l (ask ∷ asks) =
        let (b', l') = handle_listen_expect b c l ask in listen_all b' c l' asks
