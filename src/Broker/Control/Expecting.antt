-- ===== src/Broker/Control/Expecting.antt =====
-- `handle_send_expect` keeps the broker's invariant.
use smolmux.Base.{ℕ, refl, Bool, not, Option, none, some, List, Bytes, ltb, if-elim, length}
use smolmux.Stream.Matcher.{Matcher}
use smolmux.Stream.Expect.{Expects, AddStatus, added, full, per_client, bad_pattern, no_memory}
use smolmux.Text.Base64.{decode}
use smolmux.Broker.Line.{Call, do_write, is_written}
use smolmux.Broker.Clients.{Client, Control, reply, can_send}
use smolmux.Broker.Control.{
  ExpectAsk, max_b64, forget, send_expected, send_pending, expect_added, add_expect,
  handle_send_expect,
}
use smolmux.Broker.Control.Inv.{Sound, same-Sound, sent-Sound}

module _ {E : Type 0} (id_text : ℕ → Bytes) (mt : Matcher E)
    (link : List (Call × Bool) → Call → Bool) where
  send_expected-Sound :
      (b : Control E) (c : Client) (id : Bytes) (o : Option Bytes)
      → Sound b
      → Sound (send_expected id_text mt link b c id o)
  unfolding send_expected forget reply
  send_expected-Sound b c id none s = same-Sound b _ refl refl refl s
  send_expected-Sound b c id (some bytes) s = sent-Sound link _ c bytes _ (
      if-elim (λ (x : Control E). Sound (record x { line = (do_write link b.line bytes).1 }))
        (is_written (do_write link b.line bytes).0) _ _ (λ e. same-Sound b _ refl refl refl s)
        (λ e. same-Sound b _ refl refl refl s))

  send_pending-Sound :
      (b : Control E) (c : Client) (id : Bytes) (o : Option Bytes)
      → Sound b
      → Sound (send_pending id_text mt link b c id o)
  unfolding send_pending forget reply
  send_pending-Sound b c id none s = s
  send_pending-Sound b c id (some text) s =
      if-elim Sound (ltb max_b64 (length text)) _ _ (λ e. same-Sound b _ refl refl refl s)
        (λ e. send_expected-Sound b c id (decode text) s)

  expect_added-Sound :
      (b : Control E) (c : Client) (id : Bytes) (o : Option Bytes) (r : AddStatus × Expects E)
      → Sound b
      → Sound (expect_added id_text mt link b c id o r)
  unfolding expect_added reply
  expect_added-Sound b c id o (added, eng) s =
      send_pending-Sound (record b { expect = eng }) c id o (same-Sound b _ refl refl refl s)
  expect_added-Sound b c id o (full, eng) s = same-Sound b _ refl refl refl s
  expect_added-Sound b c id o (per_client, eng) s = same-Sound b _ refl refl refl s
  expect_added-Sound b c id o (bad_pattern, eng) s = same-Sound b _ refl refl refl s
  expect_added-Sound b c id o (no_memory, eng) s = same-Sound b _ refl refl refl s

  add_expect-Sound :
      (b : Control E) (c : Client) (ask : ExpectAsk) (id pattern : Option Bytes)
      → Sound b
      → Sound (add_expect id_text mt link b c ask id pattern)
  unfolding add_expect reply
  add_expect-Sound b c ask none pattern s = same-Sound b _ refl refl refl s
  add_expect-Sound b c ask (some id) none s = same-Sound b _ refl refl refl s
  add_expect-Sound b c ask (some id) (some pattern) s = expect_added-Sound b c id ask.payload _ s

  pub handle_send_expect-Sound :
      (b : Control E) (c : Client) (ask : ExpectAsk)
      → Sound b
      → Sound (handle_send_expect id_text mt link b c ask)
  unfolding handle_send_expect reply
  handle_send_expect-Sound b c ask s =
      if-elim Sound (not (can_send b c)) _ _ (λ e. same-Sound b _ refl refl refl s)
        (λ e.
          if-elim Sound b.line.suspended _ _ (λ e. same-Sound b _ refl refl refl s)
            (λ e.
              if-elim Sound b.line.link_disconnected _ _ (λ e. same-Sound b _ refl refl refl s)
                (λ e. add_expect-Sound b c ask ask.id ask.pattern s)))
