-- ===== src/Broker/Control/Inv.antt =====
-- The broker's invariant over any events at its clients' sockets.
use smolmux.Base.{
  ℕ, ◌≡◌, refl, sym, ap, subst, ◌∙◌, Bool, true, false, not, ◌&&◌, Option, none, some, List, Bytes,
  ltb, leb, if-elim, length, arith, same_text,
}
use smolmux.Text.Base64.{decode}
use smolmux.Broker.Line.{Call, Written, written, is_suspended, is_disconnected, write_failed}
use smolmux.Broker.Clients.{
  Client, observer, max_clients, Control, reply, find, can_send, register_client, held_by_other,
  welcome,
}
use smolmux.Broker.Clients.Table.{find-place}
use smolmux.Broker.Clients.Inv.{kept_holder, Registered, MayHold}
use smolmux.Broker.Clients.Replace.{
  AllNamed, Replacing, replace_older-Replacing, nameless-AllNamed, Replacing-AllNamed,
}
use smolmux.Broker.Clients.Register.{snoc-Registered, snoc-AllNamed}
use smolmux.Broker.Control.Change.{AtNumber, AtNumber-change, change-Registered, change-Named}
use smolmux.Broker.Control.{
  change, handle_takeover, handle_release, sent, send_decoded, send_data, handle_send, greet,
  max_b64, taken_over,
}

-- The invariant: at most 32 clients, all different; the holder of the takeover is one of them, has said
-- hello and is no observer; and no two that have said hello have the same name.
pub record Sound {E : Type 0} (b : Control E) : Type 0 where
  pub registered : Registered b
  pub all_named : AllNamed b.clients

same_holder : (g h : ℕ) → some g ≡ some h → g ≡ h
same_holder g h e = ground arith

module _ {E : Type 0} where
  -- A state with the same table and takeover.
  pub same-Sound :
      (b b' : Control E)
      → b'.clients ≡ b.clients
      → b'.takeover ≡ b.takeover
      → b'.next_client_num ≡ b.next_client_num
      → Sound b
      → Sound b'
  same-Sound b b' hc ht hn s = record {
    registered = record {
      few = rw hc s.registered.few;
      distinct = rw hc s.registered.distinct;
      fresh = rw (hc, hn) s.registered.fresh;
      holder = rw (hc, ht) s.registered.holder;
    };
    all_named = rw hc s.all_named;
  }

  pub register_client-Sound :
      (allocated watched auth : Bool) (b : Control E)
      → Sound b
      → Sound (register_client allocated watched auth b)
  unfolding register_client
  register_client-Sound allocated watched auth b s =
      if-elim Sound (leb max_clients (length b.clients)) _ _ (λ full. s)
        (λ room.
          if-elim Sound (not (allocated && watched)) _ _
            (λ e. record {
              registered = record {
                few = s.registered.few;
                distinct = s.registered.distinct;
                fresh = λ i h. omega (arith, s.registered.fresh i h);
                holder = s.registered.holder;
              };
              all_named = s.all_named;
            })
            (λ e. record {
              registered = snoc-Registered b auth (ground arith) s.registered;
              all_named = snoc-AllNamed b auth s.all_named;
            }))

  pub handle_takeover-Sound :
      (b : Control E) (c : Client)
      → Sound b
      → find c.number b.clients ≡ some c
      → c.hello_received ≡ true
      → Sound (handle_takeover b c)
  unfolding handle_takeover reply
  handle_takeover-Sound b c s found greeted =
      if-elim Sound (same_text c.role observer) _ _ (λ e. same-Sound b _ refl refl refl s)
        (λ may.
          if-elim Sound (held_by_other c.number b.takeover) _ _
            (λ e. same-Sound b _ refl refl refl s)
            (λ e. record {
              registered = record {
                few = s.registered.few;
                distinct = s.registered.distinct;
                fresh = s.registered.fresh;
                holder = λ h e.
                    let (i, small, at, known) = find-place c.number b.clients c found in
                    (
                      i,
                      small,
                      ap (λ d. d.number) at ∙ same_holder c.number h e,
                      subst MayHold (sym at) (greeted, may),
                    );
              };
              all_named = s.all_named;
            }))

  pub handle_release-Sound : (b : Control E) (c : Client) → Sound b → Sound (handle_release b c)
  unfolding handle_release reply
  handle_release-Sound b c s = record {
    registered = record {
      few = s.registered.few;
      distinct = s.registered.distinct;
      fresh = s.registered.fresh;
      holder = λ h e. s.registered.holder h (kept_holder c.number h b.takeover e).0;
    };
    all_named = s.all_named;
  }

  module _ (link : List (Call × Bool) → Call → Bool) where
    pub sent-Sound :
        (b : Control E) (c : Client) (bytes : Bytes) (rc : Written)
        → Sound b
        → Sound (sent b c bytes rc)
    unfolding sent reply
    sent-Sound b c bytes written s = same-Sound b _ refl refl refl s
    sent-Sound b c bytes is_suspended s = same-Sound b _ refl refl refl s
    sent-Sound b c bytes is_disconnected s = same-Sound b _ refl refl refl s
    sent-Sound b c bytes write_failed s = same-Sound b _ refl refl refl s

    send_decoded-Sound :
        (b : Control E) (c : Client) (o : Option Bytes) → Sound b → Sound (send_decoded link b c o)
    unfolding send_decoded reply
    send_decoded-Sound b c none s = same-Sound b _ refl refl refl s
    send_decoded-Sound b c (some bytes) s = sent-Sound _ c bytes _ (same-Sound b _ refl refl refl s)

    pub handle_send-Sound :
        (b : Control E) (c : Client) (o : Option Bytes) → Sound b → Sound (handle_send link b c o)
    unfolding handle_send send_data reply
    handle_send-Sound b c none s =
        if-elim Sound (not (can_send b c)) _ _ (λ e. same-Sound b _ refl refl refl s)
          (λ e. same-Sound b _ refl refl refl s)
    handle_send-Sound b c (some text) s =
        if-elim Sound (not (can_send b c)) _ _ (λ e. same-Sound b _ refl refl refl s)
          (λ e.
            if-elim Sound (ltb max_b64 (length text)) _ _ (λ e. same-Sound b _ refl refl refl s)
              (λ e. send_decoded-Sound b c (decode text) s))

  module _ (id_text : ℕ → Bytes) where
    pub greet-Sound :
        (b : Control E) (c : Client) (name : Bytes) (role : Option Bytes)
        → Sound b
        → AtNumber c.number (λ d. (d.hello_received ≡ false) × (d.name ≡ name)) b.clients
        → Sound (greet id_text b c name role)
    unfolding greet reply
    greet-Sound b c name role s at =
        if-elim (λ (x : Control E). Sound (reply c.number (welcome (taken_over 16 c.role role)) x))
          (ltb 0 (length name)) _ _
          (λ named.
            let done = replace_older-Replacing id_text c.number name _ _ start in
            same-Sound _ _ refl refl refl (record {
              registered = done.registered;
              all_named = Replacing-AllNamed id_text c.number name _ (ground arith) done;
            }))
          (λ nameless. same-Sound _ _ refl refl refl (record {
            registered = start.registered;
            all_named = nameless-AllNamed id_text c.number name _ _ (ground arith) start;
          }))
      where
        f : Client → Client
        f = λ d. record d { role = taken_over 16 c.role role; hello_received = true }

        start :
            Replacing id_text c.number name
              (length (change c.number f b).clients)
              (change c.number f b)
        start = record {
          registered =
              change-Registered c.number f b (λ d. refl)
                (λ i h e m. absurd (ground (arith, at i h e))) s.registered;
          named = change-Named c.number f b (λ d. refl) s.all_named;
          own =
              AtNumber-change c.number f b (λ d. refl) (λ d. d.name ≡ name) (λ i h e. (at i h e).1);
          checked = λ j above h. absurd (omega arith);
          within = omega arith;
        }
