-- ===== src/Broker/Listen/Rate.antt =====
-- The rate limit of `handle_listen_expect`.
use smolmux.Base.{
  ℕ, suc, ◌+◌, ◌-◌, ◌*◌, ◌≤◌, ◌<◌, Bool, true, false, some, List, [], ◌∷◌, ◌≡◌, refl, sym, ap, ap₂,
  subst, ◌∙◌, arith, Bytes, ltb, leb, ◌==◌, if◌then◌else◌, if-elim, length,
}
use smolmux.Stream.Matcher.{Matcher}
use smolmux.Stream.Expect.{Expects, AddStatus, added, full, per_client, bad_pattern, no_memory}
use smolmux.Stream.Expect.Limits.{IsValid, Outcome, add-Outcome}
use smolmux.Broker.Line.{Line}
use smolmux.Broker.Clients.{
  Client, Control, Reply, reply, rate_limited, expect_refused, missing_pattern,
}
use smolmux.Broker.Control.{clamped_timeout}
use smolmux.Broker.Listen.{
  Listener, rate, rate_window, ListenAsk, counted, listened, listen, listen_fields,
  handle_listen_expect, listen_all,
}

-- How many requests of a client may still be handed on before the time `t` is a window old.
room : ℕ → Listener → ℕ
room t l = if leb t l.window_start then rate - l.window_count else rate + (rate - l.window_count)

room_bound : (t : ℕ) (l : Listener) → room t l ≤ 2 * rate
unfolding room
room_bound t l = ground arith

-- In the window behind `t` a request that is handed on takes away from the room, and no request adds to it.
room-counted :
    (t now : ℕ) (l : Listener)
    → t ≤ now
    → now < t + rate_window
    → (room t (counted now l) ≤ room t l)
      × ((counted now l).window_count ≤ rate → room t (counted now l) < room t l)
unfolding room counted
room-counted t now l lo hi = ground arith

unfoldable pub is_rate_limited : Reply → Bool
is_rate_limited rate_limited = true
is_rate_limited _ = false

-- How many replies tell a client that it is over the limit.
abbrev pub over_limit : List (ℕ × Reply) → ℕ
over_limit [] = 0
over_limit ((k, r) ∷ rs) = if is_rate_limited r then suc (over_limit rs) else over_limit rs

module _ {E : Type 0} where
  -- What a complete request of a client does: it takes from the room or is told to be over the limit, and neither
  -- the device nor the table of clients is touched.
  record Listens (t : ℕ) (b : Control E) (l : Listener) (out : Control E × Listener) : Type 0 where
    valid : IsValid out.0.expect
    charged : 1 + over_limit b.replies + room t out.1 ≤ over_limit out.0.replies + room t l
    same_line : out.0.line ≡ b.line
    same_clients : out.0.clients ≡ b.clients

  unadded :
      (t : ℕ) (b : Control E) (c : Client) (l l' : Listener) (status : AddStatus) (eng : Expects E)
      (r : Reply)
      → is_rate_limited r ≡ false
      → Outcome b.expect (status, eng)
      → room t l' < room t l
      → Listens t b l (reply c.number r (record b { expect = eng }), l')
  unfolding reply
  unadded t b c l l' status eng r ne o less = record {
    valid = o.valid;
    charged = rw ne (omega (arith, less));
    same_line = refl;
    same_clients = refl;
  }

  handed_on :
      (t : ℕ) (b : Control E) (c : Client) (l l' : Listener) (out : AddStatus × Expects E)
      → Outcome b.expect out
      → room t l' < room t l
      → Listens t b l (listened b c out, l')
  unfolding listened
  handed_on t b c l l' (added, eng) o less = record {
    valid = o.valid;
    charged = omega (arith, less);
    same_line = refl;
    same_clients = refl;
  }
  handed_on t b c l l' (full, eng) o less =
      unadded t b c l l' full eng (expect_refused full) (unfold is_rate_limited in refl) o less
  handed_on t b c l l' (per_client, eng) o less =
      unadded t b c l l' per_client eng (expect_refused per_client) (unfold is_rate_limited in refl)
        o less
  handed_on t b c l l' (bad_pattern, eng) o less =
      unadded t b c l l' bad_pattern eng (expect_refused bad_pattern)
        (unfold is_rate_limited in refl) o less
  handed_on t b c l l' (no_memory, eng) o less =
      unadded t b c l l' no_memory eng (expect_refused no_memory) (unfold is_rate_limited in refl) o
        less

  module _ (id_text : ℕ → Bytes) (mt : Matcher E) (t : ℕ) (c : Client)
      (fits : length (id_text c.number) < 32) where
    -- A request with an id and a pattern, within a second behind `t`.
    pub record Complete (ask : ListenAsk) : Type 0 where
      pub id : Bytes
      pub pattern : Bytes
      pub known : ask.id ≡ some id
      pub given : ask.pattern ≡ some pattern
      pub some_byte : 0 < length pattern
      pub from : t ≤ ask.now
      pub until : ask.now < t + rate_window

    listen-Listens :
        (b : Control E) (l : Listener) (ask : ListenAsk) (id pattern : Bytes)
        → IsValid b.expect
        → t ≤ ask.now
        → ask.now < t + rate_window
        → Listens t b l (listen id_text mt b c l ask id pattern)
    unfolding listen
    listen-Listens b l ask id pattern v lo hi =
        let (less, strict) = room-counted t ask.now l lo hi in
        if-elim (λ (b' : Control E). Listens t b l (b', counted ask.now l))
          (ltb rate (counted ask.now l).window_count) _ _ (λ _. told b l (counted ask.now l) v less)
          (λ e.
            handed_on t b c l _ _
              (add-Outcome mt ask.table ask.block ask.now b.expect id pattern
                (clamped_timeout ask.timeout) (id_text c.number) v fits)
              (strict (ground (arith, e))))
      where
        told :
            (b : Control E) (l l' : Listener)
            → IsValid b.expect
            → room t l' ≤ room t l
            → Listens t b l (reply c.number rate_limited b, l')
        told b l l' v less = record {
          valid = unfold reply in v;
          charged = unfold reply is_rate_limited in omega (arith, less);
          same_line = unfold reply in refl;
          same_clients = unfold reply in refl;
        }

    handle_listen_expect-listen :
        (b : Control E) (l : Listener) (ask : ListenAsk) (k : Complete ask)
        → b.line.suspended ≡ false
        → b.line.link_disconnected ≡ false
        → handle_listen_expect id_text mt b c l ask ≡ listen id_text mt b c l ask k.id k.pattern
    unfolding handle_listen_expect listen_fields
    handle_listen_expect-listen b l ask k up live =
        let e : (length k.pattern == 0) ≡ false = ground (arith, k.some_byte) in
        if-elim (λ (out : Control E × Listener). out ≡ listen id_text mt b c l ask k.id k.pattern)
          b.line.suspended _ _ (λ h. absurd cc)
          (λ _.
            if-elim
              (λ (out : Control E × Listener). out ≡ listen id_text mt b c l ask k.id k.pattern)
              b.line.link_disconnected _ _ (λ h. absurd cc)
              (λ _.
                ap₂ (listen_fields id_text mt b c l ask) k.known k.given
                ∙ ap
                    (λ (x : Bool).
                      if x
                      then (reply c.number missing_pattern b, l)
                      else listen id_text mt b c l ask k.id k.pattern)
                    e))

    abbrev pub AllComplete : List ListenAsk → Type 0
    AllComplete [] = Unit
    AllComplete (ask ∷ asks) = Complete ask × AllComplete asks

    all_charged :
        (b : Control E) (l : Listener) (asks : List ListenAsk)
        → IsValid b.expect
        → b.line.suspended ≡ false
        → b.line.link_disconnected ≡ false
        → AllComplete asks
        → let out = listen_all id_text mt b c l asks in
          (length asks + over_limit b.replies + room t out.1 ≤ over_limit out.0.replies + room t l)
          × IsValid out.0.expect
          × (out.0.line ≡ b.line)
          × (out.0.clients ≡ b.clients)
    unfolding listen_all
    all_charged b l [] v up live w = (omega arith, v, refl, refl)
    all_charged b l (ask ∷ asks) v up live w =
        let k = w.0 in
        let first =
          subst (λ (out : Control E × Listener). Listens t b l out)
            (sym (handle_listen_expect-listen b l ask k up live))
            (listen-Listens b l ask k.id k.pattern v k.from k.until) in
        let out = handle_listen_expect id_text mt b c l ask in
        let (charged, valid, line, clients) =
          all_charged out.0 out.1 asks first.valid
            (ap (λ (x : Line). x.suspended) first.same_line ∙ up)
            (ap (λ (x : Line). x.link_disconnected) first.same_line ∙ live) w.1 in
        (
          omega (arith, charged, first.charged),
          valid,
          line ∙ first.same_line,
          clients ∙ first.same_clients,
        )

    -- However many complete `listen_expect` messages a client sends within a second on a link that is up, whatever
    -- its window has counted before and whichever allocations fail: all but 16 at most are answered that they are
    -- over the limit. The limits on pending requests hold, and neither the device nor the table of clients
    -- is touched.
    pub listen_all-rate :
        (b : Control E) (l : Listener) (asks : List ListenAsk)
        → IsValid b.expect
        → b.line.suspended ≡ false
        → b.line.link_disconnected ≡ false
        → AllComplete asks
        → let b' = (listen_all id_text mt b c l asks).0 in
          (length asks + over_limit b.replies ≤ over_limit b'.replies + 2 * rate)
          × IsValid b'.expect
          × (b'.line ≡ b.line)
          × (b'.clients ≡ b.clients)
    listen_all-rate b l asks v up live w =
        let (charged, valid, line, clients) = all_charged b l asks v up live w in
        (omega (arith, charged, room_bound t l), valid, line, clients)
