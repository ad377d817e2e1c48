-- ===== src/Broker/Control/Calls.antt =====
-- Which clients' messages reach the device.
use smolmux.Base.{
  ◌⊎◌, inl, inr, ◌≢◌, zero, suc, ℕ, ◌≡◌, refl, sym, ap, ◌∙◌, Bool, true, false, not, ◌&&◌, Option,
  none, some, List, [], ◌∷◌, Bytes, ltb, if-elim, length, arith, same_text,
}
use smolmux.Stream.Matcher.{Matcher}
use smolmux.Broker.Line.{Call}
use smolmux.Broker.Clients.{
  Client, Control, observer, reply, find, can_send, held_by_other, is_holder, remove_client,
  replace_older, is_older, client_at,
}
use smolmux.Broker.Clients.Table.{find_number}
use smolmux.Broker.Control.{
  Message, hello, send, send_expect, handle_send_expect, takeover_please, release, unknown,
  is_hello, token_fits, role_fits, version_fits, taken_over, change, greet, handle_hello,
  handle_takeover, handle_release, handle_send, handle, handle_client_message, handle_found,
  handle_all,
}

held : (k h : ℕ) (t : Option ℕ) → t ≡ some h → h ≢ k → held_by_other k t ≡ true
unfolding held_by_other
held k h t e other = rw e (ground arith)

module _ {E : Type 0} (id_text : ℕ → Bytes) where
  replace_older-line :
      (k : ℕ) (name : Bytes) (i : ℕ) (b : Control E)
      → (replace_older id_text k name i b).line ≡ b.line
  unfolding replace_older remove_client
  replace_older-line k name zero b = refl
  replace_older-line k name (suc i) b =
      replace_older-line k name i _
      ∙ if-elim (λ (x : Control E). x.line ≡ b.line) (is_older k name (client_at b.clients i)) _ _
          (λ e. refl) (λ e. refl)

  handle_hello-line :
      (b : Control E) (c : Client) (token name role : Option Bytes) (version : Option ℕ)
      → (handle_hello id_text b c token name role version).line ≡ b.line
  unfolding handle_hello greet reply change
  handle_hello-line b c token name role version =
      if-elim (λ (x : Control E). x.line ≡ b.line) c.hello_received _ _ (λ e. refl)
        (λ e.
          if-elim (λ (x : Control E). x.line ≡ b.line)
            (c.requires_auth && ltb 0 (length b.auth_token) && not (token_fits b.auth_token token))
            _ _ (λ e. refl)
            (λ e.
              if-elim (λ (x : Control E). x.line ≡ b.line) (not (role_fits role)) _ _ (λ e. refl)
                (λ e.
                  if-elim (λ (x : Control E). x.line ≡ b.line) (not (version_fits version)) _ _
                    (λ e. refl)
                    (λ e.
                      if-elim (λ (x : Control E). x.line ≡ b.line)
                        (ltb 0 (length (taken_over 64 c.name name))) _ _
                        (λ e. replace_older-line c.number (taken_over 64 c.name name) _ _)
                        (λ e. refl)))))

  handle_takeover-line : (b : Control E) (c : Client) → (handle_takeover b c).line ≡ b.line
  unfolding handle_takeover reply
  handle_takeover-line b c =
      if-elim (λ (x : Control E). x.line ≡ b.line) (same_text c.role observer) _ _ (λ e. refl)
        (λ e.
          if-elim (λ (x : Control E). x.line ≡ b.line) (held_by_other c.number b.takeover) _ _
            (λ e. refl) (λ e. refl))

  module _ (mt : Matcher E) (link : List (Call × Bool) → Call → Bool) where
    -- A client that has not said hello, one that is an observer, or another than the one that holds the
    -- takeover.
    abbrev pub Refused : Control E → Client → Type 0
    Refused b c =
        (c.hello_received ≡ false)
        ⊎ (same_text c.role observer ≡ true)
        ⊎ ((h : ℕ) × (b.takeover ≡ some h) × (h ≢ c.number))

    cannot :
        (b : Control E) (c : Client) → c.hello_received ≡ true → Refused b c → can_send b c ≡ false
    unfolding can_send
    cannot b c greeted (inl new) = absurd (ground arith)
    cannot b c greeted (inr (inl watcher)) = rw watcher refl
    cannot b c greeted (inr (inr (h, e, other))) =
        ground (arith, held c.number h b.takeover e other)

    -- No message of a client that has not said hello, that is an observer, or while another holds the
    -- takeover, makes a call of the link.
    pub handle_client_message-line :
        (b : Control E) (c : Client) (m : Message)
        → Refused b c
        → (handle_client_message id_text mt link b c m).line ≡ b.line
    unfolding handle_client_message handle is_hello handle_release handle_send handle_send_expect
        reply
    handle_client_message-line b c m refused =
        if-elim (λ (x : Control E). x.line ≡ b.line) (not c.hello_received && not (is_hello m)) _ _
          (λ e. refl) (by m)
      where
        by :
            (m : Message)
            → (not c.hello_received && not (is_hello m)) ≡ false
            → (handle id_text mt link b c m).line ≡ b.line
        by (hello token name role version) e = handle_hello-line b c token name role version
        by (send o) e =
            if-elim (λ (x : Control E). x.line ≡ b.line) (not (can_send b c)) _ _ (λ f. refl)
              (λ f. absurd (ground (arith, cannot b c (ground arith) refused)))
        by (send_expect ask) e =
            if-elim (λ (x : Control E). x.line ≡ b.line) (not (can_send b c)) _ _ (λ f. refl)
              (λ f. absurd (ground (arith, cannot b c (ground arith) refused)))
        by takeover_please e = handle_takeover-line b c
        by release e = refl
        by unknown e = refl

    -- A client with the number `k` that has said hello as an observer.
    abbrev pub Watches : ℕ → Control E → Type 0
    Watches k b =
        (c : Client)
        → find k b.clients ≡ some c
        → (c.hello_received ≡ true) × (same_text c.role observer ≡ true)

    -- Nothing but the replies has changed.
    abbrev Still : Control E → Control E → Type 0
    Still b x = (x.line ≡ b.line) × (x.clients ≡ b.clients) × (x.takeover ≡ b.takeover)

    watch :
        (b : Control E) (c : Client) (m : Message)
        → c.hello_received ≡ true
        → same_text c.role observer ≡ true
        → is_holder c.number b.takeover ≡ false
        → Still b (handle_client_message id_text mt link b c m)
    unfolding handle_client_message handle handle_hello handle_takeover handle_release handle_send
        handle_send_expect can_send is_hello reply
    watch b c (hello token name role version) greeted watcher free =
        if-elim (Still b) (not c.hello_received && false) _ _ (λ e. (refl, refl, refl))
          (λ e.
            if-elim (Still b) c.hello_received _ _ (λ f. (refl, refl, refl))
              (λ f. absurd (ground arith)))
    watch b c (send o) greeted watcher free =
        if-elim (Still b) (not c.hello_received && true) _ _ (λ e. (refl, refl, refl))
          (λ e.
            if-elim (Still b)
              (not (not (same_text c.role observer) && not (held_by_other c.number b.takeover))) _ _
              (λ f. (refl, refl, refl)) (λ f. absurd (ground arith)))
    watch b c (send_expect ask) greeted watcher free =
        if-elim (Still b) (not c.hello_received && true) _ _ (λ e. (refl, refl, refl))
          (λ e.
            if-elim (Still b)
              (not (not (same_text c.role observer) && not (held_by_other c.number b.takeover))) _ _
              (λ f. (refl, refl, refl)) (λ f. absurd (ground arith)))
    watch b c takeover_please greeted watcher free =
        if-elim (Still b) (not c.hello_received && true) _ _ (λ e. (refl, refl, refl))
          (λ e.
            if-elim (Still b) (same_text c.role observer) _ _ (λ f. (refl, refl, refl))
              (λ f. absurd (ground arith)))
    watch b c release greeted watcher free =
        if-elim (Still b) (not c.hello_received && true) _ _ (λ e. (refl, refl, refl))
          (λ e. (refl, refl, rw free refl))
    watch b c unknown greeted watcher free =
        if-elim (Still b) (not c.hello_received && true) _ _ (λ e. (refl, refl, refl))
          (λ e. (refl, refl, refl))

    watch_found :
        (b : Control E) (k : ℕ) (m : Message) (o : Option Client)
        → find k b.clients ≡ o
        → Watches k b
        → is_holder k b.takeover ≡ false
        → Still b (handle_found id_text mt link b m o)
    unfolding handle_found
    watch_found b k m none e w free = (refl, refl, refl)
    watch_found b k m (some c) e w free =
        if-elim (Still b) c.disconnected _ _ (λ f. (refl, refl, refl))
          (λ f.
            watch b c m (w c e).0 (w c e).1
              (ap (λ n. is_holder n b.takeover) (find_number k b.clients c e) ∙ free))

    -- Whatever messages a client sends that has said hello as an observer, the link is not called, the
    -- table of clients stays as it is, and so does the takeover, unless this client held it.
    pub observer_silent :
        (b : Control E) (k : ℕ) (ms : List Message)
        → Watches k b
        → is_holder k b.takeover ≡ false
        → let after = handle_all id_text mt link b k ms in
          (after.line ≡ b.line) × (after.clients ≡ b.clients) × (after.takeover ≡ b.takeover)
    unfolding handle_all
    observer_silent b k [] w free = (refl, refl, refl)
    observer_silent b k (m ∷ ms) w free =
        let next : Control E = handle_found id_text mt link b m (find k b.clients) in
        let still : Still b next = watch_found b k m (find k b.clients) refl w free in
        let rest =
          observer_silent next k ms (λ c e. w c (ap (find k) (sym still.1) ∙ e))
            (ap (is_holder k) still.2 ∙ free) in
        (rest.0 ∙ still.0, rest.1 ∙ still.1, rest.2 ∙ still.2)
