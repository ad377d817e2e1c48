-- ===== src/Broker/Control/Runs.antt =====
-- The broker's invariant over any events at its clients' sockets.
use smolmux.Base.{
  ℕ, ◌≡◌, refl, sym, ap, ◌∙◌, same_text, Bool, true, false, not, ◌&&◌, Option, none, some, List, [],
  ◌∷◌, Bytes, ltb, if-elim, length, arith,
}
use smolmux.Stream.Matcher.{Matcher}
use smolmux.Broker.Line.{Line, Call}
use smolmux.Broker.Clients.{Client, Control, observer, reply, find, remove_client}
use smolmux.Broker.Clients.Table.{find_number}
use smolmux.Broker.Clients.Inv.{remove_client-Registered, remove_client-Named}
use smolmux.Broker.Control.{
  new_control, Message, hello, send, send_expect, takeover_please, release, unknown, is_hello,
  token_fits, role_fits, version_fits, taken_over, Event, connect, receive, hangup, change,
  handle_hello, handle, handle_client_message, handle_all, handle_found, remove_found, step, run,
}
use smolmux.Broker.Control.Expecting.{handle_send_expect-Sound}
use smolmux.Broker.Control.Change.{
  AtNumber, find-AtNumber, AtNumber-change, change-Registered, change-AllNamed,
}
use smolmux.Broker.Control.Inv.{
  Sound, same-Sound, register_client-Sound, handle_takeover-Sound, handle_release-Sound,
  handle_send-Sound, greet-Sound,
}

module _ {E : Type 0} where
  -- A new broker satisfies the invariant.
  pub new_control-Sound : (line : Line) (token : Bytes) → Sound {E = E} (new_control line token)
  new_control-Sound line token = record {
    registered = record {
      few = omega arith;
      distinct = λ i j hi hj e. absurd (omega arith);
      fresh = λ i h. absurd (omega arith);
      holder = λ h e. absurd (ground arith);
    };
    all_named = λ i j hi hj clash. absurd (omega arith);
  }

  change-Sound :
      (k : ℕ) (f : Client → Client) (b : Control E)
      → ((c : Client) → (f c).number ≡ c.number)
      → ((c : Client) → (f c).hello_received ≡ c.hello_received)
      → ((c : Client) → (f c).role ≡ c.role)
      → AtNumber k (λ c. (f c).hello_received ≡ true → (f c).name ≡ c.name) b.clients
      → Sound b
      → Sound (change k f b)
  change-Sound k f b keeps greeted roles names s = record {
    registered =
        change-Registered k f b keeps
          (λ i h e m. (greeted _ ∙ m.0, ap (λ r. same_text r observer) (roles _) ∙ m.1))
          s.registered;
    all_named =
        change-AllNamed k f b keeps (λ i h e g. (sym (greeted _) ∙ g, names i h e g)) s.all_named;
  }

  drop-Sound :
      (k : ℕ) (b : Control E) → Sound b → Sound (change k (λ d. record d { disconnected = true }) b)
  drop-Sound k b s =
      change-Sound k (λ d. record d { disconnected = true }) b (λ c. refl) (λ c. refl) (λ c. refl)
        (λ i h e g. refl) s

  module _ (id_text : ℕ → Bytes) where
    remove_client-Sound : (b : Control E) (k : ℕ) → Sound b → Sound (remove_client id_text b k)
    remove_client-Sound b k s = record {
      registered = remove_client-Registered id_text b k s.registered;
      all_named = λ i j hi hj clash.
          remove_client-Named id_text b k s.registered (λ n. n ≡ n)
            (λ i j hi hj c. s.all_named i j hi hj c.0) i j hi hj (clash, refl, refl);
    }

    handle_hello-Sound :
        (b : Control E) (c : Client) (token name role : Option Bytes) (version : Option ℕ)
        → Sound b
        → find c.number b.clients ≡ some c
        → Sound (handle_hello id_text b c token name role version)
    unfolding handle_hello reply
    handle_hello-Sound b c token name role version s found =
        if-elim Sound c.hello_received _ _ (λ e. same-Sound b _ refl refl refl s)
          (λ new.
            if-elim Sound
              (c.requires_auth
                && ltb 0 (length b.auth_token)
                && not (token_fits b.auth_token token))
              _ _ (λ e. drop-Sound c.number _ (same-Sound b _ refl refl refl s))
              (λ e.
                if-elim Sound (not (role_fits role)) _ _ (λ e. same-Sound b _ refl refl refl s)
                  (λ e.
                    let at : AtNumber c.number (λ d. d.hello_received ≡ false) b.clients =
                      find-AtNumber c.number (λ d. d.hello_received ≡ false) b.clients c
                        s.registered.distinct found new in
                    let f : Client → Client = λ d. record d { name = taken_over 64 c.name name } in
                    let renamed : Sound (change c.number f b) =
                      change-Sound c.number f b (λ d. refl) (λ d. refl) (λ d. refl)
                        (λ i h e g. absurd (ground (arith, at i h e))) s in
                    if-elim Sound (not (version_fits version)) _ _
                      (λ e. same-Sound _ _ refl refl refl renamed)
                      (λ e.
                        greet-Sound id_text (change c.number f b) c (taken_over 64 c.name name) role
                          renamed
                          (AtNumber-change c.number f b (λ d. refl)
                            (λ d. (d.hello_received ≡ false) × (d.name ≡ taken_over 64 c.name name))
                            (λ i h e. (at i h e, refl)))))))

    module _ (mt : Matcher E) (link : List (Call × Bool) → Call → Bool) where
      handle_client_message-Sound :
          (b : Control E) (c : Client) (m : Message)
          → Sound b
          → find c.number b.clients ≡ some c
          → Sound (handle_client_message id_text mt link b c m)
      unfolding handle_client_message handle is_hello reply
      handle_client_message-Sound b c (hello token name role version) s found =
          if-elim Sound (not c.hello_received && false) _ _ (λ e. same-Sound b _ refl refl refl s)
            (λ e. handle_hello-Sound b c token name role version s found)
      handle_client_message-Sound b c (send o) s found =
          if-elim Sound (not c.hello_received && true) _ _ (λ e. same-Sound b _ refl refl refl s)
            (λ e. handle_send-Sound link b c o s)
      handle_client_message-Sound b c (send_expect ask) s found =
          if-elim Sound (not c.hello_received && true) _ _ (λ e. same-Sound b _ refl refl refl s)
            (λ e. handle_send_expect-Sound id_text mt link b c ask s)
      handle_client_message-Sound b c takeover_please s found =
          if-elim Sound (not c.hello_received && true) _ _ (λ e. same-Sound b _ refl refl refl s)
            (λ e. handle_takeover-Sound b c s found (ground arith))
      handle_client_message-Sound b c release s found =
          if-elim Sound (not c.hello_received && true) _ _ (λ e. same-Sound b _ refl refl refl s)
            (λ e. handle_release-Sound b c s)
      handle_client_message-Sound b c unknown s found =
          if-elim Sound (not c.hello_received && true) _ _ (λ e. same-Sound b _ refl refl refl s)
            (λ e. same-Sound b _ refl refl refl s)

      handle_found-Sound :
          (b : Control E) (k : ℕ) (m : Message) (o : Option Client)
          → find k b.clients ≡ o
          → Sound b
          → Sound (handle_found id_text mt link b m o)
      unfolding handle_found
      handle_found-Sound b k m none e s = s
      handle_found-Sound b k m (some c) e s =
          if-elim Sound c.disconnected _ _ (λ _. s)
            (λ _.
              handle_client_message-Sound b c m s
                (ap (λ n. find n b.clients) (find_number k b.clients c e) ∙ e))

      handle_all-Sound :
          (b : Control E) (k : ℕ) (ms : List Message)
          → Sound b
          → Sound (handle_all id_text mt link b k ms)
      unfolding handle_all
      handle_all-Sound b k [] s = s
      handle_all-Sound b k (m ∷ ms) s =
          handle_all-Sound (handle_found id_text mt link b m (find k b.clients)) k ms
            (handle_found-Sound b k m (find k b.clients) refl s)

      remove_found-Sound :
          (b : Control E) (k : ℕ) (o : Option Client) → Sound b → Sound (remove_found id_text b k o)
      unfolding remove_found
      remove_found-Sound b k none s = s
      remove_found-Sound b k (some c) s =
          if-elim Sound c.disconnected _ _ (λ _. remove_client-Sound b k s) (λ _. s)

      step-Sound : (b : Control E) (e : Event) → Sound b → Sound (step id_text mt link b e)
      unfolding step
      step-Sound b (connect allocated watched auth) s =
          register_client-Sound allocated watched auth b s
      step-Sound b (receive k ms closed) s =
          remove_found-Sound _ k _
            (handle_all-Sound _ k ms (if-elim Sound closed _ _ (λ _. drop-Sound k b s) (λ _. s)))
      step-Sound b (hangup k) s = remove_client-Sound b k s

      -- After any events at the sockets of a broker that satisfies the invariant, it does so again: at most
      -- 32 clients are connected; the holder of the takeover is one of them that has said hello and is no
      -- observer; and no two clients that have said hello have the same name, unless it is empty.
      pub run-Sound : (b : Control E) (es : List Event) → Sound b → Sound (run id_text mt link b es)
      unfolding run
      run-Sound b [] s = s
      run-Sound b (e ∷ es) s = run-Sound (step id_text mt link b e) es (step-Sound b e s)
