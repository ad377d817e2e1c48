-- ===== src/Broker/Control.antt =====
-- src/broker.c: the messages with which clients enter, take over and write.
pub mod Change
pub mod Inv
pub mod Expecting
pub mod Settling
pub mod Rollback
pub mod Runs
pub mod Calls
use smolmux.Base.{
  ℕ, zero, suc, ◌+◌, ◌*◌, ◌/◌, Bool, true, false, not, ◌&&◌, ◌||◌, Option, none, some, List, [],
  ◌∷◌, Bytes, ltb, ◌==◌, if◌then◌else◌, length, copied, same_text,
}
use smolmux.Text.Base64.{decode}
use smolmux.Broker.Line.{
  ℤ, pos, negsuc, is_written, Call, Line, Written, written, is_suspended, is_disconnected,
  write_failed, do_write,
}
use smolmux.Stream.Matcher.{Matcher}
use smolmux.Stream.Expect.{
  init, Expects, AddStatus, added, full, per_client, bad_pattern, no_memory, add, cancel_id,
}
use smolmux.Broker.Token.{ct_str_equal}
use smolmux.Broker.Clients.{
  Client, observer, controller, Control, Reply, find, update, reply, echoes, can_send,
  register_client, remove_client, replace_older, is_holder, held_by_other, hello_again, auth_failed,
  invalid_role, version_mismatch, hello_required, not_authorized, missing_data, too_large,
  invalid_base64, port_suspended, port_disconnected, not_written, observers_cannot,
  another_has_takeover, unknown_type, ack_takeover, ack_release, welcome, input_echo,
  missing_pattern, expect_refused,
}

-- `SM_MAX_SEND_B64_LEN`
abbrev pub max_b64 : ℕ
max_b64 = (40 * 1024 + 2) / 3 * 4 + 4

-- What `handle_send_expect` reads: the fields of the message, and the time and the success of the two
-- allocations of `sm_expect_add`.
pub record ExpectAsk : Type 0 where
  pub id : Option Bytes
  pub pattern : Option Bytes
  pub timeout : ℤ
  pub payload : Option Bytes
  pub now : ℕ
  pub table : Bool
  pub block : Bool

-- The messages that are modelled, and those of an unknown type, with the fields that their handlers read;
-- a missing field, or one of another type, is `none`. The broker's other requests are left out.
pub data Message : Type 0 where
  hello : Option Bytes → Option Bytes → Option Bytes → Option ℕ → Message
  send : Option Bytes → Message
  send_expect : ExpectAsk → Message
  takeover_please release : Message
  unknown : Message

unfoldable pub is_hello : Message → Bool
is_hello (hello token name role version) = true
is_hello _ = false

unfoldable pub token_fits : Bytes → Option Bytes → Bool
token_fits auth none = false
token_fits auth (some token) = ct_str_equal token auth

unfoldable pub role_fits : Option Bytes → Bool
role_fits none = true
role_fits (some role) = same_text role observer || same_text role controller

unfoldable pub version_fits : Option ℕ → Bool
version_fits none = false
version_fits (some v) = v == 1

-- A field of the client after a message: the new text cut to its array, or the old one.
unfoldable pub taken_over : ℕ → Bytes → Option Bytes → Bytes
taken_over size old none = old
taken_over size old (some new) = copied size new

-- What happens at the clients' sockets: a new connection, with the success of its allocation and
-- of its registration and whether it must show a token; messages, and whether the peer has closed;
-- a hangup, an error or a hello that does not come in time.
pub data Event : Type 0 where
  connect : Bool → Bool → Bool → Event
  receive : ℕ → List Message → Bool → Event
  hangup : ℕ → Event

-- The timeout in its limits.
unfoldable pub clamped_timeout : ℤ → ℕ
clamped_timeout (negsuc n) = 100
clamped_timeout (pos n) = if ltb n 100 then 100 else if ltb 3600000 n then 3600000 else n

module _ {E : Type 0} where
  -- What `sm_broker_init` gives, and the token of the configuration.
  abbrev pub new_control : Line → Bytes → Control E
  new_control line token = record {
    clients = [];
    takeover = none;
    next_client_num = 0;
    auth_token = token;
    expect = init;
    line = line;
    replies = [];
  }

  unfoldable pub change : ℕ → (Client → Client) → Control E → Control E
  change k f b = record b { clients = update k f b.clients }

  -- `handle_takeover`
  unfoldable pub handle_takeover : Control E → Client → Control E
  handle_takeover b c =
      if same_text c.role observer
      then reply c.number observers_cannot b
      else if held_by_other c.number b.takeover
      then reply c.number another_has_takeover b
      else reply c.number ack_takeover (record b { takeover = some c.number })

  -- `handle_release`
  unfoldable pub handle_release : Control E → Client → Control E
  handle_release b c =
      reply c.number ack_release
        (record b { takeover = if is_holder c.number b.takeover then none else b.takeover })

  -- `handle_send` when the write has returned.
  unfoldable pub sent : Control E → Client → Bytes → Written → Control E
  sent b c bytes written = record b {
    replies = echoes (input_echo bytes c.name) c.number b.clients b.replies;
  }
  sent b c bytes is_suspended = reply c.number port_suspended b
  sent b c bytes is_disconnected = reply c.number port_disconnected b
  sent b c bytes write_failed = reply c.number not_written b

  module _ (link : List (Call × Bool) → Call → Bool) where
    unfoldable pub send_decoded : Control E → Client → Option Bytes → Control E
    send_decoded b c none = reply c.number invalid_base64 b
    send_decoded b c (some bytes) =
        let (rc, line) = do_write link b.line bytes in sent (record b { line = line }) c bytes rc

    unfoldable pub send_data : Control E → Client → Option Bytes → Control E
    send_data b c none = reply c.number missing_data b
    send_data b c (some text) =
        if ltb max_b64 (length text)
        then reply c.number too_large b
        else send_decoded b c (decode text)

    -- `handle_send`
    unfoldable pub handle_send : Control E → Client → Option Bytes → Control E
    handle_send b c payload =
        if not (can_send b c) then reply c.number not_authorized b else send_data b c payload

  module _ (id_text : ℕ → Bytes) where
    -- `handle_hello` when all its tests have passed; the client has its name already.
    unfoldable pub greet : Control E → Client → Bytes → Option Bytes → Control E
    greet b c name role =
        let k = c.number in
        let role' = taken_over 16 c.role role in
        let greeted = change k (λ d. record d { role = role'; hello_received = true }) b in
        reply k (welcome role') (
          if ltb 0 (length name)
          then replace_older id_text k name (length greeted.clients) greeted
          else greeted)

    -- `handle_hello`
    unfoldable pub handle_hello :
        Control E → Client → Option Bytes → Option Bytes → Option Bytes → Option ℕ → Control E
    handle_hello b c token name role version =
        let k = c.number in
        let name' = taken_over 64 c.name name in
        let named = change k (λ d. record d { name = name' }) b in
        if c.hello_received
        then reply k hello_again b
        else if c.requires_auth
            && ltb 0 (length b.auth_token)
            && not (token_fits b.auth_token token)
        then change k (λ d. record d { disconnected = true }) (reply k auth_failed b)
        else if not (role_fits role)
        then reply k invalid_role b
        else if not (version_fits version)
        then reply k version_mismatch named
        else greet named c name' role

    -- `process_client_event` behind the loop.
    unfoldable pub remove_found : Control E → ℕ → Option Client → Control E
    remove_found b k none = b
    remove_found b k (some c) = if c.disconnected then remove_client id_text b k else b

    module _ (mt : Matcher E) (link : List (Call × Bool) → Call → Bool) where
      unfoldable pub forget : Control E → Bytes → Control E
      forget b id = record b { expect = cancel_id b.expect id }

      -- The end of `handle_send_expect`, with the bytes to write: the request stays if they are written.
      unfoldable pub send_expected : Control E → Client → Bytes → Option Bytes → Control E
      send_expected b c id none = reply c.number invalid_base64 (forget b id)
      send_expected b c id (some bytes) =
          let (rc, line) = do_write link b.line bytes in
          sent (record (if is_written rc then b else forget b id) { line = line }) c bytes rc

      unfoldable pub send_pending : Control E → Client → Bytes → Option Bytes → Control E
      send_pending b c id none = b
      send_pending b c id (some text) =
          if ltb max_b64 (length text)
          then reply c.number too_large (forget b id)
          else send_expected b c id (decode text)

      unfoldable pub expect_added :
          Control E → Client → Bytes → Option Bytes → AddStatus × Expects E → Control E
      expect_added b c id payload (added, eng) =
          send_pending (record b { expect = eng }) c id payload
      expect_added b c id payload (full, eng) =
          reply c.number (expect_refused full) (record b { expect = eng })
      expect_added b c id payload (per_client, eng) =
          reply c.number (expect_refused per_client) (record b { expect = eng })
      expect_added b c id payload (bad_pattern, eng) =
          reply c.number (expect_refused bad_pattern) (record b { expect = eng })
      expect_added b c id payload (no_memory, eng) =
          reply c.number (expect_refused no_memory) (record b { expect = eng })

      unfoldable pub add_expect :
          Control E → Client → ExpectAsk → Option Bytes → Option Bytes → Control E
      add_expect b c ask none pattern = reply c.number missing_pattern b
      add_expect b c ask (some id) none = reply c.number missing_pattern b
      add_expect b c ask (some id) (some pattern) = expect_added b c id ask.payload (
          add mt ask.table ask.block ask.now b.expect id pattern (clamped_timeout ask.timeout)
            (id_text c.number))

      -- `handle_send_expect`
      unfoldable pub handle_send_expect : Control E → Client → ExpectAsk → Control E
      handle_send_expect b c ask =
          if not (can_send b c)
          then reply c.number not_authorized b
          else if b.line.suspended
          then reply c.number port_suspended b
          else if b.line.link_disconnected
          then reply c.number port_disconnected b
          else add_expect b c ask ask.id ask.pattern

      unfoldable pub handle : Control E → Client → Message → Control E
      handle b c (hello token name role version) = handle_hello b c token name role version
      handle b c (send payload) = handle_send link b c payload
      handle b c (send_expect ask) = handle_send_expect b c ask
      handle b c takeover_please = handle_takeover b c
      handle b c release = handle_release b c
      handle b c unknown = reply c.number unknown_type b

      -- `handle_client_message`
      unfoldable pub handle_client_message : Control E → Client → Message → Control E
      handle_client_message b c m =
          if not c.hello_received && not (is_hello m)
          then reply c.number hello_required b
          else handle b c m

      unfoldable pub handle_found : Control E → Message → Option Client → Control E
      handle_found b m none = b
      handle_found b m (some c) = if c.disconnected then b else handle_client_message b c m

      -- The loop of `process_client_event` over the messages of one `sm_client_feed`.
      unfoldable pub handle_all : Control E → ℕ → List Message → Control E
      handle_all b k [] = b
      handle_all b k (m ∷ ms) = handle_all (handle_found b m (find k b.clients)) k ms

      unfoldable pub step : Control E → Event → Control E
      step b (connect allocated watched requires_auth) =
          register_client allocated watched requires_auth b
      step b (receive k ms closed) =
          let fed = if closed then change k (λ d. record d { disconnected = true }) b else b in
          let handled = handle_all fed k ms in remove_found handled k (find k handled.clients)
      step b (hangup k) = remove_client id_text b k

      unfoldable pub run : Control E → List Event → Control E
      run b [] = b
      run b (e ∷ es) = run (step b e) es
