-- ===== src/Tests/Broker.antt =====
-- The broker's theorems on a link that takes everything, and with two clients.
use smolmux.Base.{
  codes, ◌≤◌, length, replicate, inl, inr, ℕ, zero, suc, ◌<◌, ◌+◌, ◌≡◌, refl, subst, Bool, true,
  false, none, some, List, [], ◌∷◌, Bytes, arith, same_text,
}
use smolmux.Broker.Line.{limited, do_write, call, is_written, pos, dtr, raise, Call, Line}
use smolmux.Broker.Break.{Event, ask_break, ask_reset, expire, cancel, link_state, run, init}
use smolmux.Broker.Break.Held.{Held}
use smolmux.Broker.Break.Inv.{fires, owed, Awaits}
use smolmux.Broker.Break.Once.{accepted, callbacks_once, lines_Held, callbacks_run}
use smolmux.Stream.Matcher.{Matcher}
use smolmux.Broker.Flood.{
  Flood, ask, start_flood, pulse_fits, is_reset_pin, compile_stop, start_compiled, start_with,
  start_reset, start_timer, send_key, handle_flood_timer, release_reset, flood_finish,
}
use smolmux.Broker.Flood.Reset.{lines_freed}
use smolmux.Broker.Flood.Hold.{hold}
use smolmux.Broker.Token.{ct_str_equal, ct_str_equal-same_text}
use smolmux.Broker.Clients.{Client, Control, observer, controller, find, is_holder}
use smolmux.Broker.Control.{
  ExpectAsk, new_control, handle_send_expect, Message, hello, send, takeover_please, connect,
  receive, hangup, handle_client_message, handle_all,
}
use smolmux.Stream.Expect.Limits.{IsValid, init-IsValid}
use smolmux.Broker.Listen.{ListenAsk, listen_all}
use smolmux.Broker.Listen.Rate.{Complete, over_limit, listen_all-rate}
use smolmux.Broker.Control.Runs.{new_control-Sound, run-Sound}
use smolmux.Broker.Control.Inv.{Sound}
use smolmux.Broker.Control.Calls.{Watches, handle_client_message-line, observer_silent}
use smolmux.History.{RingBuffer}
use smolmux.History.Inv.{Core}
use smolmux.History.Query.Octets.{HoldsBytes}
use smolmux.Broker.Paging.{Request, has_id, id_text, turns, handle_history_request, asked_chunks}
use smolmux.Broker.Paging.ByCursor.{Delivered, page_of, handle_history_request-Delivered}
use smolmux.Broker.Paging.Newest
use smolmux.Broker.Paging.Newest.{Fits, handle_history_request-newest}

pub no_offset : (s : Bytes) (off : ℕ) → none ≡ some off → off ≤ length s
no_offset s off h = absurd (ground arith)

abbrev pub no_match : Matcher ℕ
no_match = record {
  compile = λ p. some 0;
  exec = λ e s. (none, e);
  within = λ e s off h. no_offset s off h;
}

abbrev pub yes : List (Call × Bool) → Call → Bool
yes calls c = true

abbrev pub up : Line
up = record { suspended = false; link_disconnected = false; calls = [] }

-- A SysRq break that ends, and a reset that is cut off.
abbrev script : List Event
script =
    ask_break true true (pos 100) (b'b' ∷ []) (pos 50) (some 7)
    ∷ expire true
    ∷ expire true
    ∷ ask_reset true true (some dtr) (pos 0) (some 8)
    ∷ []

callbacks_once_example :
    fires 8 (run yes (init up) script).fired + owed 8 (run yes (init up) script).done
    ≡ accepted yes 8 (init up) script
callbacks_once_example = callbacks_once yes up refl script 8

lines_Held_example :
    Held
      (run yes (init up) script).phase
      (run yes (init up) script).pin
      (run yes (init up) script).line.calls
lines_Held_example = lines_Held yes up refl script (λ calls pin. refl)

callbacks_run_example :
    Awaits
      (run yes (init up) script).phase
      (run yes (init up) script).done
      (run yes (init up) script).armed
    × ((run yes (run yes (init up) script) (expire true ∷ expire true ∷ [])).phase
        ≡ smolmux.Broker.Break.idle)
    × (fires 8 (run yes (run yes (init up) script) (expire true ∷ expire true ∷ [])).fired
        ≡ accepted yes 8 (init up) script)
callbacks_run_example = callbacks_run yes up refl script 8 true true

ct_str_equal-same_text_example :
    ct_str_equal (codes "key") (b'k' ∷ b'e' ∷ []) ≡ same_text (codes "key") (b'k' ∷ b'e' ∷ [])
ct_str_equal-same_text_example = ct_str_equal-same_text (codes "key") (b'k' ∷ b'e' ∷ [])

abbrev pub new_broker : Control ℕ
new_broker = new_control up []

abbrev pub number_text : ℕ → Bytes
number_text n = n ∷ []

abbrev agent : Message
agent = hello none (some (b'a' ∷ [])) (some controller) (some 1)

-- Two connections say hello under one name, and the second takes over.
abbrev visits : List smolmux.Broker.Control.Event
visits =
    connect true true false
    ∷ receive 0 (agent ∷ takeover_please ∷ []) false
    ∷ connect true true false
    ∷ receive 1 (agent ∷ takeover_please ∷ send (some []) ∷ []) false
    ∷ []

run-Sound_example : Sound (smolmux.Broker.Control.run number_text no_match yes new_broker visits)
run-Sound_example = run-Sound number_text no_match yes new_broker visits (new_control-Sound up [])

abbrev pub watcher : Client
watcher = record {
  number = 1;
  name = [];
  role = observer;
  hello_received = true;
  disconnected = false;
  requires_auth = false;
}

abbrev watched : Control ℕ
watched = record new_broker { clients = watcher ∷ [] }

handle_client_message-line_example :
    (handle_client_message number_text no_match yes watched watcher (send (some []))).line
    ≡ watched.line
handle_client_message-line_example =
    handle_client_message-line number_text no_match yes watched watcher (send (some []))
      (inr (inl refl))

watched-Watches : Watches number_text no_match yes 1 watched
unfolding find
watched-Watches c e =
    let same : watcher ≡ c = ground arith in
    subst (λ d. (d.hello_received ≡ true) × (same_text d.role observer ≡ true)) same (refl, refl)

observer_silent_example :
    ((handle_all number_text no_match yes watched 1 (takeover_please ∷ send (some []) ∷ [])).line
      ≡ watched.line)
    × ((handle_all number_text no_match yes watched 1
          (takeover_please ∷ send (some []) ∷ [])).clients
        ≡ watched.clients)
    × ((handle_all number_text no_match yes watched 1
          (takeover_please ∷ send (some []) ∷ [])).takeover
        ≡ watched.takeover)
observer_silent_example =
    observer_silent number_text no_match yes watched 1 (takeover_please ∷ send (some []) ∷ [])
      watched-Watches is_free
  where
    is_free : is_holder 1 watched.takeover ≡ false
    is_free = unfold is_holder in refl

abbrev no_flood : Flood ℕ
no_flood = record {
  line = up;
  active = false;
  key = [];
  deadline = 0;
  stop_re = none;
  tail = replicate 256 0;
  tail_len = 0;
  sent = 0;
  reset_pin = dtr;
  reset_deassert = raise;
  reset_pending = false;
  reset_deassert_time = 0;
  has_timer = false;
  armed = false;
  results = [];
}

-- A flood of two keys under reset that times out.
abbrev flood_script : List smolmux.Broker.Flood.Event
flood_script =
    ask true true (b' ' ∷ []) (pos 500) (some (b'>' ∷ []))
      (some (record { pin = dtr; assert = none; hold = pos 100 })) 0
    ∷ smolmux.Broker.Flood.expire 50
    ∷ smolmux.Broker.Flood.expire 600
    ∷ []

flood_script_over : (smolmux.Broker.Flood.run no_match yes no_flood flood_script).active ≡ false
unfolding smolmux.Broker.Flood.run smolmux.Broker.Flood.step start_flood pulse_fits is_reset_pin
    limited compile_stop start_compiled start_with start_reset start_timer send_key do_write call
    is_written handle_flood_timer release_reset flood_finish
flood_script_over = refl

lines_freed_example :
    hold (smolmux.Broker.Flood.run no_match yes no_flood flood_script).line.calls ≡ none
unfolding hold
lines_freed_example = lines_freed no_match yes no_flood flood_script refl refl flood_script_over

-- A controller that has said hello.
abbrev pub writer : Client
writer = record watcher { role = controller }

-- A history of one chunk.
abbrev small_history : RingBuffer
small_history = record {
  chunks = record { timestamp = 5; seq_start = 0; bytes = codes "abc"; alloc = 256 } ∷ [];
  head = 0;
  count = 1;
  capacity = 1;
  total_bytes = 3;
  max_bytes = 100;
  total_seq = 3;
  first_seq = 0;
  pool = [];
}

small_history-Core : Core small_history
small_history-Core = record {
  table = refl;
  fits = omega arith;
  head_in = λ h. omega arith;
  total = refl;
  linked = (refl, omega arith, omega arith, refl);
}

small_history-HoldsBytes : HoldsBytes small_history
small_history-HoldsBytes zero = (omega arith, (omega arith, (omega arith, tt)))
small_history-HoldsBytes (suc i) = tt

abbrev ask_page : Request
ask_page = record {
  id = some (b'7' ∷ []);
  since_seq = some (pos 1);
  max_bytes = pos 1;
  since_ts = 0;
  last_bytes = pos 0;
}

abbrev one_client : List Bytes
one_client = (b'c' ∷ []) ∷ []

found_client : has_id (b'c' ∷ []) one_client ≡ true
unfolding has_id
found_client = refl

short_id : length (id_text (some (b'7' ∷ []))) < 64
unfolding id_text
short_id = omega arith

handle_history_request-Delivered_example :
    Delivered small_history 1
      (record { pending = none; sent = [] })
      (b'c' ∷ [])
      ask_page
      (turns one_client (suc (length (page_of small_history 1 (pos 1)).chunks)) (
        handle_history_request true true small_history
          (record { pending = none; sent = [] })
          (b'c' ∷ [])
          ask_page))
handle_history_request-Delivered_example =
    handle_history_request-Delivered small_history one_client [] (b'c' ∷ []) ask_page 1
      small_history-Core small_history-HoldsBytes (omega arith) refl found_client (omega arith)
      short_id

abbrev ask_all : Request
ask_all = record ask_page { since_seq = none }

handle_history_request-newest_example :
    (start : ℕ) × Fits (asked_chunks true small_history ask_all) start
    × Newest.Delivered
        (record { pending = none; sent = [] })
        (b'c' ∷ [])
        ask_all.id
        (asked_chunks true small_history ask_all)
        start
        (turns one_client (suc (length (asked_chunks true small_history ask_all))) (
          handle_history_request true true small_history
            (record { pending = none; sent = [] })
            (b'c' ∷ [])
            ask_all))
handle_history_request-newest_example =
    handle_history_request-newest small_history one_client [] (b'c' ∷ []) ask_all
      small_history-HoldsBytes refl found_client (omega arith) short_id

abbrev listening : ListenAsk
listening = record {
  id = some (b'7' ∷ []);
  pattern = some (b'>' ∷ []);
  timeout = pos 500;
  now = 1200;
  table = true;
  block = true;
}

listening-Complete : Complete number_text no_match 1000 writer (omega arith) listening
listening-Complete = record {
  id = b'7' ∷ [];
  pattern = b'>' ∷ [];
  known = refl;
  given = refl;
  some_byte = omega arith;
  from = omega arith;
  until = omega arith;
}

listen_all-rate_example :
    let b' =
      (listen_all number_text no_match new_broker writer
        (record { window_start = 0; window_count = 0 })
        (listening ∷ [])).0 in
    (length (listening ∷ []) + over_limit new_broker.replies ≤ over_limit b'.replies + 16)
    × IsValid b'.expect
    × (b'.line ≡ new_broker.line)
    × (b'.clients ≡ new_broker.clients)
listen_all-rate_example =
    listen_all-rate number_text no_match 1000 writer (omega arith) new_broker
      (record { window_start = 0; window_count = 0 }) (listening ∷ []) init-IsValid refl refl
      (listening-Complete, tt)
