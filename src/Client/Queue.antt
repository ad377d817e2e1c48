-- ===== src/Client/Queue.antt =====
-- src/client.c and src/util/shared_line.c: the lines that a client has not been sent yet, in a circular
-- table of fixed size. Serial output that waits is merged with output that comes.
pub mod Inv
pub mod Merge
pub mod Send
pub mod Flush
use smolmux.Base.{
  codes, ℕ, zero, suc, ◌+◌, ◌-◌, ◌*◌, ◌%◌, ◌^◌, Bool, true, false, not, ◌&&◌, ◌||◌, Option, none,
  some, List, [], ◌∷◌, ◌++◌, Bytes, ltb, leb, ◌==◌, if◌then◌else◌, length, get_or, set, drop, take,
  replicate, same_text, ◌>>=◌, when,
}
use smolmux.Base.Ring.{cells}
use smolmux.Text.Base64.{decode}
use smolmux.Link.WriteQueue.{Reply, wrote, again, error, Status, done, more, failed}
use smolmux.Protocol.{Json, Msg, msg_decode, msg_encode, msg_output, get_string, get_double}
use smolmux.Protocol.Types.{type_output, number}

-- `sm_write_entry_t`; `len` is the length of `bytes`. The flag says that `shared` is set: the bytes
-- belong to a shared line, which is released and not freed.
pub record Entry : Type 0 where
  pub bytes : Bytes
  pub shared : Bool
  pub offset : ℕ

abbrev pub no_entry : Entry
no_entry = record { bytes = []; shared = false; offset = 0 }

-- The write queue of `sm_client_t`.
pub record Queue : Type 0 where
  pub entries : List Entry
  pub head : ℕ
  pub count : ℕ
  pub cap : ℕ
  pub drops : ℕ

-- `SM_CLIENT_WRITE_QUEUE_SIZE`
abbrev pub queue_size : ℕ
queue_size = 256

-- `SM_CLIENT_COALESCE_MAX_BYTES`
abbrev pub coalesce_max : ℕ
coalesce_max = 16 * 1024

-- What `sm_client_new` gives.
abbrev pub new_queue : Queue
new_queue = record {
  entries = replicate queue_size no_entry;
  head = 0;
  count = 0;
  cap = queue_size;
  drops = 0;
}

abbrev pub queue : Queue → List Entry
queue q = cells no_entry q.entries q.cap q.head 0 q.count

-- The full queue drops the line.
unfoldable pub dropped : Queue → Queue
dropped q = record q { drops = (q.drops + 1) % 2 ^ 64 }

-- The new entry in a cell. What is `shared` in the cell stays when no value is given.
abbrev pub pushed : Entry → Bytes → Option Bool → Entry
pushed old line none = record { bytes = line; shared = old.shared; offset = 0 }
pushed old line (some shared) = record { bytes = line; shared = shared; offset = 0 }

-- A new entry in the cell behind the last.
unfoldable pub push : Queue → Bytes → Option Bool → Queue
push q line shared =
    let slot = (q.head + q.count) % q.cap in
    record q {
      entries = set q.entries slot (pushed (get_or q.entries slot no_entry) line shared);
      count = q.count + 1;
    }

unfoldable pub push_or_drop : Queue → Bytes → Option Bool → Bool × Queue
push_or_drop q line shared =
    if leb q.cap q.count then (false, dropped q) else (true, push q line shared)

-- `sm_client_send_raw`; the result is true for 0.
unfoldable pub send_raw : Queue → Bytes → Bool × Queue
send_raw q line = push_or_drop q line (some false)

abbrev pub output_prefix : Bytes
output_prefix = codes "{\"type\":\"output"

-- `line_is_output`
unfoldable pub line_is_output : Bytes → Bool
line_is_output line = leb 15 (length line) && same_text (take 15 line) output_prefix

-- `sm_shared_line_new`; the flag is the success of its `malloc`.
unfoldable pub shared_line_new : Bool → Bytes → Option Bytes
shared_line_new memory line = if length line == 0 then none else when memory (some line)

-- The success of the allocations of `try_coalesce_output`: of the two calls of `sm_msg_decode` and of
-- `sm_base64_decode`, of `realloc`, of the base64 text, of `sm_msg_encode` and of the new shared line.
pub record Memory : Type 0 where
  pub old_line : Bool
  pub new_line : Bool
  pub old_raw : Bool
  pub new_raw : Bool
  pub merged : Bool
  pub text : Bool
  pub line : Bool
  pub shared : Bool

-- The cell of the last entry.
abbrev pub last_slot : Queue → ℕ
last_slot q = (q.head + q.count - 1) % q.cap

unfoldable pub replace_last : Queue → Bytes → Queue
replace_last q line = record q {
  entries = set q.entries (last_slot q) (record { bytes = line; shared = true; offset = 0 });
}

-- The first tests of `try_coalesce_output`.
unfoldable pub can_merge : Queue → Bytes → Bool
can_merge q line =
    let prev = get_or q.entries (last_slot q) no_entry in
    not (q.count == 0)
    && line_is_output line
    && prev.offset == 0
    && not (leb coalesce_max (length prev.bytes))
    && prev.shared
    && line_is_output prev.bytes

unfoldable pub coalesced_or : Option Queue → Queue → Bytes → Bool × Queue
coalesced_or (some merged) q line = (true, merged)
coalesced_or none q line = push_or_drop q line (some true)

unfoldable pub send_encoded : Queue → Option Bytes → Bool × Queue
send_encoded q none = (false, q)
send_encoded q (some line) = push_or_drop q line none

module _ (J : Json) where
  unfoldable pub is_output_msg : Msg J → Bool
  is_output_msg msg = number msg.type == number type_output

  unfoldable pub encode_merged : Memory → Bytes → J.Number → Option Bytes
  encode_merged m bytes ts = do
    line ← msg_encode J m.line (msg_output J m.text bytes ts)
    shared_line_new m.shared line

  -- The line with the output of both lines, with the time of the second.
  unfoldable pub merged_line : Memory → Bytes → Bytes → Option Bytes
  merged_line m old new = do
    old_msg ← msg_decode J m.old_line old
    new_msg ← msg_decode J m.new_line new
    when (is_output_msg old_msg && is_output_msg new_msg) (do
      old_b64 ← get_string J old_msg.root (codes "data")
      new_b64 ← get_string J new_msg.root (codes "data")
      old_raw ← when m.old_raw (decode old_b64)
      new_raw ← when m.new_raw (decode new_b64)
      when m.merged (
          encode_merged m (old_raw ++ new_raw)
            (get_double J new_msg.root (codes "timestamp") J.nought)))

  -- `try_coalesce_output`; `none` is 0.
  unfoldable pub try_coalesce_output : Memory → Queue → Bytes → Option Queue
  try_coalesce_output m q line = when (can_merge q line) (do
    both ← merged_line m (get_or q.entries (last_slot q) no_entry).bytes line
    some (replace_last q both))

  -- `sm_client_send_shared`
  unfoldable pub send_shared : Memory → Queue → Option Bytes → Bool × Queue
  send_shared m q none = (false, q)
  send_shared m q (some line) = coalesced_or (try_coalesce_output m q line) q line

  -- `sm_client_send`
  unfoldable pub send : Bool → Queue → J.Item → Bool × Queue
  send memory q msg = send_encoded q (msg_encode J memory msg)

abbrev pub front : Queue → Entry
front q = get_or q.entries q.head no_entry

-- The loop body of `sm_client_flush` behind a `write` of `n` bytes.
unfoldable pub advance : Queue → ℕ → Queue
advance q n =
    let e = front q in
    if leb (length e.bytes) (e.offset + n)
    then record q {
      entries = set q.entries q.head (record { bytes = []; shared = false; offset = e.offset + n });
      head = (q.head + 1) % q.cap;
      count = q.count - 1;
    }
    else record q { entries = set q.entries q.head (record e { offset = e.offset + n }) }

-- What a call of `flush` leaves: its result, the queue, and the bytes that the client was sent.
pub record Run : Type 0 where
  pub status : Status
  pub left : Queue
  pub sent : Bytes

abbrev pub prepend : Bytes → Option Run → Option Run
prepend bytes none = none
prepend bytes (some r) = some (record r { sent = bytes ++ r.sent })

abbrev pub stopped : Status → Queue → Option Run
stopped status q = some (record { status = status; left = q; sent = [] })

-- `os i len` is the reply of the kernel to the `i`-th `write`, of `len` bytes.
module _ (os : ℕ → ℕ → Reply) where
  -- `sm_client_flush`; a loop that runs out of fuel gives `none`.
  unfoldable pub flush : ℕ → ℕ → Queue → Option Run
  flush zero i q = none
  flush (suc fuel) i q =
      let rest = drop (front q).offset (front q).bytes in
      let round : Option Run = elim (os i (length rest)) [
        | again ↦ stopped more q
        | error ↦ stopped failed q
        | wrote n ↦ prepend (take n rest) (flush fuel (i + 1) (advance q n))
      ] in
      if q.count == 0 then stopped done q else round
