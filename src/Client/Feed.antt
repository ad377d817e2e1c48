-- ===== src/Client/Feed.antt =====
-- src/client.c: the read side of a client's connection, which cuts what it reads into lines.
pub mod Lines
pub mod Chunks
use smolmux.Base.{
  ℕ, zero, suc, ◌+◌, ◌-◌, ◌*◌, Bool, true, false, Option, none, some, List, [], ◌∷◌, ◌++◌, Bytes,
  ltb, leb, ◌==◌, if◌then◌else◌, length, take,
}

-- `read_buf`, of which the first `read_len` bytes are in use, and `read_cap`.
pub record Reader : Type 0 where
  pub read_buf : Bytes
  pub read_cap : ℕ
  pub disconnected : Bool

-- What a `read` of the socket finds: bytes, one at least, of which it takes as many as it is asked for, none for now,
-- or the end of the stream or an error.
pub data Read : Type 0 where
  got : Bytes → Read
  again ended : Read

-- `avail`: a byte of the buffer stays free.
abbrev pub space : Reader → ℕ
space r = r.read_cap - length r.read_buf - 1

-- How many messages the broker takes from one call.
abbrev pub max_out : ℕ
max_out = 16

-- What `sm_client_new` gives.
abbrev pub new_reader : Reader
new_reader = record { read_buf = []; read_cap = 65536; disconnected = false }

abbrev pub newline : ℕ
newline = b'\n'

unfoldable pub as_list {ℓ} : {M : Type ℓ} → Option M → List M
as_list none = []
as_list (some m) = m ∷ []

-- The bytes since `start` behind the byte `b`.
unfoldable pub line_after : Bytes → ℕ → Bytes
line_after line b = if b == newline then [] else line ++ b ∷ []

-- `decode` is `sm_msg_decode`: the message of a line, if it has a root.
module _ {M : Type 0} (decode : Bytes → Option M) where
  -- The message of the line between two newlines; an empty line has none.
  unfoldable pub line_message : Bytes → Option M
  line_message [] = none
  line_message (b ∷ bs) = decode (b ∷ bs)

  -- What one byte adds: the message of the line that a newline ends.
  unfoldable pub found : Bytes → ℕ → List M
  found line b = if b == newline then as_list (line_message line) else []

  -- The loop of `sm_client_feed` that extracts the lines, with room for so many messages, from the
  -- bytes behind `line`, the bytes since `start`: the messages, and the bytes from `start` on.
  unfoldable pub extract : ℕ → Bytes → Bytes → List M × Bytes
  extract room line [] = ([], line)
  extract room line (b ∷ rest) =
      let now = found line b in
      let (ms, left) = extract (room - length now) (line_after line b) rest in
      if room == 0 then ([], line ++ b ∷ rest) else (now ++ ms, left)

  unfoldable pub take_lines : Reader → List M × Reader
  take_lines r =
      let (ms, left) = extract max_out [] r.read_buf in (ms, record r { read_buf = left })

  unfoldable pub read_lines : Reader → Read → List M × Reader
  read_lines r (got bytes) = take_lines (record r { read_buf = r.read_buf ++ take (space r) bytes })
  read_lines r again = take_lines r
  read_lines r ended = ([], record r { disconnected = true })

  -- `sm_client_feed`
  unfoldable pub feed : Reader → Read → List M × Reader
  feed r input = if space r == 0 then ([], record r { disconnected = true }) else read_lines r input

  -- Calls of `sm_client_feed` until the client is disconnected: the messages, and the reader.
  unfoldable pub run : Reader → List Read → List M × Reader
  run r [] = ([], r)
  run r (input ∷ inputs) =
      let (ms, r') = feed r input in
      let (more, last) = run r' inputs in if r.disconnected then ([], r) else (ms ++ more, last)
