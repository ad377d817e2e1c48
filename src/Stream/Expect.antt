-- ===== src/Stream/Expect.antt =====
-- src/expect.c. Times are milliseconds; the regex engine is a `Matcher`. `realloc` and `malloc`
-- succeed or fail by the flags of a call, in `feed` by a test on the size.
pub mod Limits
pub mod Pending
pub mod Buffer
use smolmux.Base.{
  ℕ, zero, suc, ◌+◌, ◌-◌, ◌*◌, Bool, true, false, not, ◌&&◌, ◌||◌, Option, none, some, List, [],
  ◌∷◌, ◌++◌, Bytes, ltb, leb, ◌==◌, if◌then◌else◌, length, get_or, set, take, drop, copied,
  same_text,
}
use smolmux.Stream.Matcher.{Matcher}

abbrev pub max_pending : ℕ
max_pending = 256

abbrev pub max_per_client : ℕ
max_per_client = 16

abbrev pub max_buffer : ℕ
max_buffer = 256 * 1024

-- From one byte, so many doublings pass `max_buffer`.
abbrev pub doublings : ℕ
doublings = 19

abbrev pub lookback : ℕ
lookback = 256

-- `sm_expect_request_t`
pub record Request (E : Type 0) : Type 0 where
  pub id : Bytes
  pub compiled : E
  pub pattern : Bytes
  pub deadline : ℕ
  pub buffer : Bytes
  pub buf_cap : ℕ
  pub search_offset : ℕ
  pub matched : Bool
  pub aborted : Bool
  pub client_id : Bytes
  pub abort_reason : Bytes
  pub abort_pattern : Bytes

-- `sm_expect_engine_t`; the list holds the `count` requests.
pub record Expects (E : Type 0) : Type 0 where
  pub requests : List (Request E)
  pub capacity : ℕ

-- 0 and the `SM_EXPECT_ERR_*` codes.
pub data AddStatus : Type 0 where
  added full per_client bad_pattern no_memory : AddStatus

-- `while (req->buf_len + n >= req->buf_cap)`: the block that holds `need` bytes and the NUL, and
-- whether it was got. A step that `realloc` refuses leaves the block of the step before.
pub grow_buffer : (ℕ → Bool) → ℕ → ℕ → ℕ → ℕ × Bool
grow_buffer ok zero now need = (now, ltb need now)
grow_buffer ok (suc fuel) now need = elim (leb now need) [
  | true ↦ elim (ok (now * 2)) [ true ↦ grow_buffer ok fuel (now * 2) need | false ↦ (now, false) ]
  | false ↦ (now, true)
]

abbrev pub grown_table : ℕ → ℕ
grown_table capacity = if capacity == 0 then 16 else capacity * 2

module _ {E : Type 0} where
  -- `sm_expect_init`
  unfoldable pub init : Expects E
  init = record { requests = []; capacity = 0 }

  -- `sm_expect_destroy`
  pub destroy : Expects E → Expects E
  destroy eng = init

  unfoldable pub client_count : List (Request E) → Bytes → ℕ
  client_count [] client = 0
  client_count (r ∷ rs) client =
      let rest = client_count rs client in if same_text r.client_id client then rest + 1 else rest

  -- The end of `sm_expect_add`, where the table has room.
  unfoldable pub add_request :
      Bool → Expects E → Bytes → Bytes → ℕ → Bytes → Option E → AddStatus × Expects E
  add_request ok eng id pattern deadline client none = (bad_pattern, eng)
  add_request ok eng id pattern deadline client (some e) =
      let r : Request E = record {
        id = copied 64 id;
        compiled = e;
        pattern = copied 256 pattern;
        deadline = deadline;
        buffer = [];
        buf_cap = 4096;
        search_offset = 0;
        matched = false;
        aborted = false;
        client_id = copied 32 client;
        abort_reason = [];
        abort_pattern = [];
      } in
      if ok then (added, record eng { requests = eng.requests ++ r ∷ [] }) else (no_memory, eng)

  -- `sm_expect_add` at the time `now`. The flags are the success of the table's `realloc` and of the
  -- buffer's `malloc`.
  unfoldable pub add :
      Matcher E → Bool → Bool → ℕ → Expects E → Bytes → Bytes → ℕ → Bytes → AddStatus × Expects E
  unfolding add_request
  add m table block now eng id pattern timeout client =
      if leb max_pending (length eng.requests)
      then (full, eng)
      else if leb max_per_client (client_count eng.requests client)
      then (per_client, eng)
      else if leb eng.capacity (length eng.requests)
      then (if ltb max_pending (grown_table eng.capacity)
          then (full, eng)
          else if table
          then add_request block (record eng { capacity = grown_table eng.capacity }) id pattern
              (now + timeout) client (m.compile pattern)
          else (no_memory, eng))
      else add_request block eng id pattern (now + timeout) client (m.compile pattern)

  -- The bytes kept of the buffer and of the input, and the place where the search goes on.
  pub slide : Request E → Bytes → Request E × Bytes
  slide r input =
      let n = length input in
      let cut = length r.buffer + n - max_buffer in
      if ltb max_buffer n
      then (record r { buffer = []; search_offset = 0 }, drop (n - max_buffer) input)
      else if ltb max_buffer (length r.buffer + n)
      then (
        record r {
          buffer = drop cut r.buffer;
          search_offset = if ltb cut r.search_offset then r.search_offset - cut else 0;
        },
        input,
      )
      else (r, input)

  abbrev pub search_from : Request E → ℕ
  search_from r = if ltb lookback r.search_offset then r.search_offset - lookback else 0

  -- The match at the end of the loop body.
  pub try_match : Matcher E → Request E → Request E
  try_match m r =
      let (found, e) = m.exec r.compiled (drop (search_from r) r.buffer) in
      record r {
        compiled = e;
        matched = elim found [ none ↦ r.matched | some off ↦ true ];
        search_offset = length r.buffer;
      }

  -- The end of the loop body: the bytes are copied if there is a block for them.
  pub fill : Matcher E → Request E → Bytes → ℕ × Bool → Request E
  fill m r src (new_cap, true) =
      try_match m (record r { buffer = r.buffer ++ src; buf_cap = new_cap })
  fill m r src (new_cap, false) = record r { buf_cap = new_cap }

  pub grow_and_fill : Matcher E → (ℕ → Bool) → Request E × Bytes → Request E
  grow_and_fill m ok (r, src) =
      fill m r src (grow_buffer ok doublings r.buf_cap (length r.buffer + length src))

  -- The loop body of `sm_expect_feed`. The block grows by doubling.
  pub feed_request : Matcher E → (ℕ → Bool) → Bytes → Request E → Request E
  feed_request m ok input r = if r.matched then r else grow_and_fill m ok (slide r input)

  feed_all : Matcher E → (ℕ → Bool) → Bytes → List (Request E) → List (Request E)
  feed_all m ok input [] = []
  feed_all m ok input (r ∷ rs) = feed_request m ok input r ∷ feed_all m ok input rs

  -- `sm_expect_feed`
  pub feed : Matcher E → (ℕ → Bool) → Expects E → Bytes → Expects E
  unfolding feed_all
  feed m ok eng input = record eng { requests = feed_all m ok input eng.requests }

  pub is_done : ℕ → Request E → Bool
  is_done now r = r.matched || r.aborted || leb r.deadline now

  -- `eng->requests[i] = eng->requests[--eng->count]`, on the requests from `i` on: the last one takes
  -- the place of the first.
  pub move_last : Request E → List (Request E) → List (Request E)
  move_last r [] = []
  move_last r (s ∷ ss) = let n = length ss in get_or (s ∷ ss) n s ∷ take n (s ∷ ss)

  -- The loops that remove requests, on the requests from `i` on: those that are taken out (at most
  -- `room`), in their order, and those that stay. `none` when the fuel runs out.
  pub sweep : (Request E → Bool) → ℕ → ℕ → List (Request E) → List (Request E) × List (Request E)
  sweep out zero room rs = ([], rs)
  sweep out (suc fuel) room [] = ([], [])
  sweep out (suc fuel) room (r ∷ rs) = if room == 0 then ([], r ∷ rs) else (elim (out r) [
    | true ↦ let (gone, left) = sweep out fuel (room - 1) (move_last r rs) in (r ∷ gone, left)
    | false ↦ let (gone, left) = sweep out fuel room rs in (gone, r ∷ left)
  ])

  -- `sm_expect_collect`: the requests that the results are copied from, and the engine.
  pub collect : Expects E → ℕ → ℕ → List (Request E) × Expects E
  collect eng now max_out =
      let (gone, left) = sweep (is_done now) (length eng.requests) max_out eng.requests in
      (gone, record eng { requests = left })

  abort_request : Bytes → Bytes → Request E → Request E
  abort_request reason pattern r = if r.matched || r.aborted then r else record r {
    aborted = true;
    abort_reason = copied 32 reason;
    abort_pattern = copied 64 pattern;
  }

  abort_requests : Bytes → Bytes → List (Request E) → List (Request E)
  abort_requests reason pattern [] = []
  abort_requests reason pattern (r ∷ rs) =
      abort_request reason pattern r ∷ abort_requests reason pattern rs

  -- `sm_expect_abort_all` with a reason and a pattern that are not NULL.
  pub abort_all : Expects E → Bytes → Bytes → Expects E
  unfolding abort_requests abort_request
  abort_all eng reason pattern = record eng {
    requests = abort_requests reason pattern eng.requests;
  }

  -- `sm_expect_cancel_id` and `sm_expect_cancel_client` stop at the end of the requests only.
  pub cancel_if : (Request E → Bool) → Expects E → Expects E
  cancel_if out eng = record eng {
    requests = (sweep out (length eng.requests) (suc (length eng.requests)) eng.requests).1;
  }

  pub cancel_id : Expects E → Bytes → Expects E
  cancel_id eng id = cancel_if (λ r. same_text r.id id) eng

  pub cancel_client : Expects E → Bytes → Expects E
  cancel_client eng client = cancel_if (λ r. same_text r.client_id client) eng

  -- `sm_expect_cancel_all`
  pub cancel_all : Expects E → Expects E
  cancel_all eng = record eng { requests = [] }
