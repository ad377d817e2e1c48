-- ===== src/History/Query.antt =====
-- The queries of src/ring_buffer.c. A query returns the chunks that it copied, in order; the flag
-- `ok` is the success of the `malloc` in `copy_range`.
pub mod Paging
pub mod Cursor
pub mod Octets
use smolmux.Base.{
  ℕ, zero, suc, ◌+◌, ◌-◌, ◌%◌, ◌≤◌, ◌<◌, Bool, true, false, ◌&&◌, ◌||◌, Option, none, some, List,
  [], ◌∷◌, ◌++◌, ◌≡◌, refl, sym, ap, ap₂, ◌∙◌, arith, ltb, leb, ◌==◌, if◌then◌else◌, length, get_or,
  take, drop,
}
use smolmux.Base.Ring.{cells}
use smolmux.History.{RingBuffer, Chunk, no_chunk, queue}

-- `rb->chunks[RB_IDX(rb, i)]`
abbrev pub chunk_at : RingBuffer → ℕ → Chunk
chunk_at rb i = get_or rb.chunks ((rb.head + i) % rb.capacity) no_chunk

pub copy_range : Bool → RingBuffer → ℕ → ℕ → List Chunk
copy_range ok rb start n =
    if n == 0 then [] else if ok then cells no_chunk rb.chunks rb.capacity rb.head start n else []

-- The loop of `sm_rb_get_since` over the `n` chunks from the `i`-th on.
pub since_from : Bool → RingBuffer → ℕ → ℕ → ℕ → List Chunk
since_from ok rb since_ts i zero = []
since_from ok rb since_ts i (suc n) =
    let later = since_from ok rb since_ts (suc i) n in
    if leb since_ts (chunk_at rb i).timestamp then copy_range ok rb i (rb.count - i) else later

pub get_since : Bool → RingBuffer → ℕ → List Chunk
get_since ok rb since_ts = since_from ok rb since_ts 0 rb.count

-- The loop of `sm_rb_get_last_n_bytes`: the start it ends with, from `start` with `acc` bytes.
pub last_start : RingBuffer → ℕ → ℕ → ℕ → ℕ
last_start rb n zero acc = 0
last_start rb n (suc start) acc =
    let earlier = last_start rb n start (acc + length (chunk_at rb start).bytes) in
    if ltb acc n then earlier else suc start

pub get_last_n_bytes : Bool → RingBuffer → ℕ → List Chunk
get_last_n_bytes ok rb n =
    if rb.count == 0 || n == 0
    then []
    else (let start = last_start rb n rb.count 0 in copy_range ok rb start (rb.count - start))

pub get_all : Bool → RingBuffer → List Chunk
get_all ok rb = copy_range ok rb 0 rb.count

-- What `sm_rb_get_since_seq` returns and writes through its out-parameters.
pub record Page : Type 0 where
  pub chunks : List Chunk
  pub first_skip : ℕ
  pub cursor : ℕ
  pub dropped : ℕ
  pub has_more : Bool

-- The index of the first chunk that ends behind `want`, from `i` on.
pub find_start : ℕ → List Chunk → ℕ → Option ℕ
find_start want [] i = none
find_start want (c ∷ cs) i =
    let later = find_start want cs (suc i) in
    if leb (c.seq_start + length c.bytes) want then later else some i

-- The loop that selects a page: the number of chunks and the cursor. `off` is `first_skip` at the
-- first chunk and 0 behind it.
pub select_page : ℕ → ℕ → List Chunk → ℕ → ℕ → ℕ → ℕ × ℕ
select_page max_bytes off [] n acc cursor = (n, cursor)
select_page max_bytes off (c ∷ cs) n acc cursor =
    let usable = length c.bytes - off in
    let skip = select_page max_bytes 0 cs n acc cursor in
    let next = select_page max_bytes 0 cs (n + 1) (acc + usable) (c.seq_start + length c.bytes) in
    if usable == 0
    then skip
    else if ltb 0 max_bytes && leb max_bytes acc
    then (n, cursor)
    else if ltb 0 max_bytes && ltb max_bytes (acc + usable)
    then (n + 1, c.seq_start + off + (max_bytes - acc))
    else next

abbrev pub no_page : RingBuffer → ℕ → Page
no_page rb dropped = record {
  chunks = [];
  first_skip = 0;
  cursor = rb.total_seq;
  dropped = dropped;
  has_more = false;
}

-- The end of the call: `n` chunks from `start` on are copied out.
pub finish_page : Bool → RingBuffer → ℕ → ℕ → ℕ → ℕ × ℕ → Page
finish_page ok rb dropped start first_skip (n, cursor) =
    if n == 0 then no_page rb dropped else (elim (copy_range ok rb start n) [
      | [] ↦ no_page rb dropped
      | x ∷ xs ↦ record {
        chunks = x ∷ xs;
        first_skip = first_skip;
        cursor = cursor;
        dropped = dropped;
        has_more = ltb cursor rb.total_seq;
      }
    ])

-- The page that starts in the chunk `start` at `want`.
pub page_from : Bool → RingBuffer → ℕ → ℕ → ℕ → ℕ → Page
page_from ok rb want max_bytes dropped start =
    let c = chunk_at rb start in
    let first_skip = if ltb c.seq_start want then want - c.seq_start else 0 in
    finish_page ok rb dropped start first_skip (
      select_page max_bytes first_skip
        (cells no_chunk rb.chunks rb.capacity rb.head start (rb.count - start)) 0 0 want)

pub start_page : Bool → RingBuffer → ℕ → ℕ → ℕ → Option ℕ → Page
start_page ok rb want max_bytes dropped none = no_page rb dropped
start_page ok rb want max_bytes dropped (some start) = page_from ok rb want max_bytes dropped start

pub get_since_seq : Bool → RingBuffer → ℕ → ℕ → Page
get_since_seq ok rb since_seq max_bytes =
    let dropped = if ltb since_seq rb.first_seq then rb.first_seq - since_seq else 0 in
    let want = if ltb since_seq rb.first_seq then rb.first_seq else since_seq in
    if rb.count == 0 || leb rb.total_seq want
    then no_page rb dropped
    else start_page ok rb want max_bytes dropped (find_start want (queue rb) 0)
