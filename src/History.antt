-- ===== src/History.antt =====
-- src/ring_buffer.c: the history buffer, a circular table of byte chunks with a global byte
-- sequence. Timestamps are whole ticks. A malloc that may fail is a field of `Memory`.
pub mod Pool
pub mod Inv
pub mod Shrink
pub mod Evict
pub mod Grow
pub mod Append
pub mod Feed
pub mod Query
use smolmux.Base.{
  ℕ, zero, suc, ◌+◌, ◌-◌, ◌*◌, ◌%◌, Bool, true, false, ◌&&◌, Option, none, some, List, [], ◌∷◌,
  ◌++◌, Bytes, ltb, leb, ◌==◌, if◌then◌else◌, length, get_or, set, drop,
}
use smolmux.Base.Ring.{cells, regrown}
use smolmux.History.Pool.{Blocks, chunk_target, pool_release, pool_acquire}

-- `sm_rb_chunk_t`; `len` is the length of `bytes`.
pub record Chunk : Type 0 where
  pub timestamp : ℕ
  pub seq_start : ℕ
  pub bytes : Bytes
  pub alloc : ℕ

-- A cell that `calloc` has cleared.
abbrev pub no_chunk : Chunk
no_chunk = record { timestamp = 0; seq_start = 0; bytes = []; alloc = 0 }

-- `sm_ring_buffer_t`, and the file's static pool of released blocks.
pub record RingBuffer : Type 0 where
  pub chunks : List Chunk
  pub head : ℕ
  pub count : ℕ
  pub capacity : ℕ
  pub total_bytes : ℕ
  pub max_bytes : ℕ
  pub total_seq : ℕ
  pub first_seq : ℕ
  pub pool : Blocks

-- Which of the allocations of one call succeed: the `realloc` of the last chunk, the `calloc` of a
-- larger table, the `malloc` of a chunk (also the pool's `realloc`).
pub record Memory : Type 0 where
  pub grow : Bool
  pub table : Bool
  pub chunk : Bool

pub init : Blocks → ℕ → RingBuffer
init pool max_bytes = record {
  chunks = [];
  head = 0;
  count = 0;
  capacity = 0;
  total_bytes = 0;
  max_bytes = max_bytes;
  total_seq = 0;
  first_seq = 0;
  pool = pool;
}

-- The stored chunks, oldest first: `chunks[RB_IDX(rb, i)]` for `i < count`.
abbrev pub queue : RingBuffer → List Chunk
queue rb = cells no_chunk rb.chunks rb.capacity rb.head 0 rb.count

abbrev pub front : RingBuffer → Chunk
front rb = get_or rb.chunks rb.head no_chunk

abbrev pub last_slot : RingBuffer → ℕ
last_slot rb = (rb.head + (rb.count - 1)) % rb.capacity

abbrev pub last : RingBuffer → Chunk
last rb = get_or rb.chunks (last_slot rb) no_chunk

release_all : Blocks → List Chunk → Blocks
release_all pool [] = pool
release_all pool (c ∷ cs) = release_all (pool_release pool c.alloc) cs

-- `sm_rb_destroy`
pub destroy : RingBuffer → RingBuffer
destroy rb = init (release_all rb.pool (queue rb)) 0

pub sync_first_seq : RingBuffer → RingBuffer
sync_first_seq rb = record rb {
  first_seq = if rb.count == 0 then rb.total_seq else (front rb).seq_start;
}

-- The loop body of `evict`: the oldest chunk goes as a whole, or loses its oldest bytes.
pub drop_front : RingBuffer → RingBuffer
drop_front rb = record rb {
  total_bytes = rb.total_bytes - length (front rb).bytes;
  pool = pool_release rb.pool (front rb).alloc;
  chunks = set rb.chunks rb.head (record (front rb) { bytes = []; alloc = 0 });
  head = (rb.head + 1) % rb.capacity;
  count = rb.count - 1;
}

pub trim_front : RingBuffer → ℕ → RingBuffer
trim_front rb excess = record rb {
  chunks = set rb.chunks rb.head (record (front rb) {
    bytes = drop excess (front rb).bytes;
    seq_start = (front rb).seq_start + excess;
  });
  total_bytes = rb.total_bytes - excess;
}

pub evict_step : RingBuffer → RingBuffer
evict_step rb =
    let excess = rb.total_bytes - rb.max_bytes in
    sync_first_seq
      (if leb (length (front rb).bytes) excess then drop_front rb else trim_front rb excess)

pub evict_fuel : ℕ → RingBuffer → RingBuffer
evict_fuel zero rb = rb
evict_fuel (suc fuel) rb = elim (ltb 0 rb.count && ltb rb.max_bytes rb.total_bytes) [
  | true ↦ evict_fuel fuel (evict_step rb)
  | false ↦ rb
]

-- A round drops a chunk or is the last, so `count` rounds are enough.
pub evict : RingBuffer → RingBuffer
evict rb = evict_fuel rb.count rb

-- The bytes go behind those of the last chunk, whose block holds `alloc` bytes.
pub extend_last : RingBuffer → Bytes → ℕ → RingBuffer
extend_last rb input alloc = record rb {
  chunks =
      set rb.chunks (last_slot rb)
        (record (last rb) { bytes = (last rb).bytes ++ input; alloc = alloc });
  total_bytes = rb.total_bytes + length input;
  total_seq = rb.total_seq + length input;
}

-- Does the last chunk have this timestamp and room in its block?
pub fits_block : RingBuffer → ℕ → ℕ → Bool
fits_block rb len ts =
    ltb 0 rb.count
    && (last rb).timestamp == ts
    && ltb (length (last rb).bytes) chunk_target
    && leb (length (last rb).bytes + len) (last rb).alloc

-- Does it fit if the block is reallocated?
pub fits_grown : RingBuffer → ℕ → ℕ → Bool
fits_grown rb len ts =
    ltb 0 rb.count
    && (last rb).timestamp == ts
    && ltb (length (last rb).bytes) chunk_target
    && leb (length (last rb).bytes + len) chunk_target

pub larger : ℕ → ℕ
larger capacity = if capacity == 0 then 64 else capacity * 2

pub grow_table : RingBuffer → RingBuffer
grow_table rb = record rb {
  chunks = regrown no_chunk rb.chunks rb.capacity rb.head rb.count (larger rb.capacity);
  capacity = larger rb.capacity;
  head = 0;
}

-- Doubles the table when it is full; `none` when `calloc` fails.
pub make_room : Bool → RingBuffer → Option RingBuffer
make_room table rb =
    if leb rb.capacity rb.count then (if table then some (grow_table rb) else none) else some rb

pub push_chunk : RingBuffer → Bytes → ℕ → ℕ → Blocks → RingBuffer
push_chunk rb input ts alloc pool =
    let slot = (rb.head + rb.count) % rb.capacity in
    let c : Chunk = record {
      timestamp = ts;
      seq_start = rb.total_seq;
      bytes = input;
      alloc = alloc;
    } in
    record rb {
      chunks = set rb.chunks slot c;
      count = rb.count + 1;
      total_bytes = rb.total_bytes + length input;
      total_seq = rb.total_seq + length input;
      first_seq = if rb.count == 0 then rb.total_seq else rb.first_seq;
      pool = pool;
    }

-- The part of `sm_rb_append` behind the two merges.
pub append_chunk : Memory → RingBuffer → Bytes → ℕ → RingBuffer
append_chunk mem rb input ts =
    let alloc = if ltb chunk_target (length input) then length input else chunk_target in
    elim (make_room mem.table rb) [
      | none ↦ rb
      | some roomy ↦ elim (pool_acquire mem.chunk roomy.pool alloc) [
        | none ↦ roomy
        | some (size, pool) ↦ evict (push_chunk roomy input ts alloc pool)
      ]
    ]

-- `sm_rb_append`
pub append : Memory → RingBuffer → Bytes → ℕ → RingBuffer
append mem rb input ts =
    if length input == 0
    then rb
    else if fits_block rb (length input) ts
    then evict (extend_last rb input (last rb).alloc)
    else if fits_grown rb (length input) ts && mem.grow
    then evict (extend_last rb input (length (last rb).bytes + length input))
    else append_chunk mem rb input ts
