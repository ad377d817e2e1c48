-- ===== src/History/Pool.antt =====
-- The pool of released chunk blocks of src/ring_buffer.c. A block is the size it was released with;
-- its bytes are never read before they are written.
use smolmux.Base.{
  ℕ, ◌+◌, ◌-◌, Bool, false, Option, none, some, List, [], ◌∷◌, ◌++◌, ◌≡◌, arith, ltb, leb,
  if◌then◌else◌, length, get_or, set, take,
}

abbrev pub chunk_target : ℕ
chunk_target = 4096

abbrev pub pool_slots : ℕ
pool_slots = 16

abbrev pub Blocks : Type 0
Blocks = List ℕ

-- A block that finds no slot is freed.
pub pool_release : Blocks → ℕ → Blocks
pool_release pool cap = if ltb (length pool) pool_slots then pool ++ cap ∷ [] else pool

-- The first slot from `i` on that holds `want` bytes.
pub pool_find : Blocks → ℕ → ℕ → Option ℕ
pool_find [] want i = none
pool_find (cap ∷ pool) want i = if leb want cap then some i else pool_find pool want (i + 1)

-- `rb_pool[i] = rb_pool[--rb_pool_count]`
pub swap_remove : Blocks → ℕ → Blocks
swap_remove pool i = let n = length pool - 1 in take n (set pool i (get_or pool n 0))

-- The size of the block handed out, and the pool left. The flag is the success of the call's
-- `malloc` or `realloc`.
pub pool_acquire : Bool → Blocks → ℕ → Option (ℕ × Blocks)
pool_acquire ok pool need =
    let want = if ltb chunk_target need then need else chunk_target in
    elim (pool_find pool want 0) [
      | some i ↦
          let cap = get_or pool i 0 in
          if ltb cap want
          then (if ok then some (want, swap_remove pool i) else none)
          else some (cap, swap_remove pool i)
      | none ↦ if ok then some (want, pool) else none
    ]

-- A block is refused only when the call's `malloc` or `realloc` fails.
pub pool_acquire-none :
    (ok : Bool) (pool : Blocks) (need : ℕ) → pool_acquire ok pool need ≡ none → ok ≡ false
unfolding pool_acquire
pool_acquire-none ok pool need e = ground arith
