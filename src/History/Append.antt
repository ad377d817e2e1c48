-- ===== src/History/Append.antt =====
-- `sm_rb_append`: each way in which bytes enter the buffer extends the stream by exactly them.
use smolmux.Base.{
  ℕ, ◌+◌, ◌-◌, ◌<◌, false, ◌&&◌, ◌++◌, ◌≡◌, refl, ap, ap₂, ◌∙◌, arith, ltb, ◌==◌, if◌then◌else◌,
  Bool-cases, Bytes, length, drop, ◌⊎◌, inl, inr, Option-cases,
}
use smolmux.History.{
  RingBuffer, last, Memory, evict, fits_block, fits_grown, make_room, push_chunk, append_chunk,
  append,
}
use smolmux.History.Evict.{evict-Shrunk}
use smolmux.History.Grow.{
  Grown, Roomy, extend_last-Grown, push_chunk-Grown, make_room-Roomy, make_room-none,
}
use smolmux.History.Inv.{IsValid, concat, stream}
use smolmux.History.Pool.{chunk_target, pool_acquire, pool_acquire-none}

-- The outcome of a call that takes the bytes: they follow the old ones, and of the whole the last
-- `max_bytes` bytes stay.
pub record Recorded (rb : RingBuffer) (input : Bytes) (rb' : RingBuffer) : Type 0 where
  pub valid : IsValid rb'
  pub bytes : stream rb' ≡ drop (rb.total_bytes + length input - rb.max_bytes) (stream rb ++ input)
  pub seq : rb'.total_seq ≡ rb.total_seq + length input
  pub max : rb'.max_bytes ≡ rb.max_bytes

-- The outcome of a call that gives up for want of memory: as if it had not been made.
pub record Ignored (rb : RingBuffer) (rb' : RingBuffer) : Type 0 where
  pub valid : IsValid rb'
  pub bytes : stream rb' ≡ stream rb
  pub seq : rb'.total_seq ≡ rb.total_seq
  pub max : rb'.max_bytes ≡ rb.max_bytes

evict-Recorded :
    (rb rb' : RingBuffer) (input : Bytes) → Grown rb rb' input → Recorded rb input (evict rb')
evict-Recorded rb rb' input g =
    let (s, b) = evict-Shrunk rb' g.core in
    record {
      valid = record { core = s.core; bounded = omega (arith, s.same_max, b) };
      bytes = s.kept ∙ ap₂ drop (omega (arith, g.sum, g.max, s.enough, s.fewer, b)) g.bytes;
      seq = s.same_seq ∙ g.seq;
      max = s.same_max ∙ g.max;
    }

Grown-Roomy :
    {rb r r' : RingBuffer} {input : Bytes} → Roomy rb r → Grown r r' input → Grown rb r' input
Grown-Roomy {rb} {r} {r'} {input} m g = record {
  core = g.core;
  bytes = g.bytes ∙ ap (λ l. concat l ++ input) m.same;
  sum = omega (arith, g.sum, m.total);
  seq = omega (arith, g.seq, m.seq);
  max = g.max ∙ m.max;
}

Ignored-Roomy : {rb r : RingBuffer} → IsValid rb → Roomy rb r → Ignored rb r
Ignored-Roomy v m = record {
  valid = record { core = m.core; bounded = omega (arith, m.total, m.max, v.bounded) };
  bytes = ap concat m.same;
  seq = m.seq;
  max = m.max;
}

append_chunk-outcome :
    (mem : Memory) (rb : RingBuffer) (input : Bytes) (ts : ℕ)
    → IsValid rb
    → 0 < length input
    → Recorded rb input (append_chunk mem rb input ts)
      ⊎ (Ignored rb (append_chunk mem rb input ts) × ((mem.table && mem.chunk) ≡ false))
unfolding append_chunk
append_chunk-outcome mem rb input ts v h = elim (Option-cases (make_room mem.table rb)) [
  | inl e ↦
      rw (e, append_chunk)
        (inr (
          record { valid = v; bytes = refl; seq = refl; max = refl },
          ground (arith, make_room-none mem.table rb e),
        ))
  | inr (r, e) ↦
      let m = make_room-Roomy mem.table rb v.core e in
      let alloc = if ltb chunk_target (length input) then length input else chunk_target in
      rw (e, append_chunk)
        (elim (Option-cases (pool_acquire mem.chunk r.pool alloc)) [
          | inl f ↦
              rw (f, append_chunk)
                (inr
                  (Ignored-Roomy v m, ground (arith, pool_acquire-none mem.chunk r.pool alloc f)))
          | inr ((size, pool), f) ↦
              rw (f, append_chunk)
                (inl (
                  evict-Recorded rb (push_chunk r input ts alloc pool) input (
                    Grown-Roomy m
                      (push_chunk-Grown r m.core m.room input ts alloc pool h (ground arith)))))
        ])
]

-- `sm_rb_append` with at least one byte keeps the invariant whichever allocations fail. The bytes are recorded (they
-- follow the old ones, and of the whole the last `max_bytes` stay), or the call leaves the stream
-- as it was, which takes a failed `calloc` or `malloc`.
pub append-outcome :
    (mem : Memory) (rb : RingBuffer) (input : Bytes) (ts : ℕ)
    → IsValid rb
    → 0 < length input
    → Recorded rb input (append mem rb input ts)
      ⊎ (Ignored rb (append mem rb input ts) × ((mem.table && mem.chunk) ≡ false))
unfolding append
append-outcome mem rb input ts v h = elim (Bool-cases (length input == 0)) [
  | inl e ↦ absurd (ground arith)
  | inr e ↦ elim (Bool-cases (fits_block rb (length input) ts)) [
    | inl f ↦
        rw (append, e, f)
          (inl (
            evict-Recorded _ _ input (
              extend_last-Grown rb v.core (unfold fits_block in ground arith) input (last rb).alloc
                (unfold fits_block in ground arith))))
    | inr f ↦ elim (Bool-cases (fits_grown rb (length input) ts && mem.grow)) [
      | inl g ↦
          rw (append, e, f, g)
            (inl (
              evict-Recorded _ _ input (
                extend_last-Grown rb v.core (unfold fits_grown in ground arith) input
                  (length (last rb).bytes + length input) (omega arith))))
      | inr g ↦ rw (append, e, f, g) (append_chunk-outcome mem rb input ts v h)
    ]
  ]
]
