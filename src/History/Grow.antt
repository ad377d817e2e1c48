-- ===== src/History/Grow.antt =====
-- The ways in which bytes enter the history buffer, before any are evicted.
use smolmux.Base.{
  ℕ, suc, ◌+◌, ◌-◌, ◌%◌, ◌≤◌, ◌<◌, Bool, false, none, some, List, [], ◌∷◌, ◌++◌, ◌≡◌, refl, sym, ap,
  subst, ◌∙◌, arith, leb, ◌==◌, Bool-cases, Bytes, length, set, length-append, length-set,
  append-nil, append_assoc, inl, inr,
}
use smolmux.Base.Ring.{cells, cells-set_last, length-regrown, cells-regrown}
use smolmux.History.{
  RingBuffer, Chunk, no_chunk, queue, last, last_slot, extend_last, larger, grow_table, make_room,
  push_chunk,
}
use smolmux.History.Inv.{
  Core, concat, stream, Linked, Linked-snoc, Linked-last, queue-last, concat-append,
}
use smolmux.History.Pool.{Blocks}

-- The bytes `input` stand behind the old stream; nothing has been evicted yet.
pub record Grown (rb rb' : RingBuffer) (input : Bytes) : Type 0 where
  pub core : Core rb'
  pub bytes : stream rb' ≡ stream rb ++ input
  pub sum : rb'.total_bytes ≡ rb.total_bytes + length input
  pub seq : rb'.total_seq ≡ rb.total_seq + length input
  pub max : rb'.max_bytes ≡ rb.max_bytes

module _ (rb : RingBuffer) (v : Core rb) (some_chunk : 0 < rb.count) (input : Bytes)
    (alloc : ℕ) where
  before : List Chunk
  before = cells no_chunk rb.chunks rb.capacity rb.head 0 (rb.count - 1)

  extended : Chunk
  extended = record (last rb) { bytes = (last rb).bytes ++ input; alloc = alloc }

  queue-extend_last : queue (extend_last rb input alloc) ≡ before ++ extended ∷ []
  unfolding extend_last before extended
  queue-extend_last =
      ap (cells no_chunk (set rb.chunks (last_slot rb) extended) rb.capacity rb.head 0) pos
      ∙ cells-set_last no_chunk rb.chunks rb.capacity rb.head (rb.count - 1) extended
          (omega (arith, v.table)) (v.head_in (omega (arith, v.fits))) (omega (arith, v.fits))
    where
      pos : rb.count ≡ suc (rb.count - 1)
      pos = omega arith

  stream-extend_last : stream (extend_last rb input alloc) ≡ stream rb ++ input
  unfolding before extended
  stream-extend_last =
      ap concat queue-extend_last
      ∙ concat-append before (extended ∷ [])
      ∙ ap (λ l. concat before ++ l) (append-nil ((last rb).bytes ++ input))
      ∙ sym (append_assoc (concat before) (last rb).bytes input)
      ∙ ap (λ l. l ++ input)
          (ap (λ l. concat before ++ l) (sym (append-nil (last rb).bytes))
            ∙ sym (concat-append before (last rb ∷ []))
            ∙ ap concat (sym (queue-last rb some_chunk)))

  pub extend_last-Grown :
      length (last rb).bytes + length input ≤ alloc → Grown rb (extend_last rb input alloc) input
  unfolding extend_last extended before
  extend_last-Grown h = record {
    core = record {
      table = omega (arith, v.table, length-set rb.chunks (last_slot rb) extended);
      fits = v.fits;
      head_in = v.head_in;
      total =
          omega
            (arith, v.total, ap (length {0}) stream-extend_last, length-append (stream rb) input);
      linked = rw queue-extend_last (linked_extended (rw (queue-last rb some_chunk) at v.linked));
    };
    bytes = stream-extend_last;
    sum = refl;
    seq = refl;
    max = refl;
  }
    where
      linked_extended :
          Linked rb.first_seq rb.total_seq (before ++ last rb ∷ [])
          → Linked rb.first_seq (rb.total_seq + length input) (before ++ extended ∷ [])
      linked_extended l =
          let (m, linked, q, p, a, t) = Linked-last rb.first_seq rb.total_seq before (last rb) l in
          Linked-snoc rb.first_seq m _ before extended linked q
            (omega (arith, p, length-append (last rb).bytes input))
            (omega (arith, h, length-append (last rb).bytes input))
            (omega (arith, t, length-append (last rb).bytes input))

module _ (rb : RingBuffer) (v : Core rb) (roomy : rb.count < rb.capacity) (input : Bytes)
    (ts alloc : ℕ) (pool : Blocks) where
  pushed : Chunk
  pushed = record { timestamp = ts; seq_start = rb.total_seq; bytes = input; alloc = alloc }

  queue-push_chunk : queue (push_chunk rb input ts alloc pool) ≡ queue rb ++ pushed ∷ []
  unfolding push_chunk pushed
  queue-push_chunk =
      ap
        (cells no_chunk (set rb.chunks ((rb.head + rb.count) % rb.capacity) pushed) rb.capacity
          rb.head 0)
        pos
      ∙ cells-set_last no_chunk rb.chunks rb.capacity rb.head rb.count pushed
          (omega (arith, v.table)) (v.head_in (omega arith)) roomy
    where
      pos : rb.count + 1 ≡ suc rb.count
      pos = omega arith

  stream-push_chunk : stream (push_chunk rb input ts alloc pool) ≡ stream rb ++ input
  unfolding pushed
  stream-push_chunk =
      ap concat queue-push_chunk
      ∙ concat-append (queue rb) (pushed ∷ [])
      ∙ ap (λ l. stream rb ++ l) (append-nil input)

  first_seq-push_chunk : (push_chunk rb input ts alloc pool).first_seq ≡ rb.first_seq
  unfolding push_chunk
  first_seq-push_chunk = elim (Bool-cases (rb.count == 0)) [
    | inl z ↦
        let e : rb.count ≡ 0 = ground arith in
        rw z (
          sym (
            subst
              (λ k.
                Linked rb.first_seq rb.total_seq (cells no_chunk rb.chunks rb.capacity rb.head 0 k))
              e v.linked))
    | inr nz ↦ rw nz
  ]

  pub push_chunk-Grown :
      0 < length input → length input ≤ alloc → Grown rb (push_chunk rb input ts alloc pool) input
  push_chunk-Grown h a = record {
    core = record {
      table =
          unfold push_chunk pushed in
          omega (arith, v.table, length-set rb.chunks ((rb.head + rb.count) % rb.capacity) pushed);
      fits = unfold push_chunk in omega arith;
      head_in = unfold push_chunk in v.head_in;
      total =
          unfold push_chunk in
          omega
            (arith, v.total, ap (length {0}) stream-push_chunk, length-append (stream rb) input);
      linked =
          rw (first_seq-push_chunk, queue-push_chunk)
            (unfold push_chunk pushed in
              Linked-snoc rb.first_seq rb.total_seq _ (queue rb) pushed v.linked refl h a refl);
    };
    bytes = stream-push_chunk;
    sum = unfold push_chunk in refl;
    seq = unfold push_chunk in refl;
    max = unfold push_chunk in refl;
  }

-- A table with room for one more chunk, that holds the same queue.
pub record Roomy (rb rb' : RingBuffer) : Type 0 where
  pub core : Core rb'
  pub room : rb'.count < rb'.capacity
  pub same : queue rb' ≡ queue rb
  pub total : rb'.total_bytes ≡ rb.total_bytes
  pub seq : rb'.total_seq ≡ rb.total_seq
  pub max : rb'.max_bytes ≡ rb.max_bytes

grow_table-Roomy : (rb : RingBuffer) → Core rb → rb.capacity ≤ rb.count → Roomy rb (grow_table rb)
unfolding grow_table
grow_table-Roomy rb v full = record {
  core = record {
    table = sym (
        length-regrown no_chunk rb.chunks rb.capacity rb.head rb.count (larger rb.capacity)
          (omega (arith, wide)));
    fits = omega (arith, wide);
    head_in = λ h. omega (arith, wide);
    total = v.total ∙ ap (λ l. length (concat l)) (sym same);
    linked = rw same v.linked;
  };
  room = wide;
  same = same;
  total = refl;
  seq = refl;
  max = refl;
}
  where
    wide : rb.count < larger rb.capacity
    wide = unfold larger in ground (arith, v.fits)

    same : queue (grow_table rb) ≡ queue rb
    same =
        cells-regrown no_chunk rb.chunks rb.capacity rb.head rb.count (larger rb.capacity)
          (omega (arith, wide))

pub make_room-Roomy :
    (table : Bool) (rb : RingBuffer) {rb' : RingBuffer}
    → Core rb
    → make_room table rb ≡ some rb'
    → Roomy rb rb'
unfolding make_room
make_room-Roomy table rb {rb'} v e = elim (Bool-cases (leb rb.capacity rb.count)) [
  | inr room ↦
      let same : rb ≡ rb' = ground arith in
      subst (Roomy rb) same (record {
        core = v;
        room = ground arith;
        same = refl;
        total = refl;
        seq = refl;
        max = refl;
      })
  | inl full ↦
      let same : grow_table rb ≡ rb' = ground arith in
      subst (Roomy rb) same (grow_table-Roomy rb v (ground arith))
]

pub make_room-none : (table : Bool) (rb : RingBuffer) → make_room table rb ≡ none → table ≡ false
unfolding make_room
make_room-none table rb e = ground arith
