-- ===== src/History/Shrink.antt =====
-- What one round of `evict` keeps.
use smolmux.Base.{
  ℕ, suc, ◌+◌, ◌-◌, ◌≤◌, ◌<◌, min, List, [], ◌∷◌, ◌++◌, ◌≡◌, refl, sym, ap, ap₂, subst, ◌∙◌, arith,
  leb, ◌==◌, if◌then◌else◌, Bool-cases, length, get_or, set, drop, length-append, length-set,
  length-drop, drop-append_le, drop-append_ge, drop_none, ◌⊎◌, inl, inr,
}
use smolmux.Base.Ring.{cells, slot_zero, cells_shift, cells-set_head, cells-set_after}
use smolmux.History.{
  RingBuffer, Chunk, no_chunk, queue, front, sync_first_seq, drop_front, trim_front, evict_step,
}
use smolmux.History.Inv.{Core, concat, stream, Linked, queue_suc}

-- The chunks behind the first.
rest : RingBuffer → List Chunk
rest rb = cells no_chunk rb.chunks rb.capacity rb.head 1 (rb.count - 1)

module _ (rb : RingBuffer) (v : Core rb) (some_chunk : 0 < rb.count) where
  stream-front : stream rb ≡ (front rb).bytes ++ concat (rest rb)
  unfolding rest
  stream-front = ap concat (queue_suc rb v some_chunk)

  Linked-front : Linked rb.first_seq rb.total_seq (front rb ∷ rest rb)
  unfolding rest
  Linked-front = let e = queue_suc rb v some_chunk in rw e at v.linked

  queue-drop_front : queue (drop_front rb) ≡ rest rb
  unfolding drop_front rest
  queue-drop_front =
      cells_shift no_chunk (set rb.chunks rb.head (record (front rb) { bytes = []; alloc = 0 }))
        rb.capacity rb.head 0 (rb.count - 1)
      ∙ cells-set_after no_chunk rb.chunks rb.capacity rb.head 1 (rb.count - 1)
          (record (front rb) { bytes = []; alloc = 0 }) (v.head_in (omega (arith, v.fits)))
          (omega arith) (omega (arith, v.fits))

  trimmed : ℕ → Chunk
  trimmed excess = record (front rb) {
    bytes = drop excess (front rb).bytes;
    seq_start = (front rb).seq_start + excess;
  }

  queue-trim_front : (excess : ℕ) → queue (trim_front rb excess) ≡ trimmed excess ∷ rest rb
  unfolding trim_front rest trimmed
  queue-trim_front excess =
      ap (cells no_chunk (set rb.chunks rb.head (trimmed excess)) rb.capacity rb.head 0) pos
      ∙ cells-set_head no_chunk rb.chunks rb.capacity rb.head (rb.count - 1) (trimmed excess)
          (omega (arith, v.table)) (v.head_in (omega (arith, v.fits))) (omega (arith, v.fits))
    where
      pos : rb.count ≡ suc (rb.count - 1)
      pos = omega arith

-- `Core`, but for the field `first_seq`, which `sync_first_seq` sets.
record Unsynced (s : ℕ) (rb : RingBuffer) : Type 0 where
  table : rb.capacity ≡ length rb.chunks
  fits : rb.count ≤ rb.capacity
  head_in : 0 < rb.capacity → rb.head < rb.capacity
  total : rb.total_bytes ≡ length (stream rb)
  linked : Linked s rb.total_seq (queue rb)

first_of_Linked :
    (rb : RingBuffer) (s : ℕ)
    → Unsynced s rb
    → (if rb.count == 0 then rb.total_seq else (front rb).seq_start) ≡ s
first_of_Linked rb s u = elim (Bool-cases (rb.count == 0)) [
  | inl z ↦
      let e : rb.count ≡ 0 = ground arith in
      rw z (
        sym (
          subst (λ k. Linked s rb.total_seq (cells no_chunk rb.chunks rb.capacity rb.head 0 k)) e
            u.linked))
  | inr nz ↦
      let e : rb.count ≡ suc (rb.count - 1) = ground arith in
      let l =
        subst (λ k. Linked s rb.total_seq (cells no_chunk rb.chunks rb.capacity rb.head 0 k)) e
          u.linked in
      rw nz (
        ap (λ k. (get_or rb.chunks k no_chunk).seq_start)
          (sym (slot_zero rb.capacity rb.head (u.head_in (omega (arith, u.fits)))))
        ∙ l.0)
]

sync_first_seq-Core : (rb : RingBuffer) (s : ℕ) → Unsynced s rb → Core (sync_first_seq rb)
unfolding sync_first_seq
sync_first_seq-Core rb s u = record {
  table = u.table;
  fits = u.fits;
  head_in = u.head_in;
  total = u.total;
  linked = subst (λ k. Linked k rb.total_seq (queue rb)) (sym (first_of_Linked rb s u)) u.linked;
}

-- What eviction may do: only the oldest bytes go, and never below the limit.
pub record Shrunk (rb rb' : RingBuffer) : Type 0 where
  pub core : Core rb'
  pub same_seq : rb'.total_seq ≡ rb.total_seq
  pub same_max : rb'.max_bytes ≡ rb.max_bytes
  pub fewer : rb'.total_bytes ≤ rb.total_bytes
  pub enough : min rb.total_bytes rb.max_bytes ≤ rb'.total_bytes
  pub kept : stream rb' ≡ drop (rb.total_bytes - rb'.total_bytes) (stream rb)
  pub fewer_chunks : rb'.count ≤ rb.count

module _ (rb : RingBuffer) (v : Core rb) (some_chunk : 0 < rb.count)
    (over : rb.max_bytes < rb.total_bytes) where
  total_split : rb.total_bytes ≡ length (front rb).bytes + length (concat (rest rb))
  total_split = omega (
    arith,
    v.total,
    ap (length {0}) (stream-front rb v some_chunk),
    length-append (front rb).bytes (concat (rest rb)),
  )

  drop_front-Unsynced : Unsynced (rb.first_seq + length (front rb).bytes) (drop_front rb)
  unfolding drop_front
  drop_front-Unsynced = record {
    table = omega (
      arith,
      v.table,
      length-set rb.chunks rb.head (record (front rb) { bytes = []; alloc = 0 }),
    );
    fits = omega (arith, v.fits);
    head_in = λ h. omega arith;
    total =
        omega (arith, total_split, ap (λ l. length (concat l)) (queue-drop_front rb v some_chunk));
    linked = rw (queue-drop_front rb v some_chunk) (Linked-front rb v some_chunk).3;
  }

  drop_front-Shrunk :
      length (front rb).bytes ≤ rb.total_bytes - rb.max_bytes
      → Shrunk rb (sync_first_seq (drop_front rb))
  unfolding sync_first_seq drop_front
  drop_front-Shrunk h = record {
    core = sync_first_seq-Core (drop_front rb) _ drop_front-Unsynced;
    same_seq = refl;
    same_max = refl;
    fewer = omega arith;
    enough = omega arith;
    kept =
        ap concat (queue-drop_front rb v some_chunk)
        ∙ sym (
            ap₂ drop (omega (arith, total_split)) (stream-front rb v some_chunk)
            ∙ drop-append_ge (length (front rb).bytes) (front rb).bytes (concat (rest rb))
                (omega arith)
            ∙ drop_none _ (concat (rest rb)) (omega arith));
    fewer_chunks = omega arith;
  }

  module _ (part : rb.total_bytes - rb.max_bytes < length (front rb).bytes) where
    abbrev excess : ℕ
    excess = rb.total_bytes - rb.max_bytes

    trim_front-Unsynced : Unsynced (rb.first_seq + excess) (trim_front rb excess)
    unfolding trim_front trimmed
    trim_front-Unsynced = record {
      table = omega (arith, v.table, length-set rb.chunks rb.head (trimmed rb v some_chunk excess));
      fits = v.fits;
      head_in = v.head_in;
      total = omega (
        arith,
        total_split,
        ap (λ l. length (concat l)) (queue-trim_front rb v some_chunk excess),
        length-append (drop excess (front rb).bytes) (concat (rest rb)),
        length-drop excess (front rb).bytes,
      );
      linked =
          rw (queue-trim_front rb v some_chunk excess)
            (linked_trimmed (Linked-front rb v some_chunk));
    }
      where
        linked_trimmed :
            Linked rb.first_seq rb.total_seq (front rb ∷ rest rb)
            → Linked (rb.first_seq + excess) rb.total_seq (trimmed rb v some_chunk excess ∷ rest rb)
        linked_trimmed l = (
          ap (λ k. k + excess) l.0,
          omega (arith, length-drop excess (front rb).bytes),
          omega (arith, length-drop excess (front rb).bytes, l.2),
          subst (λ k. Linked k rb.total_seq (rest rb))
              (omega (arith, length-drop excess (front rb).bytes)) l.3,
        )

    trim_front-Shrunk : Shrunk rb (sync_first_seq (trim_front rb excess))
    unfolding sync_first_seq trim_front trimmed
    trim_front-Shrunk = record {
      core = sync_first_seq-Core (trim_front rb excess) _ trim_front-Unsynced;
      same_seq = refl;
      same_max = refl;
      fewer = omega arith;
      enough = omega arith;
      kept =
          ap concat (queue-trim_front rb v some_chunk excess)
          ∙ sym (
              ap₂ drop (omega (arith, total_split)) (stream-front rb v some_chunk)
              ∙ drop-append_le excess (front rb).bytes (concat (rest rb)) (omega arith));
      fewer_chunks = omega arith;
    }

  pub evict_step-Shrunk :
      Shrunk rb (evict_step rb)
      × ((suc (evict_step rb).count ≤ rb.count) ⊎ ((evict_step rb).total_bytes ≤ rb.max_bytes))
  unfolding evict_step
  evict_step-Shrunk =
      elim (Bool-cases (leb (length (front rb).bytes) (rb.total_bytes - rb.max_bytes))) [
        | inl whole ↦ rw whole (
          drop_front-Shrunk (ground arith),
          inl (unfold drop_front sync_first_seq in omega arith),
        )
        | inr part ↦ rw part (
          trim_front-Shrunk (ground arith),
          inr (unfold trim_front sync_first_seq in omega arith),
        )
      ]
