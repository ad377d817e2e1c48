-- ===== src/Link/WriteQueue/Flush.antt =====
-- `sm_link_wq_flush` and `sm_link_wq_write`: the device gets the bytes in order, none is lost or
-- doubled, and the loops end.
use smolmux.Base.{
  ℕ, zero, suc, ◌+◌, ◌-◌, ◌%◌, ◌≤◌, ◌<◌, true, false, some, [], ◌∷◌, ◌++◌, ◌≡◌, refl, sym, ap, ap₂,
  ◌∙◌, arith, Bytes, length, set, drop, take, length-append, length-set, length-drop, length-take,
  append_assoc, leb, ◌==◌, Bool-cases, inl, inr, drop-drop, take-append-drop, take-all,
}
use smolmux.Base.Ring.{cells, cells_shift, cells-set_after, cells-set_head}
use smolmux.Link.WriteQueue.{
  WriteQueue, Entry, no_entry, front, Status, done, more, failed, Reply, wrote, again, error,
  advance, Run, prepend, flush,
}
use smolmux.Link.WriteQueue.Inv.{IsValid, owed, pending, AllLeft, behind, queue_suc}

-- The bytes that the next `write` offers.
abbrev rest : WriteQueue → Bytes
rest wq = drop (front wq).offset (front wq).bytes

module _ (wq : WriteQueue) (v : IsValid wq) (some_entry : 0 < wq.count) where
  pending_front : pending wq ≡ rest wq ++ owed (behind wq)
  pending_front = ap owed (queue_suc wq v some_entry)

  left_front : AllLeft (front wq ∷ behind wq)
  left_front = let e = queue_suc wq v some_entry in rw e at v.left

  total_front : wq.total_bytes ≡ length (rest wq) + length (owed (behind wq))
  total_front =
      omega
        (arith, v.total, ap (length {0}) pending_front, length-append (rest wq) (owed (behind wq)))

  module _ (n : ℕ) (pos : 0 < n) (most : n ≤ length (rest wq)) where
    abbrev moved : Entry
    moved = record (front wq) { offset = (front wq).offset + n }

    advance_whole :
        length (front wq).bytes ≤ (front wq).offset + n
        → IsValid (advance wq n) × (pending wq ≡ take n (rest wq) ++ pending (advance wq n))
    unfolding advance
    advance_whole whole =
        let e : leb (length (front wq).bytes) ((front wq).offset + n) ≡ true = ground arith in
        rw e (
          record {
            table =
                omega (arith, v.table, length-set wq.entries wq.head (record moved { bytes = [] }));
            fits = omega (arith, v.fits);
            head_in = λ h. omega arith;
            total = omega (arith, total_front, all, ap (λ l. length (owed l)) popped);
            bounded = omega (arith, v.bounded);
            left = rw popped left_front.1;
          },
          pending_front
              ∙ ap₂ ◌++◌ (sym (take-all n (rest wq) (omega (arith, all)))) (ap owed (sym popped)),
        )
      where
        all : n ≡ length (rest wq)
        all = omega (arith, length-drop (front wq).offset (front wq).bytes)

        popped :
            cells no_entry
              (set wq.entries wq.head (record moved { bytes = [] }))
              wq.cap
              ((wq.head + 1) % wq.cap)
              0
              (wq.count - 1)
            ≡ behind wq
        popped =
            cells_shift no_entry (set wq.entries wq.head (record moved { bytes = [] })) wq.cap
              wq.head 0 (wq.count - 1)
            ∙ cells-set_after no_entry wq.entries wq.cap wq.head 1 (wq.count - 1)
                (record moved { bytes = [] }) (v.head_in (omega (arith, v.fits))) (omega arith)
                (omega (arith, v.fits))

    advance_part :
        (front wq).offset + n < length (front wq).bytes
        → IsValid (advance wq n) × (pending wq ≡ take n (rest wq) ++ pending (advance wq n))
    unfolding advance
    advance_part part =
        let e : leb (length (front wq).bytes) ((front wq).offset + n) ≡ false = ground arith in
        rw e (
          record {
            table = omega (arith, v.table, length-set wq.entries wq.head moved);
            fits = v.fits;
            head_in = v.head_in;
            total = omega (
              arith,
              total_front,
              ap (λ l. length (owed l)) replaced,
              length-append (drop ((front wq).offset + n) (front wq).bytes) (owed (behind wq)),
              length-drop ((front wq).offset + n) (front wq).bytes,
              length-drop (front wq).offset (front wq).bytes,
            );
            bounded = omega (arith, v.bounded);
            left = rw replaced (part, left_front.1);
          },
          pending_front
              ∙ ap (λ l. l ++ owed (behind wq))
                  (sym (take-append-drop n (rest wq))
                    ∙ ap (λ l. take n (rest wq) ++ l)
                        (drop-drop n (front wq).offset (front wq).bytes))
              ∙ append_assoc (take n (rest wq)) (drop ((front wq).offset + n) (front wq).bytes)
                  (owed (behind wq))
              ∙ ap (λ l. take n (rest wq) ++ owed l) (sym replaced),
        )
      where
        count_suc : wq.count ≡ suc (wq.count - 1)
        count_suc = omega arith

        replaced :
            cells no_entry (set wq.entries wq.head moved) wq.cap wq.head 0 wq.count
            ≡ moved ∷ behind wq
        replaced =
            ap (cells no_entry (set wq.entries wq.head moved) wq.cap wq.head 0) count_suc
            ∙ cells-set_head no_entry wq.entries wq.cap wq.head (wq.count - 1) moved
                (omega (arith, v.table)) (v.head_in (omega (arith, v.fits))) (omega (arith, v.fits))

    advance_lem : IsValid (advance wq n) × (pending wq ≡ take n (rest wq) ++ pending (advance wq n))
    advance_lem = elim (Bool-cases (leb (length (front wq).bytes) ((front wq).offset + n))) [
      | inl e ↦ advance_whole (ground arith)
      | inr e ↦ advance_part (ground arith)
    ]

-- A run that ends without another write.
abbrev pub stopped : Status → WriteQueue → Run
stopped status wq = record { status = status; wq = wq; sent = [] }

-- What a run leaves of the bytes `before`: they are those that the device took, and then those
-- that are still queued.
pub record Conserved (before : Bytes) (r : Run) : Type 0 where
  pub valid : IsValid r.wq
  pub order : before ≡ r.sent ++ pending r.wq
  pub drained : r.status ≡ done → r.wq.count ≡ 0

Conserved-prepend :
    (before sent : Bytes) (after : Bytes) (r : Run)
    → before ≡ sent ++ after
    → Conserved after r
    → Conserved before (record r { sent = sent ++ r.sent })
Conserved-prepend before sent after r e c = record {
  valid = c.valid;
  order = e ∙ ap (λ l. sent ++ l) c.order ∙ sym (append_assoc sent r.sent (pending r.wq));
  drained = c.drained;
}

Conserved-stop :
    (wq : WriteQueue) (status : Status)
    → IsValid wq
    → (status ≡ done → wq.count ≡ 0)
    → Conserved (pending wq) (record { status = status; wq = wq; sent = [] })
Conserved-stop wq status v d = record { valid = v; order = refl; drained = d }

-- `write` never takes more than it is offered.
abbrev pub Obeys : (ℕ → ℕ → Reply) → Type 0
Obeys os = (i len n : ℕ) → os i len ≡ wrote n → n ≤ len

module _ (os : ℕ → ℕ → Reply) (obeys : Obeys os) where
  -- `flush` ends with a run that conserves the bytes.
  abbrev Ends : ℕ → ℕ → WriteQueue → Type 0
  Ends fuel i wq = (r : Run) × (flush os fuel i wq ≡ some r) × Conserved (pending wq) r

  flush_wrote :
      (fuel i n : ℕ) (wq : WriteQueue)
      → IsValid wq
      → 0 < wq.count
      → os i (length (rest wq)) ≡ wrote n
      → ((w : WriteQueue)
          → IsValid w
          → length (pending w) < length (pending wq)
          → Ends fuel (i + 1) w)
      → Ends (suc fuel) i wq
  unfolding flush
  flush_wrote fuel i n wq v pos e ih =
      let nz : (wq.count == 0) ≡ false = ground arith in
      elim (Bool-cases (n == 0)) [
        | inl z ↦ (stopped failed wq, rw (nz, e, z), Conserved-stop wq failed v (λ d. cc))
        | inr more_left ↦
            let n_pos : 0 < n = ground arith in
            let (valid, order) = advance_lem wq v pos n n_pos (obeys i (length (rest wq)) n e) in
            let (r, found, c) = ih (advance wq n) valid (
              omega (
                arith,
                ap (length {0}) order,
                length-append (take n (rest wq)) (pending (advance wq n)),
                length-take n (rest wq),
                obeys i (length (rest wq)) n e,
              )) in
            (
              record r { sent = take n (rest wq) ++ r.sent },
              rw (nz, e, more_left) (ap (prepend (take n (rest wq))) found),
              Conserved-prepend (pending wq) (take n (rest wq)) (pending (advance wq n)) r order c,
            )
      ]

  flush_from :
      (fuel i : ℕ) (wq : WriteQueue) → IsValid wq → length (pending wq) < fuel → Ends fuel i wq
  flush_from zero i wq v h = absurd (omega arith)
  flush_from (suc fuel) i wq v h = elim (Bool-cases (wq.count == 0)) [
    | inl e ↦ (stopped done wq, unfold flush in rw e, Conserved-stop wq done v (λ _. ground arith))
    | inr e ↦
        round (ground arith) (λ w v' l. flush_from fuel (i + 1) w v' (omega arith))
          (os i (length (rest wq))) refl
  ]
    where
      round :
          0 < wq.count
          → ((w : WriteQueue)
              → IsValid w
              → length (pending w) < length (pending wq)
              → Ends fuel (i + 1) w)
          → (reply : Reply) → os i (length (rest wq)) ≡ reply
          → Ends (suc fuel) i wq
      round pos ih again e =
          let nz : (wq.count == 0) ≡ false = ground arith in
          (stopped more wq, unfold flush in rw (nz, e), Conserved-stop wq more v (λ d. cc))
      round pos ih error e =
          let nz : (wq.count == 0) ≡ false = ground arith in
          (stopped failed wq, unfold flush in rw (nz, e), Conserved-stop wq failed v (λ d. cc))
      round pos ih (wrote n) e = flush_wrote fuel i n wq v pos e ih

  -- `sm_link_wq_flush` on a valid queue ends, with one round more than there are bytes queued, for
  -- every kernel that never takes more than it is offered: the queued bytes are those that were
  -- sent and then those that are left, in order, and the result 0 leaves an empty queue.
  pub flush-Conserved :
      (wq : WriteQueue)
      → IsValid wq
      → (r : Run) × (flush os (suc (length (pending wq))) 0 wq ≡ some r) × Conserved (pending wq) r
  flush-Conserved wq v = flush_from (suc (length (pending wq))) 0 wq v (omega arith)
