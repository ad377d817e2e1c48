-- ===== src/Link/WriteQueue/Enqueue.antt =====
-- `sm_link_wq_enqueue`: all of the bytes are queued behind the others, or none.
use smolmux.Base.{
  suc, ◌+◌, ◌%◌, ◌≤◌, ◌<◌, Bool, true, false, ◌&&◌, [], ◌∷◌, ◌++◌, ◌≡◌, refl, sym, ap, ◌∙◌, arith,
  Bytes, length, set, length-append, length-set, append-nil, ltb, leb, ◌==◌, if◌then◌else◌,
  Bool-cases, ◌⊎◌, inl, inr,
}
use smolmux.Base.Ring.{cells, cells-set_last, length-regrown, cells-regrown}
use smolmux.Link.WriteQueue.{
  WriteQueue, Entry, no_entry, queue, max_bytes, larger, grow_table, push_entry, enqueue, Status,
  done, failed,
}
use smolmux.Link.WriteQueue.Inv.{IsValid, owed, pending, owed-append, AllLeft-snoc}

module _ (wq : WriteQueue) (v : IsValid wq) where
  larger_fits : wq.cap ≤ wq.count → wq.count < larger wq.cap
  unfolding larger
  larger_fits full = ground (arith, v.fits)

  queue-grow_table : wq.cap ≤ wq.count → queue (grow_table wq) ≡ queue wq
  unfolding grow_table
  queue-grow_table full =
      cells-regrown no_entry wq.entries wq.cap wq.head wq.count (larger wq.cap)
        (omega (arith, larger_fits full))

  grow_table-IsValid : wq.cap ≤ wq.count → IsValid (grow_table wq) × (wq.count < larger wq.cap)
  unfolding grow_table
  grow_table-IsValid full = (
    record {
      table = sym (
          length-regrown no_entry wq.entries wq.cap wq.head wq.count (larger wq.cap)
            (omega (arith, larger_fits full)));
      fits = omega (arith, larger_fits full);
      head_in = λ h. omega (arith, larger_fits full);
      total = v.total ∙ ap (λ l. length (owed l)) (sym (queue-grow_table full));
      bounded = v.bounded;
      left = rw (queue-grow_table full) v.left;
    },
    larger_fits full,
  )

  module _ (input : Bytes) (roomy : wq.count < wq.cap) where
    queue-push_entry :
        queue (push_entry wq input) ≡ queue wq ++ record { bytes = input; offset = 0 } ∷ []
    unfolding push_entry
    queue-push_entry =
        let e : Entry = record { bytes = input; offset = 0 } in
        ap (cells no_entry (set wq.entries ((wq.head + wq.count) % wq.cap) e) wq.cap wq.head 0) pos
        ∙ cells-set_last no_entry wq.entries wq.cap wq.head wq.count e (omega (arith, v.table))
            (v.head_in (omega arith)) roomy
      where
        pos : wq.count + 1 ≡ suc wq.count
        pos = omega arith

    pending-push_entry : pending (push_entry wq input) ≡ pending wq ++ input
    pending-push_entry =
        ap owed queue-push_entry
        ∙ owed-append (queue wq) (record { bytes = input; offset = 0 } ∷ [])
        ∙ ap (λ l. pending wq ++ l) (append-nil input)

    push_entry-IsValid :
        0 < length input → wq.total_bytes + length input ≤ max_bytes → IsValid (push_entry wq input)
    push_entry-IsValid h b = record {
      table =
          unfold push_entry in
          omega (
            arith,
            v.table,
            length-set wq.entries ((wq.head + wq.count) % wq.cap)
                (record { bytes = input; offset = 0 }),
          );
      fits = unfold push_entry in omega arith;
      head_in = unfold push_entry in v.head_in;
      total =
          unfold push_entry in
          omega
            (arith, v.total, ap (length {0}) pending-push_entry, length-append (pending wq) input);
      bounded = unfold push_entry in b;
      left = rw queue-push_entry (AllLeft-snoc (queue wq) _ v.left h);
    }

-- What a call of `enqueue` does: all of the bytes are queued behind the others, or none is, and then
-- an allocation failed or the limit on the queued bytes is in the way.
pub record Enqueued (table copy : Bool) (wq : WriteQueue) (input : Bytes)
    (out : Status × WriteQueue) : Type 0 where
  pub valid : IsValid out.1
  pub status : (out.0 ≡ done) ⊎ (out.0 ≡ failed)
  pub taken : out.0 ≡ done → pending out.1 ≡ pending wq ++ input
  pub refused : out.0 ≡ failed → pending out.1 ≡ pending wq
  pub reason : (table && copy) ≡ true → wq.total_bytes + length input ≤ max_bytes → out.0 ≡ done

refuse :
    (table copy : Bool) (wq wq' : WriteQueue) (input : Bytes)
    → IsValid wq'
    → pending wq' ≡ pending wq
    → ((table && copy) ≡ false) ⊎ (max_bytes < wq.total_bytes + length input)
    → Enqueued table copy wq input (failed, wq')
refuse table copy wq wq' input v same why = record {
  valid = v;
  status = inr refl;
  taken = λ h. cc;
  refused = λ _. same;
  reason = λ t b. absurd (ground arith);
}

accept :
    (table copy : Bool) (wq roomy : WriteQueue) (input : Bytes)
    → IsValid roomy
    → roomy.count < roomy.cap
    → 0 < length input
    → roomy.total_bytes + length input ≤ max_bytes
    → pending roomy ≡ pending wq
    → Enqueued table copy wq input (done, push_entry roomy input)
accept table copy wq roomy input v room h b same = record {
  valid = push_entry-IsValid roomy v input room h b;
  status = inl refl;
  taken = λ _. pending-push_entry roomy v input room ∙ ap (λ l. l ++ input) same;
  refused = λ h. cc;
  reason = λ _ _. refl;
}

enqueue_within :
    (table copy : Bool) (wq : WriteQueue) (input : Bytes)
    → IsValid wq
    → 0 < length input
    → wq.total_bytes + length input ≤ max_bytes
    → Enqueued table copy wq input (
        if leb wq.cap wq.count
        then (if table
            then (if copy
                then (done, push_entry (grow_table wq) input)
                else (failed, grow_table wq))
            else (failed, wq))
        else if copy
        then (done, push_entry wq input)
        else (failed, wq))
enqueue_within table copy wq input v h b = elim (Bool-cases (leb wq.cap wq.count)) [
  | inl full ↦ rw full (grown table copy (ground arith))
  | inr room ↦ rw room (stays copy (ground arith))
]
  where
    grown :
        (table copy : Bool)
        → wq.cap ≤ wq.count
        → Enqueued table copy wq input (
            if table
            then (if copy
                then (done, push_entry (grow_table wq) input)
                else (failed, grow_table wq))
            else (failed, wq))
    grown true true full =
        let (g, room) = grow_table-IsValid wq v full in
        accept true true wq (grow_table wq) input g (unfold grow_table in room) h
          (unfold grow_table in b) (ap owed (queue-grow_table wq v full))
    grown true false full =
        refuse true false wq (grow_table wq) input (grow_table-IsValid wq v full).0
          (ap owed (queue-grow_table wq v full)) (inl refl)
    grown false copy full = refuse false copy wq wq input v refl (inl refl)

    stays :
        (copy : Bool)
        → wq.count < wq.cap
        → Enqueued table copy wq input (if copy then (done, push_entry wq input) else (failed, wq))
    stays true room = accept table true wq wq input v room h b refl
    stays false room = refuse table false wq wq input v refl (inl (ground arith))

-- `sm_link_wq_enqueue` keeps the invariant and queues all of the bytes behind the others or none;
-- it takes them if the limit allows it and no allocation fails.
pub enqueue-Enqueued :
    (table copy : Bool) (wq : WriteQueue) (input : Bytes)
    → IsValid wq
    → Enqueued table copy wq input (enqueue table copy wq input)
unfolding enqueue
enqueue-Enqueued table copy wq [] v = record {
  valid = v;
  status = inl refl;
  taken = λ _. sym (append-nil (pending wq));
  refused = λ h. cc;
  reason = λ _ _. refl;
}
enqueue-Enqueued table copy wq (c ∷ cs) v =
    let input : Bytes = c ∷ cs in
    let nz : (length input == 0) ≡ false = ground arith in
    rw nz (elim (Bool-cases (ltb max_bytes (wq.total_bytes + length input))) [
      | inl full ↦ rw full (refuse table copy wq wq input v refl (inr (ground arith)))
      | inr room ↦ rw room (enqueue_within table copy wq input v (omega arith) (ground arith))
    ])
