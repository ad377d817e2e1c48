-- ===== src/Client/Queue/Flush.antt =====
-- `sm_client_flush`: the client gets the bytes in order, none is lost or doubled, and the loop ends.
use smolmux.Base.{
  ℕ, zero, suc, ◌+◌, ◌-◌, ◌%◌, ◌≤◌, ◌<◌, false, some, List, [], ◌∷◌, ◌++◌, ◌≡◌, refl, sym, ap, ap₂,
  ◌∙◌, arith, Bytes, length, get_or, set, drop, take, length-append, length-set, length-drop,
  length-take, append_assoc, leb, ◌==◌, if-elim, Bool-cases, inl, inr, drop-drop, take-append-drop,
  take-all, get_or-set_ne, get_or-set_self,
}
use smolmux.Base.Ring.{cells, cells_shift, cells-set_after, cells-set_head, slot-ne, slot_next}
use smolmux.Link.WriteQueue.{Reply, wrote, again, error, Status, done, more, failed}
use smolmux.Link.WriteQueue.Flush.{Obeys}
use smolmux.Client.Queue.{Queue, Entry, no_entry, queue, front, advance, Run, prepend, flush}
use smolmux.Client.Queue.Inv.{IsValid, behind, queue_first}

abbrev pub owed : List Entry → Bytes
owed [] = []
owed (e ∷ es) = drop e.offset e.bytes ++ owed es

-- The bytes not yet written, in order.
abbrev pub pending : Queue → Bytes
pending q = owed (queue q)

abbrev rest : Queue → Bytes
rest q = drop (front q).offset (front q).bytes

-- A `write` of at least one byte takes one, or fails.
abbrev pub Moves : (ℕ → ℕ → Reply) → Type 0
Moves os = (i len : ℕ) → os i len ≡ wrote 0 → len ≡ 0

-- How many rounds a queue takes at most: one for each byte and for each entry.
abbrev pub rounds : Queue → ℕ
rounds q = length (pending q) + q.count

-- What a `write` of `n` bytes does to the queue.
record Advanced (q : Queue) (n : ℕ) (q' : Queue) : Type 0 where
  valid : IsValid q'
  order : pending q ≡ take n (rest q) ++ pending q'
  fewer : rounds q' < rounds q

module _ (q : Queue) (v : IsValid q) (some_entry : 0 < q.count) where
  pending_front : pending q ≡ rest q ++ owed (behind q)
  pending_front = ap owed (queue_first q v some_entry)

  module _ (n : ℕ) (most : n ≤ length (rest q)) where
    abbrev spent : Entry
    spent = record { bytes = []; shared = false; offset = (front q).offset + n }

    abbrev moved : Entry
    moved = record (front q) { offset = (front q).offset + n }

    -- The queue behind its first entry, whose cell is free.
    popped :
        cells no_entry (set q.entries q.head spent) q.cap ((q.head + 1) % q.cap) 0 (q.count - 1)
        ≡ behind q
    popped =
        cells_shift no_entry (set q.entries q.head spent) q.cap q.head 0 (q.count - 1)
        ∙ cells-set_after no_entry q.entries q.cap q.head 1 (q.count - 1) spent v.head_in
            (omega arith) (omega (arith, v.fits))

    freed :
        (i : ℕ)
        → q.count - 1 ≤ i
        → i < q.cap
        → (get_or (set q.entries q.head spent) (((q.head + 1) % q.cap + i) % q.cap) no_entry).shared
          ≡ false
    freed i h k =
        ap (λ j. (get_or (set q.entries q.head spent) j no_entry).shared) (slot_next q.cap q.head i)
        ∙ elim (Bool-cases (leb q.cap (suc i))) [
          | inl last ↦
              ap (λ j. (get_or (set q.entries q.head spent) j no_entry).shared)
                (around (ground arith))
              ∙ ap (λ e. e.shared)
                  (get_or-set_self q.entries q.head spent no_entry
                    (omega (arith, v.table, v.head_in)))
          | inr inner ↦
              ap (λ e. e.shared)
                (get_or-set_ne q.entries q.head ((q.head + suc i) % q.cap) spent no_entry (λ e.
                  slot-ne q.cap q.head 0 (suc i) v.head_in (omega arith) (ground arith)
                    (grind (arith, e, v.head_in))))
              ∙ v.free_cells (suc i) (omega arith) (ground arith)
        ]
      where
        around : q.cap ≤ suc i → (q.head + suc i) % q.cap ≡ q.head
        around last = grind (arith, v.head_in)

    advance_whole :
        length (front q).bytes ≤ (front q).offset + n
        → Advanced q n (record q {
          entries = set q.entries q.head spent;
          head = (q.head + 1) % q.cap;
          count = q.count - 1;
        })
    advance_whole whole = record {
      valid = record {
        table = omega (arith, v.table, length-set q.entries q.head spent);
        fits = omega (arith, v.fits);
        head_in = omega (arith, v.head_in);
        free_cells = freed;
      };
      order = order;
      fewer = omega (
        arith,
        ap (λ l. length (owed l)) popped,
        ap (length {0}) pending_front,
        length-append (rest q) (owed (behind q)),
      );
    }
      where
        all : n ≡ length (rest q)
        all = omega (arith, length-drop (front q).offset (front q).bytes)

        order :
            pending q
            ≡ take n (rest q)
              ++ owed (
                  cells no_entry
                    (set q.entries q.head spent)
                    q.cap
                    ((q.head + 1) % q.cap)
                    0
                    (q.count - 1))
        order =
            pending_front
            ∙ ap₂ ◌++◌ (sym (take-all n (rest q) (omega (arith, all)))) (ap owed (sym popped))

    replaced : cells no_entry (set q.entries q.head moved) q.cap q.head 0 q.count ≡ moved ∷ behind q
    replaced =
        ap (cells no_entry (set q.entries q.head moved) q.cap q.head 0) pos
        ∙ cells-set_head no_entry q.entries q.cap q.head (q.count - 1) moved
            (omega (arith, v.table)) v.head_in (omega (arith, v.fits))
      where
        pos : q.count ≡ suc (q.count - 1)
        pos = omega arith

    advance_part :
        0 < n
        → (front q).offset + n < length (front q).bytes
        → Advanced q n (record q { entries = set q.entries q.head moved })
    advance_part some_byte part = record {
      valid = record {
        table = omega (arith, v.table, length-set q.entries q.head moved);
        fits = v.fits;
        head_in = v.head_in;
        free_cells = λ i h k.
            ap (λ e. e.shared)
              (get_or-set_ne q.entries q.head ((q.head + i) % q.cap) moved no_entry (λ e.
                slot-ne q.cap q.head 0 i v.head_in (omega arith) (omega arith)
                  (grind (arith, e, v.head_in))))
            ∙ v.free_cells i h k;
      };
      order = order;
      fewer = omega (
        arith,
        ap (length {0}) order,
        length-append (take n (rest q))
            (owed (cells no_entry (set q.entries q.head moved) q.cap q.head 0 q.count)),
        length-take n (rest q),
      );
    }
      where
        order :
            pending q
            ≡ take n (rest q)
              ++ owed (cells no_entry (set q.entries q.head moved) q.cap q.head 0 q.count)
        order =
            pending_front
            ∙ ap (λ l. l ++ owed (behind q))
                (sym (take-append-drop n (rest q))
                  ∙ ap (λ l. take n (rest q) ++ l) (drop-drop n (front q).offset (front q).bytes))
            ∙ append_assoc (take n (rest q)) (drop ((front q).offset + n) (front q).bytes)
                (owed (behind q))
            ∙ ap (λ l. take n (rest q) ++ owed l) (sym replaced)

    advance_lem : (n ≡ 0 → length (rest q) ≡ 0) → Advanced q n (advance q n)
    unfolding advance
    advance_lem moves =
        if-elim (λ (q' : Queue). Advanced q n q')
          (leb (length (front q).bytes) ((front q).offset + n)) _ _
          (λ e. advance_whole (ground arith))
          (λ e.
            let part : (front q).offset + n < length (front q).bytes = ground arith in
            advance_part (grind (arith, moves, length-drop (front q).offset (front q).bytes)) part)

-- What a flush leaves of the bytes `before`: those that the client was sent, and then those that still
-- wait. A result 0 leaves an empty queue.
pub record Flushed (before : Bytes) (r : Run) : Type 0 where
  pub valid : IsValid r.left
  pub order : before ≡ r.sent ++ pending r.left
  pub drained : r.status ≡ done → r.left.count ≡ 0

module _ (os : ℕ → ℕ → Reply) (obeys : Obeys os) (moves : Moves os) where
  abbrev Ends : ℕ → ℕ → Queue → Type 0
  Ends fuel i q = (r : Run) × (flush os fuel i q ≡ some r) × Flushed (pending q) r

  stop :
      (q : Queue) (status : Status)
      → IsValid q
      → (status ≡ done → q.count ≡ 0)
      → Flushed (pending q) (record { status = status; left = q; sent = [] })
  stop q status v d = record { valid = v; order = refl; drained = d }

  flush_wrote :
      (fuel i n : ℕ) (q : Queue)
      → 0 < q.count
      → os i (length (rest q)) ≡ wrote n
      → Advanced q n (advance q n)
      → Ends fuel (i + 1) (advance q n)
      → Ends (suc fuel) i q
  unfolding flush
  flush_wrote fuel i n q pos e a (r, found, c) =
      let nz : (q.count == 0) ≡ false = ground arith in
      (
        record r { sent = take n (rest q) ++ r.sent },
        rw (nz, e) (ap (prepend (take n (rest q))) found),
        record {
          valid = c.valid;
          order =
              a.order
              ∙ ap (λ l. take n (rest q) ++ l) c.order
              ∙ sym (append_assoc (take n (rest q)) r.sent (pending r.left));
          drained = c.drained;
        },
      )

  flush_from : (fuel i : ℕ) (q : Queue) → IsValid q → rounds q < fuel → Ends fuel i q
  flush_from zero i q v h = absurd (omega arith)
  flush_from (suc fuel) i q v h = elim (Bool-cases (q.count == 0)) [
    | inl e ↦ (
      record { status = done; left = q; sent = [] },
      unfold flush in rw e,
      stop q done v (λ _. ground arith),
    )
    | inr e ↦
        round (ground arith) e (λ q' v' h'. flush_from fuel (i + 1) q' v' (omega arith))
          (os i (length (rest q))) refl
  ]
    where
      round :
          0 < q.count
          → (q.count == 0) ≡ false
          → ((q' : Queue) → IsValid q' → rounds q' < rounds q → Ends fuel (i + 1) q')
          → (reply : Reply) → os i (length (rest q)) ≡ reply
          → Ends (suc fuel) i q
      round pos nz later again e = (
        record { status = more; left = q; sent = [] },
        unfold flush in rw (nz, e),
        stop q more v (λ d. absurd cc),
      )
      round pos nz later error e = (
        record { status = failed; left = q; sent = [] },
        unfold flush in rw (nz, e),
        stop q failed v (λ d. absurd cc),
      )
      round pos nz later (wrote n) e =
          let a =
            advance_lem q v pos n (obeys i (length (rest q)) n e)
              (λ z. moves i (length (rest q)) (e ∙ ap wrote z)) in
          flush_wrote fuel i n q pos e a (later (advance q n) a.valid a.fewer)

  -- `sm_client_flush` on a valid queue ends, within a round for each byte and each entry, for every kernel that
  -- never takes more than it is offered and takes nothing only when it is offered nothing: the bytes that
  -- waited are those that were sent and then those that are left, in order, and the result 0 leaves an
  -- empty queue.
  pub flush-Flushed :
      (q : Queue)
      → IsValid q
      → (r : Run) × (flush os (suc (rounds q)) 0 q ≡ some r) × Flushed (pending q) r
  flush-Flushed q v = flush_from (suc (rounds q)) 0 q v (omega arith)
