-- ===== src/Client/Queue/Send.antt =====
-- `sm_client_send`, `sm_client_send_raw` and `sm_client_send_shared`: what is accepted comes behind all that
-- waits, merged or not, and a full queue stays as it is.
use smolmux.Base.{
  suc, ◌+◌, ◌-◌, ◌%◌, ◌<◌, Bool, true, false, Option, none, some, [], ◌∷◌, ◌++◌, ◌≡◌, ◌≢◌, refl,
  sym, ap, subst, ◌∙◌, arith, Bytes, drop, get_or, set, length-set, get_or-set_ne, ◌==◌, leb,
  if◌then◌else◌, if-elim, >>=-eq_some, when-eq_some, append-nil, append_assoc, map,
}
use smolmux.Base.Ring.{cells, cells-set_last, slot-ne}
use smolmux.Protocol.{Json, msg_encode}
use smolmux.Protocol.Frames.{IsJson}
use smolmux.Client.Queue.{
  Queue, Entry, no_entry, queue, pushed, push, push_or_drop, dropped, send_raw, send_encoded, send,
  Memory, last_slot, replace_last, can_merge, merged_line, try_coalesce_output, coalesced_or,
  send_shared,
}
use smolmux.Client.Queue.Inv.{
  IsValid, cell, earlier, queue_last, byte, remainder, shown, events, entry_events, queue_events,
  queue_events-append,
}
use smolmux.Client.Queue.Merge.{Merged, merged_line-Merged}

-- The entry that a send leaves in the cell behind the last.
abbrev next_entry : Queue → Bytes → Option Bool → Entry
next_entry q line shared = pushed (cell q q.count) line shared

module _ (q : Queue) (v : IsValid q) (line : Bytes) (shared : Option Bool)
    (roomy : q.count < q.cap) where
  queue-push : queue (push q line shared) ≡ queue q ++ next_entry q line shared ∷ []
  unfolding push
  queue-push =
      ap
        (cells no_entry (set q.entries ((q.head + q.count) % q.cap) (next_entry q line shared))
          q.cap q.head 0)
        pos
      ∙ cells-set_last no_entry q.entries q.cap q.head q.count (next_entry q line shared)
          (omega (arith, v.table)) v.head_in roomy
    where
      pos : q.count + 1 ≡ suc q.count
      pos = omega arith

  push-IsValid : IsValid (push q line shared)
  unfolding push
  push-IsValid = record {
    table = omega (
      arith,
      v.table,
      length-set q.entries ((q.head + q.count) % q.cap) (next_entry q line shared),
    );
    fits = omega arith;
    head_in = v.head_in;
    free_cells = λ i h k.
        ap (λ e. e.shared)
          (get_or-set_ne q.entries ((q.head + q.count) % q.cap) ((q.head + i) % q.cap)
            (next_entry q line shared) no_entry
            (slot-ne q.cap q.head q.count i v.head_in (omega arith) (omega arith)))
        ∙ v.free_cells i (omega arith) k;
  }

-- What a send without merging does.
pub record Pushed (q : Queue) (e : Entry) (out : Bool × Queue) : Type 0 where
  pub valid : IsValid out.1
  pub taken : out.0 ≡ true → queue out.1 ≡ queue q ++ e ∷ []
  pub refused : out.0 ≡ false → (queue out.1 ≡ queue q) × (q.count ≡ q.cap)

dropped-IsValid : (q : Queue) → IsValid q → IsValid (dropped q)
unfolding dropped
dropped-IsValid q v = record {
  table = v.table;
  fits = v.fits;
  head_in = v.head_in;
  free_cells = v.free_cells;
}

push_or_drop-Pushed :
    (q : Queue) (line : Bytes) (shared : Option Bool)
    → IsValid q
    → Pushed q (next_entry q line shared) (push_or_drop q line shared)
unfolding push_or_drop
push_or_drop-Pushed q line shared v =
    if-elim (λ out. Pushed q (next_entry q line shared) out) (leb q.cap q.count) _ _
      (λ full. record {
        valid = dropped-IsValid q v;
        taken = λ h. absurd cc;
        refused = λ _. (unfold dropped in refl, ground (arith, v.fits));
      })
      (λ room.
        let roomy : q.count < q.cap = ground arith in
        record {
          valid = push-IsValid q v line shared roomy;
          taken = λ _. queue-push q v line shared roomy;
          refused = λ h. absurd cc;
        })

abbrev pub own_line : Bytes → Entry
own_line line = record { bytes = line; shared = false; offset = 0 }

-- `sm_client_send_raw` queues the line behind all others as one that is freed and not free_cells, or the queue
-- is full and stays as it is.
pub send_raw-Pushed :
    (q : Queue) (line : Bytes) → IsValid q → Pushed q (own_line line) (send_raw q line)
unfolding send_raw
send_raw-Pushed q line v = push_or_drop-Pushed q line (some false) v

module _ (J : Json) where
  -- `sm_client_send` of a message that can be encoded does the same, although it does not write to `shared`;
  -- a message that cannot be encoded changes nothing.
  pub send-Pushed :
      (memory : Bool) (q : Queue) (msg : J.Item) (line : Bytes)
      → IsValid q
      → msg_encode J memory msg ≡ some line
      → q.count < q.cap
      → Pushed q (own_line line) (send J memory q msg)
  unfolding send send_encoded
  send-Pushed memory q msg line v e room = rw e (
      subst
        (λ (b : Bool).
          Pushed q (record { bytes = line; shared = b; offset = 0 }) (push_or_drop q line none))
        (v.free_cells q.count (omega arith) room) (push_or_drop-Pushed q line none v))

  -- What a send of a shared line does: the client is to see what it was to see and then the new line, or
  -- the queue is full and is left alone.
  pub record Shown (q : Queue) (line : Bytes) (out : Bool × Queue) : Type 0 where
    pub valid : IsValid out.1
    pub taken :
        out.0 ≡ true → queue_events J (queue out.1) ≡ queue_events J (queue q) ++ events J line
    pub refused : out.0 ≡ false → (queue out.1 ≡ queue q) × (q.count ≡ q.cap)

  Pushed-Shown :
      (q : Queue) (line : Bytes) (b : Bool) (out : Bool × Queue)
      → Pushed q (record { bytes = line; shared = b; offset = 0 }) out
      → Shown q line out
  Pushed-Shown q line b out p = record {
    valid = p.valid;
    taken = λ h.
        ap (queue_events J) (p.taken h)
        ∙ queue_events-append J (queue q) (record { bytes = line; shared = b; offset = 0 } ∷ [])
        ∙ ap (λ l. queue_events J (queue q) ++ l) (append-nil (events J line));
    refused = p.refused;
  }

  module _ (q : Queue) (v : IsValid q) (some_entry : 0 < q.count) (both : Bytes) where
    abbrev merged_entry : Entry
    merged_entry = record { bytes = both; shared = true; offset = 0 }

    queue-replace_last : queue (replace_last q both) ≡ earlier q ++ merged_entry ∷ []
    unfolding replace_last
    queue-replace_last =
        ap (λ k. cells no_entry (set q.entries (k % q.cap) merged_entry) q.cap q.head 0 q.count)
          place
        ∙ ap
            (cells no_entry (set q.entries ((q.head + (q.count - 1)) % q.cap) merged_entry) q.cap
              q.head 0)
            pos
        ∙ cells-set_last no_entry q.entries q.cap q.head (q.count - 1) merged_entry
            (omega (arith, v.table)) v.head_in (omega (arith, v.fits))
      where
        place : q.head + q.count - 1 ≡ q.head + (q.count - 1)
        place = omega arith

        pos : q.count ≡ suc (q.count - 1)
        pos = omega arith

    replace_last-IsValid : IsValid (replace_last q both)
    unfolding replace_last
    replace_last-IsValid = record {
      table = omega (arith, v.table, length-set q.entries (last_slot q) merged_entry);
      fits = v.fits;
      head_in = v.head_in;
      free_cells = λ i h k.
          ap (λ e. e.shared)
            (get_or-set_ne q.entries (last_slot q) ((q.head + i) % q.cap) merged_entry no_entry (
              subst (λ j. j % q.cap ≢ (q.head + i) % q.cap) place
                (slot-ne q.cap q.head (q.count - 1) i v.head_in (omega arith) (omega arith))))
          ∙ v.free_cells i h k;
    }
      where
        place : q.head + (q.count - 1) ≡ q.head + q.count - 1
        place = omega arith

  map-append : (xs ys : Bytes) → map byte (xs ++ ys) ≡ map byte xs ++ map byte ys
  map-append [] ys = refl
  map-append (x ∷ xs) ys = ap (λ l. byte x ∷ l) (map-append xs ys)

  both_events :
      (old new both : Bytes) → Merged J old new both → events J both ≡ events J old ++ events J new
  unfolding shown
  both_events old new both m =
      rw (m.payload_old, m.payload_new, m.payload_both) (map-append m.first m.second)

  module _ (law : IsJson J) (m : Memory) (text_ok : m.text ≡ true) (q : Queue) (v : IsValid q)
      (line : Bytes) where
    abbrev last_entry : Entry
    last_entry = get_or q.entries (last_slot q) no_entry

    coalesced :
        (both : Bytes)
        → can_merge q line ≡ true
        → merged_line J m last_entry.bytes line ≡ some both
        → Shown q line (true, replace_last q both)
    unfolding can_merge
    coalesced both may e =
        let some_entry : 0 < q.count = ground (arith, may) in
        let fresh : (last_entry.offset == 0) ≡ true = ground (arith, may) in
        let same =
          both_events last_entry.bytes line both
            (merged_line-Merged J law m last_entry.bytes line both text_ok e) in
        record {
          valid = replace_last-IsValid q v some_entry both;
          taken = λ _.
              ap (queue_events J) (queue-replace_last q v some_entry both)
              ∙ queue_events-append J (earlier q) (merged_entry q v some_entry both ∷ [])
              ∙ ap (λ l. queue_events J (earlier q) ++ l) (append-nil (events J both) ∙ same)
              ∙ sym (
                  append_assoc (queue_events J (earlier q)) (events J last_entry.bytes)
                    (events J line))
              ∙ ap (λ l. l ++ events J line) (sym (before some_entry fresh));
          refused = λ h. absurd cc;
        }
      where
        before :
            0 < q.count
            → (last_entry.offset == 0) ≡ true
            → queue_events J (queue q) ≡ queue_events J (earlier q) ++ events J last_entry.bytes
        before some_entry fresh =
            ap (queue_events J) (queue_last q some_entry)
            ∙ queue_events-append J (earlier q) (last_entry ∷ [])
            ∙ ap (λ l. queue_events J (earlier q) ++ l)
                (append-nil (entry_events J last_entry)
                  ∙ ap
                      (λ (b : Bool).
                        if b
                        then events J last_entry.bytes
                        else remainder (drop last_entry.offset last_entry.bytes) ∷ [])
                      fresh)

    -- `sm_client_send_shared` on a valid queue, unless the base64 text of a merged line cannot be allocated:
    -- when it returns 0 the client is to see what it was to see before and then the new line, merged or
    -- not; otherwise the queue is full and is left alone but for the count of drops.
    pub send_shared-Shown : Shown q line (send_shared J m q (some line))
    unfolding send_shared try_coalesce_output
    send_shared-Shown = decided (try_coalesce_output J m q line) refl
      where
        decided :
            (o : Option Queue)
            → try_coalesce_output J m q line ≡ o
            → Shown q line (coalesced_or o q line)
        decided none e =
            unfold coalesced_or in
            Pushed-Shown q line true (push_or_drop q line (some true))
              (push_or_drop-Pushed q line (some true) v)
        decided (some merged) e =
            let (may, h) = when-eq_some (can_merge q line) _ merged e in
            let (both, made, h1) =
              >>=-eq_some (merged_line J m last_entry.bytes line) (λ b. some (replace_last q b))
                merged h in
            let same : replace_last q both ≡ merged = cc in
            unfold coalesced_or in
            subst (λ (r : Queue). Shown q line (true, r)) same (coalesced both may made)
