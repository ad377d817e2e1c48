-- ===== src/Client/Queue/Inv.antt =====
-- The invariant of a client's write queue, and what the client is to see of it.
use smolmux.Base.{
  ℕ, zero, suc, ◌+◌, ◌-◌, ◌%◌, ◌≤◌, ◌<◌, false, Option, none, some, List, [], ◌∷◌, ◌++◌, ◌≡◌, refl,
  ap, ◌∙◌, arith, Bytes, length, get_or, drop, replicate, map, ◌==◌, if◌then◌else◌, append_assoc,
  sym,
}
use smolmux.Base.Ring.{cells, cells_first, cells_snoc}
use smolmux.Protocol.{Json}
use smolmux.Protocol.Frames.{payload}
use smolmux.Client.Queue.{Queue, Entry, no_entry, queue, front, new_queue, queue_size}

-- The cell `i` places behind the first.
abbrev pub cell : Queue → ℕ → Entry
cell q i = get_or q.entries ((q.head + i) % q.cap) no_entry

pub record IsValid (q : Queue) : Type 0 where
  pub table : q.cap ≡ length q.entries
  pub fits : q.count ≤ q.cap
  pub head_in : q.head < q.cap
  -- No cell that is not in use names a shared line.
  pub free_cells : (i : ℕ) → q.count ≤ i → i < q.cap → (cell q i).shared ≡ false

get_or-replicate : (n i : ℕ) → get_or (replicate n no_entry) i no_entry ≡ no_entry
get_or-replicate zero i = refl
get_or-replicate (suc n) zero = refl
get_or-replicate (suc n) (suc i) = get_or-replicate n i

pub new_queue-IsValid : IsValid new_queue
new_queue-IsValid = record {
  table = refl;
  fits = omega arith;
  head_in = omega arith;
  free_cells = λ i h k. ap (λ e. e.shared) (get_or-replicate queue_size ((0 + i) % queue_size));
}

-- The entries in front of the last, and those behind the first.
abbrev pub earlier : Queue → List Entry
earlier q = cells no_entry q.entries q.cap q.head 0 (q.count - 1)

abbrev pub behind : Queue → List Entry
behind q = cells no_entry q.entries q.cap q.head 1 (q.count - 1)

pub queue_first : (q : Queue) → IsValid q → 0 < q.count → queue q ≡ front q ∷ behind q
queue_first q v h =
    ap (cells no_entry q.entries q.cap q.head 0) pos
    ∙ cells_first no_entry q.entries q.cap q.head (q.count - 1) v.head_in
  where
    pos : q.count ≡ suc (q.count - 1)
    pos = omega arith

pub queue_last :
    (q : Queue)
    → 0 < q.count
    → queue q ≡ earlier q ++ get_or q.entries ((q.head + q.count - 1) % q.cap) no_entry ∷ []
queue_last q h =
    ap (cells no_entry q.entries q.cap q.head 0) pos
    ∙ cells_snoc no_entry q.entries q.cap q.head 0 (q.count - 1)
    ∙ ap (λ k. earlier q ++ get_or q.entries (k % q.cap) no_entry ∷ []) (omega arith)
  where
    pos : q.count ≡ suc (q.count - 1)
    pos = omega arith

-- What a client is to see: bytes of serial output, whichever messages bring them; any other message; and the
-- remainder of a line of which it has the beginning.
pub data Event : Type 0 where
  byte : ℕ → Event
  message remainder : Bytes → Event

unfoldable pub shown : Bytes → Option Bytes → List Event
shown line none = message line ∷ []
shown line (some bytes) = map byte bytes

module _ (J : Json) where
  abbrev pub events : Bytes → List Event
  events line = shown line (payload J line)

  abbrev pub entry_events : Entry → List Event
  entry_events e = if e.offset == 0 then events e.bytes else remainder (drop e.offset e.bytes) ∷ []

  abbrev pub queue_events : List Entry → List Event
  queue_events [] = []
  queue_events (e ∷ es) = entry_events e ++ queue_events es

  pub queue_events-append :
      (xs ys : List Entry) → queue_events (xs ++ ys) ≡ queue_events xs ++ queue_events ys
  queue_events-append [] ys = refl
  queue_events-append (x ∷ xs) ys =
      ap (λ l. entry_events x ++ l) (queue_events-append xs ys)
      ∙ sym (append_assoc (entry_events x) (queue_events xs) (queue_events ys))
