-- ===== src/History/Inv.antt =====
-- The representation invariant of the history buffer, and the byte stream that it stands for.
use smolmux.Base.{
  ℕ, suc, ◌+◌, ◌-◌, ◌%◌, ◌≤◌, ◌<◌, List, [], ◌∷◌, ◌++◌, ◌≡◌, refl, sym, ap, ◌∙◌, arith, Bytes,
  length, get_or, length-append, append_assoc,
}
use smolmux.Base.Ring.{cells, cells_first, cells_snoc}
use smolmux.History.{RingBuffer, Chunk, no_chunk, queue, front, init, last}
use smolmux.History.Pool.{Blocks}

abbrev pub concat : List Chunk → Bytes
concat [] = []
concat (c ∷ cs) = c.bytes ++ concat cs

-- The retained bytes, oldest first.
abbrev pub stream : RingBuffer → Bytes
stream rb = concat (queue rb)

-- The chunks stand end to end in the byte sequence, from `s` to `e`, none is empty, and each fits
-- in its block.
abbrev pub Linked : ℕ → ℕ → List Chunk → Type 0
Linked s e [] = s ≡ e
Linked s e (c ∷ cs) =
    (c.seq_start ≡ s)
    × (0 < length c.bytes)
    × (length c.bytes ≤ c.alloc)
    × Linked (s + length c.bytes) e cs

pub record Core (rb : RingBuffer) : Type 0 where
  pub table : rb.capacity ≡ length rb.chunks
  pub fits : rb.count ≤ rb.capacity
  pub head_in : 0 < rb.capacity → rb.head < rb.capacity
  pub total : rb.total_bytes ≡ length (stream rb)
  pub linked : Linked rb.first_seq rb.total_seq (queue rb)

pub record IsValid (rb : RingBuffer) : Type 0 where
  pub core : Core rb
  pub bounded : rb.total_bytes ≤ rb.max_bytes

pub init-IsValid : (pool : Blocks) (max : ℕ) → IsValid (init pool max)
unfolding init
init-IsValid pool max = record { core = omega arith; bounded = omega arith }

-- The queue of a buffer that holds a chunk.
pub queue_suc :
    (rb : RingBuffer)
    → Core rb
    → 0 < rb.count
    → queue rb ≡ front rb ∷ cells no_chunk rb.chunks rb.capacity rb.head 1 (rb.count - 1)
queue_suc rb v h =
    ap (cells no_chunk rb.chunks rb.capacity rb.head 0) pos
    ∙ cells_first no_chunk rb.chunks rb.capacity rb.head (rb.count - 1)
        (v.head_in (omega (arith, v.fits)))
  where
    pos : rb.count ≡ suc (rb.count - 1)
    pos = omega arith

pub queue-last :
    (rb : RingBuffer)
    → 0 < rb.count
    → queue rb ≡ cells no_chunk rb.chunks rb.capacity rb.head 0 (rb.count - 1) ++ last rb ∷ []
queue-last rb h =
    ap (cells no_chunk rb.chunks rb.capacity rb.head 0) pos
    ∙ cells_snoc no_chunk rb.chunks rb.capacity rb.head 0 (rb.count - 1)
    ∙ ap
        (λ k.
          cells no_chunk rb.chunks rb.capacity rb.head 0 (rb.count - 1)
          ++ get_or rb.chunks ((rb.head + k) % rb.capacity) no_chunk ∷ [])
        (omega arith)
  where
    pos : rb.count ≡ suc (rb.count - 1)
    pos = omega arith

pub concat-append : (xs ys : List Chunk) → concat (xs ++ ys) ≡ concat xs ++ concat ys
concat-append [] ys = refl
concat-append (x ∷ xs) ys =
    ap (λ l. x.bytes ++ l) (concat-append xs ys)
    ∙ sym (append_assoc x.bytes (concat xs) (concat ys))

-- The sequence numbers count the bytes.
pub Linked-end : (s e : ℕ) (cs : List Chunk) → Linked s e cs → s + length (concat cs) ≡ e
Linked-end s e [] h = omega arith
Linked-end s e (c ∷ cs) h =
    omega (arith, length-append c.bytes (concat cs), Linked-end (s + length c.bytes) e cs h.3)

pub Linked-snoc :
    (s m e : ℕ) (cs : List Chunk) (c : Chunk)
    → Linked s m cs
    → c.seq_start ≡ m
    → 0 < length c.bytes
    → length c.bytes ≤ c.alloc
    → m + length c.bytes ≡ e
    → Linked s e (cs ++ c ∷ [])
Linked-snoc s m e [] c h q p a t = (q ∙ sym h, p, a, omega arith)
Linked-snoc s m e (x ∷ cs) c h q p a t =
    (h.0, h.1, h.2, Linked-snoc (s + length x.bytes) m e cs c h.3 q p a t)

-- The same, read backwards.
pub Linked-last :
    (s e : ℕ) (cs : List Chunk) (c : Chunk)
    → Linked s e (cs ++ c ∷ [])
    → (m : ℕ) × Linked s m cs
      × (c.seq_start ≡ m)
      × (0 < length c.bytes)
      × (length c.bytes ≤ c.alloc)
      × (m + length c.bytes ≡ e)
Linked-last s e [] c h = (s, refl, h.0, h.1, h.2, h.3)
Linked-last s e (x ∷ cs) c h =
    let (m, l, q, p, a, t) = Linked-last (s + length x.bytes) e cs c h.3 in
    (m, (h.0, h.1, h.2, l), q, p, a, t)

-- `first_seq` is `total_seq` less the retained bytes.
pub first_seq-stream :
    {rb : RingBuffer} → Core rb → rb.first_seq + length (stream rb) ≡ rb.total_seq
first_seq-stream {rb} v = Linked-end rb.first_seq rb.total_seq (queue rb) v.linked
