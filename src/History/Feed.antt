-- ===== src/History/Feed.antt =====
-- Runs of `sm_rb_append`: the history buffer keeps the last `max_bytes` bytes of all it was fed.
use smolmux.Base.{
  ℕ, ◌+◌, ◌-◌, ◌<◌, true, List, [], ◌∷◌, ◌++◌, ◌≡◌, refl, sym, ap, ap₂, ◌∙◌, arith, Bytes, length,
  drop, length-append, length-drop, append-nil, append_assoc, inl, inr, drop-append_le, drop-drop,
  drop_none,
}
use smolmux.History.{RingBuffer, Memory, append, init}
use smolmux.History.Append.{Recorded, append-outcome}
use smolmux.History.Inv.{IsValid, stream, init-IsValid}
use smolmux.History.Pool.{Blocks}

-- Every allocation succeeds.
abbrev pub plenty : Memory
plenty = record { grow = true; table = true; chunk = true }

-- A run of calls, each with its bytes and its timestamp.
pub feed : RingBuffer → List (Bytes × ℕ) → RingBuffer
feed rb [] = rb
feed rb ((input, ts) ∷ calls) = feed (append plenty rb input ts) calls

unfoldable pub fed : List (Bytes × ℕ) → Bytes
fed [] = []
fed ((input, ts) ∷ calls) = input ++ fed calls

append-empty : (mem : Memory) (rb : RingBuffer) (ts : ℕ) → append mem rb [] ts ≡ rb
unfolding append
append-empty mem rb ts = refl

drop-drop-append :
    (max : ℕ) (old new later : Bytes)
    → drop
        (length (drop (length old + length new - max) (old ++ new)) + length later - max)
        (drop (length old + length new - max) (old ++ new) ++ later)
      ≡ drop (length old + (length (new ++ later)) - max) (old ++ (new ++ later))
drop-drop-append max old new later =
    ap (drop _) (
      sym (
        drop-append_le (length old + length new - max) (old ++ new) later
          (omega (arith, length-append old new))))
    ∙ drop-drop _ (length old + length new - max) ((old ++ new) ++ later)
    ∙ ap₂ drop
        (omega (
          arith,
          length-append old new,
          length-append new later,
          length-drop (length old + length new - max) (old ++ new),
        ))
        (append_assoc old new later)

append-Recorded :
    (rb : RingBuffer) (input : Bytes) (ts : ℕ)
    → IsValid rb
    → 0 < length input
    → Recorded rb input (append plenty rb input ts)
append-Recorded rb input ts v h = elim (append-outcome plenty rb input ts v h) [
  | inl r ↦ r
  | inr (_, never) ↦ cc
]

feed_from :
    (calls : List (Bytes × ℕ)) (rb : RingBuffer)
    → IsValid rb
    → (stream (feed rb calls)
        ≡ drop (length (stream rb) + length (fed calls) - rb.max_bytes) (stream rb ++ fed calls))
      × ((feed rb calls).total_seq ≡ rb.total_seq + length (fed calls))
      × IsValid (feed rb calls)
unfolding feed fed append
feed_from [] rb v = (
  sym (
      drop_none _ (stream rb ++ []) (omega (arith, v.core.total, v.bounded))
      ∙ append-nil (stream rb)),
  omega arith,
  v,
)
feed_from (([], ts) ∷ calls) rb v = rw (append-empty plenty rb ts) (feed_from calls rb v)
feed_from ((b ∷ bs, ts) ∷ calls) rb v =
    let r = append-Recorded rb (b ∷ bs) ts v (omega arith) in
    let (bytes, seq, valid) = feed_from calls (append plenty rb (b ∷ bs) ts) r.valid in
    (
      bytes
          ∙ ap₂ (λ l m. drop (length l + length (fed calls) - m) (l ++ fed calls)) (kept r) r.max
          ∙ drop-drop-append rb.max_bytes (stream rb) (b ∷ bs) (fed calls),
      omega (arith, seq, r.seq, length-append (b ∷ bs) (fed calls)),
      valid,
    )
  where
    kept :
        Recorded rb (b ∷ bs) (append plenty rb (b ∷ bs) ts)
        → stream (append plenty rb (b ∷ bs) ts)
          ≡ drop (length (stream rb) + length (b ∷ bs) - rb.max_bytes) (stream rb ++ (b ∷ bs))
    kept r =
        r.bytes
        ∙ ap (λ k. drop (k + length (b ∷ bs) - rb.max_bytes) (stream rb ++ (b ∷ bs))) v.core.total

-- After any run of `sm_rb_append` calls on a new buffer, with no failed allocation, the retained
-- bytes are the last `max` of all bytes fed, `total_seq` is the number of bytes fed, and the
-- invariant holds.
pub feed_lem :
    (pool : Blocks) (max : ℕ) (calls : List (Bytes × ℕ))
    → (stream (feed (init pool max) calls) ≡ drop (length (fed calls) - max) (fed calls))
      × ((feed (init pool max) calls).total_seq ≡ length (fed calls))
      × IsValid (feed (init pool max) calls)
unfolding init
feed_lem pool max calls =
    let (bytes, seq, valid) = feed_from calls (init pool max) (init-IsValid pool max) in
    (bytes ∙ ap (λ k. drop (k - max) (fed calls)) (omega arith), seq ∙ omega arith, valid)
