-- ===== src/History/Evict.antt =====
-- `evict`: that `count` rounds bring the buffer below its limit.
use smolmux.Base.{
  ℕ, zero, suc, ◌-◌, ◌≤◌, ◌<◌, ◌&&◌, ◌≡◌, refl, sym, ap, ◌∙◌, arith, ltb, Bool-cases, length, drop,
  drop-drop, drop_none, inl, inr,
}
use smolmux.Base.Ring.{cells}
use smolmux.History.{RingBuffer, no_chunk, evict_step, evict_fuel, evict}
use smolmux.History.Inv.{Core, concat, stream}
use smolmux.History.Shrink.{evict_step-Shrunk, Shrunk}

Shrunk-trans :
    {a b c : RingBuffer} → a.max_bytes < a.total_bytes → Shrunk a b → Shrunk b c → Shrunk a c
Shrunk-trans {a} {b} {c} over x y = record {
  core = y.core;
  same_seq = y.same_seq ∙ x.same_seq;
  same_max = y.same_max ∙ x.same_max;
  fewer = omega (arith, x.fewer, y.fewer);
  enough = omega (arith, x.enough, y.enough, x.same_max);
  kept =
      y.kept
      ∙ ap (drop (b.total_bytes - c.total_bytes)) x.kept
      ∙ drop-drop (b.total_bytes - c.total_bytes) (a.total_bytes - b.total_bytes) (stream a)
      ∙ ap (λ k. drop k (stream a)) (omega (arith, x.fewer, y.fewer));
  fewer_chunks = omega (arith, x.fewer_chunks, y.fewer_chunks);
}

Shrunk-refl : (rb : RingBuffer) → Core rb → Shrunk rb rb
Shrunk-refl rb v = record {
  core = v;
  same_seq = refl;
  same_max = refl;
  fewer = omega arith;
  enough = omega arith;
  kept = sym (drop_none _ (stream rb) (omega arith));
  fewer_chunks = omega arith;
}

-- A buffer with no chunk holds no byte.
empty_total : (rb : RingBuffer) → Core rb → rb.count ≡ 0 → rb.total_bytes ≡ 0
empty_total rb v e =
    v.total ∙ ap (λ k. length (concat (cells no_chunk rb.chunks rb.capacity rb.head 0 k))) e

evict_fuel_done :
    (fuel : ℕ) (rb : RingBuffer) → rb.total_bytes ≤ rb.max_bytes → evict_fuel fuel rb ≡ rb
unfolding evict_fuel
evict_fuel_done zero rb h = refl
evict_fuel_done (suc fuel) rb h = ground arith

evict_fuel-Shrunk :
    (fuel : ℕ) (rb : RingBuffer)
    → Core rb
    → rb.count ≤ fuel
    → Shrunk rb (evict_fuel fuel rb) × ((evict_fuel fuel rb).total_bytes ≤ rb.max_bytes)
unfolding evict_fuel
evict_fuel-Shrunk zero rb v h = (Shrunk-refl rb v, omega (arith, v.total, empty_total rb v))
evict_fuel-Shrunk (suc fuel) rb v h =
    elim (Bool-cases (ltb 0 rb.count && ltb rb.max_bytes rb.total_bytes)) [
      | inr stop ↦ rw (stop, evict_fuel) (Shrunk-refl rb v, ground (arith, empty_total rb v))
      | inl more ↦
          let first = evict_step-Shrunk rb v (ground arith) (ground arith) in
          let over : rb.max_bytes < rb.total_bytes = ground arith in
          rw (more, evict_fuel)
            (elim first.1 [
              | inl fewer ↦
                  let tail = evict_fuel-Shrunk fuel (evict_step rb) first.0.core (omega arith) in
                  (Shrunk-trans over first.0 tail.0, omega (arith, tail.1, first.0.same_max))
              | inr done ↦
                  rw (evict_fuel_done fuel (evict_step rb) (omega (arith, first.0.same_max)))
                    (first.0, done)
            ])
    ]

-- `evict` on a buffer that satisfies the core invariant keeps it; it leaves at most `max_bytes` bytes,
-- the last of the stream, and drops nothing where all fits.
pub evict-Shrunk :
    (rb : RingBuffer) → Core rb → Shrunk rb (evict rb) × ((evict rb).total_bytes ≤ rb.max_bytes)
unfolding evict
evict-Shrunk rb v = evict_fuel-Shrunk rb.count rb v (omega arith)
