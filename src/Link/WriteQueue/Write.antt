-- ===== src/Link/WriteQueue/Write.antt =====
-- `sm_link_wq_write`: behind queued bytes, or straight to the device with the remainder queued.
use smolmux.Base.{
  ℕ, zero, suc, ◌+◌, ◌<◌, Bool, false, some, [], ◌∷◌, ◌++◌, ◌≡◌, refl, sym, ap, subst, ◌∙◌, arith,
  Bytes, length, drop, take, length-drop, append-nil, append_assoc, ltb, ◌==◌, Bool-cases, ◌⊎◌, inl,
  inr, take-append-drop,
}
use smolmux.Base.Ring.{cells}
use smolmux.Link.WriteQueue.{
  WriteQueue, no_entry, enqueue, Status, done, failed, Reply, wrote, again, error, Run, prepend,
  write_rest, write, has_pending,
}
use smolmux.Link.WriteQueue.Inv.{IsValid, owed, pending}
use smolmux.Link.WriteQueue.Enqueue.{enqueue-Enqueued}
use smolmux.Link.WriteQueue.Flush.{Obeys, stopped}

-- Where the bytes `before` are at the end: sent, then queued, then lost; a result 0 loses none.
pub record Written (before : Bytes) (r : Run) : Type 0 where
  pub valid : IsValid r.wq
  pub lost : Bytes
  pub order : before ≡ r.sent ++ (pending r.wq ++ lost)
  pub none_lost : r.status ≡ done → lost ≡ []
  pub ended : (r.status ≡ done) ⊎ (r.status ≡ failed)

queued :
    (table copy : Bool) (wq : WriteQueue) (input : Bytes)
    → IsValid wq
    → let out = enqueue table copy wq input in
      Written (pending wq ++ input) (record { status = out.0; wq = out.1; sent = [] })
queued table copy wq input v =
    let q = enqueue-Enqueued table copy wq input v in
    elim q.status [
      | inl ok ↦ record {
        valid = q.valid;
        lost = [];
        order = sym (q.taken ok) ∙ sym (append-nil (pending (enqueue table copy wq input).1));
        none_lost = λ _. refl;
        ended = inl ok;
      }
      | inr bad ↦ record {
        valid = q.valid;
        lost = input;
        order = ap (λ l. l ++ input) (sym (q.refused bad));
        none_lost = λ ok. cc;
        ended = inr bad;
      }
    ]

empty_pending : (wq : WriteQueue) → wq.count ≡ 0 → pending wq ≡ []
empty_pending wq e = ap (λ k. owed (cells no_entry wq.entries wq.cap wq.head 0 k)) e

module _ (os : ℕ → ℕ → Reply) (obeys : Obeys os) (table copy : Bool) where
  abbrev Ends : ℕ → ℕ → WriteQueue → Bytes → Type 0
  Ends fuel i wq rest =
      (r : Run) × (write_rest os table copy fuel i wq rest ≡ some r) × Written rest r

  rest_wrote :
      (fuel i n : ℕ) (wq : WriteQueue) (rest : Bytes)
      → IsValid wq
      → wq.count ≡ 0
      → 0 < length rest
      → os i (length rest) ≡ wrote n
      → ((later : Bytes) → length later < length rest → Ends fuel (i + 1) wq later)
      → Ends (suc fuel) i wq rest
  unfolding write_rest
  rest_wrote fuel i n wq rest v z pos e ih =
      let nz : (length rest == 0) ≡ false = ground arith in
      elim (Bool-cases (n == 0)) [
        | inl stop ↦ (
          stopped failed wq,
          rw (nz, e, stop),
          record {
            valid = v;
            lost = rest;
            order = ap (λ l. l ++ rest) (sym (empty_pending wq z));
            none_lost = λ d. cc;
            ended = inr refl;
          },
        )
        | inr go ↦
            let n_pos : 0 < n = ground arith in
            let (r, found, w) = ih (drop n rest) (omega (arith, length-drop n rest)) in
            (
              record r { sent = take n rest ++ r.sent },
              rw (nz, e, go) (ap (prepend (take n rest)) found),
              record {
                valid = w.valid;
                lost = w.lost;
                order =
                    sym (take-append-drop n rest)
                    ∙ ap (λ l. take n rest ++ l) w.order
                    ∙ sym (append_assoc (take n rest) r.sent (pending r.wq ++ w.lost));
                none_lost = w.none_lost;
                ended = w.ended;
              },
            )
      ]

  write_rest_from :
      (fuel i : ℕ) (wq : WriteQueue) (rest : Bytes)
      → IsValid wq
      → wq.count ≡ 0
      → length rest < fuel
      → Ends fuel i wq rest
  write_rest_from zero i wq rest v z h = absurd (omega arith)
  write_rest_from (suc fuel) i wq [] v z h = (
    stopped done wq,
    unfold write_rest in refl,
    record {
      valid = v;
      lost = [];
      order = sym (append-nil (pending wq) ∙ empty_pending wq z);
      none_lost = λ _. refl;
      ended = inl refl;
    },
  )
  write_rest_from (suc fuel) i wq (c ∷ cs) v z h =
      round (λ later l. write_rest_from fuel (i + 1) wq later v z (omega arith))
        (os i (length (c ∷ cs))) refl
    where
      input : Bytes
      input = c ∷ cs

      nz : (length (c ∷ cs) == 0) ≡ false
      nz = ground arith

      out : Status × WriteQueue
      out = enqueue table copy wq (c ∷ cs)

      round :
          ((later : Bytes) → length later < length (c ∷ cs) → Ends fuel (i + 1) wq later)
          → (reply : Reply) → os i (length (c ∷ cs)) ≡ reply
          → Ends (suc fuel) i wq (c ∷ cs)
      round ih again e = (
        record {
          status = (enqueue table copy wq (c ∷ cs)).0;
          wq = (enqueue table copy wq (c ∷ cs)).1;
          sent = [];
        },
        unfold write_rest in rw (nz, e),
        subst
            (λ l. Written (l ++ (c ∷ cs)) (record {
              status = (enqueue table copy wq (c ∷ cs)).0;
              wq = (enqueue table copy wq (c ∷ cs)).1;
              sent = [];
            }))
            (empty_pending wq z) (queued table copy wq (c ∷ cs) v),
      )
      round ih error e = (
        stopped failed wq,
        unfold write_rest in rw (nz, e),
        record {
          valid = v;
          lost = c ∷ cs;
          order = ap (λ l. l ++ (c ∷ cs)) (sym (empty_pending wq z));
          none_lost = λ d. cc;
          ended = inr refl;
        },
      )
      round ih (wrote n) e = rest_wrote fuel i n wq (c ∷ cs) v z (omega arith) e ih

  -- `sm_link_wq_write` on a valid queue ends, for every kernel that never takes more than it is offered. What was
  -- queued before and the new bytes are, in order, what the device took, what is queued then and
  -- what is lost; nothing is lost when the call returns 0, and otherwise it returns -1.
  pub write-Written :
      (wq : WriteQueue) (input : Bytes)
      → IsValid wq
      → (r : Run) × (write os table copy (suc (length input)) wq input ≡ some r)
        × Written (pending wq ++ input) r
  unfolding write has_pending
  write-Written wq [] v = (
    stopped done wq,
    refl,
    record { valid = v; lost = []; order = refl; none_lost = λ _. refl; ended = inl refl },
  )
  write-Written wq (c ∷ cs) v = elim (Bool-cases (ltb 0 wq.count)) [
    | inl e ↦ (_, rw (nz, e), queued table copy wq (c ∷ cs) v)
    | inr e ↦
        let none_queued : wq.count ≡ 0 = ground arith in
        let (r, found, w) =
          write_rest_from (suc (length (c ∷ cs))) 0 wq (c ∷ cs) v none_queued (omega arith) in
        (
          r,
          rw (nz, e) found,
          subst (λ l. Written (l ++ (c ∷ cs)) r) (sym (empty_pending wq none_queued)) w,
        )
  ]
    where
      nz : (length (c ∷ cs) == 0) ≡ false
      nz = ground arith
