-- ===== src/Broker/Control/Rollback.antt =====
-- What `handle_send_expect` leaves of the request that it adds.
use smolmux.Base.{
  ℕ, suc, ◌+◌, ◌≤◌, ◌<◌, ◌≡◌, ◌⊎◌, inl, inr, refl, sym, subst, ap, ◌∙◌, arith, Bool, true, false,
  not, some, List, Bytes, if◌then◌else◌, if-elim, length, copied, take-all, length-take, Bool-cases,
  same_text, same_text_eq, same_text_refl,
}
use smolmux.Stream.Matcher.{Matcher}
use smolmux.Stream.Expect.{Request, Expects, added, cancel_id}
use smolmux.Stream.Expect.Limits.{IsValid, add-Outcome, Appended, add-Appended}
use smolmux.Stream.Expect.Pending.{count, cancel_id-Cancelled}
use smolmux.Broker.Line.{Call}
use smolmux.Broker.Clients.{Client, Control, reply, can_send}
use smolmux.Broker.Control.{ExpectAsk, add_expect, handle_send_expect, clamped_timeout}
use smolmux.Broker.Control.Settling.{
  Delivered, Admitted, Refused, Untouched, Kept, RolledBack, count_snoc, answer_of, Settled,
  added-Settled,
}

module _ {E : Type 0} (id_text : ℕ → Bytes) (mt : Matcher E)
    (link : List (Call × Bool) → Call → Bool) where
  module _ (b : Control E) (c : Client) (ask : ExpectAsk) (id pattern : Bytes)
      (valid : IsValid b.expect) (short : length (id_text c.number) < 32)
      (has_id : ask.id ≡ some id) (has_pattern : ask.pattern ≡ some pattern) where
    Handled : Control E → Type 0
    Handled after =
        (Refused b c (answer_of id_text mt link b c ask id pattern).0 × Untouched b after)
        ⊎ (Admitted b c (answer_of id_text mt link b c ask id pattern).0
            × Settled id_text mt link b (answer_of id_text mt link b c ask id pattern).1 id
                ask.payload after)

    handled : Handled (handle_send_expect id_text mt link b c ask)
    unfolding handle_send_expect add_expect reply Handled
    handled =
        if-elim (λ (x : Control E). Handled x) (not (can_send b c)) _ _
          (λ e. inl (inl (ground (arith, e)), (refl, refl)))
          (λ may.
            if-elim (λ (x : Control E). Handled x) b.line.suspended _ _
              (λ e. inl (inr (inl e), (refl, refl)))
              (λ free.
                if-elim (λ (x : Control E). Handled x) b.line.link_disconnected _ _
                  (λ e. inl (inr (inr (inl e)), (refl, refl)))
                  (λ live. adding (ground (arith, may)) free live)))
      where
        adding :
            can_send b c ≡ true
            → b.line.suspended ≡ false
            → b.line.link_disconnected ≡ false
            → Handled (add_expect id_text mt link b c ask ask.id ask.pattern)
        adding may free live =
            subst (λ o. Handled (add_expect id_text mt link b c ask o ask.pattern)) (sym has_id)
              (subst (λ o. Handled (add_expect id_text mt link b c ask (some id) o))
                (sym has_pattern)
                (added-Settled id_text mt link b c id ask.payload
                  (answer_of id_text mt link b c ask id pattern)
                  (add-Outcome mt ask.table ask.block ask.now b.expect id pattern
                    (clamped_timeout ask.timeout) (id_text c.number) valid short)
                  may free live))

    -- The new request, when there is one.
    appended : Appended b.expect id (answer_of id_text mt link b c ask id pattern)
    appended =
        add-Appended mt ask.table ask.block ask.now b.expect id pattern
          (clamped_timeout ask.timeout) (id_text c.number)

    rolled_back :
        (after : Control E)
        → length id < 64
        → (answer_of id_text mt link b c ask id pattern).0 ≡ added
        → after.expect ≡ cancel_id (answer_of id_text mt link b c ask id pattern).1 id
        → RolledBack id b after
    rolled_back after fits ok e =
        let eng = (answer_of id_text mt link b c ask id pattern).1 in
        let (r, behind, named) = appended ok in
        let w = cancel_id-Cancelled eng id in
        let mine : same_text r.id id ≡ true =
          subst (λ i. same_text i id ≡ true) (sym (named ∙ take-all 63 id (omega arith)))
            (same_text_refl id) in
        (
          ap (λ (x : Expects E). count (λ r. same_text r.id id) x.requests) e ∙ w.gone,
          λ p apart.
              ap (λ (x : Expects E). count p x.requests) e
              ∙ w.stay p apart
              ∙ ap (count p) behind
              ∙ count_snoc p b.expect.requests r
              ∙ others p r (λ h. ground (arith, apart r h, mine)),
        )
      where
        others :
            (p : Request E → Bool) (r : Request E)
            → ¬ (p r ≡ true)
            → count p b.expect.requests + (if p r then 1 else 0) ≡ count p b.expect.requests
        others p r ne = elim (Bool-cases (p r)) [
          | inl e ↦ absurd (ne e)
          | inr e ↦ rw e (omega arith)
        ]

    -- `handle_send_expect` of a message with an id of at most 63 bytes and a pattern, of a client whose
    -- name fits in its field, on requests that satisfy their invariant, whichever allocations and writes fail. When the client may not write, the link is suspended
    -- or lost or `sm_expect_add` fails, nothing has happened but a reply. Otherwise, when there are no data or
    -- they were decoded and written, exactly the new request stands behind the others; when not, no request
    -- with the id is pending, not even one of another client, and those with other ids are as they were.
    pub handle_send_expect-Result :
        length id < 64
        → let after = handle_send_expect id_text mt link b c ask in
          let status = (answer_of id_text mt link b c ask id pattern).0 in
          (Refused b c status × Untouched b after)
          ⊎ ((Admitted b c status × Delivered link b.line ask.payload × Kept id b after)
              ⊎ (Admitted b c status
                  × (¬ (Delivered link b.line ask.payload))
                  × RolledBack id b after))
    unfolding Handled
    handle_send_expect-Result fits = elim handled [
      | inl refused ↦ inl refused
      | inr settled ↦ elim settled.1 [
        | inl kept ↦
            let (r, behind, named) = appended settled.0.3 in
            inr (
              inl (
                settled.0,
                kept.0,
                (
                  r,
                  ap (λ (x : Expects E). x.requests) kept.1 ∙ behind,
                  named ∙ take-all 63 id (omega arith),
                ),
              ))
        | inr forgotten ↦ inr (
            inr (
              settled.0,
              forgotten.0,
              rolled_back (handle_send_expect id_text mt link b c ask) fits settled.0.3 forgotten.1,
            ))
      ]
    ]

    -- With an id of 64 bytes or more, of which `sm_expect_add` keeps the first 63, the cancellation misses the
    -- request, on requests that satisfy their invariant and for a client whose name fits in its field: when it was added and the data were not delivered, one request more with the kept id is pending.
    pub long_id_stays :
        64 ≤ length id
        → Admitted b c (answer_of id_text mt link b c ask id pattern).0
        → ¬ (Delivered link b.line ask.payload)
        → let cut : Request E → Bool = λ r. same_text r.id (copied 64 id) in
          count cut (handle_send_expect id_text mt link b c ask).expect.requests
          ≡ suc (count cut b.expect.requests)
    unfolding Handled
    long_id_stays long ok undone =
        let (r, behind, named) = appended ok.3 in
        let eng = (answer_of id_text mt link b c ask id pattern).1 in
        ap (λ (x : Expects E). count cut x.requests) cancelled
        ∙ (cancel_id-Cancelled eng id).stay cut missed
        ∙ ap (count cut) behind
        ∙ count_snoc cut b.expect.requests r
        ∙ one r (
            subst (λ i. same_text i (copied 64 id) ≡ true) (sym named)
              (same_text_refl (copied 64 id)))
      where
        cut : Request E → Bool
        cut r = same_text r.id (copied 64 id)

        one :
            (r : Request E)
            → cut r ≡ true
            → count cut b.expect.requests + (if cut r then 1 else 0)
              ≡ suc (count cut b.expect.requests)
        one r e = rw e (omega arith)

        missed : (r : Request E) → cut r ≡ true → same_text r.id id ≡ false
        missed r e = elim (Bool-cases (same_text r.id id)) [
          | inl f ↦
              let same : copied 64 id ≡ id =
                sym (same_text_eq r.id (copied 64 id) e) ∙ same_text_eq r.id id f in
              absurd (omega (arith, length-take 63 id, ap (λ (l : Bytes). length l) same))
          | inr f ↦ f
        ]

        cancelled :
            (handle_send_expect id_text mt link b c ask).expect
            ≡ cancel_id (answer_of id_text mt link b c ask id pattern).1 id
        cancelled = elim handled [
          | inl refused ↦ absurd (contrary refused.0)
          | inr settled ↦ elim settled.1 [
            | inl kept ↦ absurd (undone kept.0)
            | inr forgotten ↦ forgotten.1
          ]
        ]
          where
            contrary : ¬ (Refused b c (answer_of id_text mt link b c ask id pattern).0)
            contrary (inl e) = let f = ok.0 in cc
            contrary (inr (inl e)) = let f = ok.1 in cc
            contrary (inr (inr (inl e))) = let f = ok.2 in cc
            contrary (inr (inr (inr ne))) = ne ok.3
