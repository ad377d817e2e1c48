-- ===== src/Broker/Control/Settling.antt =====
-- The steps of `handle_send_expect` behind its guards.
use smolmux.Base.{
  ℕ, ◌+◌, ◌≡◌, ◌≢◌, ◌⊎◌, inl, inr, refl, sym, ap, ◌∙◌, arith, Bool, true, false, Option, none, some,
  List, [], ◌∷◌, ◌++◌, Bytes, ltb, if◌then◌else◌, if-elim, length, same_text,
}
use smolmux.Stream.Matcher.{Matcher}
use smolmux.Stream.Expect.{
  Request, Expects, add, AddStatus, added, full, per_client, bad_pattern, no_memory, cancel_id,
}
use smolmux.Stream.Expect.Limits.{Outcome}
use smolmux.Stream.Expect.Pending.{count}
use smolmux.Text.Base64.{decode}
use smolmux.Broker.Line.{
  Call, Line, Written, written, is_suspended, is_disconnected, write_failed, do_write, is_written,
}
use smolmux.Broker.Clients.{Client, Control, reply, can_send}
use smolmux.Broker.Control.{
  ExpectAsk, max_b64, sent, forget, send_expected, send_pending, expect_added, clamped_timeout,
}

-- There are no data, or they are not too long, and they were decoded and written.
abbrev pub Delivered : (List (Call × Bool) → Call → Bool) → Line → Option Bytes → Type 0
Delivered link line payload =
    (payload ≡ none)
    ⊎ ((text : Bytes) × (bytes : Bytes) × (payload ≡ some text)
        × (ltb max_b64 (length text) ≡ false)
        × (decode text ≡ some bytes)
        × ((do_write link line bytes).0 ≡ written))

module _ {E : Type 0} where
  -- `sm_expect_add` is called and succeeds.
  abbrev pub Admitted : Control E → Client → AddStatus → Type 0
  Admitted b c status =
      (can_send b c ≡ true)
      × (b.line.suspended ≡ false)
      × (b.line.link_disconnected ≡ false)
      × (status ≡ added)

  -- It is not called, or fails.
  abbrev pub Refused : Control E → Client → AddStatus → Type 0
  Refused b c status =
      (can_send b c ≡ false)
      ⊎ ((b.line.suspended ≡ true) ⊎ ((b.line.link_disconnected ≡ true) ⊎ (status ≢ added)))

  -- Nothing has happened but a reply.
  abbrev pub Untouched : Control E → Control E → Type 0
  Untouched b after = (after.expect.requests ≡ b.expect.requests) × (after.line ≡ b.line)

  -- The new request stands behind the others.
  abbrev pub Kept : Bytes → Control E → Control E → Type 0
  Kept id b after =
      (r : Request E) × (after.expect.requests ≡ b.expect.requests ++ r ∷ []) × (r.id ≡ id)

  -- No request with the id is pending, whosever it was, and the others are as they were.
  abbrev pub RolledBack : Bytes → Control E → Control E → Type 0
  RolledBack id b after =
      (count (λ r. same_text r.id id) after.expect.requests ≡ 0)
      × ((p : Request E → Bool)
          → ((r : Request E) → p r ≡ true → same_text r.id id ≡ false)
          → count p after.expect.requests ≡ count p b.expect.requests)

  pub count_snoc :
      (p : Request E → Bool) (rs : List (Request E)) (r : Request E)
      → count p (rs ++ r ∷ []) ≡ count p rs + (if p r then 1 else 0)
  count_snoc p [] r = omega arith
  count_snoc p (s ∷ rs) r = omega (arith, count_snoc p rs r)

module _ {E : Type 0} (id_text : ℕ → Bytes) (mt : Matcher E)
    (link : List (Call × Bool) → Call → Bool) where
  -- The status and the requests when `sm_expect_add` returns.
  abbrev pub answer_of : Control E → Client → ExpectAsk → Bytes → Bytes → AddStatus × Expects E
  answer_of b c ask id pattern =
      add mt ask.table ask.block ask.now b.expect id pattern (clamped_timeout ask.timeout)
        (id_text c.number)

  -- Behind `sm_expect_add`: the requests stay, or those with the id are cancelled.
  abbrev pub Settled : Control E → Expects E → Bytes → Option Bytes → Control E → Type 0
  Settled b eng id payload after =
      (Delivered link b.line payload × (after.expect ≡ eng))
      ⊎ ((¬ (Delivered link b.line payload)) × (after.expect ≡ cancel_id eng id))

  undelivered :
      (line : Line) (text : Bytes)
      → ((bytes : Bytes)
          → ltb max_b64 (length text) ≡ false
          → decode text ≡ some bytes
          → (do_write link line bytes).0 ≢ written)
      → ¬ (Delivered link line (some text))
  undelivered line text no_way (inl none_there) = cc
  undelivered line text no_way (inr (t, bytes, same, fits, d, w)) =
      no_way bytes (ap (λ o. ltb max_b64 (length (text_or o))) same ∙ fits)
        (ap (λ o. decode (text_or o)) same ∙ d) w
    where
      text_or : Option Bytes → Bytes
      text_or none = []
      text_or (some u) = u

  module _ (b : Control E) (eng : Expects E) (c : Client) (id : Bytes) where
    -- The broker when the request is added.
    grown : Control E
    grown = record b { expect = eng }

    refused_write :
        (text bytes : Bytes) (rc : Written)
        → decode text ≡ some bytes
        → (do_write link b.line bytes).0 ≡ rc
        → rc ≢ written
        → ¬ (Delivered link b.line (some text))
    refused_write text bytes rc d e ne = undelivered b.line text (λ bytes' fits d' w.
        ne (sym e ∙ ap (λ o. (do_write link b.line (bytes_or o)).0) (sym d ∙ d') ∙ w))
      where
        bytes_or : Option Bytes → Bytes
        bytes_or none = []
        bytes_or (some u) = u

    written_or_not :
        (text bytes : Bytes) (rc : Written) (line : Line)
        → ltb max_b64 (length text) ≡ false
        → decode text ≡ some bytes
        → (do_write link b.line bytes).0 ≡ rc
        → Settled b eng id (some text) (
            sent
              (record (if is_written rc then grown else forget id_text mt link grown id) {
                line = line;
              })
              c
              bytes
              rc)
    unfolding grown sent is_written reply forget
    written_or_not text bytes written line fits d e =
        inl (inr (text, bytes, refl, fits, d, e), refl)
    written_or_not text bytes is_suspended line fits d e =
        inr (refused_write text bytes is_suspended d e (λ h. cc), refl)
    written_or_not text bytes is_disconnected line fits d e =
        inr (refused_write text bytes is_disconnected d e (λ h. cc), refl)
    written_or_not text bytes write_failed line fits d e =
        inr (refused_write text bytes write_failed d e (λ h. cc), refl)

    decoded_or_not :
        (text : Bytes) (o : Option Bytes)
        → ltb max_b64 (length text) ≡ false
        → decode text ≡ o
        → Settled b eng id (some text) (send_expected id_text mt link grown c id o)
    unfolding send_expected reply grown forget
    decoded_or_not text none fits d = inr (undelivered b.line text (λ bytes f d' w. cc), refl)
    decoded_or_not text (some bytes) fits d =
        written_or_not text bytes (do_write link b.line bytes).0 (do_write link b.line bytes).1 fits
          d refl

    pending-Settled :
        (payload : Option Bytes)
        → Settled b eng id payload (send_pending id_text mt link grown c id payload)
    unfolding send_pending reply grown forget
    pending-Settled none = inl (inl refl, refl)
    pending-Settled (some text) =
        if-elim (λ (x : Control E). Settled b eng id (some text) x) (ltb max_b64 (length text)) _ _
          (λ long. inr (undelivered b.line text (λ bytes f d w. cc), refl))
          (λ fits. decoded_or_not text (decode text) fits refl)

  pub added-Settled :
      (b : Control E) (c : Client) (id : Bytes) (payload : Option Bytes) (r : AddStatus × Expects E)
      → Outcome b.expect r
      → can_send b c ≡ true
      → b.line.suspended ≡ false
      → b.line.link_disconnected ≡ false
      → let after = expect_added id_text mt link b c id payload r in
        (Refused b c r.0 × Untouched b after) ⊎ (Admitted b c r.0 × Settled b r.1 id payload after)
  unfolding expect_added reply grown
  added-Settled b c id payload (added, eng) o may free live =
      inr ((may, free, live, refl), pending-Settled b eng c id payload)
  added-Settled b c id payload (full, eng) o may free live =
      inl (inr (inr (inr (λ h. cc))), (o.as_before (λ e. cc), refl))
  added-Settled b c id payload (per_client, eng) o may free live =
      inl (inr (inr (inr (λ h. cc))), (o.as_before (λ e. cc), refl))
  added-Settled b c id payload (bad_pattern, eng) o may free live =
      inl (inr (inr (inr (λ h. cc))), (o.as_before (λ e. cc), refl))
  added-Settled b c id payload (no_memory, eng) o may free live =
      inl (inr (inr (inr (λ h. cc))), (o.as_before (λ e. cc), refl))
