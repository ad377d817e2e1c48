-- ===== src/Tests/Sending.antt =====
-- The theorems on `handle_send_expect` at small messages.
use smolmux.Base.{
  codes, inl, inr, ℕ, suc, ◌≡◌, ◌⊎◌, refl, sym, ap, ◌∙◌, Bool, true, Option, none, some, [], ◌∷◌,
  Bytes, arith, same_text, copied,
}
use smolmux.Stream.Expect.{Request, add, add_request, client_count, init}
use smolmux.Stream.Expect.Pending.{count}
use smolmux.Stream.Expect.Limits.{init-IsValid}
use smolmux.Text.Base64.{decode, valid_from, is_b64_char}
use smolmux.Broker.Line.{pos}
use smolmux.Broker.Clients.{can_send, held_by_other}
use smolmux.Broker.Control.{ExpectAsk, handle_send_expect, clamped_timeout}
use smolmux.Broker.Control.Settling.{
  Delivered, Admitted, Refused, Untouched, Kept, RolledBack, answer_of,
}
use smolmux.Broker.Control.Rollback.{handle_send_expect-Result, long_id_stays}
use smolmux.Tests.Broker.{no_match, yes, new_broker, number_text, writer}

abbrev expecting : ExpectAsk
expecting = record {
  id = some (b'1' ∷ []);
  pattern = some (b'>' ∷ []);
  timeout = pos 1000;
  payload = some (codes "YQ==");
  now = 0;
  table = true;
  block = true;
}

handle_send_expect-Result_example :
    let after = handle_send_expect number_text no_match yes new_broker writer expecting in
    let status =
      (answer_of number_text no_match yes new_broker writer expecting (b'1' ∷ []) (b'>' ∷ [])).0 in
    (Refused new_broker writer status × Untouched new_broker after)
    ⊎ ((Admitted new_broker writer status
          × Delivered yes new_broker.line expecting.payload
          × Kept (b'1' ∷ []) new_broker after)
        ⊎ (Admitted new_broker writer status
            × (¬ (Delivered yes new_broker.line expecting.payload))
            × RolledBack (b'1' ∷ []) new_broker after))
handle_send_expect-Result_example =
    handle_send_expect-Result number_text no_match yes new_broker writer expecting (b'1' ∷ [])
      (b'>' ∷ []) init-IsValid (omega arith) refl refl (omega arith)

-- An id of 64 bytes, and data that are no base64.
abbrev long_id : Bytes
long_id = codes "0123456789012345678901234567890123456789012345678901234567890123"

abbrev hopeless : ExpectAsk
hopeless = record expecting { id = some long_id; payload = some (codes "a") }

long_id-Admitted :
    Admitted new_broker writer
      (answer_of number_text no_match yes new_broker writer hopeless long_id (b'>' ∷ [])).0
unfolding can_send held_by_other add add_request client_count clamped_timeout init
long_id-Admitted = (refl, refl, refl, refl)

no_base64 : decode (codes "a") ≡ none
unfolding decode valid_from is_b64_char
no_base64 = refl

not-Delivered : ¬ (Delivered yes new_broker.line hopeless.payload)
not-Delivered (inl e) = cc
not-Delivered (inr (text, bytes, same, fits, d, w)) =
    some_none bytes (sym d ∙ ap (λ o. decode (text_or o)) (sym same) ∙ no_base64)
  where
    text_or : Option Bytes → Bytes
    text_or none = []
    text_or (some u) = u

    some_none : (bs : Bytes) → some bs ≡ none → ⊥
    some_none bs h = cc

long_id_stays_example :
    let cut : Request ℕ → Bool = λ r. same_text r.id (copied 64 long_id) in
    count cut
      (handle_send_expect number_text no_match yes new_broker writer hopeless).expect.requests
    ≡ suc (count cut new_broker.expect.requests)
long_id_stays_example =
    long_id_stays number_text no_match yes new_broker writer hopeless long_id (b'>' ∷ [])
      init-IsValid (omega arith) refl refl (omega arith) long_id-Admitted not-Delivered
