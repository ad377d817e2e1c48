-- ===== src/Broker/Paging/Serve.antt =====
-- Turns of the event loop serve a pending history request: after as many turns as it has chunks the response
-- is sent, with all bytes.
use smolmux.Base.{
  ℕ, zero, suc, ◌+◌, ◌≤◌, ◌<◌, none, some, List, ◌++◌, ◌≡◌, refl, sym, ap, subst, ◌∙◌, arith, Bytes,
  ltb, if-elim, length, append-nil,
}
use smolmux.Text.Base64.RoundTrip.{AllBytes}
use smolmux.History.Inv.{concat}
use smolmux.Broker.Paging.{
  Piece, Pending, Desk, encode_chunks, encode_max_chunks, respond, encoded, process,
  process_history_pending, turns,
}
use smolmux.Broker.Paging.Pieces.{sent_bytes, left}
use smolmux.Broker.Paging.Encode.{Inv, Encoded, encode_chunks-Turn, left-end}

abbrev pub waiting : Desk → Pending → Desk
waiting d p = record d { pending = some p }

-- The request is answered: its client, if it is there, has the response, whose pieces hold the bytes that
-- were encoded and all that were to come.
pub record Answered (clients : List Bytes) (d : Desk) (p : Pending) (d' : Desk) : Type 0 where
  pub response : List Piece
  pub bytes : sent_bytes response ≡ sent_bytes p.response ++ left p
  pub out : d' ≡ respond clients d (record p { response = response })

module _ (clients : List Bytes) where
  pub turns_idle : (n : ℕ) (d : Desk) → d.pending ≡ none → turns clients n d ≡ d
  unfolding turns process_history_pending process
  turns_idle zero d e = refl
  turns_idle (suc n) d e = ap (λ o. turns clients n (process clients d o)) e ∙ turns_idle n d e

  ends_now :
      (n : ℕ) (d : Desk) (p q : Pending)
      → Encoded p q
      → length q.chunks ≤ q.encode_index
      → Answered clients d p (turns clients n (respond clients d q))
  unfolding respond
  ends_now n d p q e all = record {
    response = q.response;
    bytes =
        sym (append-nil (sent_bytes q.response))
        ∙ ap (λ l. sent_bytes q.response ++ l) (sym (left-end q (omega (arith, e.inv.inside))))
        ∙ e.conserved;
    out =
        turns_idle n (respond clients d q) (unfold respond in refl)
        ∙ ap (λ (x : Pending). respond clients d x) e.same;
  }

  Answered-later :
      (d : Desk) (p q : Pending) (d' : Desk)
      → Encoded p q
      → Answered clients d q d'
      → Answered clients d p d'
  unfolding respond
  Answered-later d p q d' e a = record {
    response = a.response;
    bytes = a.bytes ∙ e.conserved;
    out =
        a.out ∙ ap (λ (x : Pending). respond clients d (record x { response = a.response })) e.same;
  }

  pub turns-Answered :
      (n : ℕ) (d : Desk) (p : Pending)
      → Inv p
      → AllBytes (concat p.chunks)
      → 0 < n
      → length p.chunks ≤ n + p.encode_index
      → Answered clients d p (turns clients n (waiting d p))
  unfolding turns process_history_pending process encoded respond
  turns-Answered zero d p v valid h k = absurd (omega arith)
  turns-Answered (suc n) d p v valid h k =
      let q = encode_chunks encode_max_chunks 0 p in
      let (e, onward) = encode_chunks-Turn encode_max_chunks 0 p v valid in
      let chunks : q.chunks ≡ p.chunks = ap (λ (x : Pending). x.chunks) e.same in
      let size : length q.chunks ≡ length p.chunks = ap (λ l. length l) chunks in
      if-elim (λ (d' : Desk). Answered clients d p (turns clients n d'))
        (ltb q.encode_index (length q.chunks)) _ _
        (λ more.
          let below : q.encode_index < length q.chunks = ground arith in
          let further = onward (omega arith) (omega arith) (omega (arith, e.onward)) in
          Answered-later d p q _ e (
            turns-Answered n d q e.inv (subst (λ l. AllBytes (concat l)) (sym chunks) valid)
              (omega arith) (omega arith)))
        (λ ended. ends_now n d p q e (ground arith))
