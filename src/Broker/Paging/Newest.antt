-- ===== src/Broker/Paging/Newest.antt =====
-- A history request without a cursor: the newest of the chunks that it asks for, as many as fit a response.
use smolmux.Base.{
  ℕ, zero, suc, ◌+◌, ◌-◌, ◌≤◌, ◌<◌, true, Option, none, List, [], ◌∷◌, ◌≡◌, refl, sym, ap, subst,
  ◌∙◌, arith, Bytes, ltb, leb, ◌==◌, if◌then◌else◌, if-elim, length, map, get_or, drop, take-all,
  copied, drop-all, length-append, length-drop,
}
use smolmux.Text.Base64.RoundTrip.{AllBytes}
use smolmux.History.{RingBuffer, Chunk, no_chunk}
use smolmux.History.Inv.{concat}
use smolmux.History.Query.{get_since, get_all}
use smolmux.History.Query.Octets.{
  HoldsBytes, get_since-AllBytes, get_last_n_bytes-AllBytes, get_all-AllBytes,
}
use smolmux.Broker.Line.{ℤ, pos, negsuc}
use smolmux.Broker.Paging.{
  Piece, Pending, Desk, Reply, history, Request, id_text, max_response, owned, answer, accept,
  newest_start, request_newest, asked_chunks, request_from, request_idle, handle_history_request,
  has_id, respond, turns,
}
use smolmux.Broker.Paging.Pieces.{sent_bytes, left, drop_next, upcoming_whole, AllBytes-halves}
use smolmux.Broker.Paging.Serve.{turns_idle, turns-Answered}
use smolmux.Broker.Paging.ByCursor.{concat-owned, length-owned}

-- The chunks from `start` on fit a response, and with the one in front of them they do not.
pub record Fits (chunks : List Chunk) (start : ℕ) : Type 0 where
  pub inside : start ≤ length chunks
  pub bounded : length (concat (drop start chunks)) ≤ max_response
  pub maximal : 0 < start → max_response < length (concat (drop (start - 1) chunks))

newest_from :
    (chunks : List Chunk) (n total : ℕ)
    → n ≤ length chunks
    → total ≡ length (concat (drop n chunks))
    → total ≤ max_response
    → Fits chunks (newest_start chunks n total)
unfolding newest_start
newest_from chunks zero total h e b = record {
  inside = omega arith;
  bounded = omega (arith, e);
  maximal = λ h. absurd (omega arith);
}
newest_from chunks (suc n) total h e b =
    let size = length (get_or chunks n no_chunk).bytes in
    let sum : total + size ≡ length (concat (drop n chunks)) = omega (
      arith,
      e,
      ap (λ l. length (concat l)) (drop_next n chunks (omega arith)),
      length-append (get_or chunks n no_chunk).bytes (concat (drop (suc n) chunks)),
    ) in
    if-elim (λ (s : ℕ). Fits chunks s) (leb (total + size) max_response) _ _
      (λ fits. newest_from chunks n (total + size) (omega arith) sum (ground arith))
      (λ full. record {
        inside = h;
        bounded = omega (arith, e);
        maximal = λ _. ground (arith, sum, full);
      })

pub newest_start-Fits : (chunks : List Chunk) → Fits chunks (newest_start chunks (length chunks) 0)
newest_start-Fits chunks =
    let none_left : drop (length chunks) chunks ≡ [] =
      drop-all (length chunks) chunks (omega arith) in
    newest_from chunks (length chunks) 0 (omega arith) (sym (ap (λ l. length (concat l)) none_left))
      (omega arith)

AllBytes-newer :
    (n : ℕ) (chunks : List Chunk) → AllBytes (concat chunks) → AllBytes (concat (drop n chunks))
AllBytes-newer zero chunks h = h
AllBytes-newer (suc n) [] h = tt
AllBytes-newer (suc n) (c ∷ cs) h = AllBytes-newer n cs (AllBytes-halves c.bytes (concat cs) h).1

asked_chunks-AllBytes :
    (rb : RingBuffer) (r : Request) → HoldsBytes rb → AllBytes (concat (asked_chunks true rb r))
unfolding asked_chunks
asked_chunks-AllBytes rb r octets = by_size r.last_bytes
  where
    other :
        AllBytes
          (concat (if ltb 0 r.since_ts then get_since true rb r.since_ts else get_all true rb))
    other =
        if-elim (λ (cs : List Chunk). AllBytes (concat cs)) (ltb 0 r.since_ts) _ _
          (λ _. get_since-AllBytes rb octets true r.since_ts) (λ _. get_all-AllBytes rb octets true)

    by_size : (n : ℤ) → AllBytes (concat (asked_chunks true rb (record r { last_bytes = n })))
    by_size (negsuc n) = unfold asked_chunks in other
    by_size (pos n) =
        unfold asked_chunks in
        if-elim (λ (cs : List Chunk). AllBytes (concat cs)) (ltb 0 n) _ _
          (λ _. get_last_n_bytes-AllBytes rb octets true n) (λ _. other)

-- The client has one response: the bytes of the newest chunks, and whether older ones are left out.
pub record Delivered (d : Desk) (client : Bytes) (id : Option Bytes) (chunks : List Chunk)
    (start : ℕ) (d' : Desk) : Type 0 where
  pub pieces : List Piece
  pub bytes : sent_bytes pieces ≡ concat (drop start chunks)
  pub out : d' ≡ answer d client (history (id_text id) pieces none (ltb 0 start))

module _ (clients : List Bytes) (sent : List (Bytes × Reply)) (client : Bytes) (id : Option Bytes)
    (there : has_id client clients ≡ true) (short : length client < 32)
    (short_id : length (id_text id) < 64) (chunks : List Chunk)
    (valid : AllBytes (concat chunks)) where
  abbrev start : ℕ
  start = newest_start chunks (length chunks) 0

  abbrev first_pending : Pending
  first_pending = record {
    client_id = copied 32 client;
    msg_id = copied 64 (id_text id);
    chunks = map owned (drop start chunks);
    encode_index = 0;
    response = [];
    truncated = ltb 0 start;
    place = none;
    first_skip = 0;
    page_bytes = 0;
    bytes_encoded = 0;
  }

  left_first : left first_pending ≡ concat (drop start chunks)
  left_first = upcoming_whole (map owned (drop start chunks)) ∙ concat-owned (drop start chunks)

  respond_first :
      (pieces : List Piece)
      → respond clients
          (record { pending = none; sent = sent })
          (record first_pending { response = pieces })
        ≡ answer
            (record { pending = none; sent = sent })
            client
            (history (id_text id) pieces none (ltb 0 start))
  unfolding respond answer
  respond_first pieces =
      let a : copied 32 client ≡ client = take-all 31 client (omega arith) in
      let b : copied 64 (id_text id) ≡ id_text id = take-all 63 (id_text id) (omega arith) in
      rw (a, b, there) refl

  request_newest-Delivered :
      Delivered
        (record { pending = none; sent = sent })
        client
        id
        chunks
        start
        (turns clients
          (suc (length chunks))
          (request_newest true (record { pending = none; sent = sent }) client id chunks))
  unfolding request_newest accept
  request_newest-Delivered =
      if-elim
        (λ (d : Desk).
          Delivered (record { pending = none; sent = sent }) client id chunks start
            (turns clients (suc (length chunks)) d))
        (length chunks - start == 0) _ _
        (λ e. record {
          pieces = [];
          bytes = sym (ap concat (drop-all start chunks (ground (arith, e))));
          out = turns_idle clients (suc (length chunks)) _ (unfold answer in refl);
        })
        (λ e.
          let a =
            turns-Answered clients (suc (length chunks)) (record { pending = none; sent = sent })
              first_pending (record { inside = omega arith; room = λ h _. absurd (omega arith) })
              (subst AllBytes (sym (concat-owned (drop start chunks)))
                (AllBytes-newer start chunks valid))
              (omega arith)
              (omega (arith, length-owned (drop start chunks), length-drop start chunks)) in
          record {
            pieces = a.response;
            bytes = a.bytes ∙ left_first;
            out = a.out ∙ respond_first a.response;
          })

-- A history request without a cursor, on a buffer of bytes, while no other is pending, where no allocation
-- fails and ids fit their fields: when the event loop has turned once more than there are chunks asked for, the
-- client has one response with the bytes of the newest of these chunks. They are at most 512 KiB, one chunk
-- more would be above that, and the response says whether any is left out.
pub handle_history_request-newest :
    (rb : RingBuffer) (clients : List Bytes) (sent : List (Bytes × Reply)) (client : Bytes)
    (r : Request)
    → HoldsBytes rb
    → r.since_seq ≡ none
    → has_id client clients ≡ true
    → length client < 32
    → length (id_text r.id) < 64
    → let chunks = asked_chunks true rb r in
      (start : ℕ) × Fits chunks start
      × Delivered
          (record { pending = none; sent = sent })
          client
          r.id
          chunks
          start
          (turns clients
            (suc (length chunks))
            (handle_history_request true true rb (record { pending = none; sent = sent }) client r))
unfolding handle_history_request request_idle request_from
handle_history_request-newest rb clients sent client r octets asked there short short_id =
    let chunks = asked_chunks true rb r in
    let a =
      request_newest-Delivered clients sent client r.id there short short_id chunks
        (asked_chunks-AllBytes rb r octets) in
    (
      newest_start chunks (length chunks) 0,
      newest_start-Fits chunks,
      record {
        pieces = a.pieces;
        bytes = a.bytes;
        out =
            ap
              (λ o.
                turns clients (suc (length chunks))
                  (request_from true true rb (record { pending = none; sent = sent }) client r o))
              asked
            ∙ a.out;
      },
    )
