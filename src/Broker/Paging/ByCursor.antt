-- ===== src/Broker/Paging/ByCursor.antt =====
-- A history request by a cursor, from the message to the response.
use smolmux.Base.{
  ℕ, zero, suc, ◌-◌, ◌≤◌, ◌<◌, true, false, Option, none, some, List, [], ◌∷◌, ◌++◌, ◌≡◌, refl, sym,
  ap, subst, ◌∙◌, arith, Bytes, ltb, ◌==◌, if-elim, length, map, take, drop, min, take-all, copied,
  drop-append_le, take-nil, drop-nil, length-append,
}
use smolmux.Text.Base64.RoundTrip.{AllBytes}
use smolmux.History.{RingBuffer, Chunk}
use smolmux.History.Inv.{Core, concat, stream}
use smolmux.History.Query.{Page, get_since_seq}
use smolmux.History.Query.Cursor.{wanted, IsPage, get_since_seq-IsPage}
use smolmux.History.Query.Octets.{HoldsBytes, get_since_seq-AllBytes}
use smolmux.Broker.Line.{ℤ, pos, negsuc}
use smolmux.Broker.Paging.{
  Piece, Place, Pending, Desk, Reply, history, Request, id_text, seq_of, page_size, max_response,
  owned, answer, accept, request_page, request_from, request_idle, handle_history_request, has_id,
  respond, turns,
}
use smolmux.Broker.Paging.Pieces.{sent_bytes, upcoming, left}
use smolmux.Broker.Paging.Serve.{turns_idle, turns-Answered}

pub concat-owned : (cs : List Chunk) → concat (map owned cs) ≡ concat cs
unfolding owned
concat-owned [] = refl
concat-owned (c ∷ cs) = ap (λ l. c.bytes ++ l) (concat-owned cs)

pub length-owned : (cs : List Chunk) → length (map owned cs) ≡ length cs
length-owned [] = refl
length-owned (c ∷ cs) = ap suc (length-owned cs)

upcoming-owned :
    (skip : ℕ) (cs : List Chunk)
    → skip ≤ length (concat (take 1 cs))
    → upcoming skip (map owned cs) ≡ drop skip (concat cs)
unfolding owned
upcoming-owned skip [] h = sym (drop-nil skip)
upcoming-owned skip (c ∷ cs) h =
    ap (λ l. drop skip c.bytes ++ l) (concat-owned cs)
    ∙ sym (drop-append_le skip c.bytes (concat cs) (omega (arith, one)))
  where
    one : length (concat (take 1 (c ∷ cs))) ≡ length c.bytes
    one = omega (arith, length-append c.bytes [])

take-min : (n : ℕ) (xs : Bytes) → take n xs ≡ take (min n (length xs)) xs
take-min zero xs = let e : 0 ≡ min 0 (length xs) = omega arith in ap (λ k. take k xs) e
take-min (suc n) [] = sym (take-nil (min (suc n) 0))
take-min (suc n) (x ∷ xs) =
    let e : suc (min n (length xs)) ≡ min (suc n) (suc (length xs)) = omega arith in
    ap (λ l. x ∷ l) (take-min n xs) ∙ ap (λ k. take k (x ∷ xs)) e

pub page_size_bounds : (n : ℤ) → (0 < page_size n) × (page_size n ≤ max_response)
unfolding page_size
page_size_bounds (pos n) = ground arith
page_size_bounds (negsuc n) = ground arith

abbrev place_of : Page → Place
place_of p = record { cursor = p.cursor; dropped = p.dropped; has_more = p.has_more }

-- The response to a request for a page: one message with the pieces of the page, its cursor and how many
-- bytes were gone.
pub record Responded (clients : List Bytes) (d : Desk) (client : Bytes) (id : Option Bytes)
    (max : ℕ) (p : Page) (d' : Desk) : Type 0 where
  pub pieces : List Piece
  pub bytes : sent_bytes pieces ≡ take max (drop p.first_skip (concat p.chunks))
  pub out : d' ≡ answer d client (history (id_text id) pieces (some (place_of p)) false)

module _ (clients : List Bytes) (sent : List (Bytes × Reply)) (client : Bytes) (id : Option Bytes)
    (there : has_id client clients ≡ true) (short : length client < 32)
    (short_id : length (id_text id) < 64) (max : ℕ) (some_room : 0 < max) (p : Page)
    (valid : AllBytes (concat p.chunks))
    (skip_in : p.first_skip ≤ length (concat (take 1 p.chunks))) where
  abbrev desk : Desk
  desk = record { pending = none; sent = sent }

  abbrev first_pending : Pending
  first_pending = record {
    client_id = copied 32 client;
    msg_id = copied 64 (id_text id);
    chunks = map owned p.chunks;
    encode_index = 0;
    response = [];
    truncated = false;
    place = some (place_of p);
    first_skip = p.first_skip;
    page_bytes = max;
    bytes_encoded = 0;
  }

  left_first : left first_pending ≡ take max (drop p.first_skip (concat p.chunks))
  left_first =
      let e : ltb 0 max ≡ true = ground arith in
      let z : max - 0 ≡ max = omega arith in
      rw (e, z) (ap (take max) (upcoming-owned p.first_skip p.chunks skip_in))

  respond_first :
      (pieces : List Piece)
      → respond clients desk (record first_pending { response = pieces })
        ≡ answer desk client (history (id_text id) pieces (some (place_of p)) false)
  unfolding respond answer
  respond_first pieces =
      let a : copied 32 client ≡ client = take-all 31 client (omega arith) in
      let b : copied 64 (id_text id) ≡ id_text id = take-all 63 (id_text id) (omega arith) in
      rw (a, b, there) refl

  request_page-Responded :
      Responded clients desk client id max p
        (turns clients (suc (length p.chunks)) (request_page true desk client id max p))
  unfolding request_page accept
  request_page-Responded =
      if-elim
        (λ (d : Desk).
          Responded clients desk client id max p (turns clients (suc (length p.chunks)) d))
        (length p.chunks == 0) _ _
        (λ e. record {
          pieces = [];
          bytes = sym (no_bytes p.chunks (ground (arith, e)));
          out = turns_idle clients (suc (length p.chunks)) _ (unfold answer in refl);
        })
        (λ e.
          let a =
            turns-Answered clients (suc (length p.chunks)) desk first_pending
              (record { inside = omega arith; room = λ _ _. some_room })
              (subst AllBytes (sym (concat-owned p.chunks)) valid) (omega arith)
              (omega (arith, length-owned p.chunks)) in
          record {
            pieces = a.response;
            bytes = a.bytes ∙ left_first;
            out = a.out ∙ respond_first a.response;
          })
    where
      no_bytes : (cs : List Chunk) → length cs ≡ 0 → take max (drop p.first_skip (concat cs)) ≡ []
      no_bytes [] e = ap (take max) (drop-nil p.first_skip) ∙ take-nil max
      no_bytes (c ∷ cs) e = absurd (omega arith)

-- The page that a request by the cursor `seq` asks for.
abbrev pub page_of : RingBuffer → ℕ → ℤ → Page
page_of rb seq max_bytes = get_since_seq true rb seq (page_size max_bytes)

-- The client has one response: the pieces hold the bytes of the stream from the one asked for, or the oldest,
-- up to the cursor in the response; the cursor is that of a page.
pub record Delivered (rb : RingBuffer) (seq : ℕ) (d : Desk) (client : Bytes) (r : Request)
    (d' : Desk) : Type 0 where
  pub pieces : List Piece
  pub bytes :
      sent_bytes pieces
      ≡ take
          ((page_of rb seq r.max_bytes).cursor - wanted rb seq)
          (drop (wanted rb seq - rb.first_seq) (stream rb))
  pub page : IsPage rb (wanted rb seq) (page_size r.max_bytes) (page_of rb seq r.max_bytes)
  pub dropped : (page_of rb seq r.max_bytes).dropped ≡ rb.first_seq - seq
  pub out :
      d'
      ≡ answer d client
          (history (id_text r.id) pieces (some (place_of (page_of rb seq r.max_bytes))) false)

-- A history request by a cursor, on a valid buffer of bytes, while no other is pending, where no allocation fails
-- and ids fit their fields: when the event loop has turned once more than the page has chunks, whatever the
-- limits of a turn cut, the client has one response with the bytes of the stream from the cursor on (or from
-- the oldest byte), up to the new cursor, which moves on if there is anything to read.
pub handle_history_request-Delivered :
    (rb : RingBuffer) (clients : List Bytes) (sent : List (Bytes × Reply)) (client : Bytes)
    (r : Request) (seq : ℕ)
    → Core rb
    → HoldsBytes rb
    → seq ≤ rb.total_seq
    → r.since_seq ≡ some (pos seq)
    → has_id client clients ≡ true
    → length client < 32
    → length (id_text r.id) < 64
    → Delivered rb seq
        (record { pending = none; sent = sent })
        client
        r
        (turns clients
          (suc (length (page_of rb seq r.max_bytes).chunks))
          (handle_history_request true true rb (record { pending = none; sent = sent }) client r))
unfolding handle_history_request request_idle request_from seq_of
handle_history_request-Delivered rb clients sent client r seq v octets known asked there short
      short_id =
    let size = page_size r.max_bytes in
    let bounds = page_size_bounds r.max_bytes in
    let page = get_since_seq true rb seq size in
    let (is_page, dropped) = get_since_seq-IsPage rb seq size v known in
    let a =
      request_page-Responded clients sent client r.id there short short_id size bounds.0 page
        (get_since_seq-AllBytes rb octets true seq size) is_page.skip_in in
    let whole = drop page.first_skip (concat page.chunks) in
    record {
      pieces = a.pieces;
      bytes =
          a.bytes
          ∙ take-min size whole
          ∙ ap (λ k. take k whole) (sym (is_page.exact bounds.0))
          ∙ is_page.bytes;
      page = is_page;
      dropped = dropped;
      out =
          ap
            (λ o.
              turns clients (suc (length page.chunks))
                (request_from true true rb (record { pending = none; sent = sent }) client r o))
            asked
          ∙ a.out;
    }
