-- ===== src/Broker/Paging.antt =====
-- src/broker.c: history requests. A request copies the chunks that it asks for; each turn of the event loop
-- encodes a few of them, and the response is sent when all of them are encoded.
pub mod Pieces
pub mod Encode
pub mod Serve
pub mod ByCursor
pub mod Newest
use smolmux.Base.{
  ℕ, zero, suc, ◌+◌, ◌-◌, ◌*◌, Bool, true, false, not, ◌&&◌, ◌||◌, Option, none, some, List, [],
  ◌∷◌, ◌++◌, Bytes, ltb, leb, ◌==◌, if◌then◌else◌, length, get_or, take, drop, map, min, same_text,
  copied,
}
use smolmux.Text.Base64.{encode}
use smolmux.Broker.Line.{ℤ, pos, negsuc}
use smolmux.History.{RingBuffer, Chunk, no_chunk}
use smolmux.History.Query.{Page, get_since_seq, get_last_n_bytes, get_since, get_all}

-- An element of the response's array. Base64 text, time, and the sequence number in a page by a cursor.
pub record Piece : Type 0 where
  pub text : Bytes
  pub timestamp : ℕ
  pub seq_start : Option ℕ

-- What a page by a cursor tells besides the bytes.
pub record Place : Type 0 where
  pub cursor : ℕ
  pub dropped : ℕ
  pub has_more : Bool

-- The active `history_pending` of `sm_broker_t`; `place` is set when `has_cursor` is.
pub record Pending : Type 0 where
  pub client_id : Bytes
  pub msg_id : Bytes
  pub chunks : List Chunk
  pub encode_index : ℕ
  pub response : List Piece
  pub truncated : Bool
  pub place : Option Place
  pub first_skip : ℕ
  pub page_bytes : ℕ
  pub bytes_encoded : ℕ

-- What a client is answered, with the id of its request.
pub data Reply : Type 0 where
  history : Bytes → List Piece → Option Place → Bool → Reply
  in_progress no_memory : Option Bytes → Reply

-- The pending request, and what was sent to whom.
pub record Desk : Type 0 where
  pub pending : Option Pending
  pub sent : List (Bytes × Reply)

-- `SM_HISTORY_ENCODE_MAX_CHUNKS`, `SM_HISTORY_ENCODE_MAX_BYTES`
abbrev pub encode_max_chunks : ℕ
encode_max_chunks = 4

abbrev pub encode_max_bytes : ℕ
encode_max_bytes = 32 * 1024

-- `SM_MAX_HISTORY_RESPONSE_BYTES`
abbrev pub max_response : ℕ
max_response = 512 * 1024

-- Where the bytes of the next piece start in its chunk.
abbrev pub piece_off : Pending → Chunk → ℕ
piece_off p c =
    if p.encode_index == 0 && ltb 0 p.first_skip then min p.first_skip (length c.bytes) else 0

-- What a page still has room for. A limit of 0 is none.
abbrev pub clip : ℕ → ℕ → Bytes → Bytes
clip page_bytes encoded bytes =
    if ltb 0 page_bytes then take (page_bytes - encoded) bytes else bytes

abbrev pub piece_bytes : Pending → Chunk → Bytes
piece_bytes p c = clip p.page_bytes p.bytes_encoded (drop (piece_off p c) c.bytes)

abbrev pub next_chunk : Pending → Chunk
next_chunk p = get_or p.chunks p.encode_index no_chunk

abbrev pub placed : Option Place → ℕ → Option ℕ
placed none seq = none
placed (some place) seq = some seq

-- The loop body of `process_history_pending` that encodes a chunk.
unfoldable pub encode_chunk : Pending → Pending
encode_chunk p =
    let c = next_chunk p in
    record p {
      response =
          p.response
          ++ record {
            text = encode (piece_bytes p c);
            timestamp = c.timestamp;
            seq_start = placed p.place (c.seq_start + piece_off p c);
          }
            ∷ [];
      bytes_encoded = p.bytes_encoded + length (piece_bytes p c);
      encode_index = p.encode_index + 1;
    }

-- A limited page has no room left.
unfoldable pub page_full : Pending → Bool
page_full p = ltb 0 p.page_bytes && leb p.page_bytes p.bytes_encoded

-- The loop of `process_history_pending`, with so many chunks to go in this turn and so many bytes done.
unfoldable pub encode_chunks : ℕ → ℕ → Pending → Pending
encode_chunks zero bytes p = p
encode_chunks (suc room) bytes p =
    let next = encode_chunk p in
    let more = encode_chunks room (bytes + (next.bytes_encoded - p.bytes_encoded)) next in
    if leb (length p.chunks) p.encode_index || leb encode_max_bytes bytes
    then p
    else if page_full p
    then p
    else if page_full next
    then record next { encode_index = length p.chunks }
    else more

-- `clients` are the ids of the broker's clients.
unfoldable pub has_id : Bytes → List Bytes → Bool
has_id id [] = false
has_id id (c ∷ cs) = same_text c id || has_id id cs

-- The end of a request: its client, if it is still there, gets the response.
unfoldable pub respond : List Bytes → Desk → Pending → Desk
respond clients d p = record {
  pending = none;
  sent =
      if has_id p.client_id clients
      then d.sent ++ (p.client_id, history p.msg_id p.response p.place p.truncated) ∷ []
      else d.sent;
}

unfoldable pub encoded : List Bytes → Desk → Pending → Desk
encoded clients d p =
    if ltb p.encode_index (length p.chunks)
    then record d { pending = some p }
    else respond clients d p

unfoldable pub process : List Bytes → Desk → Option Pending → Desk
process clients d none = d
process clients d (some p) = encoded clients d (encode_chunks encode_max_chunks 0 p)

-- `process_history_pending`
unfoldable pub process_history_pending : List Bytes → Desk → Desk
process_history_pending clients d = process clients d d.pending

-- So many turns of the event loop.
unfoldable pub turns : List Bytes → ℕ → Desk → Desk
turns clients zero d = d
turns clients (suc n) d = turns clients n (process_history_pending clients d)

-- What `handle_history_request` reads of a message; a missing number is 0, and times are whole ticks.
pub record Request : Type 0 where
  pub id : Option Bytes
  pub since_seq : Option ℤ
  pub max_bytes : ℤ
  pub since_ts : ℕ
  pub last_bytes : ℤ

unfoldable pub id_text : Option Bytes → Bytes
id_text none = []
id_text (some id) = id

-- A sequence number below 0 counts as 0.
unfoldable pub seq_of : ℤ → ℕ
seq_of (negsuc n) = 0
seq_of (pos n) = n

-- The size of a page: `max_bytes` within the limit of a response.
unfoldable pub page_size : ℤ → ℕ
page_size (negsuc n) = max_response
page_size (pos n) = if n == 0 then max_response else if ltb max_response n then max_response else n

-- The copy of a chunk that the request owns.
unfoldable pub owned : Chunk → Chunk
owned c = record c { alloc = length c.bytes }

unfoldable pub answer : Desk → Bytes → Reply → Desk
answer d client r = record d { sent = d.sent ++ (client, r) ∷ [] }

-- The request is accepted, unless its chunks cannot be copied.
unfoldable pub accept : Bool → Desk → Option Bytes → Bytes → Pending → Desk
accept copies d id client p =
    if copies then record d { pending = some p } else answer d client (no_memory id)

-- The cursor path of `handle_history_request`, with the page that `sm_rb_get_since_seq` gave.
unfoldable pub request_page : Bool → Desk → Bytes → Option Bytes → ℕ → Page → Desk
request_page copies d client id max_bytes page =
    let place : Place = record {
      cursor = page.cursor;
      dropped = page.dropped;
      has_more = page.has_more;
    } in
    if length page.chunks == 0
    then answer d client (history (id_text id) [] (some place) false)
    else accept copies d id client (record {
      client_id = copied 32 client;
      msg_id = copied 64 (id_text id);
      chunks = map owned page.chunks;
      encode_index = 0;
      response = [];
      truncated = false;
      place = some place;
      first_skip = page.first_skip;
      page_bytes = max_bytes;
      bytes_encoded = 0;
    })

-- The loop that goes back over the newest chunks as long as they fit: the `start` it ends with.
unfoldable pub newest_start : List Chunk → ℕ → ℕ → ℕ
newest_start chunks zero total = 0
newest_start chunks (suc start) total =
    let size = length (get_or chunks start no_chunk).bytes in
    let earlier = newest_start chunks start (total + size) in
    if leb (total + size) max_response then earlier else suc start

-- The other path, with the chunks that were asked for.
unfoldable pub request_newest : Bool → Desk → Bytes → Option Bytes → List Chunk → Desk
request_newest copies d client id chunks =
    let start = newest_start chunks (length chunks) 0 in
    let truncated = ltb 0 start in
    if length chunks - start == 0
    then answer d client (history (id_text id) [] none truncated)
    else accept copies d id client (record {
      client_id = copied 32 client;
      msg_id = copied 64 (id_text id);
      chunks = map owned (drop start chunks);
      encode_index = 0;
      response = [];
      truncated = truncated;
      place = none;
      first_skip = 0;
      page_bytes = 0;
      bytes_encoded = 0;
    })

-- The chunks that a request without a cursor asks for; `ok` is the success of the query's `malloc`.
unfoldable pub asked_chunks : Bool → RingBuffer → Request → List Chunk
asked_chunks ok rb r =
    let rest = if ltb 0 r.since_ts then get_since ok rb r.since_ts else get_all ok rb in
    elim r.last_bytes [
      | pos n ↦ if ltb 0 n then get_last_n_bytes ok rb n else rest
      | negsuc n ↦ rest
    ]

unfoldable pub request_from : Bool → Bool → RingBuffer → Desk → Bytes → Request → Option ℤ → Desk
request_from ok copies rb d client r (some seq) =
    request_page copies d client r.id (page_size r.max_bytes)
      (get_since_seq ok rb (seq_of seq) (page_size r.max_bytes))
request_from ok copies rb d client r none =
    request_newest copies d client r.id (asked_chunks ok rb r)

unfoldable pub request_idle :
    Bool → Bool → RingBuffer → Desk → Bytes → Request → Option Pending → Desk
request_idle ok copies rb d client r (some p) = answer d client (in_progress r.id)
request_idle ok copies rb d client r none = request_from ok copies rb d client r r.since_seq

-- `handle_history_request` of the client with an id; `copies` is the success of the allocations of the copies.
unfoldable pub handle_history_request : Bool → Bool → RingBuffer → Desk → Bytes → Request → Desk
handle_history_request ok copies rb d client r = request_idle ok copies rb d client r d.pending
