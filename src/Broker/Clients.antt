-- ===== src/Broker/Clients.antt =====
-- src/broker.c: the table of the connected clients, and who may write to the device.
pub mod Table
pub mod Inv
pub mod Replace
pub mod Register
use smolmux.Base.{
  codes, ℕ, zero, suc, ◌+◌, ◌-◌, Bool, true, false, not, ◌&&◌, ◌||◌, Option, none, some, List, [],
  ◌∷◌, ◌++◌, Bytes, ltb, leb, ◌==◌, if◌then◌else◌, length, get_or, set, take, copied, same_text,
}
use smolmux.Stream.Expect.{Expects, AddStatus, cancel_client}
use smolmux.Broker.Line.{Line}

-- The parts of `sm_client_t` that the broker's handlers read; `number` stands for the pointer.
pub record Client : Type 0 where
  pub number : ℕ
  pub name : Bytes
  pub role : Bytes
  pub hello_received : Bool
  pub disconnected : Bool
  pub requires_auth : Bool

abbrev pub observer : Bytes
observer = codes "observer"

abbrev pub controller : Bytes
controller = codes "controller"

-- What `sm_client_new` gives.
abbrev pub new_client : ℕ → Client
new_client n = record {
  number = n;
  name = [];
  role = observer;
  hello_received = false;
  disconnected = false;
  requires_auth = false;
}

abbrev pub max_clients : ℕ
max_clients = 32

-- What a client is sent.
pub data Reply : Type 0 where
  hello_again auth_failed invalid_role version_mismatch hello_required : Reply
  not_authorized missing_data too_large invalid_base64 : Reply
  port_suspended port_disconnected not_written : Reply
  observers_cannot another_has_takeover unknown_type : Reply
  ack_takeover ack_release : Reply
  missing_pattern rate_limited : Reply
  expect_refused : AddStatus → Reply
  welcome : Bytes → Reply
  input_echo : Bytes → Bytes → Reply

-- The parts of `sm_broker_t` for its clients. `replies` is what was queued for them, newest first.
pub record Control (E : Type 0) : Type 0 where
  pub clients : List Client
  pub takeover : Option ℕ
  pub next_client_num : ℕ
  pub auth_token : Bytes
  pub expect : Expects E
  pub line : Line
  pub replies : List (ℕ × Reply)

abbrev pub client_at : List Client → ℕ → Client
client_at cs i = get_or cs i (new_client 0)

-- The client behind a pointer, as long as it is connected.
unfoldable pub find : ℕ → List Client → Option Client
find k [] = none
find k (c ∷ cs) = let rest = find k cs in if c.number == k then some c else rest

unfoldable pub update : ℕ → (Client → Client) → List Client → List Client
update k f [] = []
update k f (c ∷ cs) = (if c.number == k then f c else c) ∷ update k f cs

-- The place of a client in the table, or the table's length.
unfoldable pub place : ℕ → List Client → ℕ
place k [] = 0
place k (c ∷ cs) = let rest = place k cs in if c.number == k then 0 else suc rest

-- `clients[i] = clients[client_count - 1]`, and one client less.
unfoldable pub remove_at : ℕ → List Client → List Client
remove_at i cs =
    let last = length cs - 1 in
    if ltb i (length cs) then take last (set cs i (client_at cs last)) else cs

-- Whether an optional number is this one.
unfoldable pub is_holder : ℕ → Option ℕ → Bool
is_holder k none = false
is_holder k (some h) = h == k

-- Whether another than this one is there.
unfoldable pub held_by_other : ℕ → Option ℕ → Bool
held_by_other k none = false
held_by_other k (some h) = not (h == k)

-- `broadcast` to the clients but one, those that have said hello.
unfoldable pub echoes : Reply → ℕ → List Client → List (ℕ × Reply) → List (ℕ × Reply)
echoes r but [] sent = sent
echoes r but (c ∷ cs) sent =
    let skip = c.number == but || not c.hello_received in
    echoes r but cs (if skip then sent else ((c.number, r) ∷ sent))

-- An older connection under the name of the client `k`.
unfoldable pub is_older : ℕ → Bytes → Client → Bool
is_older k name old =
    not (old.number == k)
    && old.hello_received
    && ltb 0 (length old.name)
    && same_text old.name name

module _ {E : Type 0} where
  unfoldable pub reply : ℕ → Reply → Control E → Control E
  reply k r b = record b { replies = (k, r) ∷ b.replies }

  -- `can_send`
  unfoldable pub can_send : Control E → Client → Bool
  can_send b c = not (same_text c.role observer) && not (held_by_other c.number b.takeover)

  -- `sm_broker_register_client`. The flags are the success of the allocation and of `epoll_ctl`.
  unfoldable pub register_client : Bool → Bool → Bool → Control E → Control E
  register_client allocated watched requires_auth b =
      let c = record (new_client b.next_client_num) { requires_auth = requires_auth } in
      let counted = record b { next_client_num = b.next_client_num + 1 } in
      if leb max_clients (length b.clients)
      then b
      else if not (allocated && watched)
      then counted
      else record counted { clients = b.clients ++ c ∷ [] }

  module _ (id_text : ℕ → Bytes) where
    -- `remove_client`; `id_text` is the text of the client's `id`, `client-` and the number.
    unfoldable pub remove_client : Control E → ℕ → Control E
    remove_client b k = record b {
      expect = cancel_client b.expect (id_text k);
      takeover = if is_holder k b.takeover then none else b.takeover;
      clients = remove_at (place k b.clients) b.clients;
    }

    -- The loop of `handle_hello` over the places below `i`, downwards.
    unfoldable pub replace_older : ℕ → Bytes → ℕ → Control E → Control E
    replace_older k name zero b = b
    replace_older k name (suc i) b =
        let old = client_at b.clients i in
        replace_older k name i (if is_older k name old then remove_client b old.number else b)
