-- ===== src/Protocol.antt =====
-- src/protocol.c and src/util/json_helpers.c: messages as lines of JSON, over the functions of cJSON.
pub mod Types
pub mod Frames
use smolmux.Base.{
  codes, ℕ, ◌+◌, ◌-◌, Bool, true, false, ◌||◌, Option, none, some, List, [], ◌∷◌, ◌++◌, Bytes, ltb,
  leb, ◌==◌, if◌then◌else◌, length, take, get_or, until_nul, ◌>>=◌, when,
}
use smolmux.Text.Base64.{encode}
use smolmux.Protocol.Types.{MsgType, type_unknown, lookup_type}

-- The calls of cJSON. A double is a value of `Number`; an object that cannot be printed or a text that
-- is no JSON gives `none`.
pub record Json : Type 1 where
  pub Item : Type 0
  pub Number : Type 0
  pub nought : Number
  pub create_object : Item
  pub add_string : Item → Bytes → Bytes → Item
  pub add_number : Item → Bytes → Number → Item
  pub get_object_item : Item → Bytes → Option Item
  pub string_value : Item → Option Bytes
  pub number_value : Item → Option Number
  pub print_unformatted : Item → Option Bytes
  pub parse : Bytes → Option Item

-- The depth check of `sm_msg_decode`; `depth` is the number of opening brackets less that of closing ones.
unfoldable pub is_shallow : ℕ → ℕ → Bytes → Bool
is_shallow opened closed [] = true
is_shallow opened closed (c ∷ cs) =
    let opens = c == b'{' || c == b'[' in
    let closes = c == b'}' || c == b']' in
    let rest =
      is_shallow (if opens then opened + 1 else opened)
        (if opens then closed else if closes then closed + 1 else closed) cs in
    if opens then (if ltb (32 + closed) (opened + 1) then false else rest) else rest

-- The copy of the line that is parsed: up to the first NUL, without a newline at its end.
unfoldable pub stripped : Bytes → Bytes
stripped line =
    until_nul
      (if get_or line (length line - 1) 0 == b'\n' then take (length line - 1) line else line)

module _ (J : Json) where
  -- `sm_json_get_string`
  unfoldable pub get_string : J.Item → Bytes → Option Bytes
  get_string obj key = do item ← J.get_object_item obj key; J.string_value item

  -- The value of an optional number.
  unfoldable pub or_default : Option J.Number → J.Number → J.Number
  or_default none d = d
  or_default (some x) d = x

  -- `sm_json_get_double`
  unfoldable pub get_double : J.Item → Bytes → J.Number → J.Number
  get_double obj key d = or_default (J.get_object_item obj key >>= J.number_value) d

  -- `sm_msg_encode`; the flag is the success of its allocations.
  unfoldable pub msg_encode : Bool → J.Item → Option Bytes
  msg_encode memory msg = do json ← J.print_unformatted msg; when memory (some (json ++ b'\n' ∷ []))

  -- `sm_msg_t` with a root
  pub record Msg : Type 0 where
    pub type : MsgType
    pub root : J.Item

  -- `sm_msg_decode`; `none` is a message without a root.
  unfoldable pub msg_decode : Bool → Bytes → Option Msg
  msg_decode memory [] = none
  msg_decode memory (c ∷ cs) =
      if is_shallow 0 0 (c ∷ cs)
      then when memory (do
        root ← J.parse (stripped (c ∷ cs))
        some (record { type = lookup_type (get_string root (codes "type")); root = root }))
      else none

  -- `make_msg`
  unfoldable pub make_msg : Bytes → J.Item
  make_msg type = J.add_string J.create_object (codes "type") type

  -- `add_b64_data`: without memory for the text the field is empty.
  unfoldable pub add_b64_data : Bool → J.Item → Bytes → Bytes → J.Item
  add_b64_data memory msg key bytes = J.add_string msg key (if memory then encode bytes else [])

  -- `sm_msg_output`
  unfoldable pub msg_output : Bool → Bytes → J.Number → J.Item
  msg_output memory bytes timestamp =
      J.add_number (add_b64_data memory (make_msg (codes "output")) (codes "data") bytes)
        (codes "timestamp") timestamp
