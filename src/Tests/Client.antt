-- ===== src/Tests/Client.antt =====
-- The theorems on client connections at small inputs.
use smolmux.Base.{
  codes, ◌>>=◌, ℕ, suc, ◌≡◌, refl, ap, ◌∙◌, append_assoc, true, false, some, none, Option, [], ◌∷◌,
  ◌++◌, Bytes, take, drop, arith, same_text, ◌==◌, if◌then◌else◌, min,
}
use smolmux.Text.Base64.{encode, decode, is_b64_char, digit, decode_table, valid_from, quads}
use smolmux.Text.Base64.Chars.{AllBase64}
use smolmux.Link.WriteQueue.{Reply, wrote}
use smolmux.Protocol.{
  Json, msg_decode, msg_encode, msg_output, make_msg, add_b64_data, get_string, get_double,
  or_default, is_shallow, stripped,
}
use smolmux.Protocol.Types.{number, lookup_type, type_in}
use smolmux.Protocol.Frames.{
  frame, time_text, is_plain, IsJson, payload, output_line, payload-msg_encode,
  msg_encode-msg_output,
}
use smolmux.Client.Queue.{
  Queue, new_queue, Memory, send, send_shared, coalesced_or, try_coalesce_output, can_merge,
  line_is_output, merged_line, encode_merged, shared_line_new, replace_last, push_or_drop, push,
  is_output_msg, Run, flush,
}
use smolmux.Client.Queue.Inv.{IsValid, new_queue-IsValid}
use smolmux.Client.Queue.Send.{Pushed, own_line, send-Pushed, Shown, send_shared-Shown}
use smolmux.Client.Queue.Flush.{rounds, pending, Flushed, flush-Flushed}
use smolmux.Client.Feed.{got, ended, run, new_reader}
use smolmux.Client.Feed.Lines.{messages}
use smolmux.Client.Feed.Chunks.{Cut, all_bytes, run-Cut, closing_drops}

abbrev whole : Bytes → Option Bytes
whole line = some line

run-Cut_example :
    Cut whole
      ([] ++ all_bytes whole new_reader (got (b'a' ∷ []) ∷ got (b'\n' ∷ b'b' ∷ []) ∷ []))
      (run whole new_reader (got (b'a' ∷ []) ∷ got (b'\n' ∷ b'b' ∷ []) ∷ []))
run-Cut_example = run-Cut whole new_reader (got (b'a' ∷ []) ∷ got (b'\n' ∷ b'b' ∷ []) ∷ [])

closing_drops_example :
    (run whole new_reader (got (b'a' ∷ b'\n' ∷ []) ∷ ended ∷ [])).0
    ≡ take 16 (messages whole [] (b'a' ∷ b'\n' ∷ []))
closing_drops_example = closing_drops whole (b'a' ∷ b'\n' ∷ []) (omega arith)

-- A small stand-in for cJSON: objects with a type and a text, which it prints as cJSON does.
data Toy : Type 0 where
  text : Bytes → Toy
  object : Bytes → Bytes → Toy

abbrev toy_add : Toy → Bytes → Bytes → Toy
toy_add (text s) key value = text s
toy_add (object type payload) key value =
    if same_text key (codes "type") then object value payload else object type value

abbrev toy_get : Toy → Bytes → Option Toy
toy_get (text s) key = none
toy_get (object type payload) key =
    if same_text key (codes "type")
    then some (text type)
    else if same_text key (codes "data")
    then some (text payload)
    else none

abbrev toy_text : Toy → Option Bytes
toy_text (text s) = some s
toy_text (object type payload) = none

abbrev toy_print : Toy → Option Bytes
toy_print (text s) = none
toy_print (object type payload) = some (frame payload (b'7' ∷ []))

abbrev until_quote : Bytes → Bytes
until_quote [] = []
until_quote (c ∷ cs) = let rest = until_quote cs in if c == b'"' then [] else c ∷ rest

abbrev toy : Json
toy = record {
  Item = Toy;
  Number = Bytes;
  nought = [];
  create_object = object [] [];
  add_string = toy_add;
  add_number = λ item key value. item;
  get_object_item = toy_get;
  string_value = toy_text;
  number_value = λ item. none;
  print_unformatted = toy_print;
  parse = λ line. some (object (codes "output") (until_quote (drop 25 line)));
}

until_quote_base64 : (cs rest : Bytes) → AllBase64 cs → until_quote (cs ++ b'"' ∷ rest) ≡ cs
unfolding is_b64_char
until_quote_base64 [] rest h = refl
until_quote_base64 (c ∷ cs) rest h =
    let e : (c == b'"') ≡ false = ground (arith, h.0) in
    rw e (ap (λ l. c ∷ l) (until_quote_base64 cs rest h.1))

toy-IsJson : IsJson toy
unfolding is_plain
toy-IsJson = record {
  digits = λ t. b'7' ∷ [];
  plain = λ t. (refl, tt);
  print_frame = λ text t h. refl;
  parse_frame = λ text t h. (
    _,
    refl,
    refl,
    ap (λ l. some (until_quote l)) (append_assoc text (time_text ++ (b'7' ∷ [])) (b'}' ∷ []))
        ∙ ap some (until_quote_base64 text (codes ",\"timestamp\":7}") h),
  );
}

-- Serial output of one byte as a line.
abbrev output_of : ℕ → Bytes
output_of c = frame (encode (c ∷ [])) (b'7' ∷ []) ++ b'\n' ∷ []

abbrev enough : Memory
enough = record {
  old_line = true;
  new_line = true;
  old_raw = true;
  new_raw = true;
  merged = true;
  text = true;
  line = true;
  shared = true;
}

-- One line of output in the queue.
abbrev one_line : Queue
one_line = (send_shared toy enough new_queue (some (output_of b'x'))).1

one_line-IsValid : IsValid one_line
one_line-IsValid =
    (send_shared-Shown toy toy-IsJson enough refl new_queue new_queue-IsValid
      (output_of b'x')).valid

-- The second line of output is merged with the first.
merges : (send_shared toy enough one_line (some (output_of b'y'))).1.count ≡ 1
unfolding send_shared coalesced_or try_coalesce_output can_merge line_is_output merged_line
    encode_merged shared_line_new replace_last push_or_drop push is_output_msg msg_decode msg_encode
    msg_output make_msg add_b64_data get_string get_double or_default is_shallow stripped number
    lookup_type type_in decode encode is_b64_char digit decode_table valid_from quads
merges = refl

payload-msg_encode_example :
    (msg_encode toy true (msg_output toy true (b'x' ∷ []) []) >>= payload toy) ≡ some (b'x' ∷ [])
payload-msg_encode_example = payload-msg_encode toy toy-IsJson (b'x' ∷ []) [] (omega arith, tt)

send_shared-Shown_example :
    Shown toy one_line (output_of b'y') (send_shared toy enough one_line (some (output_of b'y')))
send_shared-Shown_example =
    send_shared-Shown toy toy-IsJson enough refl one_line one_line-IsValid (output_of b'y')

send-Pushed_example :
    Pushed new_queue
      (own_line (output_line toy toy-IsJson (b'x' ∷ []) []))
      (send toy true new_queue (msg_output toy true (b'x' ∷ []) []))
send-Pushed_example =
    send-Pushed toy true new_queue (msg_output toy true (b'x' ∷ []) [])
      (output_line toy toy-IsJson (b'x' ∷ []) []) new_queue-IsValid
      (msg_encode-msg_output toy toy-IsJson (b'x' ∷ []) []) (omega arith)

-- A kernel that takes at most seven bytes at once.
abbrev socket : ℕ → ℕ → Reply
socket i len = wrote (min 7 len)

flush-Flushed_example :
    (r : Run) × (flush socket (suc (rounds one_line)) 0 one_line ≡ some r)
    × Flushed (pending one_line) r
flush-Flushed_example =
    flush-Flushed socket (λ i len n e. let same : min 7 len ≡ n = cc in omega arith)
      (λ i len e. let same : min 7 len ≡ 0 = cc in omega arith) one_line one_line-IsValid
