-- ===== src/Protocol/Tests.antt =====
-- protocol.py at concrete inputs. The JSON codec of the tests covers dictionaries with one text.
use frp_python.Prelude.{
  nat_beq, if◌then◌else◌, codes, length, take, drop, take-append-drop, ℕ, ◌≡◌, refl, subst, Option,
  none, some, List, [], ◌∷◌, ◌++◌, append-nil, arith,
}
use frp_python.Protocol.Codec.{
  Bytes, Json, encode, pack_header, data_field, conn_id_field, encode_data, encode_json,
  encode_type,
}
use frp_python.Protocol.Message.{
  MessageType, Value, Fields, Message, get, without, to_dict, type_to_code,
}
use frp_python.Protocol.Roundtrip.{
  IsFrameOf, data_message, encode_data-IsFrameOf, typed, encode_json-IsFrameOf,
}
use frp_python.Protocol.Stream.{
  drain, drain_all, receive, Sent, wire, receive-eq-messages, drain-eq-drain_all,
}
use frp_python.Py.Bytes.{rev_onto, to_le, to_be}
use frp_python.Py.Int.{digit_value, digit_step, digits_from}
use frp_python.Py.Text.{starts_with, lstrip, rstrip, strip, remove_from, remove}
use frp_python.Py.Uuid.{hex_tail, hex_digits, drop_plus, uuid_hex, uuid_bytes, uuid_text}
use frp_python.Py.Uuid.Roundtrip.{uuid_bytes-uuid_text}

abbrev one_text : Fields → Option Bytes
one_text (Fields.field k (Value.text t) Fields.end) =
    some (codes "{\"" ++ (k ++ (codes "\": \"" ++ (t ++ codes "\"}"))))
one_text _ = none

-- The text up to the next quotation mark, and what stands behind that.
abbrev quoted : Bytes → Bytes × Bytes
quoted [] = ([], [])
quoted (c ∷ s) = let rest = quoted s in if nat_beq c 34 then ([], s) else (c ∷ rest.0, rest.1)

abbrev read_one : Bytes → Option Value
read_one s =
    let (k, rest) = quoted (drop 2 s) in
    let (t, left) = quoted (drop 3 rest) in
    if nat_beq (length left) 1
    then some (Value.obj (Fields.field k (Value.text t) Fields.end))
    else none

abbrev flat_json : Json
flat_json = record { dumps = one_text; loads = read_one }

abbrev ids : Bytes
ids = 1 ∷ 2 ∷ 3 ∷ 4 ∷ 5 ∷ 6 ∷ 7 ∷ 8 ∷ 9 ∷ 10 ∷ 11 ∷ 12 ∷ 13 ∷ 14 ∷ 15 ∷ 255 ∷ []

abbrev conn : List ℕ
conn = codes "{01020304-0506-0708-090A-0B0C0D0E0FFF}"

abbrev hello : Bytes
hello = 104 ∷ 105 ∷ []

conn_parsed : uuid_bytes conn ≡ some ids
unfolding uuid_bytes uuid_hex hex_digits hex_tail drop_plus strip lstrip rstrip remove remove_from
    starts_with digits_from digit_step digit_value to_be to_le rev_onto
conn_parsed = refl

encode_data-IsFrameOf_example :
    (out : Bytes) × (encode flat_json (data_message conn hello) ≡ some out)
    × IsFrameOf flat_json out (data_message (uuid_text ids) hello)
encode_data-IsFrameOf_example =
    encode_data-IsFrameOf flat_json conn ids hello conn_parsed refl (omega arith)

abbrev ping : Message
ping = typed MessageType.ping Fields.end

abbrev ping_text : Bytes
ping_text = codes "{\"type\": \"ping\"}"

encode_json-IsFrameOf_example :
    (out : Bytes) × (encode flat_json ping ≡ some out) × IsFrameOf flat_json out ping
encode_json-IsFrameOf_example =
    encode_json-IsFrameOf flat_json MessageType.ping Fields.end ping_text (cc)
      (unfold get in record { no_type = refl; no_msg_type = refl; no_self = refl })
      (unfold to_dict get without in refl) (unfold to_dict get without in refl) (omega arith)

abbrev hello_bytes : Bytes
hello_bytes = 0xAA ∷ 1 ∷ 10 ∷ 0 ∷ 0 ∷ 0 ∷ 0 ∷ 18 ∷ ids ++ hello

abbrev ping_bytes : Bytes
ping_bytes = 0xAA ∷ 1 ∷ 6 ∷ 0 ∷ 0 ∷ 0 ∷ 0 ∷ 16 ∷ ping_text

-- A frame that is known to be what `encode` writes, as concrete bytes.
as_bytes :
    (m m' : Message) (bs : Bytes)
    → encode flat_json m ≡ some bs
    → (out : Bytes) × (encode flat_json m ≡ some out) × IsFrameOf flat_json out m'
    → IsFrameOf flat_json bs m'
as_bytes m m' bs e (out, f, frame) =
    let same : out ≡ bs = cc in subst (λ b. IsFrameOf flat_json b m') same frame

encode-hello : encode flat_json (data_message conn hello) ≡ some hello_bytes
unfolding encode encode_type encode_data conn_id_field data_field get type_to_code pack_header
    uuid_bytes uuid_hex hex_digits hex_tail drop_plus strip lstrip rstrip remove remove_from
    starts_with digits_from digit_step digit_value to_be to_le rev_onto
encode-hello = refl

hello-IsFrameOf : IsFrameOf flat_json hello_bytes (data_message (uuid_text ids) hello)
hello-IsFrameOf =
    as_bytes (data_message conn hello) (data_message (uuid_text ids) hello) hello_bytes encode-hello
      (encode_data-IsFrameOf flat_json conn ids hello conn_parsed refl (omega arith))

ping-IsFrameOf : IsFrameOf flat_json ping_bytes ping
ping-IsFrameOf =
    as_bytes ping ping ping_bytes
      (unfold encode encode_type encode_json type_to_code pack_header to_be get to_dict without in
        refl)
      (encode_json-IsFrameOf flat_json MessageType.ping Fields.end ping_text (cc)
        (unfold get in record { no_type = refl; no_msg_type = refl; no_self = refl })
        (unfold to_dict get without in refl) (unfold to_dict get without in refl) (omega arith))

abbrev sent : List Sent
sent = (hello_bytes, data_message (uuid_text ids) hello) ∷ (ping_bytes, ping) ∷ []

-- Two frames that arrive in three reads, the first of five bytes and the last empty.
abbrev reads : List Bytes
reads = take 5 (wire sent) ∷ drop 5 (wire sent) ∷ [] ∷ []

receive-eq-messages_example :
    receive flat_json (some []) reads ≡ (data_message (uuid_text ids) hello ∷ ping ∷ [], some [])
receive-eq-messages_example =
    receive-eq-messages flat_json reads sent (hello-IsFrameOf, (ping-IsFrameOf, tt))
      (rw (append-nil (drop 5 (wire sent))) (take-append-drop 5 (wire sent)))

drain-eq-drain_all_example : drain flat_json 100 ping_text ≡ drain_all flat_json ping_text
drain-eq-drain_all_example = drain-eq-drain_all flat_json 100 ping_text (omega arith)

uuid_bytes-uuid_text_example : uuid_bytes (uuid_text ids) ≡ some ids
uuid_bytes-uuid_text_example = uuid_bytes-uuid_text ids (omega arith) refl
