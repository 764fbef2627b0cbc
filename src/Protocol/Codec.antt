-- ===== src/Protocol/Codec.antt =====
-- protocol.py: `Protocol.encode` and `Protocol.decode`.
use frp_python.Prelude.{
  ltb, leb, if◌then◌else◌, ◌==◌, codes, length, take, drop, ℕ, ◌+◌, ◌*◌, ◌^◌, ◌&&◌, ◌||◌, not,
  Option, none, some, List, [], ◌∷◌, ◌++◌, nat_eq, string_eq, list_eq,
}
use frp_python.Py.Text.{Text}
use frp_python.Py.Int.{digit_value}
use frp_python.Py.Bytes.{to_be, of_be}
use frp_python.Py.Uuid.{uuid_bytes, uuid_text, nil_uuid}
use frp_python.Protocol.Message.{
  Value, Items, Fields, MessageType, Message, get, type_name, type_to_code, code_to_type, to_dict,
  from_dict, Parsed,
}

abbrev pub Bytes : Type 0
Bytes = List ℕ

-- `json.dumps(d).encode("utf-8")`, where `none` is a `TypeError`, and
-- `json.loads(b.decode("utf-8"))`, where `none` is a `JSONDecodeError` or `UnicodeDecodeError`.
pub record Json : Type 0 where
  pub dumps : Fields → Option Bytes
  pub loads : Bytes → Option Value

abbrev pub magic_byte : ℕ
magic_byte = 0xAA

abbrev pub version : ℕ
version = 0x01

abbrev pub header_size : ℕ
header_size = 8

abbrev pub uuid_size : ℕ
uuid_size = 16

-- `struct.pack(">BBBBI", MAGIC, VERSION, code, 0, length)`; `none` is a `struct.error`.
unfoldable pub pack_header : ℕ → ℕ → Option Bytes
pack_header code len =
    if ltb len (2 ^ 32) then some (magic_byte ∷ version ∷ code ∷ 0 ∷ to_be 4 len) else none

-- The value of a hexadecimal digit.
unfoldable pub nibble : ℕ → Option ℕ
nibble c = elim (digit_value c) [ none ↦ none | some d ↦ if ltb d 16 then some d else none ]

pub data HexState : Type 0 where
  between : HexState
  inside : ℕ → HexState

-- `bytes.fromhex(s)`: pairs of digits, with blanks between the pairs; `none` is a `ValueError`.
unfoldable pub from_hex : HexState → Text → Option Bytes
from_hex between [] = some []
from_hex (inside d) [] = none
from_hex between (c ∷ s) =
    let rest = from_hex between s in
    let low : Option Bytes = elim (nibble c) [ none ↦ none | some d ↦ from_hex (inside d) s ] in
    if (leb 9 c && leb c 13) || c == 32 then rest else low
from_hex (inside h) (c ∷ s) =
    let rest = from_hex between s in
    elim (nibble c) [
      | none ↦ none
      | some d ↦ elim rest [ none ↦ none | some bs ↦ some ((h * 16 + d) ∷ bs) ]
    ]

-- A list as bytes: numbers below 256, and the truth values, which are numbers in Python.
unfoldable pub items_bytes : Items → Option Bytes
items_bytes Items.nil = some []
items_bytes (Items.cons (Value.num n) vs) = elim (items_bytes vs) [
  | none ↦ none
  | some bs ↦ if ltb n 256 then some (n ∷ bs) else none
]
items_bytes (Items.cons (Value.bool b) vs) = elim (items_bytes vs) [
  | none ↦ none
  | some bs ↦ some ((if b then 1 else 0) ∷ bs)
]
items_bytes (Items.cons v vs) = none

-- The data of a DATA message, as it is copied to the buffer.
unfoldable pub data_field : Option Value → Option Bytes
data_field none = some []
data_field (some (Value.raw bs)) = some bs
data_field (some (Value.text s)) = from_hex HexState.between s
data_field (some (Value.arr vs)) = items_bytes vs
data_field (some (Value.obj Fields.end)) = some []
data_field (some v) = none

-- The connection id of a DATA message; `uuid.UUID` raises a `TypeError` for `None` and `bytes`.
unfoldable pub conn_id_field : Option Value → Option Bytes
conn_id_field none = some nil_uuid
conn_id_field (some (Value.text s)) = elim (uuid_bytes s) [ none ↦ some nil_uuid | some u ↦ some u ]
conn_id_field (some Value.null) = none
conn_id_field (some (Value.raw bs)) = none
conn_id_field (some v) = some nil_uuid

abbrev pub conn_id_key : Text
conn_id_key = codes "conn_id"

abbrev pub data_key : Text
data_key = codes "data"

unfoldable pub encode_data : ℕ → Fields → Option Bytes
encode_data code fs = elim (conn_id_field (get conn_id_key fs)) [
  | none ↦ none
  | some u ↦ elim (data_field (get data_key fs)) [
    | none ↦ none
    | some bs ↦ elim (pack_header code (uuid_size + length bs)) [
      | none ↦ none
      | some head ↦ some (head ++ (u ++ bs))
    ]
  ]
]

unfoldable pub encode_json : Json → ℕ → Message → Option Bytes
encode_json j code m = elim (j.dumps (to_dict m)) [
  | none ↦ none
  | some bs ↦ elim (pack_header code (length bs)) [ none ↦ none | some head ↦ some (head ++ bs) ]
]

unfoldable pub encode_type : Json → Text → Message → Option Bytes
encode_type j t m = elim (type_to_code t) [
  | none ↦ none
  | some code ↦
      if t == type_name MessageType.data_msg
      then encode_data code m.payload
      else encode_json j code m
]

-- `Protocol.encode`; `none` is an exception.
unfoldable pub encode : Json → Message → Option Bytes
encode j m = elim m.type [ Value.text t ↦ encode_type j t m | _ ↦ none ]

-- How `Protocol.decode` can end: it returns, or an exception that it does not catch gets out.
pub data Decoded : Type 0 where
  got : Option Message → Bytes → Decoded
  raised : Decoded

pub record Header : Type 0 where
  pub magic : ℕ
  pub code : ℕ
  pub len : ℕ

-- `struct.unpack(">BBBBI", data[:8])`, or `none` for less than 8 bytes. The version and the flags
-- are not looked at.
unfoldable pub unpack : Bytes → Option Header
unpack (m ∷ v ∷ c ∷ f ∷ a ∷ b ∷ d ∷ e ∷ rest) =
    some (record { magic = m; code = c; len = of_be (a ∷ b ∷ d ∷ e ∷ []) })
unpack _ = none

unfoldable pub decode_data : Bytes → Bytes → Decoded
decode_data payload remaining =
    if ltb (length payload) uuid_size
    then got none remaining
    else got
        (some (record {
          type = Value.text (type_name MessageType.data_msg);
          payload =
              Fields.field conn_id_key (Value.text (uuid_text (take uuid_size payload)))
                (Fields.field data_key (Value.raw (drop uuid_size payload)) Fields.end);
        }))
        remaining

unfoldable pub decode_json : Json → Bytes → Bytes → Decoded
decode_json j payload remaining = elim (j.loads payload) [
  | none ↦ got none remaining
  | some v ↦ elim (from_dict v) [
    | Parsed.message m ↦ got (some m) remaining
    | Parsed.key_error ↦ got none remaining
    | Parsed.type_error ↦ raised
  ]
]

unfoldable pub decode_payload : Json → ℕ → Bytes → Bytes → Decoded
decode_payload j code payload remaining = elim (code_to_type code) [
  | none ↦ got none remaining
  | some t ↦
      if t == type_name MessageType.data_msg
      then decode_data payload remaining
      else decode_json j payload remaining
]

-- The rest of `decode`, by what the header says.
unfoldable pub decode_at : Json → Bytes → Option Header → Decoded
decode_at j buf none = got none buf
decode_at j buf (some h) =
    if not (h.magic == magic_byte)
    then got none (drop 1 buf)
    else if ltb (length buf) (header_size + h.len)
    then got none buf
    else decode_payload j h.code (take h.len (drop header_size buf))
        (drop (header_size + h.len) buf)

-- `Protocol.decode`
unfoldable pub decode : Json → Bytes → Decoded
unfolding decode_at
decode j buf = decode_at j buf (unpack buf)
