-- ===== src/Protocol/Roundtrip.antt =====
-- protocol.py: `decode` gives back what `encode` wrote, and waits for the rest of a frame.
use frp_python.Prelude.{
  ltb, ◌==◌, length, take, drop, length-append, take-append, drop-append, length-take, drop-drop, ℕ,
  zero, suc, ◌+◌, ◌^◌, ◌<◌, ◌≡◌, refl, sym, ap, ◌∙◌, ◌≢◌, true, false, none, some, ◌∷◌, ◌++◌,
  append_assoc, arith, nat_eq, string_eq, list_eq,
}
use frp_python.Protocol.Codec.{
  Bytes, Json, got, unpack, decode, decode_payload, magic_byte, version, header_size, uuid_size,
  pack_header, data_field, conn_id_field, conn_id_key, data_key, encode_data, encode_json,
  encode_type, encode, decode_data, decode_json,
}
use frp_python.Protocol.Message.{
  Value, Fields, get, MessageType, type_name, code_of, type_to_code, Message, to_dict, IsPlain,
  code_to_type, type_to_code-type_name, code_to_type-code_of, from_dict-to_dict,
}
use frp_python.Py.Bytes.{to_be, of_be-to_be_four}
use frp_python.Py.Text.{Text}
use frp_python.Py.Uuid.{uuid_bytes, uuid_text}

abbrev head : ℕ → ℕ → Bytes
head code len = magic_byte ∷ version ∷ code ∷ 0 ∷ to_be 4 len

-- A frame with its payload.
abbrev frame : ℕ → Bytes → Bytes
frame code payload = head code (length payload) ++ payload

unpack-head :
    (code len : ℕ) (rest : Bytes)
    → len < 2 ^ 32
    → unpack (head code len ++ rest) ≡ some (record { magic = magic_byte; code = code; len = len })
unfolding unpack to_be
unpack-head code len rest h =
    ap (λ k. some (record { magic = magic_byte; code = code; len = k })) (of_be-to_be_four len h)

drop-head :
    (code len k : ℕ) (rest : Bytes) → drop (header_size + k) (head code len ++ rest) ≡ drop k rest
unfolding to_be
drop-head code len k rest = sym (drop-drop header_size k (head code len ++ rest))

length-head :
    (code len : ℕ) (rest : Bytes) → length (head code len ++ rest) ≡ header_size + length rest
unfolding to_be
length-head code len rest = omega arith

decode-frame :
    (j : Json) (code : ℕ) (payload rest : Bytes)
    → length payload < 2 ^ 32
    → decode j (frame code payload ++ rest) ≡ decode_payload j code payload rest
unfolding decode
decode-frame j code payload rest h =
    ap (decode j) (append_assoc (head code (length payload)) payload rest)
    ∙ rw
        (
          unpack-head code (length payload) (payload ++ rest) h,
          length-head code (length payload) (payload ++ rest),
          drop-head code (length payload) (length payload) (payload ++ rest),
          enough,
          drop-append payload rest,
        )
        (unfold to_be in ap (λ p. decode_payload j code p rest) (take-append payload rest))
  where
    enough : ltb (header_size + length (payload ++ rest)) (header_size + length payload) ≡ false
    enough = ground (arith, length-append payload rest)

-- Of a frame's first bytes that are no header, and of those that are one.
decode_part :
    (j : Json) (code n : ℕ) (payload : Bytes)
    → length payload < 2 ^ 32
    → n < header_size + length payload
    → decode j (take n (frame code payload)) ≡ got none (take n (frame code payload))
unfolding decode unpack to_be
decode_part j code zero payload h k = refl
decode_part j code (suc zero) payload h k = refl
decode_part j code (suc (suc zero)) payload h k = refl
decode_part j code (suc (suc (suc zero))) payload h k = refl
decode_part j code (suc (suc (suc (suc zero)))) payload h k = refl
decode_part j code (suc (suc (suc (suc (suc zero))))) payload h k = refl
decode_part j code (suc (suc (suc (suc (suc (suc zero)))))) payload h k = refl
decode_part j code (suc (suc (suc (suc (suc (suc (suc zero))))))) payload h k = refl
decode_part j code (suc (suc (suc (suc (suc (suc (suc (suc n)))))))) payload h k =
    rw (of_be-to_be_four (length payload) h, short)
  where
    short :
        ltb (length (head code (length payload) ++ take n payload)) (header_size + length payload)
        ≡ true
    short = ground (arith, length-take n payload)

-- What a reader makes of the bytes `bs`: with all of them it returns the message and leaves the
-- rest, and with a proper prefix it waits.
pub record IsFrameOf (j : Json) (bs : Bytes) (m : Message) : Type 0 where
  pub whole : (rest : Bytes) → decode j (bs ++ rest) ≡ got (some m) rest
  pub part : (n : ℕ) → n < length bs → decode j (take n bs) ≡ got none (take n bs)

frame-IsFrameOf :
    (j : Json) (code : ℕ) (payload : Bytes) (m : Message)
    → length payload < 2 ^ 32
    → ((rest : Bytes) → decode_payload j code payload rest ≡ got (some m) rest)
    → IsFrameOf j (frame code payload) m
frame-IsFrameOf j code payload m h dec = record {
  whole = λ rest. decode-frame j code payload rest h ∙ dec rest;
  part = λ n k.
      decode_part j code n payload h (omega (arith, k, length-head code (length payload) payload));
}

-- A DATA message as a sender builds it.
abbrev pub data_message : Text → Bytes → Message
data_message conn_id bs = record {
  type = Value.text (type_name MessageType.data_msg);
  payload =
      Fields.field conn_id_key (Value.text conn_id)
        (Fields.field data_key (Value.raw bs) Fields.end);
}

module _ (u bs : Bytes) (sixteen : length u ≡ 16) where
  take_uuid : take uuid_size (u ++ bs) ≡ u
  take_uuid = rw (← sixteen) (take-append u bs)

  drop_uuid : drop uuid_size (u ++ bs) ≡ bs
  drop_uuid = rw (← sixteen) (drop-append u bs)

  length_uuid : length (u ++ bs) ≡ uuid_size + length bs
  length_uuid = omega (arith, length-append u bs)

  decode_data-append :
      (rest : Bytes) → decode_data (u ++ bs) rest ≡ got (some (data_message (uuid_text u) bs)) rest
  unfolding decode_data
  decode_data-append rest = rw (take_uuid, drop_uuid, length_uuid, enough)
    where
      enough : ltb (uuid_size + length bs) uuid_size ≡ false
      enough = ground arith

-- A DATA message whose connection id is the text of a UUID is encoded, and the frame decodes to
-- the same data under the canonical text of that UUID.
pub encode_data-IsFrameOf :
    (j : Json) (conn_id : Text) (u bs : Bytes)
    → uuid_bytes conn_id ≡ some u
    → length u ≡ 16
    → uuid_size + length bs < 2 ^ 32
    → (out : Bytes) × (encode j (data_message conn_id bs) ≡ some out)
      × IsFrameOf j out (data_message (uuid_text u) bs)
unfolding encode encode_type encode_data conn_id_field data_field get type_to_code pack_header
    decode_payload code_to_type
encode_data-IsFrameOf j conn_id u bs parsed sixteen fits = (
  frame (code_of MessageType.data_msg) (u ++ bs),
  ground (arith, parsed, length_uuid u bs sixteen),
  frame-IsFrameOf j (code_of MessageType.data_msg) (u ++ bs) (data_message (uuid_text u) bs)
      (omega (arith, length_uuid u bs sixteen)) (λ rest. decode_data-append u bs sixteen rest),
)

-- A message of a known type.
abbrev pub typed : MessageType → Fields → Message
typed t fs = record { type = Value.text (type_name t); payload = fs }

name_other :
    (t : MessageType)
    → t ≢ MessageType.data_msg
    → (type_name t == type_name MessageType.data_msg) ≡ false
name_other MessageType.data_msg h = absurd (h refl)
name_other _ h = refl

-- A message of any other known type is encoded as the JSON text of its dictionary, and the frame
-- decodes to the same message. The premises on `j` say that the text of this one dictionary is
-- read back.
pub encode_json-IsFrameOf :
    (j : Json) (t : MessageType) (fs : Fields) (bs : Bytes)
    → t ≢ MessageType.data_msg
    → IsPlain fs
    → j.dumps (to_dict (typed t fs)) ≡ some bs
    → j.loads bs ≡ some (Value.obj (to_dict (typed t fs)))
    → length bs < 2 ^ 32
    → (out : Bytes) × (encode j (typed t fs) ≡ some out) × IsFrameOf j out (typed t fs)
unfolding encode encode_type encode_json pack_header decode_payload decode_json
encode_json-IsFrameOf j t fs bs other plain dumped loaded fits = (
  frame (code_of t) bs,
  ground (arith, type_to_code-type_name t, name_other t other),
  frame-IsFrameOf j (code_of t) bs (typed t fs) fits (λ rest.
      ground
        (arith, code_to_type-code_of t, name_other t other, from_dict-to_dict (typed t fs) plain)),
)
