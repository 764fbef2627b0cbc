-- ===== src/Py/Uuid.antt =====
-- `uuid.UUID(hex=...).bytes` and `str(uuid.UUID(bytes=...))`. A UUID is the list of its 16 bytes.
pub mod Roundtrip
use frp_python.Prelude.{
  nat_beq, if◌then◌else◌, is_nil, codes, length, take, drop, ℕ, ◌≡◌, refl, Bool, true, false, ◌&&◌,
  ◌||◌, Option, none, some, List, [], ◌∷◌, ◌++◌,
}
use frp_python.Py.Text.{Text, strip, remove, starts_with, is_space, lstrip, rstrip, remove_from}
use frp_python.Py.Int.{digit_value, digit_step, digits_from}
use frp_python.Py.Bytes.{hexlify, hex_digit, to_be, to_le, rev_onto}

-- The digits of `int(hex, 16)` behind a prefix `0x`, which an underscore may follow.
unfoldable pub hex_tail : Text → Option ℕ
hex_tail s = elim (digits_from 16 (some (0, if is_nil s then false else true)) s) [
  | none ↦ none
  | some (n, after_digit) ↦ if after_digit then some n else none
]

unfoldable pub hex_digits : Text → Option ℕ
hex_digits (a ∷ b ∷ s) =
    if nat_beq a b'0' && (nat_beq b b'x' || nat_beq b b'X')
    then hex_tail s
    else elim (digits_from 16 (some (0, false)) (a ∷ b ∷ s)) [
      | none ↦ none
      | some (n, after_digit) ↦ if after_digit then some n else none
    ]
hex_digits s = elim (digits_from 16 (some (0, false)) s) [
  | none ↦ none
  | some (n, after_digit) ↦ if after_digit then some n else none
]

unfoldable pub drop_plus : Text → Text
drop_plus [] = []
drop_plus (c ∷ s) = if nat_beq c b'+' then s else c ∷ s

abbrev pub is_brace : ℕ → Bool
is_brace c = nat_beq c b'{' || nat_beq c b'}'

-- What is left of the text when the constructor has removed its decoration.
unfoldable pub uuid_hex : Text → Text
uuid_hex s = remove (b'-' ∷ []) (strip is_brace (remove (codes "uuid:") (remove (codes "urn:") s)))

-- `uuid.UUID(s).bytes`; `none` is a `ValueError`. No minus sign and at most 32 digits are left, so
-- the range check of the constructor cannot fail.
unfoldable pub uuid_bytes : Text → Option (List ℕ)
uuid_bytes s =
    let hex = uuid_hex s in
    if nat_beq (length hex) 32
    then elim (hex_digits (drop_plus (strip is_space hex))) [
      | none ↦ none
      | some n ↦ some (to_be 16 n)
    ]
    else none

-- `str(uuid.UUID(bytes=bs))` for 16 bytes
unfoldable pub uuid_text : List ℕ → Text
unfolding hexlify
uuid_text bs =
    hexlify (take 4 bs)
    ++ (b'-' ∷ hexlify (take 2 (drop 4 bs))
        ++ (b'-' ∷ hexlify (take 2 (drop 6 bs))
            ++ (b'-' ∷ hexlify (take 2 (drop 8 bs)) ++ (b'-' ∷ hexlify (drop 10 bs)))))

-- `uuid.UUID(int=0).bytes`
abbrev pub nil_uuid : List ℕ
nil_uuid = 0 ∷ 0 ∷ 0 ∷ 0 ∷ 0 ∷ 0 ∷ 0 ∷ 0 ∷ 0 ∷ 0 ∷ 0 ∷ 0 ∷ 0 ∷ 0 ∷ 0 ∷ 0 ∷ []

test_text :
    uuid_text (0x12 ∷ 0x34 ∷ 0xAB ∷ 0xCD ∷ 1 ∷ 2 ∷ 3 ∷ 4 ∷ 5 ∷ 6 ∷ 7 ∷ 8 ∷ 9 ∷ 10 ∷ 11 ∷ 0xFF ∷ [])
    ≡ codes "1234abcd-0102-0304-0506-0708090a0bff"
unfolding uuid_text
test_text = refl

test_bytes :
    uuid_bytes (codes "{urn:uuid:1234ABCD-0102-0304-0506-0708090A0BFF}")
    ≡ some (0x12 ∷ 0x34 ∷ 0xAB ∷ 0xCD ∷ 1 ∷ 2 ∷ 3 ∷ 4 ∷ 5 ∷ 6 ∷ 7 ∷ 8 ∷ 9 ∷ 10 ∷ 11 ∷ 0xFF ∷ [])
unfolding uuid_bytes uuid_hex hex_digits hex_tail drop_plus strip lstrip rstrip remove remove_from
    starts_with digits_from digit_step digit_value to_be to_le rev_onto
test_bytes = refl
