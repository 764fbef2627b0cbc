-- ===== src/Access/Ports.antt =====
-- access.py: `_parse_port_ranges` and `check_port`; webadmin/api/config_manager.py:
-- `_validate_allow_ports`. A Python integer is an `ℤ` with its sign.
pub mod Validated
use frp_python.Prelude.{
  leb, if◌then◌else◌, is_nil, ◌≡◌, ◌↔◌, ◌⊎◌, Bool, true, false, ◌&&◌, Option, none, some, List, [],
  ◌∷◌, ◌++◌, arith,
}
use frp_python.Py.Int.{ℤ, pos, negsuc, parse_int}
use frp_python.Py.Text.{Text, split, split_first, has_char, strip, is_space}

-- `a <= b` on integers.
unfoldable pub leb_ℤ : ℤ → ℤ → Bool
leb_ℤ (pos a) (pos b) = leb a b
leb_ℤ (pos a) (negsuc b) = false
leb_ℤ (negsuc a) (pos b) = true
leb_ℤ (negsuc a) (negsuc b) = leb b a

abbrev pub Range : Type 0
Range = ℤ × ℤ

-- One entry, `8080` or `9000-9100`; `none` is a `ValueError`.
unfoldable pub parse_spec : Text → Option Range
parse_spec spec = elim (split_first b'-' spec) [
  | some (start, stop) ↦ elim (parse_int 10 start) [
    | none ↦ none
    | some a ↦ elim (parse_int 10 stop) [ none ↦ none | some b ↦ some (a, b) ]
  ]
  | none ↦ elim (parse_int 10 spec) [ none ↦ none | some p ↦ some (p, p) ]
]

unfoldable pub parse_specs : List Text → Option (List Range)
parse_specs [] = some []
parse_specs (spec ∷ specs) = elim (parse_spec (strip is_space spec)) [
  | none ↦ none
  | some r ↦ elim (parse_specs specs) [ none ↦ none | some rs ↦ some (r ∷ rs) ]
]

-- `AccessControl._parse_port_ranges`
unfoldable pub parse_port_ranges : Text → Option (List Range)
parse_port_ranges s = parse_specs (split b',' s)

unfoldable pub in_ranges : ℤ → List Range → Bool
in_ranges port [] = false
in_ranges port ((start, stop) ∷ rs) =
    if leb_ℤ start port && leb_ℤ port stop then true else in_ranges port rs

-- `AccessControl.check_port`: no list, or an empty one, allows every port.
unfoldable pub check_port : Option (List Range) → ℤ → Bool
check_port none port = true
check_port (some []) port = true
check_port (some (r ∷ rs)) port = in_ranges port (r ∷ rs)

-- Every port that a list of ranges covers, as a proposition.
abbrev pub Covers : ℤ → List Range → Type 0
Covers port [] = ⊥
Covers port ((start, stop) ∷ rs) =
    ((leb_ℤ start port ≡ true) × (leb_ℤ port stop ≡ true)) ⊎ Covers port rs

in_ranges_iff : (port : ℤ) (rs : List Range) → (in_ranges port rs ≡ true) ↔ Covers port rs
unfolding in_ranges
in_ranges_iff port [] = ground arith
in_ranges_iff port ((start, stop) ∷ rs) = ground (arith, in_ranges_iff port rs)

-- With a list that is not empty, a port passes exactly when it lies in one of the ranges.
pub check_port_iff :
    (r : Range) (rs : List Range) (port : ℤ)
    → (check_port (some (r ∷ rs)) port ≡ true) ↔ Covers port (r ∷ rs)
unfolding check_port
check_port_iff r rs port = in_ranges_iff port (r ∷ rs)

-- What an entry can be told: the errors of `_validate_allow_ports`.
pub data PortError : Type 0 where
  not_text : PortError
  bad_segment : Text → PortError
  illegal_segment : Text → PortError
  bad_port : Text → PortError
  illegal_port : Text → PortError

abbrev pub is_port : ℤ → Bool
is_port p = leb_ℤ (pos 1) p && leb_ℤ p (pos 65535)

-- `[p.strip() for p in value.split(",") if p.strip()]`
unfoldable pub entries_of : List Text → List Text
entries_of [] = []
entries_of (p ∷ ps) =
    let rest = entries_of ps in if is_nil (strip is_space p) then rest else strip is_space p ∷ rest

unfoldable pub validate_segment : Text → List Text → List PortError
validate_segment part (a ∷ b ∷ []) = elim (parse_int 10 a) [
  | none ↦ bad_segment part ∷ []
  | some x ↦ elim (parse_int 10 b) [
    | none ↦ bad_segment part ∷ []
    | some y ↦ if is_port x && (is_port y && leb_ℤ x y) then [] else illegal_segment part ∷ []
  ]
]
validate_segment part _ = bad_segment part ∷ []

unfoldable pub validate_part : Text → List PortError
validate_part part =
    if has_char b'-' part
    then validate_segment part (split b'-' part)
    else elim (parse_int 10 part) [
      | none ↦ bad_port part ∷ []
      | some p ↦ if is_port p then [] else illegal_port part ∷ []
    ]

unfoldable pub validate_parts : List Text → List PortError
validate_parts [] = []
validate_parts (part ∷ parts) = validate_part part ++ validate_parts parts

-- `_validate_allow_ports` on a text; the empty text and `None` pass.
unfoldable pub validate_allow_ports : Text → List PortError
validate_allow_ports value =
    if is_nil value then [] else validate_parts (entries_of (split b',' value))
