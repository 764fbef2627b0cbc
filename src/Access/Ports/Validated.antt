-- ===== src/Access/Ports/Validated.antt =====
-- What passes `_validate_allow_ports` in the web administration, against what
-- `_parse_port_ranges` takes when the server starts.
use frp_python.Prelude.{
  nat_beq, Bool-cases, Option-cases, is_nil, All, any, ℕ, ◌≡◌, refl, sym, ap, ◌∙◌, ◌≢◌, inl, inr,
  Bool, true, false, none, some, List, [], ◌∷◌, ◌++◌, append-nil, append_assoc, arith,
}
use frp_python.Access.Ports.{
  PortError, leb_ℤ, Range, is_port, parse_spec, validate_segment, validate_part, parse_specs,
  parse_port_ranges, entries_of, validate_parts, validate_allow_ports,
}
use frp_python.Py.Int.{pos, negsuc, ℤ, parse_int, signed}
use frp_python.Py.Text.{
  Text, split_onto, split_first, has_char, split, is_space, strip, lstrip, rstrip,
}

-- A range of ports, in order.
abbrev pub IsPortRange : Range → Type 0
IsPortRange r = (is_port r.0 ≡ true) × (is_port r.1 ≡ true) × (leb_ℤ r.0 r.1 ≡ true)

split_onto_ne_nil : (sep : ℕ) (word s : Text) → split_onto sep word s ≢ []
unfolding split_onto
split_onto_ne_nil sep word [] e = cc
split_onto_ne_nil sep word (c ∷ s) e = ground (arith, split_onto_ne_nil sep (word ++ c ∷ []) s)

split_onto_one : (sep : ℕ) (word s b : Text) → split_onto sep word s ≡ b ∷ [] → b ≡ word ++ s
unfolding split_onto
split_onto_one sep word [] b e = cc (append-nil word)
split_onto_one sep word (c ∷ s) b e = ground (
  arith,
  split_onto_ne_nil sep [] s,
  split_onto_one sep (word ++ c ∷ []) s b,
  append_assoc word (c ∷ []) s,
)

-- A text in two parts is cut at its first separator.
split_onto_two :
    (sep : ℕ) (word s a b : Text)
    → split_onto sep word s ≡ a ∷ b ∷ []
    → (front : Text) × (split_first sep s ≡ some (front, b)) × (a ≡ word ++ front)
unfolding split_onto split_first
split_onto_two sep word [] a b e = cc
split_onto_two sep word (c ∷ s) a b e = elim (Bool-cases (nat_beq c sep)) [
  | inl here ↦ ([], ground (arith, split_onto_one sep [] s b), ground (arith, append-nil word))
  | inr further ↦
      let (front, p, q) = split_onto_two sep (word ++ c ∷ []) s a b (rw further at e) in
      (c ∷ front, rw (further, p), q ∙ append_assoc word (c ∷ []) front)
]

split_first-none : (sep : ℕ) (s : Text) → has_char sep s ≡ false → split_first sep s ≡ none
unfolding split_first
split_first-none sep [] h = refl
split_first-none sep (c ∷ s) h = ground (arith, split_first-none sep s)

split_two : (part a b : Text) → split b'-' part ≡ a ∷ b ∷ [] → split_first b'-' part ≡ some (a, b)
unfolding split
split_two part a b e =
    let (front, p, q) = split_onto_two b'-' [] part a b e in p ∙ ap (λ x. some (x, b)) (sym q)

validate_segment-parses :
    (part : Text) (segs : List Text)
    → validate_segment part segs ≡ []
    → (a : Text) × (b : Text) × (x : ℤ) × (y : ℤ) × (segs ≡ a ∷ b ∷ [])
      × (parse_int 10 a ≡ some x)
      × (parse_int 10 b ≡ some y)
      × IsPortRange (x, y)
unfolding validate_segment
validate_segment-parses part [] e = cc
validate_segment-parses part (a ∷ []) e = cc
validate_segment-parses part (a ∷ b ∷ []) e = elim (Option-cases (parse_int 10 a)) [
  | inl bad ↦ ground arith
  | inr (x, p) ↦ elim (Option-cases (parse_int 10 b)) [
    | inl bad ↦ ground arith
    | inr (y, q) ↦ (a, b, x, y, refl, p, q, ground arith)
  ]
]
validate_segment-parses part (a ∷ b ∷ c ∷ segs) e = cc

leb_ℤ_refl : (x : ℤ) → leb_ℤ x x ≡ true
unfolding leb_ℤ
leb_ℤ_refl (pos n) = ground arith
leb_ℤ_refl (negsuc n) = ground arith

validate_part-parses :
    (part : Text)
    → validate_part part ≡ []
    → (r : Range) × (parse_spec part ≡ some r) × IsPortRange r
unfolding validate_part parse_spec
validate_part-parses part e = elim (Bool-cases (has_char b'-' part)) [
  | inl dash ↦
      let (a, b, x, y, p, q, r, k) =
        validate_segment-parses part (split b'-' part) (rw dash at e) in
      ((x, y), ground (arith, split_two part a b p), k)
  | inr plain ↦ elim (Option-cases (parse_int 10 part)) [
    | inl bad ↦ ground arith
    | inr (x, p) ↦
        ((x, x), ground (arith, split_first-none b'-' part plain), ground (arith, leb_ℤ_refl x))
  ]
]

append-eq-nil : (xs ys : List PortError) → xs ++ ys ≡ [] → (xs ≡ []) × (ys ≡ [])
append-eq-nil [] ys e = (refl, e)
append-eq-nil (x ∷ xs) ys e = cc

abbrev pub IsFilled : Text → Type 0
IsFilled p = is_nil (strip is_space p) ≡ false

specs-parse :
    (ps : List Text)
    → All IsFilled ps
    → validate_parts (entries_of ps) ≡ []
    → (rs : List Range) × (parse_specs ps ≡ some rs) × All IsPortRange rs
unfolding entries_of validate_parts parse_specs
specs-parse [] h e = ([], refl, tt)
specs-parse (p ∷ ps) h e =
    let e' : validate_part (strip is_space p) ++ validate_parts (entries_of ps) ≡ [] =
      rw h.0 at e in
    let (here, later) = append-eq-nil _ _ e' in
    let (r, q, k) = validate_part-parses (strip is_space p) here in
    let (rs, q', k') = specs-parse ps h.1 later in (r ∷ rs, ground (arith, q, q'), (k, k'))

blank_text : (value : Text) → is_nil value ≡ true → All IsFilled (split b',' value) → ⊥
unfolding split split_onto strip lstrip rstrip
blank_text [] e h = cc (h.0)
blank_text (c ∷ s) e h = cc

-- A port list that the web administration accepts, and in which no entry between commas is blank,
-- is parsed by the server, and each of its ranges is in order and within 1 and 65535.
validate-parses :
    (value : Text)
    → All IsFilled (split b',' value)
    → validate_allow_ports value ≡ []
    → (rs : List Range) × (parse_port_ranges value ≡ some rs) × All IsPortRange rs
unfolding validate_allow_ports parse_port_ranges
validate-parses value h e = elim (Bool-cases (is_nil value)) [
  | inl empty ↦ absurd (blank_text value empty h)
  | inr some_text ↦ specs-parse (split b',' value) h (rw some_text at e)
]

abbrev is_blank : Text → Bool
is_blank p = is_nil (strip is_space p)

parse_spec-nil : (s : Text) → is_nil s ≡ true → parse_spec s ≡ none
unfolding parse_spec split_first parse_int strip lstrip rstrip signed
parse_spec-nil [] e = refl
parse_spec-nil (c ∷ s) e = cc

parse_specs-blank : (ps : List Text) → any is_blank ps ≡ true → parse_specs ps ≡ none
unfolding parse_specs
parse_specs-blank [] h = cc
parse_specs-blank (p ∷ ps) h =
    ground (arith, parse_spec-nil (strip is_space p), parse_specs-blank ps)

-- A port list with a blank entry between commas, such as one that ends in a comma, makes the
-- server's parser raise, whether the web administration accepts the list or not.
parse_port_ranges-blank :
    (value : Text) → any is_blank (split b',' value) ≡ true → parse_port_ranges value ≡ none
unfolding parse_port_ranges
parse_port_ranges-blank value h = parse_specs-blank (split b',' value) h
