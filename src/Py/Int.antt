-- ===== src/Py/Int.antt =====
-- `int(text, base)`: blanks around, a sign, digits with single underscores between them.
-- A prefix `0x` under base 16 is read in `Uuid`, the only use of that base.
use frp_python.Prelude.{
  ltb, leb, nat_beq, if◌then◌else◌, ℕ, zero, suc, ◌+◌, ◌-◌, ◌*◌, Bool, true, false, ◌&&◌, Option,
  none, some, [], ◌∷◌,
}
use frp_python.Py.Text.{Text, is_space, strip}

-- The value of a digit or letter, below 36.
unfoldable pub digit_value : ℕ → Option ℕ
digit_value c =
    if leb b'0' c && leb c b'9'
    then some (c - 48)
    else if leb b'a' c && leb c b'z'
    then some (c - 87)
    else if leb b'A' c && leb c b'Z'
    then some (c - 55)
    else none

-- The number so far, and whether the last character was a digit.
abbrev pub DigitState : Type 0
DigitState = Option (ℕ × Bool)

unfoldable pub digit_step : ℕ → DigitState → ℕ → DigitState
digit_step base none c = none
digit_step base (some (n, after_digit)) c =
    if nat_beq c b'_' then if after_digit then some (n, false) else none else elim (digit_value c) [
      | none ↦ none
      | some d ↦ if ltb d base then some (n * base + d, true) else none
    ]

unfoldable pub digits_from : ℕ → DigitState → Text → DigitState
digits_from base st [] = st
digits_from base st (c ∷ s) = digits_from base (digit_step base st c) s

unfoldable pub digits : ℕ → Text → Option ℕ
digits base s = elim (digits_from base (some (0, false)) s) [
  | none ↦ none
  | some (n, after_digit) ↦ if after_digit then some n else none
]

-- A Python integer; `negsuc n` is -(n + 1).
pub data ℤ : Type 0 where
  pos : ℕ → ℤ
  negsuc : ℕ → ℤ

abbrev pub negate : ℕ → ℤ
negate zero = pos 0
negate (suc n) = negsuc n

unfoldable pub signed : ℕ → Text → Option ℤ
signed base [] = none
signed base (c ∷ s) =
    if nat_beq c b'-'
    then elim (digits base s) [ none ↦ none | some n ↦ some (negate n) ]
    else if nat_beq c b'+'
    then elim (digits base s) [ none ↦ none | some n ↦ some (pos n) ]
    else elim (digits base (c ∷ s)) [ none ↦ none | some n ↦ some (pos n) ]

-- `int(s, base)`; `none` is a `ValueError`.
unfoldable pub parse_int : ℕ → Text → Option ℤ
parse_int base s = signed base (strip is_space s)
