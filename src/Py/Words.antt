-- ===== src/Py/Words.antt =====
-- `str.split()`, `str.rsplit(sep, 1)`, `str.partition(sep)`, `str.upper()`, and numbers in decimal.
use frp_python.Prelude.{
  ltb, leb, nat_beq, if◌then◌else◌, is_nil, ℕ, zero, suc, ◌+◌, ◌-◌, ◌/◌, ◌%◌, ◌&&◌, not, Option,
  none, some, List, [], ◌∷◌, ◌++◌, map,
}
use frp_python.Py.Text.{Text, is_space, split_first}

unfoldable pub words_onto : Text → Text → List Text
words_onto word [] = if is_nil word then [] else word ∷ []
words_onto word (c ∷ s) =
    let rest = words_onto (if is_space c then [] else word ++ c ∷ []) s in
    if is_space c && not (is_nil word) then word ∷ rest else rest

-- `s.split()`
unfoldable pub words : Text → List Text
unfolding words_onto
words s = words_onto [] s

unfoldable pub before_last : ℕ → ℕ → Text → Option (Text × Text) → Option (Text × Text)
before_last sep c s none = if nat_beq c sep then some ([], s) else none
before_last sep c s (some (a, b)) = some (c ∷ a, b)

-- `s.rsplit(sep, 1)` where `sep` occurs, as the two parts.
unfoldable pub split_last : ℕ → Text → Option (Text × Text)
unfolding before_last
split_last sep [] = none
split_last sep (c ∷ s) = before_last sep c s (split_last sep s)

-- `s.partition(sep)`, without the separator
unfoldable pub partition : ℕ → Text → Text × Text
partition sep s = elim (split_first sep s) [ none ↦ (s, []) | some parts ↦ parts ]

abbrev pub upper_char : ℕ → ℕ
upper_char c = if leb b'a' c && leb c b'z' then c - 32 else c

-- `s.upper()`
unfoldable pub upper : Text → Text
upper s = map upper_char s

unfoldable pub decimal_onto : ℕ → ℕ → Text → Text
decimal_onto zero n out = out
decimal_onto (suc fuel) n out =
    let out' = (48 + n % 10) ∷ out in
    let rest = decimal_onto fuel (n / 10) out' in if ltb n 10 then out' else rest

-- `str(n)`
unfoldable pub decimal : ℕ → Text
unfolding decimal_onto
decimal n = decimal_onto (suc n) n []
