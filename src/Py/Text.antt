-- ===== src/Py/Text.antt =====
-- `str.strip`, `str.split`, `str.replace` and `str.lower`, and the same methods of `bytes`.
use frp_python.Prelude.{
  leb, nat_beq, if◌then◌else◌, is_nil, length, All, ℕ, zero, suc, ◌+◌, ◌-◌, ◌≡◌, refl, ap, ◌∙◌,
  Bool, true, false, ◌&&◌, ◌||◌, Option, none, some, List, [], ◌∷◌, ◌++◌, map, arith,
}

abbrev pub Text : Type 0
Text = List ℕ

-- The characters that `strip()` removes, within ASCII.
abbrev pub is_space : ℕ → Bool
is_space c = (leb 9 c && leb c 13) || (leb 28 c && leb c 32)

unfoldable pub starts_with : Text → Text → Bool
starts_with [] s = true
starts_with (p ∷ ps) [] = false
starts_with (p ∷ ps) (c ∷ s) = nat_beq p c && starts_with ps s

unfoldable pub lstrip : (ℕ → Bool) → Text → Text
lstrip p [] = []
lstrip p (c ∷ s) = if p c then lstrip p s else c ∷ s

unfoldable pub rstrip : (ℕ → Bool) → Text → Text
rstrip p [] = []
rstrip p (c ∷ s) = let rest = rstrip p s in if is_nil rest && p c then [] else c ∷ rest

-- `s.strip()` and `s.strip(chars)`
unfoldable pub strip : (ℕ → Bool) → Text → Text
strip p s = rstrip p (lstrip p s)

-- `s.replace(pattern, "")`: the first number counts what is left of a match.
unfoldable pub remove_from : Text → ℕ → Text → Text
remove_from p k [] = []
remove_from p (suc k) (c ∷ s) = remove_from p k s
remove_from p zero (c ∷ s) =
    let hit = starts_with p (c ∷ s) in
    let rest = remove_from p (if hit then length p - 1 else 0) s in if hit then rest else c ∷ rest

unfoldable pub remove : Text → Text → Text
remove p s = remove_from p 0 s

-- `s.split(sep)` for a separator of one character; the result is never empty.
unfoldable pub split_onto : ℕ → Text → Text → List Text
split_onto sep word [] = word ∷ []
split_onto sep word (c ∷ s) =
    let rest = split_onto sep (if nat_beq c sep then [] else word ++ c ∷ []) s in
    if nat_beq c sep then word ∷ rest else rest

unfoldable pub split : ℕ → Text → List Text
split sep s = split_onto sep [] s

-- `s.split(sep, 1)` where `sep` occurs, as the two parts.
unfoldable pub split_first : ℕ → Text → Option (Text × Text)
split_first sep [] = none
split_first sep (c ∷ s) =
    let rest = split_first sep s in
    if nat_beq c sep
    then some ([], s)
    else elim rest [ none ↦ none | some (a, b) ↦ some (c ∷ a, b) ]

-- `sep in s`
abbrev pub has_char : ℕ → Text → Bool
has_char sep [] = false
has_char sep (c ∷ s) = nat_beq c sep || has_char sep s

unfoldable pub lower_char : ℕ → ℕ
lower_char c = if leb b'A' c && leb c b'Z' then c + 32 else c

-- `s.lower()`
unfoldable pub lower : Text → Text
lower s = map lower_char s

pub lstrip_none : (p : ℕ → Bool) (s : Text) → All (λ c. p c ≡ false) s → lstrip p s ≡ s
unfolding lstrip
lstrip_none p [] h = refl
lstrip_none p (c ∷ s) h = ground arith

pub rstrip_none : (p : ℕ → Bool) (s : Text) → All (λ c. p c ≡ false) s → rstrip p s ≡ s
unfolding rstrip
rstrip_none p [] h = refl
rstrip_none p (c ∷ s) h = ground (arith, rstrip_none p s h.1)

pub strip_none : (p : ℕ → Bool) (s : Text) → All (λ c. p c ≡ false) s → strip p s ≡ s
unfolding strip
strip_none p s h = ap (rstrip p) (lstrip_none p s h) ∙ rstrip_none p s h

-- A pattern whose first character does not occur is not found.
pub remove_none : (q : ℕ) (p s : Text) → All (λ c. nat_beq q c ≡ false) s → remove (q ∷ p) s ≡ s
unfolding remove remove_from starts_with
remove_none q p [] h = refl
remove_none q p (c ∷ s) h = ground (arith, remove_none q p s h.1)

-- A single character is removed wherever it stands.
pub remove-append :
    (q : ℕ) (s t : Text) → remove (q ∷ []) (s ++ t) ≡ remove (q ∷ []) s ++ remove (q ∷ []) t
unfolding remove remove_from starts_with
remove-append q [] t = refl
remove-append q (c ∷ s) t = ground (arith, remove-append q s t)

-- The pattern of one character, at that character.
pub remove-cons_self : (q : ℕ) (s : Text) → remove (q ∷ []) (q ∷ s) ≡ remove (q ∷ []) s
unfolding remove remove_from starts_with
remove-cons_self q s = ground arith
