-- ===== src/Py/Lines.antt =====
-- Lines that end in a carriage return and a line feed: `s.split(b"\r\n")`, and `s.find(b"\r\n")` as
-- the line up to there and what follows.
use frp_python.Prelude.{
  nat_beq, if◌then◌else◌, Bool-cases, All, ℕ, ◌≡◌, refl, ap, ◌∙◌, inl, inr, false, ◌&&◌, List, [],
  ◌∷◌, ◌++◌, arith,
}
use frp_python.Py.Text.{Text}

abbrev pub cr : ℕ
cr = 13

abbrev pub lf : ℕ
lf = 10

abbrev pub crlf : Text
crlf = cr ∷ lf ∷ []

-- The lines of a text with one more character in front.
unfoldable pub glue : ℕ → List Text → List Text
glue c [] = (c ∷ []) ∷ []
glue c ([] ∷ ls) = (c ∷ []) ∷ ls
glue c ((d ∷ l) ∷ ls) = if nat_beq c cr && nat_beq d lf then [] ∷ l ∷ ls else (c ∷ d ∷ l) ∷ ls

-- `s.split(b"\r\n")`; the result is never empty.
unfoldable pub split_crlf : Text → List Text
unfolding glue
split_crlf [] = [] ∷ []
split_crlf (c ∷ s) = glue c (split_crlf s)

-- Each line with its end.
unfoldable pub unlines : List Text → Text
unlines [] = []
unlines (l ∷ ls) = l ++ (cr ∷ lf ∷ unlines ls)

-- A line without a carriage return.
abbrev pub IsLine : Text → Type 0
IsLine l = All (λ c. nat_beq c cr ≡ false) l

glue-other :
    (c : ℕ) (l : Text) (ls : List Text) → nat_beq c cr ≡ false → glue c (l ∷ ls) ≡ (c ∷ l) ∷ ls
unfolding glue
glue-other c [] ls h = refl
glue-other c (d ∷ l) ls h = ground arith

glue_end : (l : Text) (ls : List Text) → glue cr (glue lf (l ∷ ls)) ≡ [] ∷ l ∷ ls
unfolding glue
glue_end [] ls = refl
glue_end (d ∷ l) ls = refl

glue-cons : (c : ℕ) (ls : List Text) → (l : Text) × (rest : List Text) × (glue c ls ≡ l ∷ rest)
unfolding glue
glue-cons c [] = (c ∷ [], [], refl)
glue-cons c ([] ∷ ls) = (c ∷ [], ls, refl)
glue-cons c ((d ∷ l) ∷ ls) = elim (Bool-cases (nat_beq c cr && nat_beq d lf)) [
  | inl both ↦ ([], l ∷ ls, rw both refl)
  | inr other ↦ (c ∷ d ∷ l, ls, rw other refl)
]

split_crlf-cons : (s : Text) → (l : Text) × (rest : List Text) × (split_crlf s ≡ l ∷ rest)
unfolding split_crlf
split_crlf-cons [] = ([], [], refl)
split_crlf-cons (c ∷ s) = glue-cons c (split_crlf s)

pub split_crlf-line :
    (l rest : Text) → IsLine l → split_crlf (l ++ (cr ∷ lf ∷ rest)) ≡ l ∷ split_crlf rest
unfolding split_crlf
split_crlf-line [] rest h = let (l, ls, e) = split_crlf-cons rest in rw e (glue_end l ls)
split_crlf-line (c ∷ l) rest h =
    rw (split_crlf-line l rest h.1) (glue-other c l (split_crlf rest) (h.0))

pub split_crlf-unlines : (ls : List Text) → All IsLine ls → split_crlf (unlines ls) ≡ ls ++ [] ∷ []
unfolding unlines split_crlf
split_crlf-unlines [] h = refl
split_crlf-unlines (l ∷ ls) h =
    split_crlf-line l (unlines ls) h.0 ∙ ap (λ t. l ∷ t) (split_crlf-unlines ls h.1)
