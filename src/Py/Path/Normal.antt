-- ===== src/Py/Path/Normal.antt =====
-- `os.path.abspath`: what its results are made of.
use frp_python.Prelude.{
  nat_beq, if◌then◌else◌, ◌==◌, Bool-cases, is_nil, codes, All, ℕ, ◌≡◌, refl, ◌⊎◌, inl, inr, Bool,
  true, false, ◌&&◌, ◌||◌, not, List, [], ◌∷◌, ◌++◌, reverse, reverse_aux, arith, nat_eq, string_eq,
  list_eq,
}
use frp_python.Py.Path.{
  abspath, join_parts, is_absolute, join, initial_slashes, dot, dot_dot, push_part, push_parts,
  normpath, ends_with_slash,
}
use frp_python.Py.Text.{Text, starts_with, split_onto, split, has_char}

-- A part that stays in a path: neither empty, `.` nor `..`, and without a slash.
pub record IsPart (c : Text) : Type 0 where
  pub not_empty : is_nil c ≡ false
  pub not_dot : (c == dot) ≡ false
  pub not_dot_dot : (c == dot_dot) ≡ false
  pub no_slash : has_char b'/' c ≡ false

abbrev pub IsRootHead : Text → Type 0
IsRootHead head = (head ≡ codes "/") ⊎ (head ≡ codes "//")

-- An absolute path of such parts only.
pub record IsNormal (p : Text) : Type 0 where
  pub head : Text
  pub parts : List Text
  pub is_head : IsRootHead head
  pub are_parts : All IsPart parts
  pub path_eq : p ≡ head ++ join_parts parts

has_char-append : (c : ℕ) (s t : Text) → has_char c (s ++ t) ≡ (has_char c s || has_char c t)
has_char-append c [] t = refl
has_char-append c (d ∷ s) t = ground (arith, has_char-append c s t)

split_onto-no_sep :
    (sep : ℕ) (word s : Text)
    → has_char sep word ≡ false
    → All (λ part. has_char sep part ≡ false) (split_onto sep word s)
unfolding split_onto
split_onto-no_sep sep word [] h = (h, tt)
split_onto-no_sep sep word (c ∷ s) h = elim (Bool-cases (nat_beq c sep)) [
  | inl cut ↦ rw cut (h, split_onto-no_sep sep [] s refl)
  | inr on ↦
      rw on (
        split_onto-no_sep sep (word ++ c ∷ []) s
          (ground (arith, has_char-append sep word (c ∷ []))))
]

split-no_sep : (sep : ℕ) (s : Text) → All (λ part. has_char sep part ≡ false) (split sep s)
unfolding split
split-no_sep sep s = split_onto-no_sep sep [] s refl

push_part-parts :
    (part : Text) (stack : List Text)
    → has_char b'/' part ≡ false
    → All IsPart stack
    → All IsPart (push_part true part stack)
unfolding push_part
push_part-parts part [] h k = ground arith
push_part-parts part (top ∷ stack) h k = ground arith

All-reverse : (xs : List Text) → All IsPart xs → All IsPart (reverse xs)
All-reverse xs h = onto xs [] h tt
  where
    onto : (xs ys : List Text) → All IsPart xs → All IsPart ys → All IsPart (reverse_aux xs ys)
    onto [] ys h k = k
    onto (x ∷ xs) ys h k = onto xs (x ∷ ys) h.1 (h.0, k)

push_parts-parts :
    (parts stack : List Text)
    → All (λ part. has_char b'/' part ≡ false) parts
    → All IsPart stack
    → All IsPart (push_parts true parts stack)
unfolding push_parts
push_parts-parts [] stack h k = All-reverse stack k
push_parts-parts (part ∷ parts) stack h k =
    push_parts-parts parts (push_part true part stack) h.1 (push_part-parts part stack h.0 k)

initial_slashes-IsRootHead : (s : Text) → is_absolute s ≡ true → IsRootHead (initial_slashes s)
initial_slashes-IsRootHead s h =
    elim (Bool-cases (starts_with (codes "//") s && not (starts_with (codes "///") s))) [
      | inl two ↦ rw two (inr refl)
      | inr other ↦ rw other (rw h (inl refl))
    ]

normpath-IsNormal : (s : Text) → is_absolute s ≡ true → IsNormal (normpath s)
unfolding normpath
normpath-IsNormal s h = go (initial_slashes s) (initial_slashes-IsRootHead s h)
  where
    go :
        (head : Text)
        → IsRootHead head
        → IsNormal (
            let path = head ++ join_parts (push_parts (not (is_nil head)) (split b'/' s) []) in
            if is_nil path then dot else path)
    go head (inl e) = rw e (record {
      head = codes "/";
      parts = push_parts true (split b'/' s) [];
      is_head = inl refl;
      are_parts = push_parts-parts (split b'/' s) [] (split-no_sep b'/' s) tt;
      path_eq = refl;
    })
    go head (inr e) = rw e (record {
      head = codes "//";
      parts = push_parts true (split b'/' s) [];
      is_head = inr refl;
      are_parts = push_parts-parts (split b'/' s) [] (split-no_sep b'/' s) tt;
      path_eq = refl;
    })

join-absolute : (a b : Text) → is_absolute a ≡ true → is_absolute (join a b) ≡ true
unfolding join
join-absolute [] b h = cc
join-absolute (c ∷ a) b h = elim (Bool-cases (is_absolute b)) [
  | inl from_root ↦ rw from_root from_root
  | inr below ↦ rw below (keep (ends_with_slash (c ∷ a)))
]
  where
    keep : (d : Bool) → is_absolute (if d then (c ∷ a) ++ b else (c ∷ a) ++ b'/' ∷ b) ≡ true
    keep true = h
    keep false = h

-- In a working directory that is absolute, `abspath` gives an absolute path of proper parts.
pub abspath-IsNormal : (cwd s : Text) → is_absolute cwd ≡ true → IsNormal (abspath cwd s)
unfolding abspath
abspath-IsNormal cwd s h = normpath-IsNormal _ (rooted (Bool-cases (is_absolute s)))
  where
    rooted :
        (is_absolute s ≡ true) ⊎ (is_absolute s ≡ false)
        → is_absolute (if is_absolute s then s else join cwd s) ≡ true
    rooted (inl yes_abs) = rw yes_abs yes_abs
    rooted (inr below) = rw below (join-absolute cwd s h)
