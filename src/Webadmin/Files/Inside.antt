-- ===== src/Webadmin/Files/Inside.antt =====
-- webadmin/api/routes/files.py: the paths that `_resolve_path` lets in.
use frp_python.Prelude.{
  if◌then◌else◌, list_beq_iff, ◌==◌, Bool-cases, is_nil, codes, elem, ◌≡◌, refl, subst, ◌⊎◌, inl,
  inr, Bool, true, false, ◌||◌, Option, none, some, List, [], ◌∷◌, ◌++◌, arith, nat_eq, string_eq,
  list_eq,
}
use frp_python.Py.Path.{is_absolute, abspath, basename, join, dot_dot}
use frp_python.Py.Path.Normal.{IsNormal, abspath-IsNormal}
use frp_python.Py.Text.{Text, starts_with, split}
use frp_python.Webadmin.Files.Paths.{
  dots_not_allowed, virtual_root, resolve_path, is_below, root_name_to_path, FileError,
  without_leading, root_and_sub, below_root, slashed,
}

-- A root, or a path below it.
abbrev pub IsBelow : Text → Text → Type 0
IsBelow root p = (p ≡ root) ⊎ (starts_with (root ++ b'/' ∷ []) p ≡ true)

abbrev pub InSomeRoot : Text → Text → List Text → Type 0
InSomeRoot cwd p [] = ⊥
InSomeRoot cwd p (root ∷ roots) = IsBelow (abspath cwd root) p ⊎ InSomeRoot cwd p roots

-- A path of proper parts, without `..`, that is a root of the configuration or below one.
pub record IsInside (cwd : Text) (roots : List Text) (p : Text) : Type 0 where
  pub normal : IsNormal p
  pub in_root : InSomeRoot cwd p roots

pub is_below-IsBelow : (root p : Text) → is_below root p ≡ true → IsBelow root p
is_below-IsBelow root p h = elim (Bool-cases (p == root)) [
  | inl same ↦ inl ((list_beq_iff p root).0 same)
  | inr other ↦ inr (ground arith)
]

-- The root that a name stands for is one of the configuration.
found-InSomeRoot :
    (cwd name root p : Text) (roots : List Text)
    → root_name_to_path cwd name roots ≡ some root
    → IsBelow root p
    → InSomeRoot cwd p roots
unfolding root_name_to_path
found-InSomeRoot cwd name root p [] e h = cc e
found-InSomeRoot cwd name root p (r ∷ roots) e h =
    elim (Bool-cases (basename (abspath cwd r) == name)) [
      | inl here ↦ inl (subst (λ t. IsBelow t p) (same (rw here at e)) h)
      | inr other ↦ inr (found-InSomeRoot cwd name root p roots (rw other at e) h)
    ]
  where
    same : some (abspath cwd r) ≡ some root → root ≡ abspath cwd r
    same k = cc k

pub otherwise :
    {A : Type 0} {r : FileError ⊎ A} {p : A} (b : Bool) (e : FileError)
    → (if b then inl e else r) ≡ inr p
    → r ≡ inr p
otherwise true e h = cc h
otherwise false e h = h

-- In an absolute working directory, a path that is let in is made of proper parts, none of them
-- `..`, and is a root of the configuration or below one.
pub resolve_path-IsInside :
    (cwd rel p : Text) (roots : List Text)
    → is_absolute cwd ≡ true
    → resolve_path cwd roots rel ≡ inr p
    → IsInside cwd roots p
unfolding resolve_path
resolve_path-IsInside cwd rel p roots h e =
    let parts = root_and_sub (without_leading rel) in
    below parts.1 (root_name_to_path cwd parts.0 roots) refl (
      otherwise (elem dot_dot (split b'/' (slashed rel))) dots_not_allowed
        (otherwise (is_nil rel || rel == codes "/") virtual_root e))
  where
    same_path : (a b : Text) (g : ◌≡◌ {A = FileError ⊎ Text} (inr a) (inr b)) → a ≡ b
    same_path a b g = cc g

    below :
        (sub : Text) (o : Option Text)
        → root_name_to_path cwd (root_and_sub (without_leading rel)).0 roots ≡ o
        → below_root cwd sub o ≡ inr p
        → IsInside cwd roots p
    below sub none k e = cc e
    below sub (some root) k e =
        let candidate = abspath cwd (join root sub) in
        elim (Bool-cases (is_below root candidate)) [
          | inl inside ↦
              let is_p : candidate ≡ p = same_path _ _ (rw inside at e) in
              subst (λ t. IsInside cwd roots t) is_p
                (record {
                  normal = abspath-IsNormal cwd (join root sub) h;
                  in_root =
                      found-InSomeRoot cwd _ root candidate roots k
                        (is_below-IsBelow root candidate inside);
                })
          | inr outside ↦ cc (rw outside at e)
        ]
