-- ===== src/Webadmin/Files/Paths.antt =====
-- webadmin/api/routes/files.py: `_root_name_to_path`, `_resolve_path` and `_to_rel`.
use frp_python.Prelude.{
  nat_beq, if◌then◌else◌, ◌==◌, is_nil, codes, length, drop, elem, ◌+◌, ◌⊎◌, inl, inr, Bool, ◌||◌,
  Option, none, some, List, [], ◌∷◌, ◌++◌, map, nat_eq, string_eq, list_eq,
}
use frp_python.Py.Path.{join, dot_dot, abspath, basename}
use frp_python.Py.Text.{Text, starts_with, split, split_first}

-- The refusals, by status and reason.
pub data FileError : Type 0 where
  virtual_root dots_not_allowed out_of_range : FileError
  not_directory not_file not_found too_large bad_extension bad_name already_there read_failed :
      FileError

-- `p.startswith(root + os.sep)`, or the root itself
abbrev pub is_below : Text → Text → Bool
is_below root p = p == root || starts_with (root ++ b'/' ∷ []) p

-- A leading slash or backslash is left out.
abbrev pub without_leading : Text → Text
without_leading [] = []
without_leading (c ∷ s) = if nat_beq c b'/' || nat_beq c b'\\' then s else c ∷ s

abbrev pub slashed : Text → Text
slashed s = map (λ c. if nat_beq c b'\\' then b'/' else c) s

-- `rel_path.split("/", 1)`, with an empty second part where there is none
abbrev pub root_and_sub : Text → Text × Text
root_and_sub s = elim (split_first b'/' s) [ none ↦ (s, []) | some parts ↦ parts ]

module _ (cwd : Text) where
  -- `_root_name_to_path`
  unfoldable pub root_name_to_path : Text → List Text → Option Text
  root_name_to_path name [] = none
  root_name_to_path name (root ∷ rest) =
      if basename (abspath cwd root) == name
      then some (abspath cwd root)
      else root_name_to_path name rest

  abbrev pub below_root : Text → Option Text → FileError ⊎ Text
  below_root sub none = inl out_of_range
  below_root sub (some root) =
      let candidate = abspath cwd (join root sub) in
      if is_below root candidate then inr candidate else inl out_of_range

  -- `_to_rel`, for a path that is absolute and normal
  unfoldable pub rel_to : Text → List Text → Text
  rel_to p [] = p
  rel_to p (root ∷ rest) =
      let base = abspath cwd root in
      if p == base
      then basename base
      else if starts_with (base ++ b'/' ∷ []) p
      then basename base ++ b'/' ∷ drop (length base + 1) p
      else rel_to p rest

module _ (cwd : Text) (roots : List Text) where
  -- `_resolve_path`
  unfoldable pub resolve_path : Text → FileError ⊎ Text
  unfolding root_name_to_path
  resolve_path rel =
      if is_nil rel || rel == codes "/"
      then inl virtual_root
      else if elem dot_dot (split b'/' (slashed rel))
      then inl dots_not_allowed
      else let parts = root_and_sub (without_leading rel) in
        below_root cwd parts.1 (root_name_to_path cwd parts.0 roots)

  -- `_to_rel`
  unfoldable pub to_rel : Text → Text
  unfolding rel_to
  to_rel p = rel_to cwd (abspath cwd p) roots
