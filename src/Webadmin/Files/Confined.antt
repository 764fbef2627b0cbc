-- ===== src/Webadmin/Files/Confined.antt =====
-- webadmin/api/routes/files.py: the paths that the operations touch.
use frp_python.Prelude.{
  if◌then◌else◌, list_beq_iff, ◌==◌, Bool-cases, is_nil, codes, elem, ◌≡◌, refl, ◌⊎◌, inl, inr,
  Bool, true, false, ◌||◌, not, Option, none, some, List, [], ◌∷◌, ◌++◌, arith, nat_eq, string_eq,
  list_eq,
}
use frp_python.Py.Path.{is_absolute, join, dirname, dot, dot_dot, abspath}
use frp_python.Py.Path.Normal.{IsPart}
use frp_python.Py.Text.{Text, has_char, starts_with, split}
use frp_python.Webadmin.Files.{
  FileAction, FileSystem, and_then, check, get_file_content, removal, save_file_content,
  download_file, delete_file, rename_file, make_dir, upload_file, FileRequest, serve_file,
}
use frp_python.Webadmin.Files.Inside.{
  is_below-IsBelow, IsInside, resolve_path-IsInside, InSomeRoot, otherwise,
}
use frp_python.Webadmin.Files.Paths.{
  dots_not_allowed, virtual_root, FileError, resolve_path, is_below, without_leading, slashed,
  root_and_sub, root_name_to_path, below_root, rel_to, to_rel,
}

-- An entry of a directory that is inside, by a name that is neither empty, `.` nor `..` and has no
-- slash.
pub record IsEntryIn (Dir : Text → Type 0) (q : Text) : Type 0 where
  pub dir : Text
  pub name : Text
  pub is_dir : Dir dir
  pub is_part : IsPart name
  pub path_eq : q ≡ join dir name

-- Where `.` and `..` of a directory are directories, and what is a directory exists.
pub record HasDots (fs : FileSystem) : Type 0 where
  pub dot_isdir : (p : Text) → fs.isdir p ≡ true → fs.isdir (join p dot) ≡ true
  pub dot_dot_isdir : (p : Text) → fs.isdir p ≡ true → fs.isdir (join p dot_dot) ≡ true
  pub isdir_exists : (p : Text) → fs.isdir p ≡ true → fs.exists p ≡ true

-- A root has the name of the first part of the path.
abbrev pub StartsWithRootName : Text → List Text → Text → Type 0
StartsWithRootName cwd roots q =
    (root : Text) × (root_name_to_path cwd (root_and_sub (without_leading q)).0 roots ≡ some root)

-- The paths of an action are inside. A new directory is an entry of a directory that is inside, and
-- so is a new file, or else it is a directory, which cannot be opened to write. A move leads to a
-- path in a root, or to one that starts with the name of a root.
abbrev pub IsConfined : Text → List Text → FileSystem → FileAction → Type 0
IsConfined cwd roots fs (FileAction.read_text p) = IsInside cwd roots p
IsConfined cwd roots fs (FileAction.write_text p content) = IsInside cwd roots p
IsConfined cwd roots fs (FileAction.send_file p name) = IsInside cwd roots p
IsConfined cwd roots fs (FileAction.remove_tree p) = IsInside cwd roots p
IsConfined cwd roots fs (FileAction.remove_file p) = IsInside cwd roots p
IsConfined cwd roots fs (FileAction.move_path p q) =
    IsInside cwd roots p
    × (InSomeRoot cwd (abspath cwd q) roots ⊎ StartsWithRootName cwd roots (abspath cwd q))
IsConfined cwd roots fs (FileAction.make_directory q) = IsEntryIn (IsInside cwd roots) q
IsConfined cwd roots fs (FileAction.write_chunks q chunks) =
    IsEntryIn (IsInside cwd roots) q ⊎ (fs.isdir q ≡ true)

-- What holds of what an operation does, if it is not refused.
abbrev pub Only : {A : Type 0} → (A → Type 0) → FileError ⊎ A → Type 0
Only P (inl e) = Unit
Only P (inr a) = P a

-- What `_to_rel` gives is below a root, or the path itself.
rel_to-cases :
    (cwd p : Text) (roots : List Text) → InSomeRoot cwd p roots ⊎ (rel_to cwd p roots ≡ p)
unfolding rel_to
rel_to-cases cwd p [] = inr refl
rel_to-cases cwd p (root ∷ rest) =
    let base = abspath cwd root in
    elim (Bool-cases (is_below base p)) [
      | inl here ↦ inl (inl (is_below-IsBelow base p here))
      | inr not_here ↦ elim (rel_to-cases cwd p rest) [
        | inl there ↦ inl (inr there)
        | inr same ↦
            inr (skipped (p == base) (starts_with (base ++ b'/' ∷ []) p) _ _ _ not_here same)
      ]
    ]
  where
    skipped :
        (a b : Bool) (x y z : Text)
        → (a || b) ≡ false
        → z ≡ p
        → (if a then x else if b then y else z) ≡ p
    skipped true b x y z h k = cc h
    skipped false true x y z h k = cc h
    skipped false false x y z h k = k

-- A path that is let in starts with the name of a root.
resolve_path-StartsWithRootName :
    (cwd rel q : Text) (roots : List Text)
    → resolve_path cwd roots rel ≡ inr q
    → StartsWithRootName cwd roots rel
unfolding resolve_path
resolve_path-StartsWithRootName cwd rel q roots e =
    let parts = root_and_sub (without_leading rel) in
    go parts.1 (root_name_to_path cwd parts.0 roots) refl (
      otherwise (elem dot_dot (split b'/' (slashed rel))) dots_not_allowed
        (otherwise (is_nil rel || rel == codes "/") virtual_root e))
  where
    go :
        (sub : Text) (o : Option Text)
        → root_name_to_path cwd (root_and_sub (without_leading rel)).0 roots ≡ o
        → below_root cwd sub o ≡ inr q
        → StartsWithRootName cwd roots rel
    go sub none k f = cc f
    go sub (some root) k f = (root, k)

-- A name without a slash is a part of a path, or one of those that stand for directories.
name-cases :
    (name : Text)
    → is_nil name ≡ false
    → has_char b'/' name ≡ false
    → IsPart name ⊎ (name ≡ dot) ⊎ (name ≡ dot_dot)
name-cases name filled h = elim (Bool-cases (name == dot)) [
  | inl one ↦ inr (inl ((list_beq_iff name dot).0 one))
  | inr not_one ↦ elim (Bool-cases (name == dot_dot)) [
    | inl two ↦ inr (inr ((list_beq_iff name dot_dot).0 two))
    | inr not_two ↦
        inl (record { not_empty = filled; not_dot = not_one; not_dot_dot = not_two; no_slash = h })
  ]
]

module _ (cwd : Text) (roots : List Text) (fs : FileSystem) (absolute : is_absolute cwd ≡ true)
    (dots : HasDots fs) where
  -- What is not a proper entry is a directory.
  entry-cases :
      (p name : Text)
      → IsInside cwd roots p
      → fs.isdir p ≡ true
      → is_nil name ≡ false
      → has_char b'/' name ≡ false
      → IsEntryIn (IsInside cwd roots) (join p name) ⊎ (fs.isdir (join p name) ≡ true)
  entry-cases p name h is_d filled no_slash = elim (name-cases name filled no_slash) [
    | inl part ↦ inl (record { dir = p; name = name; is_dir = h; is_part = part; path_eq = refl })
    | inr (inl one) ↦ inr (rw one (dots.dot_isdir p is_d))
    | inr (inr two) ↦ inr (rw two (dots.dot_dot_isdir p is_d))
  ]

  new-IsEntryIn :
      (q : Text)
      → not (fs.exists q) ≡ true
      → IsEntryIn (IsInside cwd roots) q ⊎ (fs.isdir q ≡ true)
      → IsEntryIn (IsInside cwd roots) q
  new-IsEntryIn q new (inl entry) = entry
  new-IsEntryIn q new (inr is_d) = let there = dots.isdir_exists q is_d in cc (rw there at new)

  moved-cases :
      (new q : Text)
      → resolve_path cwd roots (to_rel cwd roots new) ≡ inr q
      → InSomeRoot cwd (abspath cwd new) roots ⊎ StartsWithRootName cwd roots (abspath cwd new)
  unfolding to_rel
  moved-cases new q e = elim (rel_to-cases cwd (abspath cwd new) roots) [
    | inl there ↦ inl there
    | inr same ↦ inr (resolve_path-StartsWithRootName cwd (abspath cwd new) q roots (rw same at e))
  ]

  check-Only :
      (b : Bool) (e : FileError) (r : FileError ⊎ FileAction)
      → (b ≡ true → Only (IsConfined cwd roots fs) r)
      → Only (IsConfined cwd roots fs) (check b e r)
  unfolding check
  check-Only true e r h = h refl
  check-Only false e r h = tt

  resolved-Only :
      {A : Type 0} (P : A → Type 0) (path : Text) (act : Text → FileError ⊎ A)
      → ((p : Text) → IsInside cwd roots p → resolve_path cwd roots path ≡ inr p → Only P (act p))
      → Only P (and_then (resolve_path cwd roots path) act)
  unfolding and_then
  resolved-Only P path act h = go (resolve_path cwd roots path) refl
    where
      go : (o : FileError ⊎ Text) → resolve_path cwd roots path ≡ o → Only P (and_then o act)
      go (inl e) k = tt
      go (inr p) k = h p (resolve_path-IsInside cwd path p roots absolute k) k

  removal-IsConfined :
      (is_dir : Bool) (p : Text) → IsInside cwd roots p → IsConfined cwd roots fs (removal is_dir p)
  removal-IsConfined true p h = h
  removal-IsConfined false p h = h

  -- With an absolute working directory, and `.` and `..` in every directory, what an operation on
  -- files does, it does to a path without `..` that is a root or below one: it reads, writes,
  -- sends or removes that path, or makes an entry in it that is neither `.` nor `..`; an upload may
  -- name these too, which are directories and no file can be written there. A move of such a path
  -- leads into a root again, unless a root has the name of the first part of the new path.
  pub serve_file-Only :
      (request : FileRequest) → Only (IsConfined cwd roots fs) (serve_file cwd roots fs request)
  unfolding serve_file get_file_content save_file_content download_file delete_file rename_file
      make_dir upload_file
  serve_file-Only (FileRequest.content_of path) =
      resolved-Only (IsConfined cwd roots fs) path _
        λ p h r. check-Only _ _ _ λ f. check-Only _ _ _ λ l. check-Only _ _ _ λ t. h
  serve_file-Only (FileRequest.save path content) =
      resolved-Only (IsConfined cwd roots fs) path _
        λ p h r. check-Only _ _ _ λ f. check-Only _ _ _ λ t. h
  serve_file-Only (FileRequest.download path) =
      resolved-Only (IsConfined cwd roots fs) path _ λ p h r. check-Only _ _ _ λ f. h
  serve_file-Only (FileRequest.delete path) =
      resolved-Only (IsConfined cwd roots fs) path _
        λ p h r. check-Only _ _ _ λ f. removal-IsConfined (fs.isdir p) p h
  serve_file-Only (FileRequest.rename path new_name) =
      resolved-Only (IsConfined cwd roots fs) path _ λ p h r. check-Only _ _ _ λ x.
        check-Only _ _ _ λ n.
          resolved-Only (IsConfined cwd roots fs) _ _
            λ q k t. check-Only _ _ _ λ y. (h, moved-cases (join (dirname p) new_name) q t)
  serve_file-Only (FileRequest.mkdir path dir_name) =
      resolved-Only (IsConfined cwd roots fs) path _ λ p h r. check-Only _ _ _ λ d.
        check-Only _ _ _ λ n. check-Only _ _ _ λ x.
          new-IsEntryIn (join p dir_name) x
            (entry-cases p dir_name h d (ground (arith, n)) (ground (arith, n)))
  serve_file-Only (FileRequest.upload path name chunks) =
      resolved-Only (IsConfined cwd roots fs) path _ λ p h r. check-Only _ _ _ λ d.
        check-Only _ _ _ λ n.
          let used = if is_nil name then codes "upload" else name in
          entry-cases p used h d (named name) (ground (arith, n))
    where
      named : (x : Text) → is_nil (if is_nil x then codes "upload" else x) ≡ false
      named [] = refl
      named (c ∷ x) = refl
