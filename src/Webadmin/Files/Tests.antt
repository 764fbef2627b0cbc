-- ===== src/Webadmin/Files/Tests.antt =====
-- webadmin/api/routes/files.py at concrete inputs.
use frp_python.Prelude.{
  nat_beq, if◌then◌else◌, ◌==◌, is_nil, codes, ◌≡◌, refl, inl, inr, Bool, true, false, ◌||◌, some,
  List, [], ◌∷◌, ◌++◌, arith, nat_eq, string_eq, list_eq,
}
use frp_python.Py.Path.{
  join_parts, join, push_part, push_parts, normpath, abspath, basename, dirname, dot, dot_dot,
  ends_with_slash,
}
use frp_python.Py.Text.{Text, starts_with, rstrip, split_onto, split, split_first}
use frp_python.Py.Words.{before_last, split_last}
use frp_python.Webadmin.Files.{
  FileRequest, serve_file, FileSystem, and_then, check, rename_file, make_dir, FileAction,
}
use frp_python.Webadmin.Files.Confined.{IsConfined, Only, serve_file-Only, HasDots}
use frp_python.Webadmin.Files.Paths.{resolve_path, root_name_to_path, rel_to, to_rel, FileError}

abbrev cwd : Text
cwd = codes "/app"

abbrev roots : List Text
roots = codes "/srv/data" ∷ codes "logs/" ∷ codes "/srv/srv" ∷ []

abbrev disk : FileSystem
disk = record {
  exists = λ p. p == codes "/srv/data" || p == codes "/srv/srv";
  isdir = λ p. p == codes "/srv/data" || p == codes "/srv/srv";
  isfile = λ p. p == codes "/app/logs/a.log";
  getsize = λ p. 10;
  stat = λ p. some (10, 0);
  sorted_names = λ p. some [];
}

log_resolves : resolve_path cwd roots (codes "/logs/x/./a.log") ≡ inr (codes "/app/logs/x/a.log")
unfolding resolve_path root_name_to_path abspath normpath push_parts push_part basename split_last
    before_last split split_onto join join_parts starts_with split_first
log_resolves = refl

dots_refused : resolve_path cwd roots (codes "logs\\..\\a") ≡ inl FileError.dots_not_allowed
unfolding resolve_path split split_onto
dots_refused = refl

-- A root itself can be moved, out of the roots, where another root has the name of the first
-- directory of its new path.
root_moves :
    serve_file cwd roots disk (FileRequest.rename (codes "srv") (codes "x"))
    ≡ inr (FileAction.move_path (codes "/srv/srv") (codes "/srv/x"))
unfolding serve_file rename_file and_then check resolve_path root_name_to_path abspath normpath
    push_parts push_part basename split_last before_last split split_onto join join_parts
    starts_with split_first to_rel rel_to dirname rstrip
root_moves = refl

abbrev ends_with_dot : Text → Bool
ends_with_dot [] = false
ends_with_dot (c ∷ s) = if is_nil s then nat_beq c b'.' else ends_with_dot s

ends_with_dot-append : (s t : Text) → is_nil t ≡ false → ends_with_dot (s ++ t) ≡ ends_with_dot t
ends_with_dot-append [] t h = refl
ends_with_dot-append (c ∷ []) [] h = cc h
ends_with_dot-append (c ∷ []) (d ∷ t) h = refl
ends_with_dot-append (c ∷ d ∷ s) t h = ends_with_dot-append (d ∷ s) t h

either-ends_with_dot :
    (b : Bool) (x y : Text)
    → ends_with_dot x ≡ true
    → ends_with_dot y ≡ true
    → ends_with_dot (if b then x else y) ≡ true
either-ends_with_dot true x y h k = h
either-ends_with_dot false x y h k = k

ends_with_dot-join : (p : Text) → ends_with_dot (join p dot) ≡ true
unfolding join
ends_with_dot-join p =
    either-ends_with_dot (is_nil p || ends_with_slash p) (p ++ dot) (p ++ b'/' ∷ dot)
      (ends_with_dot-append p dot refl) (ends_with_dot-append p (b'/' ∷ dot) refl)

ends_with_dot-join_dots : (p : Text) → ends_with_dot (join p dot_dot) ≡ true
unfolding join
ends_with_dot-join_dots p =
    either-ends_with_dot (is_nil p || ends_with_slash p) (p ++ dot_dot) (p ++ b'/' ∷ dot_dot)
      (ends_with_dot-append p dot_dot refl) (ends_with_dot-append p (b'/' ∷ dot_dot) refl)

-- A disk with `/srv/data`, where every path that ends with a dot is a directory.
abbrev dotted : FileSystem
dotted = record disk {
  exists = λ p. p == codes "/srv/data" || ends_with_dot p;
  isdir = λ p. p == codes "/srv/data" || ends_with_dot p;
}

dotted-HasDots : HasDots dotted
dotted-HasDots = record {
  dot_isdir = λ p h. rw (ends_with_dot-join p) (either_true _);
  dot_dot_isdir = λ p h. rw (ends_with_dot-join_dots p) (either_true _);
  isdir_exists = λ p h. h;
}
  where
    either_true : (b : Bool) → (b || true) ≡ true
    either_true b = ground arith

serve_file-Only_example :
    Only
      (IsConfined cwd roots dotted)
      (serve_file cwd roots dotted (FileRequest.mkdir (codes "data") (codes "new")))
serve_file-Only_example =
    serve_file-Only cwd roots dotted refl dotted-HasDots
      (FileRequest.mkdir (codes "data") (codes "new"))

made :
    serve_file cwd roots dotted (FileRequest.mkdir (codes "data") (codes "new"))
    ≡ inr (FileAction.make_directory (codes "/srv/data/new"))
unfolding serve_file make_dir and_then check resolve_path root_name_to_path abspath normpath
    push_parts push_part basename split_last before_last split split_onto join join_parts
    starts_with split_first
made = refl
