-- ===== src/Py/Path.antt =====
-- `os.path` on POSIX: `join`, `normpath`, `abspath`, `basename`, `dirname` and `splitext`.
pub mod Normal
use frp_python.Prelude.{
  nat_beq, if◌then◌else◌, ◌==◌, is_nil, codes, all, ℕ, Bool, false, ◌&&◌, ◌||◌, not, none, some,
  List, [], ◌∷◌, ◌++◌, reverse, nat_eq, string_eq, list_eq,
}
use frp_python.Py.Text.{Text, starts_with, rstrip, split}
use frp_python.Py.Words.{split_last}

-- `sep.join(parts)` with `/`
unfoldable pub join_parts : List Text → Text
join_parts [] = []
join_parts (p ∷ ps) = p ++ (if is_nil ps then [] else b'/' ∷ join_parts ps)

abbrev pub ends_with_slash : Text → Bool
ends_with_slash [] = false
ends_with_slash (c ∷ s) = if is_nil s then nat_beq c b'/' else ends_with_slash s

abbrev pub is_absolute : Text → Bool
is_absolute [] = false
is_absolute (c ∷ s) = nat_beq c b'/'

-- `os.path.join(a, b)`
unfoldable pub join : Text → Text → Text
join a b =
    if is_absolute b then b else if is_nil a || ends_with_slash a then a ++ b else a ++ b'/' ∷ b

-- `/`, or `//` where there are exactly two
abbrev pub initial_slashes : Text → Text
initial_slashes s =
    if starts_with (codes "//") s && not (starts_with (codes "///") s)
    then codes "//"
    else if is_absolute s
    then codes "/"
    else []

abbrev pub dot : Text
dot = codes "."

abbrev pub dot_dot : Text
dot_dot = codes ".."

-- One round of `normpath`; the stack has its top at the head.
unfoldable pub push_part : Bool → Text → List Text → List Text
push_part rooted part [] =
    if is_nil part || part == dot then [] else if part == dot_dot && rooted then [] else part ∷ []
push_part rooted part (top ∷ stack) =
    if is_nil part || part == dot
    then top ∷ stack
    else if part == dot_dot && not (top == dot_dot)
    then stack
    else part ∷ top ∷ stack

unfoldable pub push_parts : Bool → List Text → List Text → List Text
unfolding push_part
push_parts rooted [] stack = reverse stack
push_parts rooted (part ∷ parts) stack = push_parts rooted parts (push_part rooted part stack)

-- `os.path.normpath`
unfoldable pub normpath : Text → Text
unfolding push_parts
normpath s =
    let head = initial_slashes s in
    let path = head ++ join_parts (push_parts (not (is_nil head)) (split b'/' s) []) in
    if is_nil path then dot else path

-- `os.path.abspath`, in a working directory
unfoldable pub abspath : Text → Text → Text
unfolding normpath
abspath cwd s = normpath (if is_absolute s then s else join cwd s)

-- `os.path.basename`
unfoldable pub basename : Text → Text
basename s = elim (split_last b'/' s) [ none ↦ s | some (head, tail) ↦ tail ]

abbrev pub is_slash : ℕ → Bool
is_slash c = nat_beq c b'/'

abbrev pub trimmed_head : Text → Text
trimmed_head head = if all is_slash head then head else rstrip is_slash head

-- `os.path.dirname`
unfoldable pub dirname : Text → Text
dirname s = elim (split_last b'/' s) [
  | none ↦ []
  | some (head, tail) ↦ trimmed_head (head ++ b'/' ∷ [])
]

-- `os.path.splitext(s)[1]`: dots at the front of a name are no extension.
unfoldable pub extension : Text → Text
extension s = elim (split_last b'.' (basename s)) [
  | none ↦ []
  | some (stem, ext) ↦ if all (λ c. nat_beq c b'.') stem then [] else b'.' ∷ ext
]
