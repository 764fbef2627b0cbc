-- ===== src/ForwardProxy/Headers.antt =====
-- forward_proxy.py: `_check_auth`, `_rewrite_headers` and `_get_content_length`. The decoding of
-- base64 and UTF-8 is a parameter.
pub mod Rewritten
use frp_python.Prelude.{
  leb, nat_beq, if◌then◌else◌, ◌==◌, is_nil, codes, drop, ℕ, Bool, false, ◌&&◌, ◌||◌, Option, none,
  some, List, [], ◌∷◌, ◌++◌, nat_eq, string_eq, list_eq,
}
use frp_python.Py.Int.{ℤ, pos, signed}
use frp_python.Py.Lines.{split_crlf, unlines}
use frp_python.Py.Text.{Text, starts_with, strip, split_first, lower}
use frp_python.Py.Words.{partition, decimal}

-- The white space of `bytes.strip`.
abbrev pub is_byte_space : ℕ → Bool
is_byte_space c = (leb 9 c && leb c 13) || nat_beq c 32

-- `line.lower().startswith(name)`
abbrev pub has_name : Text → Text → Bool
has_name name line = starts_with name (lower line)

-- `line.split(b":", 1)[1].strip()`
abbrev pub value_of : Text → Text
value_of line = elim (split_first b':' line) [ none ↦ [] | some (name, v) ↦ strip is_byte_space v ]

-- `base64.b64decode(encoded).decode("utf-8")`; `none` is an exception.
pub record Base64 : Type 0 where
  pub b64decode : Text → Option Text

abbrev pub is_pair : Text → Text → Text × Text → Bool
is_pair user pass (u, p) = u == user && p == pass

unfoldable pub check_decoded : Text → Text → Option Text → Bool
check_decoded user pass none = false
check_decoded user pass (some s) = is_pair user pass (partition b':' s)

-- `_check_auth`, over the lines
unfoldable pub check_lines : Base64 → Text → Text → List Text → Bool
unfolding check_decoded
check_lines lib user pass [] = false
check_lines lib user pass (line ∷ lines) =
    let rest = check_lines lib user pass lines in
    if has_name (codes "proxy-authorization:") line && has_name (codes "basic ") (value_of line)
    then check_decoded user pass (lib.b64decode (strip is_byte_space (drop 6 (value_of line))))
    else rest

unfoldable pub check_auth : Base64 → Text → Text → Text → Bool
unfolding check_lines
check_auth lib user pass headers = check_lines lib user pass (split_crlf headers)

-- `Host: {host}` or `Host: {host}:{port}`
abbrev pub host_value : Text → ℕ → Text
host_value host port = if port == 80 then host else host ++ (b':' ∷ decimal port)

unfoldable pub host_line : Text → ℕ → Text
host_line host port = codes "Host: " ++ host_value host port

-- `skip_headers`
abbrev pub is_skipped : Text → Bool
is_skipped line =
    has_name (codes "proxy-authorization") line || has_name (codes "proxy-connection") line

abbrev pub is_host : Text → Bool
is_host line = has_name (codes "host:") line

-- The lines that are sent on, before the one that is added where there was no host.
unfoldable pub kept_lines : Text → List Text → List Text
kept_lines host_text [] = []
kept_lines host_text (line ∷ lines) =
    let rest = kept_lines host_text lines in
    if is_nil line || is_skipped line
    then rest
    else (if is_host line then host_text else line) ∷ rest

-- `has_host`, at the end of the loop
unfoldable pub has_host : List Text → Bool
has_host [] = false
has_host (line ∷ lines) =
    let rest = has_host lines in
    if is_nil line || is_skipped line then rest else is_host line || rest

abbrev pub sent_lines : Text → List Text → List Text
sent_lines host_text lines =
    kept_lines host_text lines ++ (if has_host lines then [] else host_text ∷ [])

-- `_rewrite_headers`
unfoldable pub rewrite_headers : Text → ℕ → Text → Text
unfolding host_line kept_lines has_host
rewrite_headers host port headers = unlines (sent_lines (host_line host port) (split_crlf headers))

abbrev pub int_or_zero : Option ℤ → ℤ
int_or_zero none = pos 0
int_or_zero (some n) = n

unfoldable pub length_in : List Text → ℤ
length_in [] = pos 0
length_in (line ∷ lines) =
    let rest = length_in lines in
    if has_name (codes "content-length:") line
    then int_or_zero (signed 10 (value_of line))
    else rest

-- `_get_content_length`
unfoldable pub get_content_length : Text → ℤ
unfolding length_in
get_content_length headers = length_in (split_crlf headers)
