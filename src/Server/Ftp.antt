-- ===== src/Server/Ftp.antt =====
-- frps.py: `_handle_ftp_response`, `_rewrite_pasv_response` and `_rewrite_epsv_response`. Opening a
-- public port for a data connection is a parameter that may fail and may change a state.
pub mod Cuts
pub mod Data
pub mod Public
mod Tests
use frp_python.Prelude.{
  leb, nat_beq, if◌then◌else◌, ◌==◌, is_some, is_nil, codes, length, drop, ℕ, zero, suc, ◌+◌, ◌-◌,
  ◌*◌, ◌/◌, ◌%◌, Bool, ◌&&◌, ◌||◌, not, Option, none, some, List, [], ◌∷◌, ◌++◌, nat_eq, string_eq,
  list_eq,
}
use frp_python.Py.Int.{digits}
use frp_python.Py.Lines.{cr, lf}
use frp_python.Py.Text.{Text, starts_with, split}
use frp_python.Py.Words.{upper, decimal}

-- `buf.find(b"\r\n")`: the first line with its end, and what follows.
unfoldable pub add_front : ℕ → Option (Text × Text) → Option (Text × Text)
add_front c none = none
add_front c (some (line, rest)) = some (c ∷ line, rest)

unfoldable pub cut_line : Text → Option (Text × Text)
unfolding add_front
cut_line [] = none
cut_line (c ∷ []) = none
cut_line (c ∷ d ∷ s) =
    let later = add_front c (cut_line (d ∷ s)) in
    if nat_beq c cr && nat_beq d lf then some (c ∷ d ∷ [], s) else later

-- `pattern in text`
unfoldable pub has_text : Text → Text → Bool
has_text p [] = is_nil p
has_text p (c ∷ s) = starts_with p (c ∷ s) || has_text p s

abbrev pub is_digit : ℕ → Bool
is_digit c = leb b'0' c && leb c b'9'

-- `\d*`: the digits at the front, and the rest.
unfoldable pub digits_span : Text → Text × Text
digits_span [] = ([], [])
digits_span (c ∷ s) =
    let more = digits_span s in if is_digit c then (c ∷ more.0, more.1) else ([], c ∷ s)

-- `\d+` and then the given text.
unfoldable pub number_then : Text → Text → Option (Text × Text)
unfolding digits_span
number_then end s =
    let (ds, rest) = digits_span s in
    if not (is_nil ds) && starts_with end rest then some (ds, drop (length end) rest) else none

abbrev pub add_number : Text → Option (List Text × Text) → Option (List Text × Text)
add_number n none = none
add_number n (some (ns, rest)) = some (n ∷ ns, rest)

-- `k` numbers with commas between them, the first one more than `k`, and a closing bracket.
unfoldable pub numbers : ℕ → Text → Option (List Text × Text)
unfolding number_then
numbers zero s = elim (number_then (codes ")") s) [
  | none ↦ none
  | some (n, rest) ↦ some (n ∷ [], rest)
]
numbers (suc k) s = elim (number_then (codes ",") s) [
  | none ↦ none
  | some (n, rest) ↦ add_number n (numbers k rest)
]

-- `\((\d+),(\d+),(\d+),(\d+),(\d+),(\d+)\)` at the front of a text.
unfoldable pub match_pasv : Text → Option (List Text × Text)
unfolding numbers
match_pasv [] = none
match_pasv (c ∷ s) = if c == b'(' then numbers 5 s else none

-- The bars, a number and `|)` at the front of a text.
unfoldable pub match_bars : Text → Text → Option (List Text × Text)
unfolding number_then
match_bars bars s =
    if starts_with bars s
    then elim (number_then (codes "|)") (drop (length bars) s)) [
      | none ↦ none
      | some (n, rest) ↦ some (n ∷ [], rest)
    ]
    else none

-- `\(\|\|\|(\d+)\|\)` and `\(\|\|\d+\|\)`
abbrev pub match_epsv : Text → Option (List Text × Text)
match_epsv s = match_bars (codes "(|||") s

abbrev pub match_two_bars : Text → Option (List Text × Text)
match_two_bars s = match_bars (codes "(||") s

-- `re.search`
unfoldable pub search_for : (Text → Option (List Text × Text)) → Text → Option (List Text)
search_for m [] = none
search_for m (c ∷ s) =
    let later = search_for m s in elim (m (c ∷ s)) [ none ↦ later | some (ns, rest) ↦ some ns ]

-- `re.sub`: the number counts what is left of a match.
unfoldable pub replace_from : (Text → Option (List Text × Text)) → Text → ℕ → Text → Text
replace_from m new k [] = []
replace_from m new (suc k) (c ∷ s) = replace_from m new k s
replace_from m new zero (c ∷ s) =
    let found = m (c ∷ s) in
    let skip = elim found as (λ o. ℕ) [ none ↦ 0 | some (ns, rest) ↦ length s - length rest ] in
    let later = replace_from m new skip s in if is_some found then new ++ later else c ∷ later

-- `int(digits)`
abbrev pub number_of : Text → ℕ
number_of ds = elim (digits 10 ds) [ none ↦ 0 | some n ↦ n ]

-- `int(match.group(5)) * 256 + int(match.group(6))`
unfoldable pub pasv_port : List Text → ℕ
pasv_port (a ∷ b ∷ c ∷ d ∷ p ∷ q ∷ more) = number_of p * 256 + number_of q
pasv_port _ = 0

abbrev pub local_octets : List Text
local_octets = codes "127" ∷ codes "0" ∷ codes "0" ∷ codes "1" ∷ []

unfoldable pub octets_of : Text → List Text
octets_of addr =
    let parts = split b'.' addr in
    if addr == codes "0.0.0.0" || addr == codes "::"
    then local_octets
    else if length parts == 4
    then parts
    else local_octets

abbrev pub comma_each : List Text → Text
comma_each [] = []
comma_each (o ∷ os) = o ++ (b',' ∷ comma_each os)

-- `new_ip_port`
unfoldable pub pasv_text : Text → ℕ → Text
unfolding octets_of
pasv_text addr port =
    b'('
    ∷ (comma_each (octets_of addr)
        ++ (decimal (port / 256) ++ (b',' ∷ (decimal (port % 256) ++ codes ")"))))

unfoldable pub epsv_text : ℕ → Text
epsv_text port = codes "(|||" ++ (decimal port ++ codes "|)")

-- The substitution with two bars comes first; where it changes nothing, the one with three does.
unfoldable pub epsv_line : Text → ℕ → Text
unfolding epsv_text replace_from
epsv_line line port =
    let two = replace_from match_two_bars (epsv_text port) 0 line in
    if two == line then replace_from match_epsv (epsv_text port) 0 line else two

module _ {S : Type 0} (open_port : ℕ → S → Option ℕ × S) (addr : Text) where
  abbrev pub with_port : (ℕ → Text) → Text → Option ℕ × S → Text × S
  with_port rewritten line (none, s) = (line, s)
  with_port rewritten line (some port, s) = (rewritten port, s)

  -- `_rewrite_pasv_response`
  unfoldable pub rewrite_pasv : Text → S → Text × S
  unfolding pasv_text replace_from
  rewrite_pasv line s = elim (search_for match_pasv line) [
    | none ↦ (line, s)
    | some ns ↦
        with_port (λ port. replace_from match_pasv (pasv_text addr port) 0 line) line
          (open_port (pasv_port ns) s)
  ]

  -- `_rewrite_epsv_response`
  unfoldable pub rewrite_epsv : Text → S → Text × S
  unfolding epsv_line
  rewrite_epsv line s = elim (search_for match_epsv line) [
    | none ↦ (line, s)
    | some [] ↦ (line, s)
    | some (n ∷ ns) ↦ with_port (epsv_line line) line (open_port (number_of n) s)
  ]

  -- What is sent for a line. A rewritten line is never empty.
  unfoldable pub rewrite_line : Text → S → Text × S
  unfolding rewrite_pasv rewrite_epsv
  rewrite_line line s =
      if has_text (codes "227 ENTERING PASSIVE MODE") (upper line)
      then rewrite_pasv line s
      else if has_text (codes "229 ENTERING EXTENDED PASSIVE MODE") (upper line)
      then rewrite_epsv line s
      else (line, s)

-- What was sent, the buffer, and the state.
abbrev pub Response : Type 0 → Type 0
Response S = Text × Text × S

module _ {S : Type 0} (rewrite : Text → S → Text × S) where
  unfoldable pub after_cut : (Text → S → Response S) → Text → S → Option (Text × Text) → Response S
  after_cut loop buf s none = ([], buf, s)
  after_cut loop buf s (some (line, rest)) =
      let (out, s1) = rewrite line s in
      let (more, left, s2) = loop rest s1 in (out ++ more, left, s2)

  -- The loop, on fuel: a line shortens the buffer, so one more than its length is enough.
  unfoldable pub response_loop : ℕ → Text → S → Response S
  unfolding after_cut
  response_loop zero buf s = ([], buf, s)
  response_loop (suc fuel) buf s = after_cut (response_loop fuel) buf s (cut_line buf)

  -- `_handle_ftp_response`, from the buffer that the connection has and the new data
  unfoldable pub handle_ftp_response : Text → Text → S → Response S
  unfolding response_loop
  handle_ftp_response buf more s = response_loop (suc (length (buf ++ more))) (buf ++ more) s

  -- The data of a connection, in the pieces that it comes in.
  unfoldable pub handle_pieces : Text → List Text → S → Response S
  unfolding handle_ftp_response
  handle_pieces buf [] s = ([], buf, s)
  handle_pieces buf (piece ∷ pieces) s =
      let (out, left, s1) = handle_ftp_response buf piece s in
      let (more, left2, s2) = handle_pieces left pieces s1 in (out ++ more, left2, s2)
