-- ===== src/ForwardProxy/Headers/Rewritten.antt =====
-- forward_proxy.py: the headers that `_rewrite_headers` sends to the target.
use frp_python.Prelude.{
  nat_beq, if◌then◌else◌, ◌==◌, Bool-cases, is_nil, All, any, All-append, ℕ, zero, suc, ◌+◌, ◌/◌,
  ◌%◌, ◌≡◌, refl, ◌∙◌, ◌⊎◌, inl, inr, Bool, true, false, ◌&&◌, ◌||◌, not, List, [], ◌∷◌, ◌++◌,
  append-nil, arith, nat_eq, string_eq, list_eq,
}
use frp_python.ForwardProxy.Headers.{
  is_skipped, is_host, kept_lines, has_host, sent_lines, host_line, rewrite_headers, host_value,
}
use frp_python.Py.Lines.{split_crlf, IsLine, cr, unlines, split_crlf-unlines}
use frp_python.Py.Text.{Text, starts_with, lower_char, lower}
use frp_python.Py.Words.{decimal_onto, decimal}

-- The lines that are sent on as they are.
abbrev pub is_other : Text → Bool
is_other line = not (is_nil line || is_skipped line) && not (is_host line)

abbrev pub others : List Text → List Text
others [] = []
others (line ∷ lines) = if is_other line then line ∷ others lines else others lines

-- A line is no host line, or it is the one given.
abbrev pub IsOwnHost : Text → Text → Type 0
IsOwnHost host_text l = (is_host l ≡ false) ⊎ (l ≡ host_text)

-- The lines `out` that are sent for the lines `ls`.
pub record IsRewritten (host_text : Text) (ls out : List Text) : Type 0 where
  pub no_credentials : All (λ l. is_skipped l ≡ false) out
  pub own_host : All (IsOwnHost host_text) out
  pub names_host : any is_host out ≡ true
  pub same_others : others out ≡ others ls

module _ (h : Text) (h_host : is_host h ≡ true) (h_sent : (is_nil h || is_skipped h) ≡ false) where
  kept-no_credentials : (ls : List Text) → All (λ l. is_skipped l ≡ false) (kept_lines h ls)
  unfolding kept_lines
  kept-no_credentials [] = tt
  kept-no_credentials (l ∷ ls) = ground (arith, kept-no_credentials ls)

  kept-IsOwnHost : (ls : List Text) → All (IsOwnHost h) (kept_lines h ls)
  unfolding kept_lines
  kept-IsOwnHost [] = tt
  kept-IsOwnHost (l ∷ ls) = elim (Bool-cases (is_nil l || is_skipped l)) [
    | inl out ↦ rw out (kept-IsOwnHost ls)
    | inr sent ↦ elim (Bool-cases (is_host l)) [
      | inl host ↦ rw (sent, host) (inr refl, kept-IsOwnHost ls)
      | inr other ↦ rw (sent, other) (inl other, kept-IsOwnHost ls)
    ]
  ]

  kept-names_host : (ls : List Text) → any is_host (kept_lines h ls) ≡ has_host ls
  unfolding kept_lines has_host
  kept-names_host [] = refl
  kept-names_host (l ∷ ls) = ground (arith, kept-names_host ls)

  kept-others : (ls : List Text) → others (kept_lines h ls) ≡ others ls
  unfolding kept_lines
  kept-others [] = refl
  kept-others (l ∷ ls) = ground (arith, kept-others ls)

kept_lines-IsLine :
    (h : Text) (ls : List Text) → All IsLine ls → IsLine h → All IsLine (kept_lines h ls)
unfolding kept_lines
kept_lines-IsLine h [] ok k = tt
kept_lines-IsLine h (l ∷ ls) ok k = ground (arith, kept_lines-IsLine h ls ok.1 k)

any-append : (p : Text → Bool) (xs ys : List Text) → any p (xs ++ ys) ≡ (any p xs || any p ys)
any-append p [] ys = refl
any-append p (x ∷ xs) ys = ground (arith, any-append p xs ys)

others-append : (xs ys : List Text) → others (xs ++ ys) ≡ others xs ++ others ys
others-append [] ys = refl
others-append (x ∷ xs) ys = ground (arith, others-append xs ys)

-- What the loop and the line that it may add make of any lines.
sent-IsRewritten :
    (h : Text) (ls : List Text)
    → is_host h ≡ true
    → (is_nil h || is_skipped h) ≡ false
    → IsRewritten h ls (sent_lines h ls)
sent-IsRewritten h ls host sent = elim (Bool-cases (has_host ls)) [
  | inl had ↦
      rw (had, append-nil (kept_lines h ls))
        (record {
          no_credentials = kept-no_credentials h host sent ls;
          own_host = kept-IsOwnHost h host sent ls;
          names_host = kept-names_host h host sent ls ∙ had;
          same_others = kept-others h host sent ls;
        })
  | inr missing ↦ rw missing (record {
    no_credentials =
        All-append (λ l. is_skipped l ≡ false) (kept_lines h ls) (h ∷ [])
          (kept-no_credentials h host sent ls) (ground arith, tt);
    own_host =
        All-append (IsOwnHost h) (kept_lines h ls) (h ∷ []) (kept-IsOwnHost h host sent ls)
          (inr refl, tt);
    names_host = ground (arith, any-append is_host (kept_lines h ls) (h ∷ []));
    same_others = ground (
      arith,
      others-append (kept_lines h ls) (h ∷ []),
      kept-others h host sent ls,
      append-nil (others ls),
    );
  })
]

decimal_onto-IsLine : (fuel n : ℕ) (out : Text) → IsLine out → IsLine (decimal_onto fuel n out)
unfolding decimal_onto
decimal_onto-IsLine zero n out h = h
decimal_onto-IsLine (suc fuel) n out h =
    let digit : nat_beq (48 + n % 10) cr ≡ false = ground arith in
    ground (arith, digit, decimal_onto-IsLine fuel (n / 10) ((48 + n % 10) ∷ out) (digit, h))

host_value-IsLine : (host : Text) (port : ℕ) → IsLine host → IsLine (host_value host port)
host_value-IsLine host port h = elim (Bool-cases (port == 80)) [
  | inl web ↦ rw web h
  | inr other ↦
      let ds : IsLine (decimal port) =
        unfold decimal in decimal_onto-IsLine (suc port) port [] tt in
      rw other (All-append (λ c. nat_beq c cr ≡ false) host (b':' ∷ decimal port) h (refl, ds))
]

host_line-IsLine : (host : Text) (port : ℕ) → IsLine host → IsLine (host_line host port)
unfolding host_line
host_line-IsLine host port h =
    (refl, (refl, (refl, (refl, (refl, (refl, host_value-IsLine host port h))))))

host_line-is_host :
    (host : Text) (port : ℕ)
    → (is_host (host_line host port) ≡ true)
      × ((is_nil (host_line host port) || is_skipped (host_line host port)) ≡ false)
unfolding host_line starts_with lower lower_char
host_line-is_host host port = (refl, refl)

sent-lines : (h : Text) (ls : List Text) → All IsLine ls → IsLine h → All IsLine (sent_lines h ls)
sent-lines h ls ok k = elim (Bool-cases (has_host ls)) [
  | inl had ↦ rw (had, append-nil (kept_lines h ls)) (kept_lines-IsLine h ls ok k)
  | inr missing ↦
      rw missing
        (All-append IsLine (kept_lines h ls) (h ∷ []) (kept_lines-IsLine h ls ok k) (k, tt))
]

-- The head of a request whose lines have no carriage return, for a host without one: what is sent
-- on are lines again; none of them is an authorization or a connection header of the proxy, there
-- is a host line, every host line names the target, and the other lines are the same, in order.
pub rewrite_headers-IsRewritten :
    (host : Text) (port : ℕ) (ls : List Text)
    → All IsLine ls
    → IsLine host
    → (out : List Text) × (split_crlf (rewrite_headers host port (unlines ls)) ≡ out ++ [] ∷ [])
      × IsRewritten (host_line host port) ls out
unfolding rewrite_headers
rewrite_headers-IsRewritten host port ls ok k =
    let h = host_line host port in
    let out = sent_lines h (ls ++ [] ∷ []) in
    let lines : All IsLine (ls ++ [] ∷ []) = All-append IsLine ls ([] ∷ []) ok (tt, tt) in
    let r =
      sent-IsRewritten h (ls ++ [] ∷ []) ((host_line-is_host host port).0)
        ((host_line-is_host host port).1) in
    rw (split_crlf-unlines ls ok) (
      out,
      split_crlf-unlines out (sent-lines h (ls ++ [] ∷ []) lines (host_line-IsLine host port k)),
      record {
        no_credentials = r.no_credentials;
        own_host = r.own_host;
        names_host = r.names_host;
        same_others = r.same_others ∙ (others-append ls ([] ∷ []) ∙ append-nil (others ls));
      },
    )
