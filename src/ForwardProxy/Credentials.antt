-- ===== src/ForwardProxy/Credentials.antt =====
-- forward_proxy.py: the credentials that `_check_auth` lets in.
use frp_python.Prelude.{
  nat_beq, nat_beq_iff, list_beq_iff, ◌==◌, Bool-cases, is_nil, codes, drop, ℕ, ◌≡◌, refl, sym, ap,
  inl, inr, Bool, true, false, ◌&&◌, Option, none, some, List, [], ◌∷◌, ◌++◌, arith, nat_eq,
  string_eq, list_eq,
}
use frp_python.ForwardProxy.Headers.{
  is_byte_space, has_name, value_of, Base64, is_pair, check_decoded, check_lines,
}
use frp_python.Py.Text.{Text, strip, split_first}
use frp_python.Py.Words.{partition}

and_left : (a b : Bool) → (a && b) ≡ true → a ≡ true
and_left a b h = ground arith

and_right : (a b : Bool) → (a && b) ≡ true → b ≡ true
and_right a b h = ground arith

split_first-whole : (sep : ℕ) (s u p : Text) → split_first sep s ≡ some (u, p) → s ≡ u ++ sep ∷ p
unfolding split_first
split_first-whole sep [] u p e = cc e
split_first-whole sep (c ∷ s) u p e = elim (Bool-cases (nat_beq c sep)) [
  | inl here ↦ first ((nat_beq_iff c sep).0 here) (rw here at e)
  | inr further ↦
      later (λ a b. split_first-whole sep s a b) (split_first sep s) refl (rw further at e)
]
  where
    first :
        c ≡ sep → ◌≡◌ {A = Option (Text × Text)} (some ([], s)) (some (u, p)) → c ∷ s ≡ u ++ sep ∷ p
    first same k = cc

    later :
        ((a b : Text) → split_first sep s ≡ some (a, b) → s ≡ a ++ sep ∷ b)
        → (o : Option (Text × Text)) → split_first sep s ≡ o
        → ◌≡◌ {A = Option (Text × Text)}
            (elim o [ none ↦ none | some (a, b) ↦ some (c ∷ a, b) ])
            (some (u, p))
        → c ∷ s ≡ u ++ sep ∷ p
    later ih none k f = cc f
    later ih (some (a, b)) k f = let tail : s ≡ a ++ sep ∷ b = ih a b k in cc (f, tail)

-- The decoded credentials are the user and the password with a colon between.
decoded-IsPair :
    (user pass : Text) (o : Option Text)
    → is_nil pass ≡ false
    → check_decoded user pass o ≡ true
    → o ≡ some (user ++ b':' ∷ pass)
unfolding check_decoded partition
decoded-IsPair user pass none filled e = cc e
decoded-IsPair user pass (some s) filled e = go (split_first b':' s) refl e
  where
    go :
        (o : Option (Text × Text))
        → split_first b':' s ≡ o
        → is_pair user pass (elim o [ none ↦ (s, []) | some parts ↦ parts ]) ≡ true
        → some s ≡ some (user ++ b':' ∷ pass)
    go none k h =
        let no_pass : pass ≡ [] = sym ((list_beq_iff [] pass).0 (and_right (s == user) _ h)) in
        cc (rw no_pass at filled)
    go (some (u, p)) k h =
        let same_user : u ≡ user = (list_beq_iff u user).0 (and_left (u == user) (p == pass) h) in
        let same_pass : p ≡ pass = (list_beq_iff p pass).0 (and_right (u == user) (p == pass) h) in
        rw (← same_user, ← same_pass) (ap some (split_first-whole b':' s u p k))

-- Among the lines there is a Proxy-Authorization of the Basic scheme, and what it holds decodes to
-- the user, a colon and the password.
pub record HoldCredentials (lib : Base64) (user pass : Text) (lines : List Text) : Type 0 where
  pub before : List Text
  pub line : Text
  pub after : List Text
  pub lines_eq : lines ≡ before ++ line ∷ after
  pub is_auth : has_name (codes "proxy-authorization:") line ≡ true
  pub is_basic : has_name (codes "basic ") (value_of line) ≡ true
  pub decodes :
      lib.b64decode (strip is_byte_space (drop 6 (value_of line))) ≡ some (user ++ b':' ∷ pass)

pub check_lines-HoldCredentials :
    (lib : Base64) (user pass : Text) (lines : List Text)
    → is_nil pass ≡ false
    → check_lines lib user pass lines ≡ true
    → HoldCredentials lib user pass lines
unfolding check_lines
check_lines-HoldCredentials lib user pass [] filled e = cc e
check_lines-HoldCredentials lib user pass (line ∷ lines) filled e =
    let auth = has_name (codes "proxy-authorization:") line in
    let basic = has_name (codes "basic ") (value_of line) in
    elim (Bool-cases (auth && basic)) [
      | inl here ↦ record {
        before = [];
        line = line;
        after = lines;
        lines_eq = refl;
        is_auth = and_left auth basic here;
        is_basic = and_right auth basic here;
        decodes = decoded-IsPair user pass _ filled (rw here at e);
      }
      | inr not_here ↦
          let h = check_lines-HoldCredentials lib user pass lines filled (rw not_here at e) in
          record {
            before = line ∷ h.before;
            line = h.line;
            after = h.after;
            lines_eq = ap (λ ls. line ∷ ls) h.lines_eq;
            is_auth = h.is_auth;
            is_basic = h.is_basic;
            decodes = h.decodes;
          }
    ]
