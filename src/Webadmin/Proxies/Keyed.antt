-- ===== src/Webadmin/Proxies/Keyed.antt =====
-- webadmin/api/routes/proxies.py: lists of proxies with names that differ.
use frp_python.Prelude.{
  if◌then◌else◌, list_beq_iff, ◌==◌, ==_refl, Bool-cases, elem, ℕ, ◌≡◌, refl, ap, ◌∙◌, inl, inr,
  Bool, true, false, some, List, [], ◌∷◌, ◌++◌, arith, nat_eq, string_eq, list_eq,
}
use frp_python.Py.Int.{pos, negsuc}
use frp_python.Py.Text.{Text}
use frp_python.Webadmin.Config.Clients.{set_key}
use frp_python.Webadmin.Config.Clients.Fitting.{IsProxy}
use frp_python.Webadmin.Config.Schema.{
  whole_float, other_float, Setting, flag, int, float, text, Members, get_member,
}
use frp_python.Webadmin.Proxies.{get_proxy, change_first, without_name}
use frp_python.Webadmin.Proxies.Checks.{name_taken, is_named}

-- The keys of names so far.
abbrev pub Keys : Type 0
Keys = List (List ℕ)

-- A proxy whose name has a key that is none of those before it.
pub record IsKeyed (seen : Keys) (p : Members) (k : List ℕ) : Type 0 where
  pub is_proxy : IsProxy p
  pub key_eq : set_key (get_member "name" p) ≡ some k
  pub is_new : elem k seen ≡ false

-- Proxies as the check of a client's configuration wants them, with names that differ.
abbrev pub AreKeyed : Keys → List Members → Type 0
AreKeyed seen [] = Unit
AreKeyed seen (p ∷ ps) = (k : List ℕ) × IsKeyed seen p k × AreKeyed (k ∷ seen) ps

-- The keys that are seen, in another order or fewer.
abbrev Within : Keys → Keys → Type 0
Within seen seen' = (k : List ℕ) → elem k seen ≡ false → elem k seen' ≡ false

more-Within : (j : List ℕ) (seen seen' : Keys) → Within seen seen' → Within (j ∷ seen) (j ∷ seen')
more-Within j seen seen' h k e = ground (arith, h k)

fewer-AreKeyed :
    (ps : List Members) (seen seen' : Keys)
    → Within seen seen'
    → AreKeyed seen ps
    → AreKeyed seen' ps
fewer-AreKeyed [] seen seen' h a = tt
fewer-AreKeyed (p ∷ ps) seen seen' h (k, e, rest) = (
  k,
  record { is_proxy = e.is_proxy; key_eq = e.key_eq; is_new = h k e.is_new },
  fewer-AreKeyed ps (k ∷ seen) (k ∷ seen') (more-Within k seen seen' h) rest,
)

-- A name that is a text has its key.
text_key : (v : Setting) (x : Text) → set_key v ≡ some (0 ∷ x) → v ≡ text x
unfolding set_key
text_key (text y) x e = cc e
text_key (int (pos n)) x e = cc e
text_key (int (negsuc n)) x e = cc e
text_key (flag b) x e = cc e
text_key (float (whole_float (pos n))) x e = cc e
text_key (float (whole_float (negsuc n))) x e = cc e
text_key (float (other_float y)) x e = cc e
text_key v x e = cc e

named_key :
    (v : Setting) (x : Text) (k : List ℕ)
    → set_key v ≡ some k
    → is_named x v ≡ false
    → (k == (0 ∷ x)) ≡ false
named_key v x k key other = elim (Bool-cases (k == (0 ∷ x))) [
  | inl same ↦
      let own : v ≡ text x = text_key v x (key ∙ ap some ((list_beq_iff k (0 ∷ x)).0 same)) in
      clash (rw own at other)
  | inr apart ↦ apart
]
  where
    clash : (x == x) ≡ false → (k == (0 ∷ x)) ≡ false
    clash e = cc (e, ==_refl x)

-- A proxy with a new name at the end.
pub append-AreKeyed :
    (x : Text) (p : Members) (ps : List Members) (seen : Keys)
    → IsProxy p
    → get_member "name" p ≡ text x
    → name_taken x ps ≡ false
    → elem (0 ∷ x) seen ≡ false
    → AreKeyed seen ps
    → AreKeyed seen (ps ++ p ∷ [])
unfolding name_taken set_key
append-AreKeyed x p [] seen good name free new a =
    (0 ∷ x, record { is_proxy = good; key_eq = rw name refl; is_new = new }, tt)
append-AreKeyed x p (q ∷ ps) seen good name free new (k, e, rest) =
    let apart : (k == (0 ∷ x)) ≡ false =
      named_key (get_member "name" q) x k e.key_eq (ground (arith, free)) in
    (k, e, append-AreKeyed x p ps (k ∷ seen) good name (ground (arith, free)) (rw apart new) rest)

later-Within : (k : List ℕ) (seen : Keys) → Within (k ∷ seen) seen
later-Within k seen j e = ground (arith, e)

-- The proxies of another name.
pub without_name-AreKeyed :
    (x : Text) (ps : List Members) (seen : Keys)
    → AreKeyed seen ps
    → AreKeyed seen (without_name x ps)
unfolding without_name
without_name-AreKeyed x [] seen a = tt
without_name-AreKeyed x (p ∷ ps) seen (k, e, rest) =
    go (is_named x (get_member "name" p)) (without_name-AreKeyed x ps (k ∷ seen) rest)
  where
    go :
        (b : Bool)
        → AreKeyed (k ∷ seen) (without_name x ps)
        → AreKeyed seen (if b then without_name x ps else p ∷ without_name x ps)
    go true a = fewer-AreKeyed (without_name x ps) (k ∷ seen) seen (later-Within k seen) a
    go false a = (k, e, a)

-- A change that leaves the name of the first proxy of a name, and a proxy.
pub change_first-AreKeyed :
    (x : Text) (f : Members → Members) (ps : List Members) (seen : Keys)
    → ((q : Members)
        → get_proxy x ps ≡ some q
        → IsProxy q
        → IsProxy (f q) × (get_member "name" (f q) ≡ get_member "name" q))
    → AreKeyed seen ps
    → AreKeyed seen (change_first x f ps)
unfolding change_first get_proxy
change_first-AreKeyed x f [] seen h a = tt
change_first-AreKeyed x f (p ∷ ps) seen h (k, e, rest) =
    elim (Bool-cases (is_named x (get_member "name" p))) [
      | inl here ↦
          let (good, same) = h p (rw here refl) e.is_proxy in
          rw here (
            k,
            record { is_proxy = good; key_eq = ap set_key same ∙ e.key_eq; is_new = e.is_new },
            rest,
          )
      | inr later ↦
          rw later
            (k, e, change_first-AreKeyed x f ps (k ∷ seen) (λ q g i. h q (rw later g) i) rest)
    ]
