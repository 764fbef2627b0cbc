-- ===== src/Webadmin/Config/Clients/Equal.antt =====
-- webadmin/api/config_manager.py: which names a set takes as one, by what Python takes as equal.
use frp_python.Prelude.{
  if◌then◌else◌, ◌==◌, ℕ, ◌≡◌, refl, sym, ap, ◌∙◌, subst, ◌↔◌, ◌⊎◌, inl, inr, Bool, true, false,
  Option, none, some, List, [], ◌∷◌, nat_eq, string_eq, list_eq,
}
use frp_python.Py.Int.{ℤ, pos, negsuc}
use frp_python.Webadmin.Config.Clients.{set_key}
use frp_python.Webadmin.Config.Schema.{
  Setting, null, flag, int, float, text, array, object, whole_float, other_float,
}

-- The integer that a value is equal to, if any.
unfoldable pub integer_of : Setting → Option ℤ
integer_of (flag b) = some (pos (if b then 1 else 0))
integer_of (int z) = some z
integer_of (float (whole_float z)) = some z
integer_of v = none

-- `v == u` in Python, for values that a set can hold: the same value, or numbers of one integer.
abbrev pub AreEqual : Setting → Setting → Type 0
AreEqual v u = (v ≡ u) ⊎ ((z : ℤ) × (integer_of v ≡ some z) × (integer_of u ≡ some z))

-- What a set can hold: no list and no object.
unfoldable pub is_hashable : Setting → Bool
is_hashable (array vs) = false
is_hashable (object ms) = false
is_hashable v = true

abbrev first : List ℕ → ℕ
first [] = 0
first (n ∷ x) = n

-- A value of a key.
unfoldable canonical : List ℕ → Setting
canonical [] = null
canonical (t ∷ x) =
    if t == 0
    then text x
    else if t == 1
    then int (pos (first x))
    else if t == 2
    then int (negsuc (first x))
    else float (other_float x)

some-injective : {A : Type 0} {a b : A} → some a ≡ some b → a ≡ b
some-injective e = cc e

canonical-AreEqual : (v : Setting) (k : List ℕ) → set_key v ≡ some k → AreEqual v (canonical k)
unfolding set_key canonical integer_of
canonical-AreEqual null k e = subst (λ k. AreEqual null (canonical k)) (some-injective e) (inl refl)
canonical-AreEqual (text x) k e =
    subst (λ k. AreEqual (text x) (canonical k)) (some-injective e) (inl refl)
canonical-AreEqual (int (pos n)) k e =
    subst (λ k. AreEqual (int (pos n)) (canonical k)) (some-injective e) (inl refl)
canonical-AreEqual (int (negsuc n)) k e =
    subst (λ k. AreEqual (int (negsuc n)) (canonical k)) (some-injective e) (inl refl)
canonical-AreEqual (flag b) k e =
    subst (λ k. AreEqual (flag b) (canonical k)) (some-injective e) (inr (_, refl, refl))
canonical-AreEqual (float (whole_float (pos n))) k e =
    subst (λ k. AreEqual (float (whole_float (pos n))) (canonical k)) (some-injective e)
      (inr (_, refl, refl))
canonical-AreEqual (float (whole_float (negsuc n))) k e =
    subst (λ k. AreEqual (float (whole_float (negsuc n))) (canonical k)) (some-injective e)
      (inr (_, refl, refl))
canonical-AreEqual (float (other_float x)) k e =
    subst (λ k. AreEqual (float (other_float x)) (canonical k)) (some-injective e) (inl refl)
canonical-AreEqual (array vs) k e = cc e
canonical-AreEqual (object ms) k e = cc e

joined-AreEqual : (v u c : Setting) → AreEqual v c → AreEqual u c → AreEqual v u
joined-AreEqual v u c (inl p) (inl q) = inl (p ∙ sym q)
joined-AreEqual v u c (inl p) (inr (z, a, b)) = inr (z, ap integer_of p ∙ b, a)
joined-AreEqual v u c (inr (z, a, b)) (inl q) = inr (z, a, ap integer_of q ∙ b)
joined-AreEqual v u c (inr (z, a, b)) (inr (w, p, q)) = inr (z, a, p ∙ sym q ∙ b)

abbrev key_of_number : ℤ → List ℕ
key_of_number (pos n) = 1 ∷ n ∷ []
key_of_number (negsuc n) = 2 ∷ n ∷ []

set_key-number : (v : Setting) (z : ℤ) → integer_of v ≡ some z → set_key v ≡ some (key_of_number z)
unfolding set_key integer_of
set_key-number (flag b) z e =
    subst (λ z. set_key (flag b) ≡ some (key_of_number z)) (some-injective e) refl
set_key-number (int (pos n)) z e = ap (λ z. some (key_of_number z)) (some-injective e)
set_key-number (int (negsuc n)) z e = ap (λ z. some (key_of_number z)) (some-injective e)
set_key-number (float (whole_float (pos n))) z e =
    ap (λ z. some (key_of_number z)) (some-injective e)
set_key-number (float (whole_float (negsuc n))) z e =
    ap (λ z. some (key_of_number z)) (some-injective e)
set_key-number (float (other_float x)) z e = cc e
set_key-number v z e = cc e

-- Two values have one key exactly when they are equal.
pub set_key_iff :
    (v u : Setting) (k l : List ℕ)
    → set_key v ≡ some k
    → set_key u ≡ some l
    → (k ≡ l) ↔ AreEqual v u
set_key_iff v u k l e f = (
  (λ same.
      joined-AreEqual v u (canonical k) (canonical-AreEqual v k e)
        (canonical-AreEqual u k (f ∙ ap some (sym same)))),
  back,
)
  where
    back : AreEqual v u → k ≡ l
    back (inl p) = some-injective (sym e ∙ (ap set_key p ∙ f))
    back (inr (z, a, b)) =
        some-injective (sym e ∙ (set_key-number v z a ∙ (sym (set_key-number u z b) ∙ f)))

-- What can be in a set has a key.
pub hashable-set_key : (v : Setting) → is_hashable v ≡ true → (k : List ℕ) × (set_key v ≡ some k)
unfolding is_hashable set_key
hashable-set_key null h = (_, refl)
hashable-set_key (flag b) h = (_, refl)
hashable-set_key (int (pos n)) h = (_, refl)
hashable-set_key (int (negsuc n)) h = (_, refl)
hashable-set_key (float (whole_float (pos n))) h = (_, refl)
hashable-set_key (float (whole_float (negsuc n))) h = (_, refl)
hashable-set_key (float (other_float x)) h = (_, refl)
hashable-set_key (text x) h = (_, refl)
hashable-set_key (array vs) h = cc h
hashable-set_key (object ms) h = cc h

pub set_key-hashable : (v : Setting) (k : List ℕ) → set_key v ≡ some k → is_hashable v ≡ true
unfolding is_hashable set_key
set_key-hashable (array vs) k e = cc e
set_key-hashable (object ms) k e = cc e
set_key-hashable v k e = refl
