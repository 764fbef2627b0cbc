-- ===== src/Prelude/Dictionary.antt =====
-- Python's `dict` in insertion order: assigning an old key keeps its place.
use mathlib.Core.Path.{◌≡◌, refl}
use Prim.Native.Nat.{ℕ, suc, ◌+◌}
use mathlib.Core.Bool.{Bool}
use mathlib.Core.Option.{Option, none, some}
use mathlib.Core.List.{List, [], ◌∷◌}
use native.Mathlib.Omega.{arith}
use frp_python.Prelude.Tests.{Eq, ◌==◌, if◌then◌else◌, is_some}

abbrev pub Dict {ℓ κ} : Type ℓ → Type κ → Type (ℓ ⊔ κ)
Dict K V = List (K × V)

module _ {ℓ κ} {K : Type ℓ} ⦃e : Eq K⦄ {V : Type κ} where
  -- `d.get(k)`
  unfoldable pub lookup : K → Dict K V → Option V
  lookup k [] = none
  lookup k ((j, v) ∷ d) = if j == k then some v else lookup k d

  -- `d[k] = v`
  unfoldable pub insert : K → V → Dict K V → Dict K V
  insert k v [] = (k, v) ∷ []
  insert k v ((j, w) ∷ d) = if j == k then (j, v) ∷ d else (j, w) ∷ insert k v d

  -- `d.pop(k, None)`
  unfoldable pub erase : K → Dict K V → Dict K V
  erase k [] = []
  erase k ((j, v) ∷ d) = if j == k then erase k d else (j, v) ∷ erase k d

  -- `k in d`
  abbrev pub contains : K → Dict K V → Bool
  contains k d = is_some (lookup k d)

  pub lookup-insert :
      (k j : K) (v : V) (d : Dict K V)
      → lookup j (insert k v d) ≡ (if k == j then some v else lookup j d)
  unfolding lookup insert
  lookup-insert k j v [] = refl
  lookup-insert k j v ((i, w) ∷ d) =
      ground (arith, e.same_iff k j, e.same_iff i k, e.same_iff i j, lookup-insert k j v d)

  pub lookup-erase :
      (k j : K) (d : Dict K V) → lookup j (erase k d) ≡ (if k == j then none else lookup j d)
  unfolding lookup erase
  lookup-erase k j [] = ground arith
  lookup-erase k j ((i, w) ∷ d) =
      ground (arith, lookup-erase k j d, e.same_iff i k, e.same_iff i j, e.same_iff k j)

  pub lookup-empty : (k : K) → lookup k [] ≡ none
  unfolding lookup
  lookup-empty k = refl

-- `list(d.keys())`
abbrev pub keys {ℓ κ} : {K : Type ℓ} {V : Type κ} → Dict K V → List K
keys [] = []
keys ((k, v) ∷ d) = k ∷ keys d

pub ruleset dict_laws = (lookup-empty, lookup-insert, lookup-erase)

-- No key stands twice.
abbrev pub IsUnique {ℓ κ} : {K : Type ℓ} ⦃e : Eq K⦄ {V : Type κ} → Dict K V → Type κ
IsUnique [] = Unit
IsUnique ((k, v) ∷ d) = (lookup k d ≡ none) × IsUnique d

-- How many values have a property.
abbrev pub count_values {ℓ κ} : {K : Type ℓ} {V : Type κ} → (V → Bool) → Dict K V → ℕ
count_values p [] = 0
count_values p ((k, v) ∷ d) = if p v then suc (count_values p d) else count_values p d

module _ {ℓ κ} {K : Type ℓ} ⦃e : Eq K⦄ {V : Type κ} where
  pub insert-IsUnique : (k : K) (v : V) (d : Dict K V) → IsUnique d → IsUnique (insert k v d)
  unfolding insert
  insert-IsUnique k v [] h = (lookup-empty k, tt)
  insert-IsUnique k v ((j, w) ∷ d) h =
      ground
        (arith, e.same_iff j k, insert-IsUnique k v d h.1, lookup-insert k j v d, e.same_iff k j)

  pub erase-IsUnique : (k : K) (d : Dict K V) → IsUnique d → IsUnique (erase k d)
  unfolding erase
  erase-IsUnique k [] h = tt
  erase-IsUnique k ((j, w) ∷ d) h = ground (arith, erase-IsUnique k d h.1, lookup-erase k j d)

  pub erase_absent : (k : K) (d : Dict K V) → lookup k d ≡ none → erase k d ≡ d
  unfolding erase lookup
  erase_absent k [] h = refl
  erase_absent k ((j, w) ∷ d) h = ground (arith, erase_absent k d)

  module _ (p : V → Bool) where
    pub count_values-insert_new :
        (k : K) (v : V) (d : Dict K V)
        → lookup k d ≡ none
        → count_values p (insert k v d) ≡ count_values p d + (if p v then 1 else 0)
    unfolding insert lookup
    count_values-insert_new k v [] h = ground arith
    count_values-insert_new k v ((j, w) ∷ d) h = ground (arith, count_values-insert_new k v d)

    pub count_values-insert_old :
        (k : K) (v w : V) (d : Dict K V)
        → lookup k d ≡ some w
        → p v ≡ p w
        → count_values p (insert k v d) ≡ count_values p d
    unfolding insert lookup
    count_values-insert_old k v w [] h same = cc
    count_values-insert_old k v w ((j, u) ∷ d) h same =
        ground (arith, count_values-insert_old k v w d)

    pub count_values-erase :
        (k : K) (v : V) (d : Dict K V)
        → IsUnique d
        → lookup k d ≡ some v
        → count_values p (erase k d) + (if p v then 1 else 0) ≡ count_values p d
    unfolding erase lookup
    count_values-erase k v [] u h = cc
    count_values-erase k v ((j, w) ∷ d) u h =
        ground (arith, count_values-erase k v d u.1, erase_absent k d, e.same_iff j k)
