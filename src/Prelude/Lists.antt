-- ===== src/Prelude/Lists.antt =====
-- Lists measured by native numbers, under the library's names, and predicates by recursion.
use Prim.Native.Nat.{ℕ, zero, suc, ◌+◌, ◌-◌, ◌≤◌, min}
use mathlib.Core.Path.{◌≡◌, refl, ap, ◌∙◌, sym}
use mathlib.Core.Bool.{Bool, true, false, ◌&&◌, ◌||◌}
use mathlib.Core.List.{List, [], ◌∷◌, ◌++◌}
use native.Mathlib.Omega.{arith}
use frp_python.Prelude.Tests.{Eq, ◌==◌}

module _ {ℓ} {A : Type ℓ} where
  abbrev pub length : List A → ℕ
  length [] = 0
  length (x ∷ xs) = suc (length xs)

  abbrev pub take : ℕ → List A → List A
  take zero xs = []
  take (suc n) [] = []
  take (suc n) (x ∷ xs) = x ∷ take n xs

  abbrev pub drop : ℕ → List A → List A
  drop zero xs = xs
  drop (suc n) [] = []
  drop (suc n) (x ∷ xs) = drop n xs

module _ {ℓ} {A : Type ℓ} where
  pub length-append : (xs ys : List A) → length (xs ++ ys) ≡ length xs + length ys
  length-append [] ys = omega arith
  length-append (x ∷ xs) ys = omega (arith, length-append xs ys)

  pub take-append-drop : (n : ℕ) (xs : List A) → take n xs ++ drop n xs ≡ xs
  take-append-drop zero xs = refl
  take-append-drop (suc n) [] = refl
  take-append-drop (suc n) (x ∷ xs) = ap (λ l. x ∷ l) (take-append-drop n xs)

  pub take-append : (xs ys : List A) → take (length xs) (xs ++ ys) ≡ xs
  take-append [] ys = refl
  take-append (x ∷ xs) ys = ap (λ l. x ∷ l) (take-append xs ys)

  pub drop-append : (xs ys : List A) → drop (length xs) (xs ++ ys) ≡ ys
  drop-append [] ys = refl
  drop-append (x ∷ xs) ys = drop-append xs ys

  pub length-drop : (n : ℕ) (xs : List A) → length (drop n xs) ≡ length xs - n
  length-drop zero xs = omega arith
  length-drop (suc n) [] = omega arith
  length-drop (suc n) (x ∷ xs) = omega (arith, length-drop n xs)

  pub length-take : (n : ℕ) (xs : List A) → length (take n xs) ≡ min n (length xs)
  length-take zero xs = omega arith
  length-take (suc n) [] = omega arith
  length-take (suc n) (x ∷ xs) = omega (arith, length-take n xs)

drop-nil {ℓ} : {A : Type ℓ} (n : ℕ) → drop {A = A} n [] ≡ []
drop-nil zero = refl
drop-nil (suc n) = refl

pub drop-drop {ℓ} : {A : Type ℓ} (i j : ℕ) (xs : List A) → drop j (drop i xs) ≡ drop (i + j) xs
drop-drop zero j xs = let e : j ≡ 0 + j = omega arith in ap (λ k. drop k xs) e
drop-drop (suc i) j [] = drop-nil j ∙ sym (drop-nil (suc i + j))
drop-drop (suc i) j (x ∷ xs) =
    let e : suc (i + j) ≡ suc i + j = omega arith in drop-drop i j xs ∙ ap (λ k. drop k (x ∷ xs)) e

pub drop-append_le {ℓ} :
    {A : Type ℓ} (k : ℕ) (xs ys : List A) → k ≤ length xs → drop k (xs ++ ys) ≡ drop k xs ++ ys
drop-append_le zero xs ys h = refl
drop-append_le (suc k) [] ys h = elim h [ ]
drop-append_le (suc k) (x ∷ xs) ys h = drop-append_le k xs ys (omega arith)

pub take-append_ge {ℓ} :
    {A : Type ℓ} (n : ℕ) (front back : List A)
    → length front ≤ n
    → take n (front ++ back) ≡ front ++ take (n - length front) back
take-append_ge n [] back h = let e : n ≡ n - 0 = omega arith in ap (λ k. take k back) e
take-append_ge zero (a ∷ front) back h = elim h [ ]
take-append_ge (suc n) (a ∷ front) back h =
    ap (λ l. a ∷ l) (take-append_ge n front back (omega arith))
    ∙ (let e : n - length front ≡ suc n - suc (length front) = omega arith in
        ap (λ k. a ∷ (front ++ take k back)) e)

pub drop-append_ge {ℓ} :
    {A : Type ℓ} (n : ℕ) (front back : List A)
    → length front ≤ n
    → drop n (front ++ back) ≡ drop (n - length front) back
drop-append_ge n [] back h = let e : n ≡ n - 0 = omega arith in ap (λ k. drop k back) e
drop-append_ge zero (a ∷ front) back h = elim h [ ]
drop-append_ge (suc n) (a ∷ front) back h =
    let e : n - length front ≡ suc n - suc (length front) = omega arith in
    drop-append_ge n front back (omega arith) ∙ ap (λ k. drop k back) e

-- The pieces of a list, put together.
abbrev pub whole {ℓ} : {A : Type ℓ} → List (List A) → List A
whole [] = []
whole (piece ∷ pieces) = piece ++ whole pieces

-- What holds of every entry.
abbrev pub All {ℓ κ} : {V : Type ℓ} (Q : V → Type κ) → List V → Type κ
All Q [] = Unit
All Q (v ∷ vs) = Q v × All Q vs

abbrev pub all {ℓ} : {A : Type ℓ} → (A → Bool) → List A → Bool
all p [] = true
all p (x ∷ xs) = p x && all p xs

abbrev pub any {ℓ} : {A : Type ℓ} → (A → Bool) → List A → Bool
any p [] = false
any p (x ∷ xs) = p x || any p xs

-- `x in xs`
abbrev pub elem {ℓ} : {A : Type ℓ} ⦃e : Eq A⦄ → A → List A → Bool
elem a [] = false
elem a (x ∷ xs) = x == a || elem a xs

pub All-append {ℓ κ} :
    {V : Type ℓ} (Q : V → Type κ) (front back : List V)
    → All Q front
    → All Q back
    → All Q (front ++ back)
All-append Q [] back h k = k
All-append Q (v ∷ front) back (q, h) k = (q, All-append Q front back h k)

pub All-take {ℓ κ} :
    {A : Type ℓ} (P : A → Type κ) (n : ℕ) (xs : List A) → All P xs → All P (take n xs)
All-take P zero xs h = tt
All-take P (suc n) [] h = tt
All-take P (suc n) (x ∷ xs) h = (h.0, All-take P n xs h.1)

pub All-drop {ℓ κ} :
    {A : Type ℓ} (P : A → Type κ) (n : ℕ) (xs : List A) → All P xs → All P (drop n xs)
All-drop P zero xs h = h
All-drop P (suc n) [] h = tt
All-drop P (suc n) (x ∷ xs) h = All-drop P n xs h.1

pub All-mono {ℓ κ μ} :
    {A : Type ℓ} {P : A → Type κ} {Q : A → Type μ} (imp : (a : A) → P a → Q a) (xs : List A)
    → All P xs
    → All Q xs
All-mono imp [] h = tt
All-mono imp (x ∷ xs) h = (imp x h.0, All-mono imp xs h.1)
