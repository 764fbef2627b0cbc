-- ===== src/Py/Bytes.antt =====
-- Integers as big-endian bytes, and bytes as hexadecimal text.
use frp_python.Prelude.{
  ltb, if◌then◌else◌, length, All, ℕ, zero, suc, ◌+◌, ◌*◌, ◌/◌, ◌%◌, ◌^◌, ◌<◌, ◌≡◌, refl, ap, ◌∙◌,
  List, [], ◌∷◌, arith,
}
use frp_python.Py.Text.{Text}

abbrev pub IsByte : ℕ → Type 0
IsByte b = b < 256

abbrev pub AreBytes : List ℕ → Type 0
AreBytes bs = All IsByte bs

unfoldable pub rev_onto : List ℕ → List ℕ → List ℕ
rev_onto [] out = out
rev_onto (x ∷ xs) out = rev_onto xs (x ∷ out)

unfoldable pub to_le : ℕ → ℕ → List ℕ
to_le zero n = []
to_le (suc k) n = (n % 256) ∷ to_le k (n / 256)

-- `n.to_bytes(k, "big")` for `n` below 256 ^ k
unfoldable pub to_be : ℕ → ℕ → List ℕ
unfolding to_le rev_onto
to_be k n = rev_onto (to_le k n) []

-- `int.from_bytes(bs, "big")`, over what has been read
unfoldable pub of_be_from : ℕ → List ℕ → ℕ
of_be_from n [] = n
of_be_from n (b ∷ bs) = of_be_from (n * 256 + b) bs

unfoldable pub of_be : List ℕ → ℕ
unfolding of_be_from
of_be bs = of_be_from 0 bs

of_le : List ℕ → ℕ
of_le [] = 0
of_le (b ∷ bs) = b + 256 * of_le bs

of_be_from-of_le : (out bs : List ℕ) → of_be_from (of_le out) bs ≡ of_le (rev_onto bs out)
unfolding of_be_from of_le rev_onto
of_be_from-of_le out [] = refl
of_be_from-of_le out (b ∷ bs) =
    ap (λ n. of_be_from n bs) (omega arith) ∙ of_be_from-of_le (b ∷ out) bs

to_le-of_le : (bs : List ℕ) → AreBytes bs → to_le (length bs) (of_le bs) ≡ bs
unfolding to_le of_le
to_le-of_le [] h = refl
to_le-of_le (b ∷ bs) h =
    let low : (b + 256 * of_le bs) % 256 ≡ b = omega arith in
    let high : (b + 256 * of_le bs) / 256 ≡ of_le bs = omega arith in
    cc (low, ap (to_le (length bs)) high, to_le-of_le bs h.1)

rev_onto_twice : (xs out : List ℕ) → rev_onto (rev_onto xs out) [] ≡ rev_onto out xs
unfolding rev_onto
rev_onto_twice [] out = refl
rev_onto_twice (x ∷ xs) out = rev_onto_twice xs (x ∷ out)

length-rev_onto : (xs out : List ℕ) → length (rev_onto xs out) ≡ length xs + length out
unfolding rev_onto
length-rev_onto [] out = omega arith
length-rev_onto (x ∷ xs) out = omega (arith, length-rev_onto xs (x ∷ out))

rev_onto-AreBytes : (xs out : List ℕ) → AreBytes xs → AreBytes out → AreBytes (rev_onto xs out)
unfolding rev_onto
rev_onto-AreBytes [] out h k = k
rev_onto-AreBytes (x ∷ xs) out h k = rev_onto-AreBytes xs (x ∷ out) h.1 (h.0, k)

length-to_le : (k n : ℕ) → length (to_le k n) ≡ k
unfolding to_le
length-to_le zero n = refl
length-to_le (suc k) n = ap suc (length-to_le k (n / 256))

pub length-to_be : (k n : ℕ) → length (to_be k n) ≡ k
unfolding to_be
length-to_be k n = omega (arith, length-rev_onto (to_le k n) [], length-to_le k n)

-- Reading bytes as a number and writing it with as many bytes gives the bytes again.
pub to_be-of_be : (bs : List ℕ) → AreBytes bs → to_be (length bs) (of_be bs) ≡ bs
unfolding to_be of_be rev_onto of_le
to_be-of_be bs h =
    let back = rev_onto bs [] in
    let e : of_be_from 0 bs ≡ of_le back = of_be_from-of_le [] bs in
    let n : length bs ≡ length back = omega (arith, length-rev_onto bs []) in
    let f : to_le (length back) (of_le back) ≡ back =
      to_le-of_le back (rev_onto-AreBytes bs [] h tt) in
    rw (e, n, f) (rev_onto_twice bs [])

-- A number of 32 bits and its four bytes.
pub of_be-to_be_four : (n : ℕ) → n < 2 ^ 32 → of_be (to_be 4 n) ≡ n
unfolding of_be to_be
of_be-to_be_four n h = omega arith

-- `"%02x" % b`
unfoldable pub hex_digit : ℕ → ℕ
hex_digit d = if ltb d 10 then d + 48 else d + 87

unfoldable pub hexlify : List ℕ → Text
unfolding hex_digit
hexlify [] = []
hexlify (b ∷ bs) = hex_digit (b / 16) ∷ hex_digit (b % 16) ∷ hexlify bs

pub length-hexlify : (bs : List ℕ) → length (hexlify bs) ≡ 2 * length bs
unfolding hexlify
length-hexlify [] = omega arith
length-hexlify (b ∷ bs) = omega (arith, length-hexlify bs)
