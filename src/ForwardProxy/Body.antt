-- ===== src/ForwardProxy/Body.antt =====
-- forward_proxy.py: the loop of `_handle_http` that sends the body of a request on. The stream is
-- what arrives, in the pieces that the reader has buffered when it is asked; a piece is not empty.
use frp_python.Prelude.{
  leb, if◌then◌else◌, Bool-cases, length, take, drop, take-append-drop, length-drop, length-take,
  take-append_ge, drop-append_ge, whole, All, ℕ, zero, suc, ◌-◌, ◌≤◌, ◌<◌, min, ◌≡◌, refl, sym, ap,
  ◌∙◌, inl, inr, List, [], ◌∷◌, ◌++◌, append_assoc, arith,
}
use frp_python.Protocol.Codec.{Bytes}

abbrev pub read_buf_size : ℕ
read_buf_size = 65536

-- What stays of the stream after a read of `n` bytes.
abbrev pub left_of : ℕ → Bytes → List Bytes → List Bytes
left_of n piece pieces = if leb (length piece) n then pieces else drop n piece ∷ pieces

-- The bytes that are written to the target, and the stream that is left; the fuel is at least the
-- number of bytes that remain.
unfoldable pub forward_body : ℕ → ℕ → List Bytes → Bytes × List Bytes
forward_body zero remaining pieces = ([], pieces)
forward_body (suc fuel) zero pieces = ([], pieces)
forward_body (suc fuel) (suc r) [] = ([], [])
forward_body (suc fuel) (suc r) (piece ∷ pieces) =
    let n = min read_buf_size (suc r) in
    let part = take n piece in
    let rest = forward_body fuel (suc r - length part) (left_of n piece pieces) in
    (part ++ rest.0, rest.1)

abbrev pub AreFull : List Bytes → Type 0
AreFull pieces = All (λ p. 0 < length p) pieces

take-nil : (n : ℕ) → take {A = ℕ} n [] ≡ []
take-nil zero = refl
take-nil (suc n) = refl

take_all : (n : ℕ) (xs : Bytes) → length xs ≤ n → take n xs ≡ xs
take_all n [] h = take-nil n
take_all zero (x ∷ xs) h = elim h [ ]
take_all (suc n) (x ∷ xs) h = ap (λ l. x ∷ l) (take_all n xs (omega arith))

left_of-whole :
    (n : ℕ) (piece : Bytes) (pieces : List Bytes)
    → take n piece ++ whole (left_of n piece pieces) ≡ piece ++ whole pieces
left_of-whole n piece pieces = elim (Bool-cases (leb (length piece) n)) [
  | inl all_of ↦
      let short : length piece ≤ n = ground arith in
      rw all_of (ap (λ l. l ++ whole pieces) (take_all n piece short))
  | inr part_of ↦ rw part_of (
      sym (append_assoc (take n piece) (drop n piece) (whole pieces))
      ∙ ap (λ l. l ++ whole pieces) (take-append-drop n piece))
]

left_of-AreFull :
    (n : ℕ) (piece : Bytes) (pieces : List Bytes)
    → AreFull pieces
    → AreFull (left_of n piece pieces)
left_of-AreFull n piece pieces full = elim (Bool-cases (leb (length piece) n)) [
  | inl all_of ↦ rw all_of full
  | inr part_of ↦ rw part_of (ground (arith, length-drop n piece), full)
]

-- With as much fuel as bytes remain, the loop ends by itself: of a stream of pieces that are not
-- empty it sends the first `remaining` bytes, or all of a shorter one, and leaves the others.
pub forward_body-eq-take :
    (fuel remaining : ℕ) (pieces : List Bytes)
    → AreFull pieces
    → remaining ≤ fuel
    → let r = forward_body fuel remaining pieces in
      (r.0 ≡ take remaining (whole pieces)) × (whole r.1 ≡ drop remaining (whole pieces))
unfolding forward_body
forward_body-eq-take zero zero pieces full enough = (refl, refl)
forward_body-eq-take zero (suc r) pieces full enough = elim enough [ ]
forward_body-eq-take (suc fuel) zero pieces full enough = (refl, refl)
forward_body-eq-take (suc fuel) (suc r) [] full enough = (refl, refl)
forward_body-eq-take (suc fuel) (suc r) (piece ∷ pieces) full enough =
    let n = min read_buf_size (suc r) in
    let part = take n piece in
    let left = left_of n piece pieces in
    let size : length part ≡ min n (length piece) = length-take n piece in
    let (sent, kept) =
      forward_body-eq-take fuel (suc r - length part) left (left_of-AreFull n piece pieces full.1)
        (omega (arith, full.0)) in
    let e = left_of-whole n piece pieces in
    (
      rw (sent, ← e) (sym (take-append_ge (suc r) part (whole left) (omega arith))),
      rw (← e) (kept ∙ sym (drop-append_ge (suc r) part (whole left) (omega arith))),
    )
