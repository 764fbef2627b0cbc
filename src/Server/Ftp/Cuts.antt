-- ===== src/Server/Ftp/Cuts.antt =====
-- frps.py: the answers of an FTP server, in whatever pieces they arrive.
use frp_python.Prelude.{
  nat_beq, Bool-cases, Option-cases, length, whole, ℕ, zero, suc, ◌<◌, ◌≡◌, refl, sym, ap, ◌∙◌, inl,
  inr, ◌&&◌, Option, none, some, List, [], ◌∷◌, ◌++◌, append-nil, append_assoc, arith,
}
use frp_python.Py.Lines.{cr, lf}
use frp_python.Py.Text.{Text}
use frp_python.Server.Ftp.{
  Response, add_front, cut_line, after_cut, response_loop, handle_ftp_response, handle_pieces,
}

-- A line that is cut off shortens the text, and is the same when more follows.
abbrev IsCut : Text → Text → Text → Text → Type 0
IsCut b d line rest = (cut_line (b ++ d) ≡ some (line, rest ++ d)) × (length rest < length b)

add_front-some :
    (c : ℕ) (o : Option (Text × Text)) (line rest : Text)
    → add_front c o ≡ some (line, rest)
    → (l : Text) × (o ≡ some (l, rest)) × (line ≡ c ∷ l)
unfolding add_front
add_front-some c none line rest e = cc
add_front-some c (some (l, r)) line rest e =
    let same : r ≡ rest = cc in (l, ap (λ x. some (l, x)) same, cc)

cut_line-IsCut : (b d line rest : Text) → cut_line b ≡ some (line, rest) → IsCut b d line rest
unfolding cut_line add_front
cut_line-IsCut [] d line rest e = cc
cut_line-IsCut (c ∷ []) d line rest e = cc
cut_line-IsCut (c ∷ a ∷ s) d line rest e = elim (Bool-cases (nat_beq c cr && nat_beq a lf)) [
  | inl end ↦
      let f : ◌≡◌ {A = Option (Text × Text)} (some (c ∷ a ∷ [], s)) (some (line, rest)) =
        rw end at e in
      let e1 : c ∷ a ∷ [] ≡ line = cc in
      let e2 : s ≡ rest = cc in (rw (end, ← e1, ← e2) refl, rw (← e2) (omega arith))
  | inr inside ↦
      let (l, f, g) = add_front-some c (cut_line (a ∷ s)) line rest (rw inside at e) in
      let (later, less) = cut_line-IsCut (a ∷ s) d l rest f in
      (rw (inside, later, g) refl, omega arith)
]

module _ {S : Type 0} (rewrite : Text → S → Text × S) where
  fuel_enough :
      (f g : ℕ) (b : Text) (s : S)
      → length b < f
      → length b < g
      → response_loop rewrite f b s ≡ response_loop rewrite g b s
  unfolding response_loop after_cut
  fuel_enough zero g b s h k = elim h [ ]
  fuel_enough (suc f) zero b s h k = elim k [ ]
  fuel_enough (suc f) (suc g) b s h k = elim (Option-cases (cut_line b)) [
    | inl whole_line ↦ rw whole_line refl
    | inr ((line, rest), e) ↦
        let less = (cut_line-IsCut b [] line rest e).1 in
        rw e (rw (fuel_enough f g rest (rewrite line s).1 (omega arith) (omega arith)) refl)
  ]

  -- The loop, with as much fuel as its buffer needs.
  respond : Text → S → Response S
  respond b s = response_loop rewrite (suc (length b)) b s

  -- One line of it.
  respond-step : (b : Text) (s : S) → respond b s ≡ after_cut rewrite respond b s (cut_line b)
  unfolding respond response_loop after_cut
  respond-step b s = elim (Option-cases (cut_line b)) [
    | inl part ↦ rw part refl
    | inr ((line, rest), e) ↦
        let less = (cut_line-IsCut b [] line rest e).1 in
        rw e (
          rw
            (fuel_enough (length b) (suc (length rest)) rest (rewrite line s).1 (omega arith)
              (omega arith))
            refl)
  ]

  -- What more data makes of an answer.
  go_on : Response S → Text → Response S
  unfolding respond
  go_on (out, left, s) d = let (more, left2, s2) = respond (left ++ d) s in (out ++ more, left2, s2)

  respond-append :
      (n : ℕ) (b d : Text) (s : S) → length b < n → respond (b ++ d) s ≡ go_on (respond b s) d
  unfolding go_on after_cut
  respond-append zero b d s h = elim h [ ]
  respond-append (suc n) b d s h = elim (Option-cases (cut_line b)) [
    | inl part ↦ rw (respond-step b s, part) refl
    | inr ((line, rest), e) ↦
        let (later, less) = cut_line-IsCut b d line rest e in
        let out : Text = (rewrite line s).0 in
        let r : Response S = respond rest (rewrite line s).1 in
        let m : Response S = respond (r.1 ++ d) r.2 in
        let front : Text → Response S = λ t. (t, m.1, m.2) in
        let IH = respond-append n rest d (rewrite line s).1 (omega arith) in
        rw (respond-step b s, e)
          (rw (respond-step (b ++ d) s, later) (rw IH (ap front (sym (append_assoc out r.0 m.0)))))
  ]

  -- No complete line is left.
  respond-left : (n : ℕ) (b : Text) (s : S) → length b < n → cut_line (respond b s).1 ≡ none
  unfolding after_cut
  respond-left zero b s h = elim h [ ]
  respond-left (suc n) b s h = elim (Option-cases (cut_line b)) [
    | inl part ↦ rw (respond-step b s, part) part
    | inr ((line, rest), e) ↦
        let less = (cut_line-IsCut b [] line rest e).1 in
        rw (respond-step b s, e) (respond-left n rest (rewrite line s).1 (omega arith))
  ]

  respond_part : (b : Text) (s : S) → cut_line b ≡ none → respond b s ≡ ([], b, s)
  unfolding after_cut
  respond_part b s h = respond-step b s ∙ rw h refl

  -- From a buffer without a complete line, the answers of an FTP server are rewritten in the same
  -- way, with the same buffer and state at the end, whatever pieces they arrive in.
  pub handle_pieces-eq-handle_ftp_response :
      (buf : Text) (pieces : List Text) (s : S)
      → cut_line buf ≡ none
      → handle_pieces rewrite buf pieces s ≡ handle_ftp_response rewrite buf (whole pieces) s
  unfolding handle_pieces handle_ftp_response go_on respond
  handle_pieces-eq-handle_ftp_response buf [] s h = rw (append-nil buf) (sym (respond_part buf s h))
  handle_pieces-eq-handle_ftp_response buf (piece ∷ pieces) s h =
      let r : Response S = respond (buf ++ piece) s in
      let later =
        handle_pieces-eq-handle_ftp_response r.1 pieces r.2
          (respond-left (suc (length (buf ++ piece))) (buf ++ piece) s (omega arith)) in
      rw (later, ← append_assoc buf piece (whole pieces))
        (sym (
          respond-append (suc (length (buf ++ piece))) (buf ++ piece) (whole pieces) s
            (omega arith)))
