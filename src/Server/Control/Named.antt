-- ===== src/Server/Control/Named.antt =====
-- frps.py: tables without the entries of a writer.
use frp_python.Prelude.{
  if◌then◌else◌, ◌==◌, ==_refl, All, elem, All-mono, Dict, erase, ℕ, String, ◌≡◌, refl, Bool, true,
  false, ◌&&◌, not, List, [], ◌∷◌, arith, eq_iff, nat_eq, string_eq, list_eq,
}
use frp_python.Server.Cleanup.{names_of}

-- No entry of a table was registered by the writer.
abbrev pub NoneOf : {V : Type 0} → (V → ℕ) → ℕ → Dict String V → Type 0
NoneOf writer_of w d = All (λ e. (writer_of e.1 == w) ≡ false) d

abbrev pub erase_all : {V : Type 0} → List String → Dict String V → Dict String V
erase_all [] d = d
erase_all (k ∷ ks) d = erase_all ks (erase k d)

-- Each entry of the writer has its name in a list.
abbrev Named : {V : Type 0} → (V → ℕ) → ℕ → List String → Dict String V → Type 0
Named writer_of w names d = All (λ e. (writer_of e.1 == w && not (elem e.0 names)) ≡ false) d

module _ {V : Type 0} (writer_of : V → ℕ) (w : ℕ) where
  more_names :
      (k : String) (names : List String) (d : Dict String V)
      → Named writer_of w names d
      → Named writer_of w (k ∷ names) d
  more_names k names d h = All-mono (λ e g. ground arith) d h

  head_Named :
      (b : Bool) (k : String) (names : List String) (d : Dict String V)
      → Named writer_of w names d
      → ((b && not (elem k (if b then k ∷ names else names))) ≡ false)
        × Named writer_of w (if b then k ∷ names else names) d
  head_Named true k names d h = (ground (arith, ==_refl k), more_names k names d h)
  head_Named false k names d h = (refl, h)

  names_of-Named : (d : Dict String V) → Named writer_of w (names_of writer_of w d) d
  unfolding names_of
  names_of-Named [] = tt
  names_of-Named ((k, v) ∷ d) =
      head_Named (writer_of v == w) k (names_of writer_of w d) d (names_of-Named d)

  erase-Named :
      (k : String) (names : List String) (d : Dict String V)
      → Named writer_of w (k ∷ names) d
      → Named writer_of w names (erase k d)
  unfolding erase
  erase-Named k names [] h = tt
  erase-Named k names ((j, v) ∷ d) h =
      ground (arith, erase-Named k names d h.1, eq_iff j k, eq_iff k j)

  erase_all-Named :
      (names : List String) (d : Dict String V)
      → Named writer_of w names d
      → NoneOf writer_of w (erase_all names d)
  erase_all-Named [] d h = All-mono (λ e g. ground arith) d h
  erase_all-Named (k ∷ names) d h = erase_all-Named names (erase k d) (erase-Named k names d h)

  pub erase_all-NoneOf :
      (d : Dict String V) → NoneOf writer_of w (erase_all (names_of writer_of w d) d)
  erase_all-NoneOf d = erase_all-Named (names_of writer_of w d) d (names_of-Named d)
