-- ===== src/Webadmin/Auth/Tests.antt =====
-- webadmin/api/auth.py at concrete inputs; a hash is the password itself.
use frp_python.Prelude.{
  ◌==◌, codes, lookup, erase, ◌≡◌, refl, true, false, none, some, List, [], ◌∷◌, arith, nat_eq,
  string_eq, list_eq,
}
use frp_python.Webadmin.Auth.{
  ok, failed, User, AuthManager, Passwords, locked, find_in, find_user, add_user, set_password,
  change_found, change_password, check_record, check_locked, clear_fail, check_password,
  authenticate_checked, authenticate,
}
use frp_python.Webadmin.Auth.Lock.{
  Attempt, IsWrong, AllWrong, after_five, authenticate-locked, authenticate-unlocked,
}
use frp_python.Webadmin.Auth.Login.{IsLogin, authenticate-IsLogin}

abbrev plain : Passwords
plain = record { hash = λ p. p; verify = λ p h. p == h }

abbrev admin : User
admin = record {
  username = "admin";
  password_hash = codes "correct horse";
  role = "admin";
  must_change_password = true;
}

abbrev start : AuthManager
start = record { users = admin ∷ []; saved = []; fail_records = [] }

abbrev four : List Attempt
four = (1, codes "a") ∷ (2, codes "b") ∷ (3, codes "") ∷ (9, codes "c") ∷ []

no_fails : lookup "admin" start.fail_records ≡ none
unfolding lookup
no_fails = refl

found_admin : find_user "admin" start ≡ some admin
unfolding find_user find_in
found_admin = refl

four-AllWrong : AllWrong plain "admin" start four
unfolding find_user find_in
four-AllWrong = (refl, (refl, (refl, (refl, tt))))

fifth-IsWrong : IsWrong plain "admin" start (codes "d")
unfolding find_user find_in
fifth-IsWrong = refl

authenticate-locked_example :
    let a' = after_five plain "admin" four 10 (codes "d") start in
    authenticate plain 100_000_010 "admin" (codes "correct horse") a' ≡ failed (locked 200) a'
authenticate-locked_example =
    authenticate-locked plain "admin" four 10 (codes "d") start 100_000_010 (codes "correct horse")
      no_fails refl four-AllWrong fifth-IsWrong (omega arith)

authenticate-unlocked_example :
    (a' : AuthManager) × (authenticate plain 300_000_010 "admin"
        (codes "correct horse")
        (after_five plain "admin" four 10 (codes "d") start)
      ≡ ok admin a')
    × (lookup "admin" a'.fail_records ≡ none)
authenticate-unlocked_example =
    authenticate-unlocked plain "admin" four 10 (codes "d") start 300_000_010
      (codes "correct horse") admin no_fails refl four-AllWrong fifth-IsWrong (omega arith)
      found_admin refl

login : authenticate plain 0 "admin" (codes "correct horse") start ≡ ok admin start
unfolding authenticate authenticate_checked check_locked check_record check_password find_user
    find_in lookup clear_fail erase
login = refl

authenticate-IsLogin_example : IsLogin plain 0 "admin" (codes "correct horse") admin start start
authenticate-IsLogin_example =
    authenticate-IsLogin plain 0 "admin" (codes "correct horse") admin start start login

abbrev carol : User
carol = record {
  username = "carol";
  password_hash = codes "12345678";
  role = "viewer";
  must_change_password = false;
}

abbrev with_carol : AuthManager
with_carol = record { users = admin ∷ carol ∷ []; saved = admin ∷ carol ∷ []; fail_records = [] }

added : add_user plain "carol" (codes "12345678") "viewer" start ≡ ok carol with_carol
unfolding add_user find_user find_in
added = refl

abbrev renewed : AuthManager
renewed =
    let u : User = record admin {
      password_hash = codes "new password";
      must_change_password = false;
    } in
    record { users = u ∷ []; saved = u ∷ []; fail_records = [] }

change :
    change_password plain "admin" (codes "correct horse") (codes "new password") start
    ≡ ok tt renewed
unfolding change_password change_found find_user find_in set_password
change = refl
