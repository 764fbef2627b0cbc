-- ===== src/Webadmin/Auth/Users.antt =====
-- webadmin/api/auth.py: the users after an addition or a change of password.
use frp_python.Prelude.{
  ltb, if◌then◌else◌, ◌==◌, Bool-cases, Option-cases, ltb→lt, length, ◌≤◌, String, ◌≡◌, refl, sym,
  ap, ◌∙◌, ◌≢◌, inl, inr, true, false, Option, none, some, List, [], ◌∷◌, ◌++◌, arith, eq_iff,
  nat_eq, string_eq, list_eq,
}
use frp_python.Client.Relay.{taken}
use frp_python.Py.Text.{Text}
use frp_python.Webadmin.Auth.{
  ok, User, AuthManager, Passwords, min_password_length, find_in, find_user, persist, add_user,
  set_password, change_found, change_password,
}

-- The users after an operation that gives `name` the entry `u`: they are saved, a search for the
-- name finds the entry, a search for another finds what it found, and locks stay.
pub record IsPut (name : String) (u : User) (a a' : AuthManager) : Type 0 where
  pub found_now : find_user name a' ≡ some u
  pub others : (other : String) → name ≢ other → find_user other a' ≡ find_user other a
  pub saved_now : a'.saved ≡ a'.users
  pub same_fails : a'.fail_records ≡ a.fail_records

find_in-append :
    (name : String) (u : User) (us : List User)
    → find_in name us ≡ none
    → find_in name (us ++ u ∷ []) ≡ (if u.username == name then some u else none)
unfolding find_in
find_in-append name u [] h = refl
find_in-append name u (v ∷ us) h = ground (arith, find_in-append name u us)

find_in-other :
    (name : String) (u : User) (us : List User)
    → u.username ≢ name
    → find_in name (us ++ u ∷ []) ≡ find_in name us
unfolding find_in
find_in-other name u [] h = ground (arith, eq_iff u.username name)
find_in-other name u (v ∷ us) h = ground (arith, find_in-other name u us)

abbrev new_user : Passwords → String → Text → String → User
new_user pw name password role = record {
  username = name;
  password_hash = pw.hash password;
  role = role;
  must_change_password = false;
}

added-IsPut :
    (name : String) (u : User) (a : AuthManager)
    → u.username ≡ name
    → find_user name a ≡ none
    → IsPut name u a (persist (record a { users = a.users ++ u ∷ [] }))
unfolding find_user
added-IsPut name u a same fresh = record {
  found_now = find_in-append name u a.users fresh ∙ ground (arith, eq_iff u.username name);
  others = λ other apart. find_in-other other u a.users (rw same apart);
  saved_now = refl;
  same_fails = refl;
}

-- Adding a user succeeds only where the name is free and the password has eight characters or
-- more; then the users are saved, the name is found with the new entry, whose hash is that of the
-- password, a search for any other name finds what it found, and no lock changes.
add_user-IsPut :
    (pw : Passwords) (name role : String) (password : Text) (u : User) (a a' : AuthManager)
    → add_user pw name password role a ≡ ok u a'
    → IsPut name u a a'
      × (find_user name a ≡ none)
      × (8 ≤ length password)
      × (u.password_hash ≡ pw.hash password)
unfolding add_user
add_user-IsPut pw name role password u a a' e = elim (Option-cases (find_user name a)) [
  | inr (v, taken) ↦ ground arith
  | inl free ↦ elim (Bool-cases (ltb (length password) min_password_length)) [
    | inl short ↦ ground arith
    | inr long ↦
        let w : User = new_user pw name password role in
        let b : AuthManager = persist (record a { users = a.users ++ w ∷ [] }) in
        let f : ok w b ≡ ok u a' = (rw (free, long) at e) in
        let eq_u : w ≡ u = cc in
        let eq_a : b ≡ a' = cc in
        let put : IsPut name w a b = added-IsPut name w a refl free in
        (
          rw (sym eq_a) (rw (sym eq_u) put),
          free,
          ground (arith, ltb→lt (length password) 8),
          ap User.password_hash (sym eq_u),
        )
  ]
]

set_password-same :
    (name : String) (hashed : Text) (u : User) (us : List User)
    → find_in name us ≡ some u
    → find_in name (set_password name hashed us)
      ≡ some (record u { password_hash = hashed; must_change_password = false })
unfolding find_in set_password
set_password-same name hashed u [] h = cc
set_password-same name hashed u (v ∷ us) h = ground (arith, set_password-same name hashed u us)

set_password-other :
    (name other : String) (hashed : Text) (us : List User)
    → name ≢ other
    → find_in other (set_password name hashed us) ≡ find_in other us
unfolding find_in set_password
set_password-other name other hashed [] h = refl
set_password-other name other hashed (v ∷ us) h = ground (
  arith,
  set_password-other name other hashed us h,
  eq_iff v.username name,
  eq_iff v.username other,
)

changed-IsPut :
    (name : String) (hashed : Text) (u : User) (a : AuthManager)
    → find_user name a ≡ some u
    → IsPut name
        (record u { password_hash = hashed; must_change_password = false })
        a
        (persist (record a { users = set_password name hashed a.users }))
unfolding find_user
changed-IsPut name hashed u a h = record {
  found_now = set_password-same name hashed u a.users h;
  others = λ other apart. set_password-other name other hashed a.users apart;
  saved_now = refl;
  same_fails = refl;
}

-- Changing a password succeeds only for a user that is there, with the old password and a new one
-- of eight characters or more; then the user is found with the hash of the new one and need not
-- change it, the users are saved, any other name is found as before, and no lock changes.
change_password-IsPut :
    (pw : Passwords) (name : String) (old new : Text) (a a' : AuthManager)
    → change_password pw name old new a ≡ ok tt a'
    → (u : User) × (find_user name a ≡ some u)
      × (pw.verify old u.password_hash ≡ true)
      × (8 ≤ length new)
      × IsPut name (record u { password_hash = pw.hash new; must_change_password = false }) a a'
unfolding change_password change_found find_user
change_password-IsPut pw name old new a a' e = go (find_user name a) refl e
  where
    go :
        (o : Option User)
        → find_user name a ≡ o
        → change_found pw name old new o a ≡ ok tt a'
        → (u : User) × (o ≡ some u)
          × (pw.verify old u.password_hash ≡ true)
          × (8 ≤ length new)
          × IsPut name (record u { password_hash = pw.hash new; must_change_password = false }) a a'
    go none h e = cc
    go (some u) h e = elim (Bool-cases (pw.verify old u.password_hash)) [
      | inr bad ↦ ground arith
      | inl right ↦ elim (Bool-cases (ltb (length new) min_password_length)) [
        | inl short ↦ ground arith
        | inr long ↦
            let b : AuthManager =
              persist (record a { users = set_password name (pw.hash new) a.users }) in
            let f : ok tt b ≡ ok tt a' = rw (right, long) at e in
            let eq_a : b ≡ a' = cc in
            (
              u,
              refl,
              right,
              ground (arith, ltb→lt (length new) 8),
              rw (sym eq_a) (changed-IsPut name (pw.hash new) u a h),
            )
      ]
    ]
