-- ===== src/Webadmin/Auth/Login.antt =====
-- webadmin/api/auth.py: what a login that succeeds has shown.
use frp_python.Prelude.{
  Bool-cases, lookup, lookup-erase, ℕ, ◌≤◌, String, ◌≡◌, refl, sym, ap, ◌∙◌, inl, inr, true, Option,
  none, some, arith, eq_iff, dec_lt, nat_eq, string_eq, list_eq,
}
use frp_python.Py.Text.{Text}
use frp_python.Webadmin.Auth.{
  ok, User, AuthManager, Passwords, FailRecord, find_user, check_record, check_locked, or_no_fails,
  clear_fail, check_password, authenticate_checked, authenticate, find_in,
}

-- A login that succeeded: the user is there, the password is theirs, no lock is on, no failure
-- stays on record, and the users are as before.
pub record IsLogin (pw : Passwords) (now : ℕ) (name : String) (password : Text) (u : User)
    (a a' : AuthManager) : Type 0 where
  pub known : find_user name a ≡ some u
  pub right : pw.verify password u.password_hash ≡ true
  pub open_now : (or_no_fails (lookup name a.fail_records)).lock_until ≤ now
  pub cleared : lookup name a'.fail_records ≡ none
  pub same_users : a'.users ≡ a.users
  pub same_saved : a'.saved ≡ a.saved

-- The users are as before, and no lock is on.
abbrev IsChecked : ℕ → Option FailRecord → AuthManager → AuthManager → Type 0
IsChecked now r a b = (b.users ≡ a.users) × (b.saved ≡ a.saved) × ((or_no_fails r).lock_until ≤ now)

check_record-IsChecked :
    (now : ℕ) (name : String) (r : Option FailRecord) (a b : AuthManager)
    → check_record now name r a ≡ (none, b)
    → IsChecked now r a b
unfolding check_record
check_record-IsChecked now name none a b e =
    let same : a ≡ b = cc in
    (ap AuthManager.users (sym same), ap AuthManager.saved (sym same), omega arith)
check_record-IsChecked now name (some r) a b e = elim (dec_lt now r.lock_until) [
  | yes early ↦ ground arith
  | no late ↦ (ground arith, ground arith, omega (arith, late))
]

lookup-clear_fail :
    (name : String) (b : AuthManager) → lookup name (clear_fail name b).fail_records ≡ none
unfolding clear_fail
lookup-clear_fail name b =
    rw (lookup-erase name name b.fail_records) (ground (arith, eq_iff name name))

module _ (pw : Passwords) (now : ℕ) (name : String) (password : Text) (u : User)
    (a a' : AuthManager) where
  checked-IsLogin :
      (b : AuthManager)
      → IsChecked now (lookup name a.fail_records) a b
      → (o : Option User) → find_user name a ≡ o
      → check_password pw now name password o b ≡ ok u a'
      → IsLogin pw now name password u a a'
  unfolding check_password clear_fail
  checked-IsLogin b h none same e = cc
  checked-IsLogin b h (some v) same e = elim (Bool-cases (pw.verify password v.password_hash)) [
    | inl right ↦
        let f : ok v (clear_fail name b) ≡ ok u a' = rw right at e in
        let eq_a : clear_fail name b ≡ a' = cc in
        let eq_u : v ≡ u = cc in
        record {
          known = same ∙ ap some eq_u;
          right = rw (sym eq_u) right;
          open_now = h.2;
          cleared = rw (sym eq_a) (lookup-clear_fail name b);
          same_users = sym (ap AuthManager.users eq_a) ∙ h.0;
          same_saved = sym (ap AuthManager.saved eq_a) ∙ h.1;
        }
    | inr bad ↦ ground arith
  ]

  pair-IsLogin :
      (c : Option ℕ × AuthManager)
      → check_locked now name a ≡ c
      → authenticate_checked pw now name password c ≡ ok u a'
      → IsLogin pw now name password u a a'
  unfolding check_locked authenticate_checked find_user
  pair-IsLogin (some seconds, b) same e = cc
  pair-IsLogin (none, b) same e =
      let h = check_record-IsChecked now name (lookup name a.fail_records) a b same in
      checked-IsLogin b h (find_user name b) (ap (find_in name) (sym h.0)) e

  -- A login succeeds only where the user is there, the password is theirs and no lock is on; it
  -- clears the failures on record and leaves the users as they are.
  pub authenticate-IsLogin :
      authenticate pw now name password a ≡ ok u a' → IsLogin pw now name password u a a'
  unfolding authenticate
  authenticate-IsLogin e = pair-IsLogin (check_locked now name a) refl e
