-- ===== src/Webadmin/Auth/Lock.antt =====
-- webadmin/api/auth.py: the lock of an account after failed logins.
use frp_python.Prelude.{
  length, lookup, erase, lookup-insert, lookup-erase, ℕ, suc, ◌+◌, ◌-◌, ◌/◌, ◌≤◌, ◌<◌, String, ◌≡◌,
  refl, ap, ◌∙◌, true, false, Option, none, some, List, [], ◌∷◌, ◌++◌, arith, eq_iff, nat_eq,
  string_eq, list_eq,
}
use frp_python.Py.Text.{Text}
use frp_python.Webadmin.Auth.{
  locked, Outcome, ok, failed, User, FailRecord, AuthManager, Passwords, max_fail_count, find_user,
  check_locked, or_no_fails, record_fail, check_password, authenticate_checked, authenticate,
  bad_credentials, check_record, one_more, lock_time, second, clear_fail,
}

abbrev pub state_of : {A : Type 0} → Outcome A → AuthManager
state_of (ok u a) = a
state_of (failed e a) = a

-- A login attempt: its time and its password.
abbrev pub Attempt : Type 0
Attempt = ℕ × Text

abbrev pub attempt_all : Passwords → String → List Attempt → AuthManager → AuthManager
attempt_all pw name [] a = a
attempt_all pw name ((now, password) ∷ rest) a =
    attempt_all pw name rest (state_of (authenticate pw now name password a))

-- The password is not that of the user, or there is no such user.
abbrev pub IsWrongFor : Passwords → Text → Option User → Type 0
IsWrongFor pw password none = Unit
IsWrongFor pw password (some u) = pw.verify password u.password_hash ≡ false

abbrev pub IsWrong : Passwords → String → AuthManager → Text → Type 0
IsWrong pw name a password = IsWrongFor pw password (find_user name a)

-- The failures that are on record for an account.
abbrev pub fails : String → AuthManager → FailRecord
fails name a = or_no_fails (lookup name a.fail_records)

-- What `_check_locked` does for an account that has few failures and no lock.
check_record-open :
    (now : ℕ) (name : String) (r : Option FailRecord) (a : AuthManager)
    → (or_no_fails r).count < max_fail_count
    → (or_no_fails r).lock_until ≡ 0
    → check_record now name r a ≡ (none, a)
unfolding check_record
check_record-open now name none a few unlocked = refl
check_record-open now name (some r) a few unlocked = ground arith

wrong_password :
    (pw : Passwords) (now : ℕ) (name : String) (password : Text) (u : Option User) (a : AuthManager)
    → IsWrongFor pw password u
    → check_password pw now name password u a ≡ failed bad_credentials (record_fail now name a)
unfolding check_password
wrong_password pw now name password none a wrong = refl
wrong_password pw now name password (some u) a wrong = ground arith

abbrev pub locked_at : ℕ → FailRecord
locked_at t = record { count = 5; lock_until = t + lock_time }

module _ (pw : Passwords) (name : String) where
  wrong_attempt :
      (now : ℕ) (password : Text) (a : AuthManager)
      → IsWrong pw name a password
      → (fails name a).count < max_fail_count
      → (fails name a).lock_until ≡ 0
      → authenticate pw now name password a ≡ failed bad_credentials (record_fail now name a)
  unfolding authenticate check_locked authenticate_checked
  wrong_attempt now password a wrong few unlocked =
      rw (check_record-open now name (lookup name a.fail_records) a few unlocked)
        (wrong_password pw now name password (find_user name a) a wrong)

  -- One more failure is on record, and nothing else has changed.
  fails-record_fail :
      (now : ℕ) (a : AuthManager)
      → fails name (record_fail now name a) ≡ one_more now (fails name a)
  unfolding record_fail
  fails-record_fail now a = ground (
    arith,
    lookup-insert name name (one_more now (fails name a)) a.fail_records,
    eq_iff name name,
  )

  find_user-record_fail :
      (now : ℕ) (a : AuthManager) → find_user name (record_fail now name a) ≡ find_user name a
  unfolding find_user record_fail
  find_user-record_fail now a = refl

  IsWrong-step :
      (now : ℕ) (password other : Text) (a : AuthManager)
      → IsWrong pw name a other
      → IsWrong pw name (record_fail now name a) other
  IsWrong-step now password other a wrong = rw (find_user-record_fail now a) wrong

  abbrev pub AllWrong : AuthManager → List Attempt → Type 0
  AllWrong a [] = Unit
  AllWrong a ((now, password) ∷ rest) = IsWrong pw name a password × AllWrong a rest

  AllWrong-record_fail :
      (now : ℕ) (attempts : List Attempt) (a : AuthManager)
      → AllWrong a attempts
      → AllWrong (record_fail now name a) attempts
  AllWrong-record_fail now [] a wrong = tt
  AllWrong-record_fail now ((t, password) ∷ rest) a wrong =
      (IsWrong-step now password password a wrong.0, AllWrong-record_fail now rest a wrong.1)

  -- Wrong attempts that do not reach the limit are counted, and lock nothing.
  record Counted (n : ℕ) (a a' : AuthManager) : Type 0 where
    count : (fails name a').count ≡ (fails name a).count + n
    unlocked : (fails name a').lock_until ≡ 0
    same : find_user name a' ≡ find_user name a

  attempt_all-Counted :
      (attempts : List Attempt) (a : AuthManager)
      → AllWrong a attempts
      → (fails name a).count + length attempts < max_fail_count
      → (fails name a).lock_until ≡ 0
      → Counted (length attempts) a (attempt_all pw name attempts a)
  attempt_all-Counted [] a wrong few unlocked = record {
    count = omega arith;
    unlocked = unlocked;
    same = refl;
  }
  attempt_all-Counted ((now, password) ∷ rest) a wrong few unlocked =
      let few' : (fails name a).count + suc (length rest) < max_fail_count = few in
      let e = wrong_attempt now password a wrong.0 (omega arith) unlocked in
      let f = fails-record_fail now a in
      let IH =
        attempt_all-Counted rest (record_fail now name a) (AllWrong-record_fail now rest a wrong.1)
          (rw f (ground arith)) (rw f (ground arith)) in
      rw e (record {
        count = rw IH.count (rw f (ground arith));
        unlocked = IH.unlocked;
        same = IH.same ∙ find_user-record_fail now a;
      })

  -- The state after four wrong attempts and a fifth.
  abbrev pub after_five : List Attempt → ℕ → Text → AuthManager → AuthManager
  after_five four t fifth a = attempt_all pw name (four ++ (t, fifth) ∷ []) a

  attempt_all-append :
      (xs ys : List Attempt) (a : AuthManager)
      → attempt_all pw name (xs ++ ys) a ≡ attempt_all pw name ys (attempt_all pw name xs a)
  attempt_all-append [] ys a = refl
  attempt_all-append ((now, password) ∷ xs) ys a =
      attempt_all-append xs ys (state_of (authenticate pw now name password a))

  lookup-record_fail :
      (now : ℕ) (a : AuthManager)
      → lookup name (record_fail now name a).fail_records ≡ some (one_more now (fails name a))
  unfolding record_fail
  lookup-record_fail now a = ground (
    arith,
    lookup-insert name name (one_more now (fails name a)) a.fail_records,
    eq_iff name name,
  )

  one_more-lock : (t : ℕ) (r : FailRecord) → r.count ≡ 4 → one_more t r ≡ locked_at t
  one_more-lock t r n = rw n refl

  -- The account is locked since the fifth failure at `t`, and its user is as before.
  abbrev LockedSince : ℕ → AuthManager → AuthManager → Type 0
  LockedSince t a a' =
      (lookup name a'.fail_records ≡ some (locked_at t)) × (find_user name a' ≡ find_user name a)

  after_five-LockedSince :
      (four : List Attempt) (t : ℕ) (fifth : Text) (a : AuthManager)
      → lookup name a.fail_records ≡ none
      → length four ≡ 4
      → AllWrong a four
      → IsWrong pw name a fifth
      → LockedSince t a (after_five four t fifth a)
  after_five-LockedSince four t fifth a fresh n wrong wrong5 =
      let none_yet : fails name a ≡ or_no_fails none = ap or_no_fails fresh in
      let c =
        attempt_all-Counted four a wrong (rw (none_yet, n) (omega arith)) (rw none_yet refl) in
      let four_now : (fails name (attempt_all pw name four a)).count ≡ 4 =
        c.count ∙ (rw (none_yet, n) refl) in
      let e =
        wrong_attempt t fifth (attempt_all pw name four a) (rw c.same wrong5)
          (omega (arith, four_now)) c.unlocked in
      rw (attempt_all-append four ((t, fifth) ∷ []) a) (
        rw e (
          rw (lookup-record_fail t (attempt_all pw name four a))
              (ap some (one_more-lock t (fails name (attempt_all pw name four a)) four_now)),
          find_user-record_fail t (attempt_all pw name four a) ∙ c.same,
        ))

  -- After five wrong passwords in a row for an account without failures on record, any login until
  -- 300 seconds after the fifth is refused, with the right password too, and changes nothing.
  pub authenticate-locked :
      (four : List Attempt) (t : ℕ) (fifth : Text) (a : AuthManager) (now : ℕ) (password : Text)
      → lookup name a.fail_records ≡ none
      → length four ≡ 4
      → AllWrong a four
      → IsWrong pw name a fifth
      → now < t + lock_time
      → let a' = after_five four t fifth a in
        authenticate pw now name password a' ≡ failed (locked ((t + lock_time - now) / second)) a'
  unfolding authenticate check_locked authenticate_checked check_record
  authenticate-locked four t fifth a now password fresh n wrong wrong5 early =
      rw (after_five-LockedSince four t fifth a fresh n wrong wrong5).0 (ground arith)

  -- The expired lock is removed, and the record with it.
  accepted :
      (now : ℕ) (password : Text) (u : User) (a : AuthManager)
      → find_user name a ≡ some u
      → pw.verify password u.password_hash ≡ true
      → (a' : AuthManager) × (authenticate_checked pw now name password
            (none, record a { fail_records = erase name a.fail_records })
          ≡ ok u a')
        × (lookup name a'.fail_records ≡ none)
  unfolding authenticate_checked check_password clear_fail find_user
  accepted now password u a known right =
      let b : AuthManager = record a { fail_records = erase name a.fail_records } in
      (
        clear_fail name b,
        rw (known, right) refl,
        rw (lookup-erase name name (erase name a.fail_records)) (ground (arith, eq_iff name name)),
      )

  -- After five wrong passwords in a row for an account without failures on record, the right
  -- password is accepted from 300 seconds after the fifth on, and no failure stays on record.
  pub authenticate-unlocked :
      (four : List Attempt) (t : ℕ) (fifth : Text) (a : AuthManager) (now : ℕ) (password : Text)
      (u : User)
      → lookup name a.fail_records ≡ none
      → length four ≡ 4
      → AllWrong a four
      → IsWrong pw name a fifth
      → t + lock_time ≤ now
      → find_user name a ≡ some u
      → pw.verify password u.password_hash ≡ true
      → (a' : AuthManager) × (authenticate pw now name password (after_five four t fifth a)
          ≡ ok u a')
        × (lookup name a'.fail_records ≡ none)
  unfolding authenticate check_locked authenticate_checked check_record check_password clear_fail
  authenticate-unlocked four t fifth a now password u fresh n wrong wrong5 late known right =
      let h = after_five-LockedSince four t fifth a fresh n wrong wrong5 in
      let a5 = after_five four t fifth a in
      rw h.0 (ground (arith, accepted now password u a5 (h.1 ∙ known) right))
