-- ===== src/Webadmin/Auth.antt =====
-- webadmin/api/auth.py: `AuthManager`, its users, password changes and the lock after failed
-- logins. The bcrypt context is a parameter; times are in microseconds. `_persist` hands the users
-- to a callback, which is modelled as the copy that it saves.
pub mod Lock
pub mod Login
pub mod Users
mod Tests
use frp_python.Prelude.{
  ltb, leb, if◌then◌else◌, ◌==◌, is_some, length, Dict, lookup, insert, erase, ℕ, ◌+◌, ◌-◌, ◌*◌,
  ◌/◌, String, Bool, false, ◌&&◌, not, Option, none, some, List, [], ◌∷◌, ◌++◌, map, nat_eq,
  string_eq, list_eq,
}
use frp_python.Py.Text.{Text}

pub record User : Type 0 where
  pub username : String
  pub password_hash : Text
  pub role : String
  pub must_change_password : Bool

pub record FailRecord : Type 0 where
  pub count : ℕ
  pub lock_until : ℕ

pub record AuthManager : Type 0 where
  pub users : List User
  pub saved : List User
  pub fail_records : Dict String FailRecord

-- `_pwd_context`; a `verify` that raises counts as false.
pub record Passwords : Type 0 where
  pub hash : Text → Text
  pub verify : Text → Text → Bool

abbrev pub max_fail_count : ℕ
max_fail_count = 5

abbrev pub second : ℕ
second = 1_000_000

abbrev pub lock_time : ℕ
lock_time = 300 * second

abbrev pub min_password_length : ℕ
min_password_length = 8

-- The `ValueError`s.
pub data AuthError : Type 0 where
  locked : ℕ → AuthError
  bad_credentials user_exists no_user short_password wrong_password : AuthError

pub data Outcome (A : Type 0) : Type 0 where
  ok : A → AuthManager → Outcome A
  failed : AuthError → AuthManager → Outcome A

-- `find_user`
unfoldable pub find_in : String → List User → Option User
find_in name [] = none
find_in name (u ∷ us) = if u.username == name then some u else find_in name us

unfoldable pub find_user : String → AuthManager → Option User
unfolding find_in
find_user name a = find_in name a.users

abbrev pub persist : AuthManager → AuthManager
persist a = record a { saved = a.users }

unfoldable pub add_user : Passwords → String → Text → String → AuthManager → Outcome User
unfolding find_user
add_user pw name password role a =
    if is_some (find_user name a)
    then failed user_exists a
    else if ltb (length password) min_password_length
    then failed short_password a
    else let u : User = record {
      username = name;
      password_hash = pw.hash password;
      role = role;
      must_change_password = false;
    } in
      ok u (persist (record a { users = a.users ++ u ∷ [] }))

abbrev pub user_beq : User → User → Bool
user_beq u v =
    u.username == v.username
    && (u.password_hash == v.password_hash
        && (u.role == v.role
            && (if u.must_change_password
                then v.must_change_password
                else not v.must_change_password)))

-- `users.remove(user)`: the first equal entry goes.
unfoldable pub remove_user : User → List User → List User
remove_user u [] = []
remove_user u (v ∷ us) = if user_beq v u then us else v ∷ remove_user u us

unfoldable pub delete_found : Option User → AuthManager → Outcome (Unit {0})
unfolding remove_user
delete_found none a = failed no_user a
delete_found (some u) a = ok tt (persist (record a { users = remove_user u a.users }))

-- `delete_user`
unfoldable pub delete_user : String → AuthManager → Outcome (Unit {0})
unfolding delete_found find_user
delete_user name a = delete_found (find_user name a) a

-- The entry that `find_user` returned, written in place.
unfoldable pub set_password : String → Text → List User → List User
set_password name hashed [] = []
set_password name hashed (u ∷ us) =
    if u.username == name
    then record u { password_hash = hashed; must_change_password = false } ∷ us
    else u ∷ set_password name hashed us

unfoldable pub change_found :
    Passwords → String → Text → Text → Option User → AuthManager → Outcome (Unit {0})
unfolding set_password
change_found pw name old new none a = failed no_user a
change_found pw name old new (some u) a =
    if not (pw.verify old u.password_hash)
    then failed wrong_password a
    else if ltb (length new) min_password_length
    then failed short_password a
    else ok tt (persist (record a { users = set_password name (pw.hash new) a.users }))

-- `change_password`
unfoldable pub change_password : Passwords → String → Text → Text → AuthManager → Outcome (Unit {0})
unfolding change_found find_user
change_password pw name old new a = change_found pw name old new (find_user name a) a

unfoldable pub check_record : ℕ → String → Option FailRecord → AuthManager → Option ℕ × AuthManager
check_record now name none a = (none, a)
check_record now name (some r) a =
    if ltb now r.lock_until
    then (some ((r.lock_until - now) / second), a)
    else if leb max_fail_count r.count
    then (none, record a { fail_records = erase name a.fail_records })
    else (none, a)

-- `_check_locked`
unfoldable pub check_locked : ℕ → String → AuthManager → Option ℕ × AuthManager
unfolding check_record
check_locked now name a = check_record now name (lookup name a.fail_records) a

abbrev pub or_no_fails : Option FailRecord → FailRecord
or_no_fails none = record { count = 0; lock_until = 0 }
or_no_fails (some r) = r

abbrev pub one_more : ℕ → FailRecord → FailRecord
one_more now r =
    if leb max_fail_count (r.count + 1)
    then record { count = r.count + 1; lock_until = now + lock_time }
    else record r { count = r.count + 1 }

-- `_record_fail`
unfoldable pub record_fail : ℕ → String → AuthManager → AuthManager
record_fail now name a = record a {
  fail_records =
      insert name (one_more now (or_no_fails (lookup name a.fail_records))) a.fail_records;
}

-- `_clear_fail`
unfoldable pub clear_fail : String → AuthManager → AuthManager
clear_fail name a = record a { fail_records = erase name a.fail_records }

unfoldable pub check_password :
    Passwords → ℕ → String → Text → Option User → AuthManager → Outcome User
check_password pw now name password none a = failed bad_credentials (record_fail now name a)
check_password pw now name password (some u) a =
    if not (pw.verify password u.password_hash)
    then failed bad_credentials (record_fail now name a)
    else ok u (clear_fail name a)

unfoldable pub authenticate_checked :
    Passwords → ℕ → String → Text → Option ℕ × AuthManager → Outcome User
authenticate_checked pw now name password (some seconds, a) = failed (locked seconds) a
authenticate_checked pw now name password (none, a) =
    check_password pw now name password (find_user name a) a

-- `authenticate`
unfoldable pub authenticate : Passwords → ℕ → String → Text → AuthManager → Outcome User
authenticate pw now name password a =
    authenticate_checked pw now name password (check_locked now name a)

-- What is told of a user.
pub record UserInfo : Type 0 where
  pub username : String
  pub role : String
  pub must_change_password : Bool

abbrev pub user_info : User → UserInfo
user_info u = record {
  username = u.username;
  role = u.role;
  must_change_password = u.must_change_password;
}

-- `list_users`
unfoldable pub list_users : AuthManager → List UserInfo
list_users a = map user_info a.users

-- `require_admin`; `none` is the answer 403.
unfoldable pub require_admin : User → Option User
require_admin u = if u.role == "admin" then some u else none
