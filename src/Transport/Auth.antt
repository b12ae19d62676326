-- ===== src/Transport/Auth.antt =====
-- hermytt-transport/src/auth.rs: users, browser sessions and their handlers. Time is an argument, in
-- nanoseconds of the monotonic clock (`now`) and milliseconds (`millis`). Password hashing (the `argon2`
-- crate) is the parameter `Hashing`; whether the users file could be written is the argument
-- `saves`. Texts are bytes.
pub mod Cookies
pub mod Validity
pub mod Users
pub mod Accounts
pub mod Races
pub mod Tests
use hermytt.Prelude.{
  ℕ, ◌*◌, ◌-◌, Bool, true, false, not, ◌||◌, ◌&&◌, List, [], ◌∷◌, ◌++◌, Option, none, some, is_some,
  is_empty, if◌then◌else◌, ltb, leb, length, ◌==◌, any, keep, find_by, unwrap_or, ◌/◌, ◌%◌, ◌+◌,
}
use hermytt.Prelude.Text.{Text, codes, eq_text, split, trim, strip_prefix}
use hermytt.Prelude.Map
use hermytt.Prelude.Map.{Map}

-- 14 days
abbrev pub session_ttl : ℕ
session_ttl = 60 * 60 * 24 * 14 * 1_000_000_000

abbrev pub session_cookie : Text
session_cookie = codes "hermytt_session"

pub record User : Type 0 where
  pub username : Text
  pub password_hash : Text
  pub created_at : ℕ
  pub last_login : Option ℕ

pub record SessionInfo : Type 0 where
  pub username : Text
  pub created : ℕ
  pub last_seen : ℕ

-- `users_file` is what the file holds.
pub record AuthState : Type 0 where
  pub users : List User
  pub sessions : Map SessionInfo
  pub users_file : List User

pub record Hashing : Type 0 where
  pub hash_password : Text → Option Text
  pub verify_password : Text → Text → Bool

pub data StatusCode : Type 0 where
  success bad_request unauthorized not_found conflict internal_server_error : StatusCode

unfoldable pub has_users : AuthState → Bool
has_users a = not (is_empty a.users)

-- The age of a session, `now.duration_since(s.created) < SESSION_TTL`.
abbrev pub is_young : ℕ → SessionInfo → Bool
is_young now s = ltb (now - s.created) session_ttl

abbrev touch : ℕ → SessionInfo → SessionInfo
touch now s = record s { last_seen = now }

abbrev pub username_of : Option SessionInfo → Option Text
username_of none = none
username_of (some s) = some s.username

unfoldable pub validate_session : AuthState → Text → ℕ → AuthState × Option Text
validate_session a token now =
    let young = Map.retain (is_young now) a.sessions in
    (
      record a { sessions = Map.update token (touch now) young },
      username_of (Map.lookup token young),
    )

pub save : AuthState → Bool → AuthState × Bool
save a saves = (record a { users_file = if saves then a.users else a.users_file }, saves)

abbrev pub is_named : Text → User → Bool
is_named username u = eq_text u.username username

abbrev new_user : Text → Text → ℕ → User
new_user username password_hash millis = record {
  username = username;
  password_hash = password_hash;
  created_at = millis;
  last_login = none;
}

-- `cli_add_user` on the users of the file; `none` is a refusal.
add_hashed : List User → Text → Option Text → ℕ → Option (List User)
add_hashed users username none millis = none
add_hashed users username (some h) millis = some (users ++ new_user username h millis ∷ [])

unfoldable cli_add_user : Hashing → List User → Text → Text → ℕ → Option (List User)
unfolding add_hashed
cli_add_user c users username password millis =
    if any (is_named username) users
    then none
    else add_hashed users username (c.hash_password password) millis

-- The first user that passes the test, changed (`iter_mut().find`).
abbrev pub change_first : (User → Bool) → (User → User) → List User → List User
change_first p f [] = []
change_first p f (u ∷ us) = if p u then f u ∷ us else u ∷ change_first p f us

hex_digit : ℕ → ℕ
hex_digit d = if ltb d 10 then b'0' + d else b'a' + (d - 10)

-- `new_session_token` from its 32 random bytes.
pub new_session_token : List ℕ → Text
unfolding hex_digit
new_session_token [] = []
new_session_token (b ∷ bs) = hex_digit (b / 16) ∷ hex_digit (b % 16) ∷ new_session_token bs

first_cookie : List Text → Option Text
first_cookie [] = none
first_cookie (kv ∷ kvs) =
    let rest = first_cookie kvs in
    elim (strip_prefix (session_cookie ++ b'=' ∷ []) (trim kv)) [
      | some value ↦ some value
      | none ↦ rest
    ]

-- From the value of the Cookie header, if there is one.
unfoldable pub extract_session_cookie : Option Text → Option Text
unfolding first_cookie
extract_session_cookie none = none
extract_session_cookie (some raw) = first_cookie (split b';' raw)

-- `login` up to the point where it releases the users: the credentials are checked, the login is
-- noted and saved, and the name of the user goes on to the second half.
login_found : Hashing → AuthState → Text → Text → ℕ → Bool → Option User → AuthState × Option Text
unfolding save
login_found c a username password millis saves none = (a, none)
login_found c a username password millis saves (some u) =
    if c.verify_password password u.password_hash
    then (
      (save
          (record a {
            users =
                change_first (is_named username) (λ v. record v { last_login = some millis })
                  a.users;
          })
          saves).0,
      some u.username,
    )
    else (a, none)

pub login_check : Hashing → AuthState → Text → Text → ℕ → Bool → AuthState × Option Text
unfolding login_found
login_check c a username password millis saves =
    login_found c a username password millis saves (find_by (is_named username) a.users)

-- The second half, under the lock of the sessions.
unfoldable pub login_commit : AuthState → Text → Text → ℕ → AuthState
login_commit a token username now = record a {
  sessions =
      Map.insert token (record { username = username; created = now; last_seen = now }) a.sessions;
}

login_rest : AuthState → Text → ℕ → Option Text → AuthState × StatusCode
login_rest a token now none = (a, unauthorized)
login_rest a token now (some username) = (login_commit a token username now, success)

unfoldable pub login :
    Hashing → AuthState → Text → Text → Text → ℕ → ℕ → Bool → AuthState × StatusCode
unfolding login_check login_rest
login c a username password token now millis saves =
    let (a', checked) = login_check c a username password millis saves in
    login_rest a' token now checked

drop_session : AuthState → Option Text → AuthState
drop_session a none = a
drop_session a (some token) = record a { sessions = Map.remove token a.sessions }

pub logout : AuthState → Option Text → AuthState
unfolding drop_session
logout a cookies = drop_session a (extract_session_cookie cookies)

-- The user that the cookie authenticates, `me` and the caller of `change_password`.
unfoldable pub caller_of : AuthState → Option Text → ℕ → AuthState × Option Text
caller_of a none now = (a, none)
caller_of a (some token) now = validate_session a token now

unfoldable pub me : AuthState → Option Text → ℕ → AuthState × Option Text
unfolding caller_of
me a cookies now = caller_of a (extract_session_cookie cookies) now

abbrev pub user_rows : List User → List (Text × ℕ × Option ℕ)
user_rows [] = []
user_rows (u ∷ us) = (u.username, u.created_at, u.last_login) ∷ user_rows us

unfoldable list_users : AuthState → List (Text × ℕ × Option ℕ)
list_users a = user_rows a.users

saved : AuthState → Bool → AuthState × StatusCode
unfolding save
saved a saves = ((save a saves).0, if saves then success else internal_server_error)

added : AuthState → Text → Option Text → ℕ → Bool → AuthState × StatusCode
unfolding saved
added a username none millis saves = (a, internal_server_error)
added a username (some h) millis saves =
    saved (record a { users = a.users ++ new_user username h millis ∷ [] }) saves

unfoldable pub add_user : Hashing → AuthState → Text → Text → ℕ → Bool → AuthState × StatusCode
unfolding added
add_user c a username password millis saves =
    if is_empty username || ltb (length password) 6
    then (a, bad_request)
    else if any (is_named username) a.users
    then (a, conflict)
    else added a username (c.hash_password password) millis saves

-- The users without the one named, and the sessions without his.
abbrev others : Text → List User → List User
others username = keep (λ u. not (is_named username u))

unfoldable pub delete_user : AuthState → Text → Bool → AuthState × StatusCode
unfolding saved
delete_user a username saves =
    let rest = others username a.users in
    if leb (length a.users) 1
    then (a, conflict)
    else if length rest == length a.users
    then (record a { users = rest }, not_found)
    else saved
        (record a {
          users = rest;
          sessions = Map.retain (λ s. not (eq_text s.username username)) a.sessions;
        })
        saves

-- From the hash of the new password on.
rehashed : AuthState → Text → Option Text → Bool → AuthState × StatusCode
unfolding saved
rehashed a username none saves = (a, internal_server_error)
rehashed a username (some h) saves =
    saved
      (record a {
        users = change_first (is_named username) (λ u. record u { password_hash = h }) a.users;
      })
      saves

abbrev is_self : Option Text → Text → Bool
is_self none username = false
is_self (some caller) username = eq_text caller username

change_found :
    Hashing
    → AuthState
    → Text
    → Option Text
    → Option Text
    → Text
    → Bool
    → Option User
    → AuthState × StatusCode
unfolding rehashed
change_found c a username caller old new saves none = (a, not_found)
change_found c a username caller old new saves (some u) =
    if is_self caller username && not (c.verify_password (unwrap_or old []) u.password_hash)
    then (a, unauthorized)
    else rehashed a username (c.hash_password new) saves

unfoldable pub change_password :
    Hashing
    → AuthState
    → Text
    → Option Text
    → Option Text
    → Text
    → ℕ
    → Bool
    → AuthState × StatusCode
unfolding change_found me
change_password c a username cookies old new now saves =
    if ltb (length new) 6
    then (a, bad_request)
    else (let (a', caller) = me a cookies now in
        change_found c a' username caller old new saves (find_by (is_named username) a'.users))
