-- ===== src/Transport/Auth/Races.antt =====
-- hermytt-transport/src/auth.rs: `login` releases the users before it takes the sessions.
use hermytt.Prelude.{
  ℕ, ◌-◌, ◌≡◌, Bool, false, Option, none, some, [], not, refl, if◌then◌else◌, ltb, arith,
}
use hermytt.Prelude.Text.{Text, eq_text, eq_text_refl}
use hermytt.Prelude.Map.{UniqueKeys, retain-UniqueKeys}
use hermytt.Transport.Auth.{
  AuthState, Hashing, success, session_ttl, validate_session, login_check, login_found,
  login_commit, delete_user, others, User,
}
use hermytt.Transport.Auth.Users.{has_user, has_user-others}
use hermytt.Transport.Auth.Validity.{checks, validate_after_login, delete_user-success}

others-has_user : (a : AuthState) (name : Text) → has_user name (others name a.users) ≡ false
others-has_user a name = rw (has_user-others name name a.users, eq_text_refl name)

login_found-sessions :
    (c : Hashing) (a : AuthState) (name password : Text) (millis : ℕ) (saves : Bool)
    (o : Option User)
    → (login_found c a name password millis saves o).0.sessions ≡ a.sessions
unfolding login_found
login_found-sessions c a name password millis saves none = refl
login_found-sessions c a name password millis saves (some u) = ground arith

login_check-sessions :
    (c : Hashing) (a : AuthState) (name password : Text) (millis : ℕ) (saves : Bool)
    → (login_check c a name password millis saves).0.sessions ≡ a.sessions
unfolding login_check
login_check-sessions c a name password millis saves =
    login_found-sessions c a name password millis saves _

-- A login whose credentials were found right, whose user is then deleted, and whose session is
-- entered only after that, gives a token that is accepted for the deleted user for 14 days.
pub login_delete_race :
    (c : Hashing) (a : AuthState) (name password token : Text) (millis start now : ℕ)
    (saves saves' : Bool)
    → UniqueKeys a.sessions
    → let (checked, who) = login_check c a name password millis saves in
      who ≡ some name
      → (delete_user checked name saves').1 ≡ success
      → let a' = login_commit (delete_user checked name saves').0 token name start in
        (has_user name a'.users ≡ false)
        × ((validate_session a' token now).1
            ≡ (if ltb (now - start) session_ttl then some name else none))
unfolding login_commit
login_delete_race c a name password token millis start now saves saves' u who done =
    let checked = (login_check c a name password millis saves).0 in
    let (kept, rest) = delete_user-success checked name saves' done in
    let tokens : UniqueKeys (delete_user checked name saves').0.sessions =
      rw (kept, login_check-sessions c a name password millis saves)
        (retain-UniqueKeys (λ s. not (eq_text s.username name)) a.sessions u) in
    (
      rw rest (others-has_user checked name),
      unfold checks in
          validate_after_login (delete_user checked name saves').0 [] token name start now tokens
            tt,
    )
