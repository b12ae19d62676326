-- ===== src/Transport/Auth/Tests.antt =====
-- Runs on concrete values: users and browser sessions.
use hermytt.Prelude.{◌-◌, ◌≡◌, refl, true, List, [], ◌∷◌, none, some, if◌then◌else◌, arith, ltb}
use hermytt.Prelude.Text.{codes, eq_text}
use hermytt.Prelude.Map
use hermytt.Prelude.Map.{Map, UniqueKeys, keep_if}
use hermytt.Transport.Auth.{
  User, AuthState, Hashing, session_ttl, validate_session, login_commit, login_check, delete_user,
  login_found, save, saved,
}
use hermytt.Transport.Auth.Accounts.{Inv, Call, run, run-Inv, logins, deletes}
use hermytt.Transport.Auth.Validity.{checks, validate_after_login}
use hermytt.Transport.Auth.Races.{login_delete_race}

abbrev ann : User
ann = record {
  username = codes "ann";
  password_hash = codes "pw";
  created_at = 1;
  last_login = none;
}

abbrev bob : User
bob = record {
  username = codes "bob";
  password_hash = codes "qw";
  created_at = 2;
  last_login = none;
}

abbrev state : AuthState
state = record { users = ann ∷ bob ∷ []; sessions = []; users_file = [] }

-- Passwords that are their own hashes.
abbrev plain : Hashing
plain = record { hash_password = λ p. some p; verify_password = eq_text }

state-Inv : Inv state
unfolding Map.lookup eq_text
state-Inv = record { names = (refl, (refl, tt)); tokens = tt; owned = λ k s e. cc }

abbrev calls : List Call
calls = logins (codes "ann") (codes "pw") (codes "t1") 5 6 true ∷ deletes (codes "ann") true ∷ []

auth_run-Inv_example : Inv (run plain state calls)
auth_run-Inv_example = run-Inv plain state calls state-Inv

validate_after_login_example :
    (validate_session
      (checks (login_commit state (codes "t1") (codes "ann") 10) ((codes "t1", 20) ∷ []))
      (codes "t1")
      2_000_000_000_000_000).1
    ≡ (if ltb (2_000_000_000_000_000 - 10) session_ttl then some (codes "ann") else none)
validate_after_login_example =
    validate_after_login state ((codes "t1", 20) ∷ []) (codes "t1") (codes "ann") 10
      2_000_000_000_000_000 tt (omega arith, tt)

login_delete_race_example :
    (validate_session
      (login_commit
        (delete_user
          (login_check plain state (codes "ann") (codes "pw") 3 true).0
          (codes "ann")
          true).0
        (codes "t1")
        (codes "ann")
        10)
      (codes "t1")
      20).1
    ≡ (if ltb (20 - 10) session_ttl then some (codes "ann") else none)
unfolding delete_user login_check login_found eq_text saved save
login_delete_race_example =
    (login_delete_race plain state (codes "ann") (codes "pw") (codes "t1") 3 10 20 true true tt refl
      refl).1
