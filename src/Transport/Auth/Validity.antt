-- ===== src/Transport/Auth/Validity.antt =====
-- hermytt-transport/src/auth.rs: how long a browser session is good, and what ends it.
use hermytt.Prelude.{
  ℕ, ◌-◌, ◌<◌, ◌≡◌, ◌≢◌, refl, Bool, not, List, [], ◌∷◌, Option, none, some, if◌then◌else◌, arith,
  ltb, All,
}
use hermytt.Prelude.Text.{Text, eq_text, eq_text_iff, eq_text_refl}
use hermytt.Prelude.Map
use hermytt.Prelude.Map.{
  Map, UniqueKeys, lookup-insert, lookup-remove, lookup-update, lookup-retain, keep_if, map_option,
  update-UniqueKeys, retain-UniqueKeys, insert-UniqueKeys,
}
use hermytt.Transport.Auth.{
  SessionInfo, AuthState, success, is_young, username_of, session_ttl, validate_session,
  login_commit, delete_user, others,
}

-- Checks of tokens, each at its time.
unfoldable pub checks : AuthState → List (Text × ℕ) → AuthState
checks a [] = a
checks a ((token, now) ∷ cs) = checks (validate_session a token now).0 cs

-- A session of this user, begun at this time, stands under the token.
record Begun (token username : Text) (created : ℕ) (a : AuthState) : Type 0 where
  session : SessionInfo
  found : Map.lookup token a.sessions ≡ some session
  named : session.username ≡ username
  begun : session.created ≡ created
  tokens : UniqueKeys a.sessions

validate-lookup :
    (a : AuthState) (token k : Text) (now : ℕ)
    → UniqueKeys a.sessions
    → Map.lookup k (validate_session a token now).0.sessions ≡ (
        if eq_text token k
        then map_option
            (λ s. record s { last_seen = now })
            (keep_if (is_young now) (Map.lookup k a.sessions))
        else keep_if (is_young now) (Map.lookup k a.sessions))
unfolding validate_session
validate-lookup a token k now u = rw (lookup-update, lookup-retain (is_young now) k a.sessions u)

validate-tokens :
    (a : AuthState) (token : Text) (now : ℕ)
    → UniqueKeys a.sessions
    → UniqueKeys (validate_session a token now).0.sessions
unfolding validate_session
validate-tokens a token now u =
    update-UniqueKeys token _ _ (retain-UniqueKeys (is_young now) a.sessions u)

check-Begun :
    (a : AuthState) (token username k : Text) (created now : ℕ)
    → now - created < session_ttl
    → Begun token username created a
    → Begun token username created (validate_session a k now).0
check-Begun a token username k created now young b = record {
  session = if eq_text k token then record b.session { last_seen = now } else b.session;
  found = rw (validate-lookup a k token now b.tokens, b.found) (ground (arith, b.begun));
  named = ground (arith, b.named);
  begun = ground (arith, b.begun);
  tokens = validate-tokens a k now b.tokens;
}

checks-Begun :
    (a : AuthState) (cs : List (Text × ℕ)) (token username : Text) (created : ℕ)
    → All (λ c. c.1 - created < session_ttl) cs
    → Begun token username created a
    → Begun token username created (checks a cs)
unfolding checks
checks-Begun a [] token username created h b = b
checks-Begun a ((k, now) ∷ cs) token username created h b =
    checks-Begun (validate_session a k now).0 cs token username created h.1
      (check-Begun a token username k created now h.0 b)

commit-Begun :
    (a : AuthState) (token username : Text) (now : ℕ)
    → UniqueKeys a.sessions
    → Begun token username now (login_commit a token username now)
unfolding login_commit
commit-Begun a token username now u = record {
  session = record { username = username; created = now; last_seen = now };
  found = rw (lookup-insert, eq_text_refl token);
  named = refl;
  begun = refl;
  tokens = insert-UniqueKeys token _ a.sessions u;
}

-- A token given out at login is accepted, for the user who logged in, exactly until 14 days after
-- the login, whichever tokens are checked within those 14 days: use does not prolong a session.
pub validate_after_login :
    (a : AuthState) (cs : List (Text × ℕ)) (token username : Text) (start now : ℕ)
    → UniqueKeys a.sessions
    → All (λ c. c.1 - start < session_ttl) cs
    → (validate_session (checks (login_commit a token username start) cs) token now).1
      ≡ (if ltb (now - start) session_ttl then some username else none)
unfolding validate_session
validate_after_login a cs token username start now u h =
    let b =
      checks-Begun (login_commit a token username start) cs token username start h
        (commit-Begun a token username start u) in
    rw
      (
        lookup-retain (is_young now) token
            (checks (login_commit a token username start) cs).sessions b.tokens,
        b.found,
      )
      (ground (arith, b.named, b.begun))

pub delete_user-success :
    (a : AuthState) (username : Text) (saves : Bool)
    → (delete_user a username saves).1 ≡ success
    → ((delete_user a username saves).0.sessions
        ≡ Map.retain (λ s. not (eq_text s.username username)) a.sessions)
      × ((delete_user a username saves).0.users ≡ others username a.users)
unfolding delete_user
delete_user-success a username saves h = (ground arith, ground arith)

kept_name :
    (now : ℕ) (username : Text) (o : Option SessionInfo)
    → username_of (keep_if (is_young now) (keep_if (λ s. not (eq_text s.username username)) o))
      ≢ some username
kept_name now username none h = cc
kept_name now username (some s) h = absurd (ground (arith, eq_text_iff s.username username))

-- Once a user was deleted, no token is accepted for that user, at any time.
pub delete_user-kicks :
    (a : AuthState) (username token : Text) (saves : Bool) (now : ℕ)
    → UniqueKeys a.sessions
    → (delete_user a username saves).1 ≡ success
    → (validate_session (delete_user a username saves).0 token now).1 ≢ some username
unfolding validate_session
delete_user-kicks a username token saves now u done =
    let kept = λ (s : SessionInfo). not (eq_text s.username username) in
    rw
      (
        (delete_user-success a username saves done).0,
        lookup-retain (is_young now) token (Map.retain kept a.sessions)
            (retain-UniqueKeys kept a.sessions u),
        lookup-retain kept token a.sessions u,
      )
      (kept_name now username (Map.lookup token a.sessions))
