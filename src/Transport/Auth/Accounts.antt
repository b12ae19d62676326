-- ===== src/Transport/Auth/Accounts.antt =====
-- hermytt-transport/src/auth.rs: the invariant of users and sessions, and sequences of requests.
use hermytt.Prelude.{
  ℕ, ◌≡◌, refl, ◌∙◌, Bool, true, false, not, List, [], ◌∷◌, ◌++◌, Option, none, some, arith,
  Bool-cases, Option-cases, inl, inr, length, ltb, leb, find_by, subst, ◌==◌, ==_iff,
}
use hermytt.Prelude.Text.{Text, eq_text, eq_text_iff}
use hermytt.Prelude.Map
use hermytt.Prelude.Map.{
  Map, UniqueKeys, lookup-insert, lookup-remove, lookup-update, lookup-retain, keep_if, map_option,
  insert-UniqueKeys, remove-UniqueKeys, update-UniqueKeys, retain-UniqueKeys,
}
use hermytt.Transport.Auth.{
  User, SessionInfo, AuthState, Hashing, is_young, is_named, others, change_first, validate_session,
  extract_session_cookie, login, login_found, login_rest, login_commit, logout, drop_session, me,
  caller_of, add_user, added, saved, delete_user, change_password, change_found, rehashed,
}
use hermytt.Transport.Auth.Users.{
  has_user, UniqueNames, has_user-change_first, change_first-UniqueNames, has_user-others,
  others-UniqueNames, others_none, has_user-concat, concat-UniqueNames, find_by_has,
}

pub record Inv (a : AuthState) : Type 0 where
  pub names : UniqueNames a.users
  pub tokens : UniqueKeys a.sessions
  pub owned :
      (token : Text) (s : SessionInfo)
      → Map.lookup token a.sessions ≡ some s
      → has_user s.username a.users ≡ true

validate-Inv :
    (a : AuthState) (token : Text) (now : ℕ) → Inv a → Inv (validate_session a token now).0
unfolding validate_session
validate-Inv a token now v = record {
  names = v.names;
  tokens = update-UniqueKeys token _ _ (retain-UniqueKeys (is_young now) a.sessions v.tokens);
  owned = λ k s.
      rw (lookup-update, lookup-retain (is_young now) k a.sessions v.tokens)
        (elim (Option-cases (Map.lookup k a.sessions)) [
          | inl e ↦ rw e (ground arith)
          | inr (t, e) ↦ rw e (ground (arith, v.owned k t e))
        ]);
}

-- Changes to the users that keep their names.
users-Inv :
    (a : AuthState) (us file : List User)
    → UniqueNames us
    → ((k : Text) → has_user k a.users ≡ true → has_user k us ≡ true)
    → Inv a
    → Inv (record a { users = us; users_file = file })
users-Inv a us file n keeps v = record {
  names = n;
  tokens = v.tokens;
  owned = λ k s e. keeps s.username (v.owned k s e);
}

saved-Inv : (a : AuthState) (saves : Bool) → Inv a → Inv (saved a saves).0
unfolding saved
saved-Inv a saves v = record { names = v.names; tokens = v.tokens; owned = v.owned }

commit-Inv :
    (a : AuthState) (token username : Text) (now : ℕ)
    → has_user username a.users ≡ true
    → Inv a
    → Inv (login_commit a token username now)
unfolding login_commit
commit-Inv a token username now h v = record {
  names = v.names;
  tokens = insert-UniqueKeys token _ a.sessions v.tokens;
  owned = λ k s. rw lookup-insert (ground (arith, h, v.owned k s));
}

noted-Inv :
    (a : AuthState) (username : Text) (millis : ℕ) (file : List User)
    → Inv a
    → Inv (record a {
      users = change_first (is_named username) (λ v. record v { last_login = some millis }) a.users;
      users_file = file;
    })
noted-Inv a username millis file v =
    users-Inv a _ file (change_first-UniqueNames _ _ a.users (λ w. refl) v.names)
      (λ k h. has_user-change_first k (is_named username) _ a.users (λ w. refl) ∙ h) v

login_found-Inv :
    (c : Hashing) (a : AuthState) (username password : Text) (millis : ℕ) (saves : Bool)
    (o : Option User)
    → find_by (is_named username) a.users ≡ o
    → Inv a
    → let (a', checked) = login_found c a username password millis saves o in
      Inv a' × ((n : Text) → checked ≡ some n → has_user n a'.users ≡ true)
unfolding login_found
login_found-Inv c a username password millis saves none e v = (v, λ n h. cc)
login_found-Inv c a username password millis saves (some u) e v =
    elim (Bool-cases (c.verify_password password u.password_hash)) [
      | inl t ↦ rw t (
        noted-Inv a username millis _ v,
        λ n h.
            has_user-change_first n (is_named username) _ a.users (λ w. refl)
            ∙ subst (λ k. has_user k a.users ≡ true) (some_injective h)
                (find_by_has username a.users u e),
      )
      | inr t ↦ rw t (v, λ n h. cc)
    ]
  where
    some_injective : {x y : Text} → some x ≡ some y → x ≡ y
    some_injective h = ground (arith, h)

login_rest-Inv :
    (a : AuthState) (token : Text) (now : ℕ) (checked : Option Text)
    → ((n : Text) → checked ≡ some n → has_user n a.users ≡ true)
    → Inv a
    → Inv (login_rest a token now checked).0
unfolding login_rest
login_rest-Inv a token now none h v = v
login_rest-Inv a token now (some n) h v = commit-Inv a token n now (h n refl) v

login-Inv :
    (c : Hashing) (a : AuthState) (username password token : Text) (now millis : ℕ) (saves : Bool)
    → Inv a
    → Inv (login c a username password token now millis saves).0
unfolding login
login-Inv c a username password token now millis saves v =
    let (v', h) = login_found-Inv c a username password millis saves _ refl v in
    login_rest-Inv _ token now _ h v'

logout-Inv : (a : AuthState) (cookies : Option Text) → Inv a → Inv (logout a cookies)
unfolding logout
logout-Inv a cookies v = go (extract_session_cookie cookies)
  where
    go : (o : Option Text) → Inv (drop_session a o)
    go none = v
    go (some token) = record {
      names = v.names;
      tokens = remove-UniqueKeys token a.sessions v.tokens;
      owned = λ k s. rw lookup-remove (ground (arith, v.owned k s));
    }

me-Inv : (a : AuthState) (cookies : Option Text) (now : ℕ) → Inv a → Inv (me a cookies now).0
unfolding me
me-Inv a cookies now v = go (extract_session_cookie cookies)
  where
    go : (o : Option Text) → Inv (caller_of a o now).0
    go none = v
    go (some token) = validate-Inv a token now v

added-Inv :
    (a : AuthState) (username : Text) (h : Option Text) (millis : ℕ) (saves : Bool)
    → has_user username a.users ≡ false
    → Inv a
    → Inv (added a username h millis saves).0
unfolding added
added-Inv a username none millis saves free v = v
added-Inv a username (some h) millis saves free v =
    let u : User = record {
      username = username;
      password_hash = h;
      created_at = millis;
      last_login = none;
    } in
    saved-Inv _ saves (
      users-Inv a (a.users ++ u ∷ []) a.users_file (concat-UniqueNames a.users u free v.names)
        (λ k q. ground (arith, has_user-concat k a.users u, q)) v)

add_user-Inv :
    (c : Hashing) (a : AuthState) (username password : Text) (millis : ℕ) (saves : Bool)
    → Inv a
    → Inv (add_user c a username password millis saves).0
unfolding add_user
add_user-Inv c a username password millis saves v =
    ground (arith, added-Inv a username (c.hash_password password) millis saves)

kicked-Inv :
    (a : AuthState) (username : Text)
    → Inv a
    → Inv (record a {
      users = others username a.users;
      sessions = Map.retain (λ s. not (eq_text s.username username)) a.sessions;
    })
kicked-Inv a username v = record {
  names = others-UniqueNames username a.users v.names;
  tokens = retain-UniqueKeys _ a.sessions v.tokens;
  owned = λ k s.
      rw (lookup-retain (λ t. not (eq_text t.username username)) k a.sessions v.tokens)
        (elim (Option-cases (Map.lookup k a.sessions)) [
          | inl e ↦ rw e (ground arith)
          | inr (t, e) ↦ rw e (
              ground (
                arith,
                v.owned k t e,
                has_user-others t.username username a.users,
                eq_text_iff username t.username,
                eq_text_iff t.username username,
              ))
        ]);
}

delete_user-Inv :
    (a : AuthState) (username : Text) (saves : Bool) → Inv a → Inv (delete_user a username saves).0
unfolding delete_user
delete_user-Inv a username saves v = elim (Bool-cases (leb (length a.users) 1)) [
  | inl t ↦ rw (t, delete_user) v
  | inr t ↦
      rw (t, delete_user)
        (elim (Bool-cases (length (others username a.users) == length a.users)) [
          | inl q ↦ rw q (
              users-Inv a _ a.users_file (others-UniqueNames username a.users v.names)
                (λ k h. rw (others_none username a.users ((==_iff _ _).0 q)) h) v)
          | inr q ↦ rw q (saved-Inv _ saves (kicked-Inv a username v))
        ])
]

rehashed-Inv :
    (a : AuthState) (username : Text) (h : Option Text) (saves : Bool)
    → Inv a
    → Inv (rehashed a username h saves).0
unfolding rehashed
rehashed-Inv a username none saves v = v
rehashed-Inv a username (some h) saves v = saved-Inv _ saves (
    users-Inv a _ a.users_file (change_first-UniqueNames _ _ a.users (λ w. refl) v.names)
      (λ k q. has_user-change_first k (is_named username) _ a.users (λ w. refl) ∙ q) v)

change_found-Inv :
    (c : Hashing) (a : AuthState) (username : Text) (caller old : Option Text) (new : Text)
    (saves : Bool) (o : Option User)
    → Inv a
    → Inv (change_found c a username caller old new saves o).0
unfolding change_found
change_found-Inv c a username caller old new saves none v = v
change_found-Inv c a username caller old new saves (some u) v =
    ground (arith, rehashed-Inv a username (c.hash_password new) saves)

change_password-Inv :
    (c : Hashing) (a : AuthState) (username : Text) (cookies old : Option Text) (new : Text)
    (now : ℕ) (saves : Bool)
    → Inv a
    → Inv (change_password c a username cookies old new now saves).0
unfolding change_password
change_password-Inv c a username cookies old new now saves v =
    elim (Bool-cases (ltb (length new) 6)) [
      | inl t ↦ rw (t, change_password) v
      | inr t ↦
          rw (t, change_password)
            (change_found-Inv c _ username _ old new saves _ (me-Inv a cookies now v))
    ]

-- The requests that change the accounts, with what each draws on.
pub data Call : Type 0 where
  logins : Text → Text → Text → ℕ → ℕ → Bool → Call
  logouts : Option Text → Call
  asks : Option Text → ℕ → Call
  adds : Text → Text → ℕ → Bool → Call
  deletes : Text → Bool → Call
  changes : Text → Option Text → Option Text → Text → ℕ → Bool → Call

pub step : Hashing → AuthState → Call → AuthState
step c a (logins username password token now millis saves) =
    (login c a username password token now millis saves).0
step c a (logouts cookies) = logout a cookies
step c a (asks cookies now) = (me a cookies now).0
step c a (adds username password millis saves) = (add_user c a username password millis saves).0
step c a (deletes username saves) = (delete_user a username saves).0
step c a (changes username cookies old new now saves) =
    (change_password c a username cookies old new now saves).0

pub run : Hashing → AuthState → List Call → AuthState
run c a [] = a
run c a (r ∷ rs) = run c (step c a r) rs

step-Inv : (c : Hashing) (a : AuthState) (r : Call) → Inv a → Inv (step c a r)
unfolding step
step-Inv c a (logins u p t now millis saves) v = login-Inv c a u p t now millis saves v
step-Inv c a (logouts cookies) v = logout-Inv a cookies v
step-Inv c a (asks cookies now) v = me-Inv a cookies now v
step-Inv c a (adds u p millis saves) v = add_user-Inv c a u p millis saves v
step-Inv c a (deletes u saves) v = delete_user-Inv a u saves v
step-Inv c a (changes u cookies old new now saves) v =
    change_password-Inv c a u cookies old new now saves v

-- Through any requests, each handled before the next, user names stay unique and every browser
-- session is of a user that exists, given that this held at the start.
pub run-Inv : (c : Hashing) (a : AuthState) (rs : List Call) → Inv a → Inv (run c a rs)
unfolding run
run-Inv c a [] v = v
run-Inv c a (r ∷ rs) v = run-Inv c (step c a r) rs (step-Inv c a r v)
