-- ===== src/Transport/Guard/Laws.antt =====
-- The guards of hermytt-transport/src/rest.rs and hermytt-transport/src/tcp.rs, one against the
-- other.
use hermytt.Prelude.{
  ℕ, ◌≡◌, ◌↔◌, refl, sym, ap, ◌∙◌, Bool, true, false, not, List, [], ◌∷◌, Option, none, some,
  is_some, arith, Bool-cases, inl, inr, ◌⊎◌, is_empty, Option-cases, take, false,
}
use hermytt.Prelude.Text.{Text, eq_text_iff, trim}
use hermytt.Transport.Auth.{
  User, AuthState, has_users, caller_of, extract_session_cookie, validate_session,
}
use hermytt.Transport.Guard.{
  text, read_line, auth_middleware, ws_handler, ws_auth, ws_cookie_preauth, tcp_auth, provided,
  key_accepted,
}

caller_of-users :
    (a : AuthState) (o : Option Text) (now : ℕ) → (caller_of a o now).0.users ≡ a.users
unfolding caller_of validate_session
caller_of-users a none now = refl
caller_of-users a (some token) now = refl

users-nobody : (a : AuthState) → not (has_users a) ≡ true → a.users ≡ []
unfolding has_users
users-nobody a h = go a.users h
  where
    go : (us : List User) → not (not (is_empty us)) ≡ true → us ≡ []
    go [] k = refl
    go (u ∷ us) k = cc

-- Why a request is let in.
abbrev pub Admitted : Option Text → AuthState → Option Text → Option Text → ℕ → Type 0
Admitted auth_token a cookies carried now =
    (is_some (caller_of a (extract_session_cookie cookies) now).1 ≡ true)
    ⊎ (((t : Text) × (auth_token ≡ some t) × (carried ≡ some t))
        ⊎ ((auth_token ≡ none) × (a.users ≡ [])))

key_accepted-exact :
    (o p : Option Text) (a : AuthState)
    → (key_accepted o a p ≡ true)
      ↔ (((t : Text) × (o ≡ some t) × (p ≡ some t)) ⊎ ((o ≡ none) × (a.users ≡ [])))
unfolding key_accepted has_users
key_accepted-exact none p a =
    (λ k. inr (refl, users-nobody a k), λ e. elim e [ inl f ↦ cc | inr f ↦ rw f.1 refl ])
key_accepted-exact (some e) none a = (λ k. cc, λ f. elim f [ inl g ↦ cc | inr g ↦ cc ])
key_accepted-exact (some e) (some t) a = (
  λ k. inl (e, refl, ap some ((eq_text_iff t e).0 k)),
  λ f. elim f [ inl g ↦ ground (arith, eq_text_iff t e, g) | inr g ↦ cc ],
)

-- A request goes on to its handler exactly when its session cookie is of a session that is valid
-- now, or the key it carries, in its header or else in its query, is the service token, or there is
-- neither a service token nor a user.
pub auth_middleware-exact :
    (auth_token : Option Text) (a : AuthState) (cookies key query : Option Text) (now : ℕ)
    → ((auth_middleware auth_token a cookies key query now).1 ≡ true)
      ↔ Admitted auth_token a cookies (provided key query) now
unfolding auth_middleware
auth_middleware-exact auth_token a cookies key query now =
    let b : AuthState = (caller_of a (extract_session_cookie cookies) now).0 in
    let valid : Bool = is_some (caller_of a (extract_session_cookie cookies) now).1 in
    let (to, from) = key_accepted-exact auth_token (provided key query) b in
    let same : b.users ≡ a.users = caller_of-users a (extract_session_cookie cookies) now in
    (
      λ h. elim (Bool-cases valid) [
        | inl t ↦ inl t
        | inr t ↦
            inr (elim (to (ground (arith, h, t))) [
              | inl f ↦ inl f
              | inr f ↦ inr (f.0, sym same ∙ f.1)
            ])
      ],
      λ h. elim h [
        | inl t ↦ ground (arith, t)
        | inr f ↦ ground (arith, from (elim f [ inl g ↦ inl g | inr g ↦ inr (g.0, same ∙ g.1) ]))
      ],
    )

-- There are users but no service token, and the caller has no valid session.
abbrev pub IsUnseen : Option Text → AuthState → Option Text → ℕ → Type 0
IsUnseen auth_token a cookies now =
    (auth_token ≡ none)
    × (has_users a ≡ true)
    × ((caller_of a (extract_session_cookie cookies) now).1 ≡ none)

-- Whoever shows one text, as the key of a request, as the first message on a WebSocket and as the
-- first line over TCP: the WebSocket lets in a caller whose request is refused, and so does TCP, exactly
-- when there are users but no service token and the caller has no valid session cookie.
pub sockets_ignore_users :
    (auth_token : Option Text) (a : AuthState) (cookies query : Option Text) (t sent : Text)
    (now : ℕ)
    → trim (read_line (take 512 sent)) ≡ t
    → ((((ws_handler auth_token a cookies (text t) now).1 ≡ true)
          × ((auth_middleware auth_token a cookies (some t) query now).1 ≡ false))
        ↔ IsUnseen auth_token a cookies now)
      × (((tcp_auth auth_token sent ≡ true)
            × ((auth_middleware auth_token a cookies (some t) query now).1 ≡ false))
          ↔ IsUnseen auth_token a cookies now)
unfolding auth_middleware key_accepted has_users ws_handler ws_cookie_preauth ws_auth tcp_auth
sockets_ignore_users none a cookies query t sent now e =
    let same = caller_of-users a (extract_session_cookie cookies) now in
    elim (Option-cases (caller_of a (extract_session_cookie cookies) now).1) [
      | inl k ↦ (
        (
          λ (w, m). (refl, ground (arith, m, k, same), k),
          λ (o, u, n). (rw k refl, rw (k, same) (ground (arith, u))),
        ),
        (
          λ (w, m). (refl, ground (arith, m, k, same), k),
          λ (o, u, n). (refl, rw (k, same) (ground (arith, u))),
        ),
      )
      | inr (name, k) ↦ (
        (λ (w, m). absurd (ground (arith, m, k)), λ (o, u, n). absurd (cc (sym k ∙ n))),
        (λ (w, m). absurd (ground (arith, m, k)), λ (o, u, n). absurd (cc (sym k ∙ n))),
      )
    ]
sockets_ignore_users (some expected) a cookies query t sent now e =
    elim (Option-cases (caller_of a (extract_session_cookie cookies) now).1) [
      | inl k ↦ (
        (λ (w, m). absurd (ground (arith, w, m, k)), λ (o, u, n). cc),
        (λ (w, m). absurd (ground (arith, w, m, k, e)), λ (o, u, n). cc),
      )
      | inr (name, k) ↦ (
        (λ (w, m). absurd (ground (arith, m, k)), λ (o, u, n). cc),
        (λ (w, m). absurd (ground (arith, m, k)), λ (o, u, n). cc),
      )
    ]
