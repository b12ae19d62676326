-- ===== src/Transport/Auth/Cookies.antt =====
-- hermytt-transport/src/auth.rs: the session cookie in a Cookie header, and session tokens.
use hermytt.Prelude.{
  ℕ, ◌*◌, ◌/◌, ◌%◌, ◌<◌, ◌≡◌, ◌≢◌, refl, ap, ◌∙◌, true, false, not, List, [], ◌∷◌, ◌++◌, none, some,
  arith, length, ◌==◌, all, All, All-append,
}
use mathlib.Core.List.{reverse, reverse-reverse, reverse-cons}
use hermytt.Prelude.Text.{
  join, Text, codes, trim, trim_end_by, trim_start_by, strip_prefix, is_space, is_alphanumeric,
}
use hermytt.Prelude.Pieces.{Lacks, split-join_nonempty}
use hermytt.Transport.Auth.{first_cookie, extract_session_cookie, new_session_token, hex_digit}

-- A token of letters and digits, as `new_session_token` makes them.
abbrev pub IsToken : Text → Type 0
IsToken = All (λ c. is_alphanumeric c ≡ true)

hex_digit-alphanumeric : (d : ℕ) → d < 16 → is_alphanumeric (hex_digit d) ≡ true
unfolding hex_digit
hex_digit-alphanumeric d h = ground arith

new_session_token-IsToken :
    (bs : List ℕ)
    → All (λ b. b < 256) bs
    → IsToken (new_session_token bs) × (length (new_session_token bs) ≡ 2 * length bs)
unfolding new_session_token
new_session_token-IsToken [] h = (tt, refl)
new_session_token-IsToken (b ∷ bs) h =
    let (t, l) = new_session_token-IsToken bs h.1 in
    (
      (
        hex_digit-alphanumeric (b / 16) (omega (arith, h.0)),
        (hex_digit-alphanumeric (b % 16) (omega arith), t),
      ),
      omega (arith, l),
    )

hex_digit-injective : (c d : ℕ) → c < 16 → d < 16 → hex_digit c ≡ hex_digit d → c ≡ d
unfolding hex_digit
hex_digit-injective c d h k e = ground arith

-- The tokens made from different random bytes are different; each is 64 letters and digits, for
-- the 32 bytes drawn.
pub new_session_token-injective :
    (bs cs : List ℕ)
    → All (λ b. b < 256) bs
    → All (λ b. b < 256) cs
    → new_session_token bs ≡ new_session_token cs
    → bs ≡ cs
unfolding new_session_token
new_session_token-injective [] [] h k e = refl
new_session_token-injective [] (c ∷ cs) h k e = cc
new_session_token-injective (b ∷ bs) [] h k e = cc
new_session_token-injective (b ∷ bs) (c ∷ cs) h k e = ground (
  arith,
  new_session_token-injective bs cs h.1 k.1,
  hex_digit-injective (b / 16) (c / 16),
  hex_digit-injective (b % 16) (c % 16),
)

abbrev Solid : Text → Type 0
Solid = All (λ c. is_space c ≡ false)

Solid-reverse : (s : Text) → Solid s → Solid (reverse s)
Solid-reverse [] h = tt
Solid-reverse (c ∷ cs) h =
    rw (reverse-cons c cs)
      (All-append (λ c. is_space c ≡ false) (reverse cs) (c ∷ []) (Solid-reverse cs h.1) (h.0, tt))

Solid-trim_start : (s : Text) → Solid s → trim_start_by is_space s ≡ s
unfolding trim_start_by
Solid-trim_start [] h = refl
Solid-trim_start (c ∷ cs) h = rw h.0 refl

Solid-trim : (s : Text) → Solid s → trim (b' ' ∷ s) ≡ s
unfolding trim trim_end_by trim_start_by
Solid-trim s h =
    rw (Solid-trim_start s h, Solid-trim_start (reverse s) (Solid-reverse s h)) (reverse-reverse s)

token-Solid : (token : Text) → IsToken token → Solid token
token-Solid [] h = tt
token-Solid (c ∷ cs) h = (visible c h.0, token-Solid cs h.1)
  where
    visible : (d : ℕ) → is_alphanumeric d ≡ true → is_space d ≡ false
    visible d k = ground arith

token-Lacks : (token : Text) → IsToken token → Lacks b';' token
token-Lacks [] h = tt
token-Lacks (c ∷ cs) h = (other c h.0, token-Lacks cs h.1)
  where
    other : (d : ℕ) → is_alphanumeric d ≡ true → d ≢ b';'
    other d k = ground arith

-- The cookie of the session as browsers send it, after a space.
abbrev pub session_pair : Text → Text
session_pair token = codes " hermytt_session=" ++ token

session_pair-Lacks : (token : Text) → IsToken token → Lacks b';' (session_pair token)
session_pair-Lacks token h =
    All-append (λ c. c ≢ b';') (codes " hermytt_session=") token
      (fixed (codes " hermytt_session=") refl) (token-Lacks token h)
  where
    fixed : (s : Text) → all (λ c. not (c == b';')) s ≡ true → Lacks b';' s
    fixed [] k = tt
    fixed (c ∷ cs) k = (ground arith, fixed cs (ground arith))

session_pair-trim :
    (token : Text) → IsToken token → trim (session_pair token) ≡ codes "hermytt_session=" ++ token
session_pair-trim token h = Solid-trim (codes "hermytt_session=" ++ token) (
    All-append (λ c. is_space c ≡ false) (codes "hermytt_session=") token
      (fixed (codes "hermytt_session=") refl) (token-Solid token h))
  where
    fixed : (s : Text) → all (λ c. not (is_space c)) s ≡ true → Solid s
    fixed [] k = tt
    fixed (c ∷ cs) k = (ground arith, fixed cs (ground arith))

-- Another cookie: its trimmed text does not begin with the name of the session's.
abbrev pub IsOther : Text → Type 0
IsOther kv = Lacks b';' kv × (strip_prefix (codes "hermytt_session=") (trim kv) ≡ none)

strip_prefix-append : (p t : Text) → strip_prefix p (p ++ t) ≡ some t
unfolding strip_prefix
strip_prefix-append [] t = refl
strip_prefix-append (c ∷ cs) t = ground (arith, strip_prefix-append cs t)

first_cookie-here :
    (kv value : Text) (kvs : List Text)
    → strip_prefix (codes "hermytt_session=") (trim kv) ≡ some value
    → first_cookie (kv ∷ kvs) ≡ some value
unfolding first_cookie
first_cookie-here kv value kvs e = rw (first_cookie, e) refl

first_cookie-past :
    (kv : Text) (kvs : List Text)
    → strip_prefix (codes "hermytt_session=") (trim kv) ≡ none
    → first_cookie (kv ∷ kvs) ≡ first_cookie kvs
unfolding first_cookie
first_cookie-past kv kvs e =
    ap (λ o. elim o [ some value ↦ some value | none ↦ first_cookie kvs ]) e

first_cookie-session :
    (before after : List Text) (token : Text)
    → All IsOther before
    → IsToken token
    → first_cookie (before ++ session_pair token ∷ after) ≡ some token
first_cookie-session [] after token h k =
    first_cookie-here (session_pair token) token after
      (rw (session_pair-trim token k) (strip_prefix-append (codes "hermytt_session=") token))
first_cookie-session (kv ∷ before) after token h k =
    first_cookie-past kv (before ++ session_pair token ∷ after) h.0.1
    ∙ first_cookie-session before after token h.1 k

-- The pieces of a header with the session's cookie among others have no separator in them.
pieces-Lacks :
    (before after : List Text) (token : Text)
    → All IsOther before
    → All (Lacks b';') after
    → IsToken token
    → All (Lacks b';') (before ++ session_pair token ∷ after)
pieces-Lacks [] after token h k t = (session_pair-Lacks token t, k)
pieces-Lacks (kv ∷ before) after token h k t = (h.0.0, pieces-Lacks before after token h.1 k t)

-- From a Cookie header in which the session's cookie stands among others, whose names are not that
-- of the session's before it, exactly the token is read, when it is of letters and digits as all
-- that are given out.
pub extract_session_cookie-session :
    (before after : List Text) (token : Text)
    → All IsOther before
    → All (Lacks b';') after
    → IsToken token
    → extract_session_cookie (some (join (b';' ∷ []) (before ++ session_pair token ∷ after)))
      ≡ some token
unfolding extract_session_cookie
extract_session_cookie-session before after token h k t =
    ap first_cookie (
      split-join_nonempty b';' (before ++ session_pair token ∷ after) (filled before)
        (pieces-Lacks before after token h k t))
    ∙ first_cookie-session before after token h t
  where
    filled : (ss : List Text) → ss ++ session_pair token ∷ after ≢ []
    filled [] e = cc
    filled (s ∷ ss) e = cc
