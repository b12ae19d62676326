-- ===== src/Transport/Guard.antt =====
-- Who is let in: `auth_middleware`, `ws_cookie_preauth` and `ws_auth` of
-- hermytt-transport/src/rest.rs and the first line of a connection in hermytt-transport/src/tcp.rs.
-- Headers, query and messages are arguments, as axum and tokio deliver them.
pub mod Laws
pub mod Tests
use hermytt.Prelude.{
  ℕ, Bool, true, false, not, ◌||◌, ◌==◌, List, [], ◌∷◌, ◌++◌, Option, none, some, is_some,
  if◌then◌else◌, take,
}
use hermytt.Prelude.Text.{Text, codes, eq_text, trim, ends_with_char}
use hermytt.Transport.Auth.{AuthState, has_users, caller_of, extract_session_cookie}

-- `provided`: the header X-Hermytt-Key, else the query's token.
abbrev pub provided : Option Text → Option Text → Option Text
provided (some key) query = some key
provided none query = query

unfoldable pub key_accepted : Option Text → AuthState → Option Text → Bool
key_accepted none a key = not (has_users a)
key_accepted (some expected) a none = false
key_accepted (some expected) a (some t) = eq_text t expected

-- Whether the request goes on to its handler.
unfoldable pub auth_middleware :
    Option Text → AuthState → Option Text → Option Text → Option Text → ℕ → AuthState × Bool
unfolding key_accepted
auth_middleware auth_token a cookies key query now =
    let (a', user) = caller_of a (extract_session_cookie cookies) now in
    (a', is_some user || key_accepted auth_token a' (provided key query))

unfoldable pub ws_cookie_preauth : AuthState → Option Text → ℕ → AuthState × Bool
ws_cookie_preauth a cookies now =
    let (a', user) = caller_of a (extract_session_cookie cookies) now in (a', is_some user)

-- What comes first on a WebSocket, within the five seconds.
pub data FirstMessage : Type 0 where
  text : Text → FirstMessage
  other : FirstMessage

abbrev is_token : Text → FirstMessage → Bool
is_token token (text provided) = eq_text provided token
is_token token other = false

unfoldable pub ws_auth : Option Text → Bool → FirstMessage → Bool
ws_auth expected true first = true
ws_auth none false first = true
ws_auth (some token) false first = is_token token first

-- `ws_handler` as far as the session.
unfoldable pub ws_handler :
    Option Text → AuthState → Option Text → FirstMessage → ℕ → AuthState × Bool
unfolding ws_cookie_preauth ws_auth
ws_handler auth_token a cookies first now =
    let (a', preauth) = ws_cookie_preauth a cookies now in (a', ws_auth auth_token preauth first)

-- A line with its newline, `read_line`.
unfoldable pub read_line : Text → Text
read_line [] = []
read_line (c ∷ cs) = let rest = read_line cs in if c == 10 then c ∷ [] else c ∷ rest

-- The first line that a TCP client must send, of which at most 512 bytes are read.
unfoldable pub tcp_auth : Option Text → Text → Bool
unfolding read_line
tcp_auth none sent = true
tcp_auth (some expected) sent = eq_text (trim (read_line (take 512 sent))) expected

-- The text that `send_stdin` queues for the shell.
unfoldable pub send_stdin : Text → Text
send_stdin input = if ends_with_char 10 input then input else input ++ 10 ∷ []
