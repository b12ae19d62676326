-- ===== src/Transport/Proxy.antt =====
-- hermytt-transport/src/proxy.rs: requests that are handed on to a service. What comes back from the
-- service is an argument: nothing, if it cannot be reached. Its body is a stream of chunks, each with
-- what was read, or nothing for an error.
pub mod Requests
pub mod Tests
use hermytt.Prelude.{
  ℕ, Bool, true, false, not, ◌||◌, ◌==◌, List, [], ◌∷◌, ◌++◌, Option, none, some, if◌then◌else◌,
  unwrap_or, is_empty, map, leb, ◌&&◌, ltb, any,
}
use hermytt.Prelude.Text.{Text, codes, eq_text, lower, starts_with, trim_start_by, trim_end_by}
use hermytt.Core.Registry.{ServiceRegistry, ServiceInfo, ServiceStatus, connected, disconnected}
use hermytt.Core.Registry

-- `query` is the part of the request's URL that its handler does not extract.
pub record Request : Type 0 where
  pub method : Text
  pub path : Text
  pub query : Option Text
  pub headers : List (Text × Text)
  pub body : Text

-- What is sent to the service: for the path, the URL.
pub record Sent : Type 0 where
  pub method : Text
  pub url : Text
  pub headers : List (Text × Text)
  pub body : Option Text

-- A header's value is there if it is text.
pub record Upstream : Type 0 where
  pub status : ℕ
  pub headers : List (Text × Option Text)
  pub bytes_stream : List (Option Text)

pub record Response : Type 0 where
  pub status : ℕ
  pub headers : List (Text × Text)
  pub body : List (Option Text)

-- The answer, and the request that was sent, if one was.
pub data Proxied : Type 0 where
  not_found is_disconnected no_http : Proxied
  unreachable : Sent → Proxied
  proxied : Sent → Response → Proxied

abbrev hop_by_hop : List Text
hop_by_hop =
    codes "host"
    ∷ codes "connection"
    ∷ codes "content-length"
    ∷ codes "transfer-encoding"
    ∷ codes "keep-alive"
    ∷ codes "upgrade"
    ∷ []

unfoldable pub is_dropped : Text → Bool
is_dropped name = any (λ h. eq_text (map lower name) h) hop_by_hop

unfoldable pub forwarded : List (Text × Text) → List (Text × Text)
forwarded [] = []
forwarded ((k, v) ∷ hs) = if is_dropped k then forwarded hs else (k, v) ∷ forwarded hs

abbrev is_slash : ℕ → Bool
is_slash c = c == b'/'

unfoldable pub url_of : Text → Text → Text
url_of endpoint path = trim_end_by is_slash endpoint ++ (b'/' ∷ trim_start_by is_slash path)

abbrev pub request_to : ServiceInfo → Request → Sent
request_to svc req = record {
  method = req.method;
  url = url_of svc.endpoint req.path;
  headers = forwarded req.headers;
  body = if is_empty req.body then none else some req.body;
}

-- `from_u16` takes 100 to 999.
abbrev pub status_of : ℕ → ℕ
status_of n = if leb 100 n && ltb n 1000 then n else 500

abbrev get_header : Text → List (Text × Option Text) → Option Text
get_header name [] = none
get_header name ((k, v) ∷ hs) = if eq_text (map lower k) name then v else get_header name hs

unfoldable pub response_of : Upstream → Response
response_of u = record {
  status = status_of u.status;
  headers =
      (
        codes "content-type",
        unwrap_or (get_header (codes "content-type") u.headers) (codes "application/json"),
      )
      ∷ [];
  body = u.bytes_stream;
}

abbrev pub answer : Sent → Option Upstream → Proxied
answer sent none = unreachable sent
answer sent (some u) = proxied sent (response_of u)

abbrev if_connected : ServiceStatus → Proxied → Proxied
if_connected disconnected p = is_disconnected
if_connected connected p = p

abbrev pub hand_on : Option ServiceInfo → Request → Option Upstream → Proxied
hand_on none req upstream = not_found
hand_on (some svc) req upstream = if_connected svc.status (
    if starts_with (codes "http") svc.endpoint
    then answer (request_to svc req) upstream
    else no_http)

unfoldable pub registry_proxy :
    ServiceRegistry → Text → Request → ℕ → Option Upstream → ServiceRegistry × Proxied
registry_proxy r name req now upstream =
    let (r', svc) = Registry.get r name now in (r', hand_on svc req upstream)
