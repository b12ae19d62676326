-- ===== src/Transport/Proxy/Requests.antt =====
-- hermytt-transport/src/proxy.rs: which requests reach a service, as what, and what comes back.
use mathlib.Core.List.{reverse, reverse_aux, reverse-append, reverse-cons, reverse-reverse}
use hermytt.Prelude.{
  ℕ, zero, suc, ◌-◌, ◌≤◌, ◌<◌, ◌≡◌, refl, sym, ap, ◌∙◌, Bool, false, not, List, [], ◌∷◌, ◌++◌,
  Option, none, some, if◌then◌else◌, arith, keep, Bool-cases, ltb, inl, inr, All, any, is_empty,
  map, ◌==◌, unwrap_or, append_assoc,
}
use hermytt.Prelude.Text.{Text, codes, eq_text, lower, starts_with, trim_start_by, trim_end_by}
use hermytt.Core.Registry.{ServiceRegistry, ServiceInfo, register, expire_after}
use hermytt.Core.Registry.Expiry.{Query, queries, time, status_exact}
use hermytt.Transport.Proxy.{
  Request, Sent, Upstream, Proxied, proxied, unreachable, is_disconnected, no_http, forwarded,
  is_dropped, hand_on, registry_proxy, request_to, response_of, answer, url_of, get_header,
}

-- What a request to `base` for `rest` becomes: the query is lost, as are the headers that concern the
-- connection to this server.
abbrev pub expected : Text → Text → Request → Sent
expected base rest req = record {
  method = req.method;
  url = base ++ codes "/" ++ rest;
  headers = keep (λ (k, v). not (concerns_connection (map lower k))) req.headers;
  body = if is_empty req.body then none else some req.body;
}
  where
    concerns_connection : Text → Bool
    concerns_connection name = any (eq_text name) (
        codes "upgrade"
        ∷ codes "keep-alive"
        ∷ codes "transfer-encoding"
        ∷ codes "content-length"
        ∷ codes "connection"
        ∷ codes "host"
        ∷ [])

abbrev content_type_among : List (Text × Option Text) → Text
content_type_among [] = codes "application/json"
content_type_among ((k, none) ∷ hs) = codes "application/json"
content_type_among ((k, some v) ∷ hs) = v

-- What comes back: of the headers, the content's type alone, the first if there are several.
abbrev pub expected_answer : Sent → Option Upstream → Proxied
expected_answer sent none = unreachable sent
expected_answer sent (some u) = proxied sent (record {
  status = u.status;
  headers =
      (
        codes "content-type",
        content_type_among
            (keep (λ (k, v). eq_text (map lower k) (codes "content-type")) u.headers),
      )
      ∷ [];
  body = u.bytes_stream;
})

-- The statuses of HTTP.
abbrev pub HasStatus : Option Upstream → Type 0
HasStatus none = Unit
HasStatus (some u) = (100 ≤ u.status) × (u.status < 1000)

abbrev pub slashes : ℕ → Text
slashes zero = []
slashes (suc n) = b'/' ∷ slashes n

slashes-cons : (n : ℕ) (r : Text) → slashes n ++ (b'/' ∷ r) ≡ b'/' ∷ (slashes n ++ r)
slashes-cons zero r = refl
slashes-cons (suc n) r = ap (◌∷◌ b'/') (slashes-cons n r)

reverse_aux-slashes : (n : ℕ) (r : Text) → reverse_aux (slashes n) r ≡ slashes n ++ r
reverse_aux-slashes zero r = refl
reverse_aux-slashes (suc n) r = reverse_aux-slashes n (b'/' ∷ r) ∙ slashes-cons n r

trim_start_by-slashes :
    (n : ℕ) (r : Text)
    → starts_with (codes "/") r ≡ false
    → trim_start_by (λ c. c == b'/') (slashes n ++ r) ≡ r
unfolding trim_start_by starts_with
trim_start_by-slashes zero [] h = refl
trim_start_by-slashes zero (c ∷ r) h = ground (arith, h)
trim_start_by-slashes (suc n) r h = trim_start_by-slashes n r h

trim_end_by-slashes :
    (base : Text) (c n : ℕ)
    → (c == b'/') ≡ false
    → trim_end_by (λ c. c == b'/') (base ++ (c ∷ slashes n)) ≡ base ++ (c ∷ [])
unfolding trim_end_by
trim_end_by-slashes base c n h =
    ap (λ s. reverse (trim_start_by (λ c. c == b'/') s))
      (reverse-append base (c ∷ slashes n)
        ∙ ap (λ s. s ++ reverse base) (reverse_aux-slashes n (c ∷ []))
        ∙ append_assoc (slashes n) (c ∷ []) (reverse base))
    ∙ ap reverse
        (trim_start_by-slashes n (c ∷ reverse base) (unfold starts_with in ground (arith, h)))
    ∙ reverse-cons c (reverse base)
    ∙ ap (λ s. s ++ (c ∷ [])) (reverse-reverse base)

url_of-slashes :
    (base : Text) (c n k : ℕ) (rest : Text)
    → (c == b'/') ≡ false
    → starts_with (codes "/") rest ≡ false
    → url_of (base ++ (c ∷ slashes n)) (slashes k ++ rest) ≡ (base ++ (c ∷ [])) ++ codes "/" ++ rest
unfolding url_of
url_of-slashes base c n k rest h g =
    rw (trim_end_by-slashes base c n h, trim_start_by-slashes k rest g)
      (sym (append_assoc (base ++ (c ∷ [])) (codes "/") rest))

forwarded-expected :
    (base rest : Text) (req : Request) → forwarded req.headers ≡ (expected base rest req).headers
unfolding forwarded is_dropped
forwarded-expected base rest req = go req.headers
  where
    go :
        (hs : List (Text × Text))
        → forwarded hs ≡ (expected base rest (record req { headers = hs })).headers
    go [] = refl
    go ((k, v) ∷ hs) = ground (arith, go hs)

get_header-among :
    (hs : List (Text × Option Text))
    → unwrap_or (get_header (codes "content-type") hs) (codes "application/json")
      ≡ content_type_among (keep (λ (k, v). eq_text (map lower k) (codes "content-type")) hs)
get_header-among [] = refl
get_header-among ((k, none) ∷ hs) =
    elim (Bool-cases (eq_text (map lower k) (codes "content-type"))) [
      | inl q ↦ rw q refl
      | inr q ↦ rw q (get_header-among hs)
    ]
get_header-among ((k, some v) ∷ hs) =
    elim (Bool-cases (eq_text (map lower k) (codes "content-type"))) [
      | inl q ↦ rw q refl
      | inr q ↦ rw q (get_header-among hs)
    ]

answer-expected :
    (sent : Sent) (upstream : Option Upstream)
    → HasStatus upstream
    → answer sent upstream ≡ expected_answer sent upstream
unfolding response_of
answer-expected sent none h = refl
answer-expected sent (some u) h = rw (get_header-among u.headers) (
    ap
      (λ n. proxied sent (record {
        status = n;
        headers =
            (
              codes "content-type",
              content_type_among
                  (keep (λ (k, v). eq_text (map lower k) (codes "content-type")) u.headers),
            )
            ∷ [];
        body = u.bytes_stream;
      }))
      (ground (arith, h)))

-- A request for a service that announced itself at `now`, made at `t` with whatever queries in
-- between, is refused when more than 30 seconds have gone by, or when its endpoint is not one of
-- HTTP. Else it goes to the endpoint, followed by one slash and the path, however many slashes the
-- endpoint ends with and the path begins with; its query is lost, and so are the headers host,
-- connection, content-length, transfer-encoding, keep-alive and upgrade. What comes back to the client
-- is the status, one of HTTP, and the body of the service's answer, and of its headers the type of the
-- content alone. The endpoint is more than slashes.
pub registry_proxy-exact :
    (r : ServiceRegistry) (info : ServiceInfo) (now epoch t : ℕ) (qs : List Query) (req : Request)
    (upstream : Option Upstream) (base : Text) (c n k : ℕ) (rest : Text)
    → All (λ q. time q ≤ t) qs
    → HasStatus upstream
    → info.endpoint ≡ base ++ (c ∷ slashes n)
    → (c == b'/') ≡ false
    → req.path ≡ slashes k ++ rest
    → starts_with (codes "/") rest ≡ false
    → (registry_proxy (queries (register r info now epoch) qs) info.name req t upstream).1 ≡ (
        if ltb expire_after (t - now)
        then is_disconnected
        else if starts_with (codes "http") info.endpoint
        then expected_answer (expected (base ++ (c ∷ [])) rest req) upstream
        else no_http)
unfolding registry_proxy
registry_proxy-exact r info now epoch t qs req upstream base c n k rest a s e h p g =
    ap (λ o. hand_on o req upstream) (status_exact r info now epoch qs t a).0
    ∙ elim (Bool-cases (ltb expire_after (t - now))) [
      | inl q ↦ rw q refl
      | inr q ↦ rw q (
          ap (λ w. if starts_with (codes "http") info.endpoint then w else no_http)
            (ap (λ x. answer x upstream) sent_as_expected
              ∙ answer-expected (expected (base ++ (c ∷ [])) rest req) upstream s))
    ]
  where
    sent_as_expected : request_to info req ≡ expected (base ++ (c ∷ [])) rest req
    sent_as_expected =
        rw
          (forwarded-expected (base ++ (c ∷ [])) rest req, e, p, url_of-slashes base c n k rest h g)
          refl
