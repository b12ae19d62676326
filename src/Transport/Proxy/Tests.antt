-- ===== src/Transport/Proxy/Tests.antt =====
-- Runs on concrete values: the proxy.
use hermytt.Prelude.{◌≡◌, refl, [], ◌∷◌, none, some, arith}
use hermytt.Prelude.Text.{codes, starts_with}
use hermytt.Core.Registry.{ServiceInfo, ServiceRegistry, connected, bot, register}
use hermytt.Core.Registry.Expiry.{queries, lists}
use hermytt.Transport.Proxy.{Request, Upstream, registry_proxy}
use hermytt.Transport.Proxy.Requests.{registry_proxy-exact, expected, expected_answer}

abbrev info : ServiceInfo
info = record {
  name = codes "apytti";
  role = bot;
  endpoint = codes "http://h:1/";
  status = connected;
  last_seen_instant = none;
  last_seen = 0;
  meta = codes "null";
}

abbrev ask : Request
ask = record {
  method = codes "POST";
  path = codes "/api/ask";
  query = some (codes "x=1");
  headers = (codes "Host", codes "x") ∷ (codes "Accept", codes "y") ∷ [];
  body = [];
}

abbrev nothing_yet : ServiceRegistry
nothing_yet = record { services = [] }

abbrev reply : Upstream
reply = record {
  status = 200;
  headers = (codes "Content-Type", some (codes "text/html")) ∷ (codes "Set-Cookie", some []) ∷ [];
  bytes_stream = some (codes "hi") ∷ [];
}

registry_proxy-exact_example :
    (registry_proxy
      (queries (register nothing_yet info 10 3) (lists 20 ∷ []))
      (codes "apytti")
      ask
      20
      (some reply)).1
    ≡ expected_answer (expected (codes "http://h:1") (codes "api/ask") ask) (some reply)
unfolding starts_with
registry_proxy-exact_example =
    registry_proxy-exact nothing_yet info 10 3 20 (lists 20 ∷ []) ask (some reply)
      (codes "http://h:") b'1' 1 1 (codes "api/ask") (omega arith, tt) (omega arith, omega arith)
      refl refl refl refl
