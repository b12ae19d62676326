-- ===== src/Core/Registry.antt =====
-- hermytt-core/src/registry.rs. Time is an argument: `now` in nanoseconds of the monotonic clock,
-- `epoch` in milliseconds. A `serde_json::Value` is only stored and handed on: its text.
pub mod Laws
pub mod Expiry
pub mod Sightings
pub mod Refinement
pub mod Tests
use hermytt.Prelude.{
  ℕ, ◌-◌, Bool, true, false, List, [], ◌∷◌, Option, none, some, is_some, ltb, if◌then◌else◌, map,
}
use hermytt.Prelude.Text.{Text, codes, eq_text, lower}
use hermytt.Prelude.Map
use hermytt.Prelude.Map.{Map}

-- 30 seconds
abbrev pub expire_after : ℕ
expire_after = 30_000_000_000

pub data ServiceRole : Type 0 where
  shell renderer highlighter sandbox bot parser gateway messenger unknown : ServiceRole

pub data ServiceStatus : Type 0 where
  connected disconnected : ServiceStatus

-- The names under which roles are serialized (`rename_all = "lowercase"`).
unfoldable pub role_name : ServiceRole → Text
role_name shell = codes "shell"
role_name renderer = codes "renderer"
role_name highlighter = codes "highlighter"
role_name sandbox = codes "sandbox"
role_name bot = codes "bot"
role_name parser = codes "parser"
role_name gateway = codes "gateway"
role_name messenger = codes "messenger"
role_name unknown = codes "unknown"

role_of : Text → ServiceRole
role_of s =
    if eq_text s (codes "shell")
    then shell
    else if eq_text s (codes "renderer")
    then renderer
    else if eq_text s (codes "highlighter")
    then highlighter
    else if eq_text s (codes "sandbox")
    then sandbox
    else if eq_text s (codes "bot")
    then bot
    else if eq_text s (codes "parser")
    then parser
    else if eq_text s (codes "gateway")
    then gateway
    else if eq_text s (codes "messenger")
    then messenger
    else unknown

-- `to_lowercase` is modelled on ASCII; no other character lowers to a letter of a role's name.
unfoldable pub deserialize_role_case_insensitive : Text → ServiceRole
unfolding role_of
deserialize_role_case_insensitive s = role_of (map lower s)

pub record ServiceInfo : Type 0 where
  pub name : Text
  pub role : ServiceRole
  pub endpoint : Text
  pub status : ServiceStatus
  pub last_seen_instant : Option ℕ
  pub last_seen : ℕ
  pub meta : Text

pub record ServiceRegistry : Type 0 where
  pub services : Map ServiceInfo

unfoldable pub new : ServiceRegistry
new = record { services = [] }

-- A service as seen now.
abbrev pub seen : ℕ → ℕ → ServiceInfo → ServiceInfo
seen now epoch info = record info {
  status = connected;
  last_seen_instant = some now;
  last_seen = epoch;
}

unfoldable pub register : ServiceRegistry → ServiceInfo → ℕ → ℕ → ServiceRegistry
register r info now epoch = record r {
  services = Map.insert info.name (seen now epoch info) r.services;
}

unfoldable pub unregister : ServiceRegistry → Text → ServiceRegistry × Bool
unregister r name =
    (record r { services = Map.remove name r.services }, is_some (Map.lookup name r.services))

unfoldable pub heartbeat : ServiceRegistry → Text → ℕ → ℕ → ServiceRegistry × Bool
heartbeat r name now epoch = (
  record r { services = Map.update name (seen now epoch) r.services },
  is_some (Map.lookup name r.services),
)

-- `Instant::duration_since` stops at 0.
expire_since : ℕ → Option ℕ → ServiceInfo → ServiceInfo
expire_since now none svc = svc
expire_since now (some last) svc =
    if ltb expire_after (now - last) then record svc { status = disconnected } else svc

pub expire : ℕ → ServiceInfo → ServiceInfo
unfolding expire_since
expire now svc = expire_since now svc.last_seen_instant svc

pub expire_stale : ℕ → Map ServiceInfo → Map ServiceInfo
unfolding expire
expire_stale now [] = []
expire_stale now ((k, svc) ∷ m) = (k, expire now svc) ∷ expire_stale now m

pub list : ServiceRegistry → ℕ → ServiceRegistry × List ServiceInfo
list r now =
    let services = expire_stale now r.services in
    (record r { services = services }, Map.values services)

unfoldable pub get : ServiceRegistry → Text → ℕ → ServiceRegistry × Option ServiceInfo
unfolding expire_stale
get r name now =
    let services = expire_stale now r.services in
    (record r { services = services }, Map.lookup name services)
