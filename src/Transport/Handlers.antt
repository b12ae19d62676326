-- ===== src/Transport/Handlers.antt =====
-- The REST handlers of hermytt-transport/src/rest.rs and hermytt-transport/src/control_ws.rs over
-- sessions, services and hosts, and the first message on a control channel. Bodies come parsed;
-- fresh ids, clocks and the fate of a send are arguments.
pub mod Managed
use hermytt.Prelude.{
  ℕ, Bool, true, false, List, [], ◌∷◌, ◌++◌, Option, none, some, is_some, if◌then◌else◌, unwrap_or,
}
use hermytt.Prelude.Text.{Text, codes, eq_text}
use hermytt.Prelude.Json.{Json, get, as_str}
use hermytt.Core.Sessions.{
  SessionManager, Session, Result, ok, err, get_session, list_sessions_with_host, rename_session,
  register_session, unregister_session, default_session, Native,
}
use hermytt.Core.Sessions
use hermytt.Core.Registry.{ServiceRegistry, ServiceInfo, ServiceRole, connected}
use hermytt.Core.Registry
use hermytt.Core.ControlHub.{
  ControlHub, SpawnError, SpawnOutcome, spawned, failed, Wait, spawn_request, spawn_finish,
  ShellInfo,
}
use hermytt.Transport.Guard.{send_stdin}

pub data Status : Type 0 where
  ok_ not_found internal_error bad_request : Status

abbrev found : Bool → Status
found true = ok_
found false = not_found

-- What goes to a shell: its session and the text, with the fate of the send.
abbrev pub queue : Text → Bool → Option Session → Status × Option (Text × Text)
queue input taken none = (not_found, none)
queue input taken (some s) =
    if taken then (ok_, some (s.id, send_stdin input)) else (internal_error, none)

unfoldable pub write_stdin : SessionManager → Text → Text → Bool → Status × Option (Text × Text)
write_stdin m id input taken = queue input taken (get_session m id)

abbrev default_queue :
    Text → Bool → SessionManager × Result Session → SessionManager × Status × Option (Text × Text)
default_queue input taken (m, ok s) =
    let (status, queued) = queue input taken (some s) in (m, status, queued)
default_queue input taken (m, err e) = (m, internal_error, none)

unfoldable pub write_stdin_default :
    SessionManager → Text → Native → Text → Bool → SessionManager × Status × Option (Text × Text)
write_stdin_default m fresh native input taken =
    default_queue input taken (default_session m fresh native)

unfoldable pub list_sessions : SessionManager → List (Text × Option Text × Option Text)
list_sessions m = list_sessions_with_host m

unfoldable pub rename : SessionManager → Text → Text → SessionManager × Status
rename m id name = let (m', there) = rename_session m id name in (m', found there)

abbrev pub registered : SessionManager × Result Session → SessionManager × Status × Text
registered (m, ok s) = (m, ok_, s.id)
registered (m, err e) = (m, internal_error, [])

-- The id in the answer; the pipe's path is made of it.
unfoldable pub register_managed_session :
    SessionManager → Option Text → Text → SessionManager × Status × Text
register_managed_session m id fresh = registered (register_session m id none fresh)

abbrev pub unregistered : SessionManager × Result (Unit {0}) → SessionManager × Status
unregistered (m, ok _) = (m, ok_)
unregistered (m, err e) = (m, not_found)

unfoldable pub unregister_managed_session : SessionManager → Text → SessionManager × Status
unregister_managed_session m id = unregistered (unregister_session m id)

pub record AnnounceBody : Type 0 where
  pub name : Text
  pub role : ServiceRole
  pub endpoint : Text
  pub meta : Text

unfoldable pub registry_announce : ServiceRegistry → AnnounceBody → ℕ → ℕ → ServiceRegistry
registry_announce r body now epoch =
    Registry.register r
      (record {
        name = body.name;
        role = body.role;
        endpoint = body.endpoint;
        status = connected;
        last_seen_instant = none;
        last_seen = 0;
        meta = body.meta;
      })
      now epoch

unfoldable pub registry_unregister : ServiceRegistry → Text → ServiceRegistry × Status
registry_unregister r name = let (r', there) = Registry.unregister r name in (r', found there)

abbrev spawn_answer : SpawnOutcome → Status × Option ShellInfo
spawn_answer (spawned shell) = (ok_, some shell)
spawn_answer (failed e) = (bad_request, none)

-- `spawn_on_host` up to the wait: nothing if it waits.
unfoldable pub spawn_on_host :
    (ℕ → Bool)
    → ControlHub
    → Text
    → Text
    → Option (Option Text × Option Text)
    → ControlHub × Option SpawnError
spawn_on_host open_ h req_id host none = spawn_request open_ h req_id host none none
spawn_on_host open_ h req_id host (some (shell, cwd)) = spawn_request open_ h req_id host shell cwd

unfoldable pub spawn_on_host_finish :
    ControlHub → Text → Wait → ControlHub × Status × Option ShellInfo
spawn_on_host_finish h req_id wait =
    let (h', outcome) = spawn_finish h req_id wait in
    let (status, shell) = spawn_answer outcome in (h', status, shell)

-- The first message on a control channel: what it parses to, if it is a text and came in time.
pub data Greeting : Type 0 where
  dropped unauthorized : Greeting
  welcome : Text → Greeting

abbrev and_then : Option Json → (Json → Option Text) → Option Text
and_then none f = none
and_then (some j) f = f j

abbrev token_ok : Option Text → Json → Bool
token_ok none v = true
token_ok (some expected) v =
    eq_text (unwrap_or (and_then (get (codes "auth") v) as_str) []) expected

unfoldable pub control_greeting : Option Text → Option Json → Greeting
control_greeting auth_token none = dropped
control_greeting auth_token (some v) =
    if token_ok auth_token v
    then welcome (unwrap_or (and_then (get (codes "name") v) as_str) (codes "unknown"))
    else unauthorized
