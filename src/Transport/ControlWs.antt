-- ===== src/Transport/ControlWs.antt =====
-- hermytt-transport/src/control_ws.rs: the control loops between hermytt and the shyttis. Messages
-- arrive parsed (a text that does not parse is passed over); `decode` is the base64 decoder of the
-- `base64` crate. Time and fresh identifiers are in `Env`. `forwarders` is the trace of the stdin
-- forwarders that were started: a host and a session.
pub mod Sessions
pub mod Recovery
pub mod Reconnect
pub mod Tests
use hermytt.Prelude.{
  ℕ, ◌*◌, ◌+◌, Bool, true, false, List, [], ◌∷◌, ◌++◌, Option, none, some, is_some, is_none,
  if◌then◌else◌, ltb, min,
}
use hermytt.Prelude.Text.{Text, codes}
use hermytt.Prelude.Map
use hermytt.Prelude.Utf8.{is_utf8}
use hermytt.Core.Scrollback
use hermytt.Core.Sessions.{
  Session, SessionManager, register_session, unregister_session, take_stdin_rx, get_session,
  send_output, pty_exit_sentinel,
}
use hermytt.Core.ControlHub
use hermytt.Core.ControlHub.{
  ControlHub, ControlMessage, list_shells, ShellInfo, ShyttiMessage, heartbeat, spawn_ok, spawn_err,
  kill_ok, shell_died, output, shells_list, handle_spawn_ok, handle_spawn_err, heartbeat_meta,
}
use hermytt.Core.Registry
use hermytt.Core.Registry.{ServiceInfo, ServiceRegistry, shell, connected}

-- What the loops share, and the clock and identifiers at a moment.
pub record Plane : Type 0 where
  pub sessions : SessionManager
  pub control_hub : ControlHub
  pub registry : ServiceRegistry
  pub forwarders : List (Text × Text)

pub record Env : Type 0 where
  pub decode : Text → Option Text
  pub now : ℕ
  pub epoch : ℕ
  pub fresh : Text

-- `serde_json::Value::Null`
abbrev pub null : Text
null = codes "null"

abbrev pub shytti_service : Text → Text → Text → ServiceInfo
shytti_service name endpoint meta = record {
  name = name;
  role = shell;
  endpoint = endpoint;
  status = connected;
  last_seen_instant = none;
  last_seen = 0;
  meta = meta;
}

abbrev register_service : Env → Text → Text → Text → Plane → Plane
register_service env name endpoint meta p = record p {
  registry = Registry.register p.registry (shytti_service name endpoint meta) env.now env.epoch;
}

-- The connection is entered into the hub and the registry.
unfoldable pub connect : Env → Text → Text → ℕ → Plane → Plane
connect env endpoint name tx p =
    register_service env name endpoint null
      (record p { control_hub = ControlHub.register p.control_hub name null tx })

-- What the loop does when it ends.
unfoldable pub cleanup : Text → Plane → Plane
cleanup name p = record p {
  control_hub = ControlHub.unregister p.control_hub name;
  registry = (Registry.unregister p.registry name).0;
}

started_if : Text → Text → Bool → SessionManager → Plane → Plane
started_if name session_id true sessions p = record p {
  sessions = sessions;
  forwarders = p.forwarders ++ (name, session_id) ∷ [];
}
started_if name session_id false sessions p = record p { sessions = sessions }

-- The stdin receiver, if it can be had, goes to a forwarder.
forward_stdin : Text → Text → Plane → Plane
unfolding started_if
forward_stdin name session_id p =
    let (sessions, taken) = take_stdin_rx p.sessions session_id in
    started_if name session_id taken sessions p

-- `register_session`, whose failure is ignored, and the forwarder.
unfoldable pub adopt : Env → Text → Text → Plane → Plane
unfolding forward_stdin
adopt env name session_id p = forward_stdin name session_id (record p {
  sessions = (register_session p.sessions (some session_id) (some name) env.fresh).0;
})

-- The exit sentinel, and the end of the session.
unfoldable pub bury : Text → SessionManager → SessionManager
bury session_id m =
    let m' =
      if is_some (get_session m session_id)
      then send_output session_id pty_exit_sentinel m
      else m in
    (unregister_session m' session_id).0

-- PTY output of a session: into its scrollback, if it is text, and to its clients.
store_output : Text → Text → SessionManager → Option Session → SessionManager
store_output session_id bytes m none = m
store_output session_id bytes m (some s) = send_output session_id bytes (record m {
  sessions =
      if is_utf8 bytes
      then Map.update session_id (λ t. record t { scrollback = Scrollback.push t.scrollback bytes })
          m.sessions
      else m.sessions;
})

deliver_bytes : Text → Option Text → SessionManager → SessionManager
unfolding store_output
deliver_bytes session_id none m = m
deliver_bytes session_id (some bytes) m = store_output session_id bytes m (get_session m session_id)

unfoldable pub deliver : Env → Text → Text → SessionManager → SessionManager
unfolding deliver_bytes
deliver env session_id b64 m = deliver_bytes session_id (env.decode b64) m

-- The sessions of a shytti's shells that are not known are registered again.
unfoldable pub recover : Env → Text → List ShellInfo → Plane → Plane
unfolding adopt
recover env name [] p = p
recover env name (s ∷ ss) p =
    recover env name ss
      (if is_none (get_session p.sessions s.session_id) then adopt env name s.session_id p else p)

abbrev with_sessions : Plane → SessionManager → Plane
with_sessions p m = record p { sessions = m }

abbrev with_hub : Plane → ControlHub → Plane
with_hub p h = record p { control_hub = h }

buried : Option Text → Plane → Plane
unfolding bury
buried none p = p
buried (some session_id) p = with_sessions p (bury session_id p.sessions)

-- One message of the shytti `name`; `requested` tells whether its shells were asked for. The result
-- also has what is sent back over the socket.
unfoldable pub handle_message :
    Env → Text → Text → Bool → ShyttiMessage → Plane → Plane × Bool × List ControlMessage
unfolding adopt buried deliver recover
handle_message env endpoint name requested (heartbeat meta) p = (
  register_service env name endpoint meta (with_hub p (heartbeat_meta p.control_hub name meta)),
  true,
  if requested then [] else list_shells ∷ [],
)
handle_message env endpoint name requested (spawn_ok req_id shell_id session_id) p =
    let q = adopt env name session_id p in
    (with_hub q (handle_spawn_ok q.control_hub req_id shell_id session_id), requested, [])
handle_message env endpoint name requested (spawn_err req_id error) p =
    (with_hub p (handle_spawn_err p.control_hub req_id error), requested, [])
handle_message env endpoint name requested (kill_ok shell_id) p = (p, requested, [])
handle_message env endpoint name requested (shell_died shell_id session_id) p =
    (buried session_id p, requested, [])
handle_message env endpoint name requested (output session_id b64) p =
    (with_sessions p (deliver env session_id b64 p.sessions), requested, [])
handle_message env endpoint name requested (shells_list shells) p =
    (recover env name shells p, requested, [])

-- Mode 1, over the WebSocket that the shytti opened.
abbrev pub control_ws_message :
    Env → Text → Bool → ShyttiMessage → Plane → Plane × Bool × List ControlMessage
control_ws_message env = handle_message env (codes "control-ws")

-- Mode 2, over the one that hermytt opened to a paired host.
abbrev pub outbound_message :
    Env → Text → Bool → ShyttiMessage → Plane → Plane × Bool × List ControlMessage
outbound_message env = handle_message env (codes "paired")
