-- ===== src/Core/ControlHub.antt =====
-- hermytt-core/src/control.rs: `ControlHub`. A channel is a number: `tx` of a connection names the
-- channel to its shytti, and whether the far end still receives is an argument, `open`. `outbox` is
-- the trace of what was put into the channels. `spawn` waits in the middle, so it is two functions:
-- up to the wait, and from what ended the wait. A oneshot channel is its request's identifier, and
-- `answers` holds what was sent into it. A `serde_json::Value` is only stored: its text.
pub mod Spawn
pub mod Tests
use hermytt.Prelude.{
  ℕ, Bool, true, false, not, List, [], ◌∷◌, ◌++◌, Option, none, some, is_some, is_empty,
  if◌then◌else◌,
}
use hermytt.Prelude.Text.{Text}
use hermytt.Prelude.Map
use hermytt.Prelude.Map.{Map}

pub record ShyttiConnection : Type 0 where
  pub name : Text
  pub meta : Text
  pub tx : ℕ

pub data ControlMessage : Type 0 where
  spawn : Text → Option Text → Option Text → Option Text → ControlMessage
  kill : Text → ControlMessage
  resize : Text → ℕ → ℕ → ControlMessage
  input : Text → Text → ControlMessage
  list_shells : ControlMessage

pub record ShellInfo : Type 0 where
  pub shell_id : Text
  pub session_id : Text

pub data ShyttiMessage : Type 0 where
  heartbeat : Text → ShyttiMessage
  spawn_ok : Text → Text → Text → ShyttiMessage
  spawn_err : Text → Text → ShyttiMessage
  kill_ok : Text → ShyttiMessage
  shell_died : Text → Option Text → ShyttiMessage
  output : Text → Text → ShyttiMessage
  shells_list : List ShellInfo → ShyttiMessage

pub data SpawnError : Type 0 where
  not_connected connection_lost channel_dropped timed_out : SpawnError
  refused : Text → SpawnError

pub data SpawnOutcome : Type 0 where
  spawned : ShellInfo → SpawnOutcome
  failed : SpawnError → SpawnOutcome

pub record ControlHub : Type 0 where
  pub connections : Map ShyttiConnection
  pub pending_spawns : Map (Unit {0})
  pub answers : Map SpawnOutcome
  pub outbox : List (ℕ × ControlMessage)

unfoldable new : ControlHub
new = record { connections = []; pending_spawns = []; answers = []; outbox = [] }

-- The last writer wins.
unfoldable pub register : ControlHub → Text → Text → ℕ → ControlHub
register h name meta tx = record h {
  connections = Map.insert name (record { name = name; meta = meta; tx = tx }) h.connections;
}

unfoldable pub unregister : ControlHub → Text → ControlHub
unregister h name = record h { connections = Map.remove name h.connections }

unfoldable pub heartbeat_meta : ControlHub → Text → Text → ControlHub
heartbeat_meta h name meta = record h {
  connections = Map.update name (λ c. record c { meta = meta }) h.connections;
}

abbrev pub connection_rows : Map ShyttiConnection → List (Text × Text)
connection_rows [] = []
connection_rows ((name, c) ∷ m) = (name, c.meta) ∷ connection_rows m

unfoldable list : ControlHub → List (Text × Text)
list h = connection_rows h.connections

-- A send into a channel, and whether it went.
abbrev put : ControlHub → ℕ → ControlMessage → ControlHub
put h tx msg = record h { outbox = h.outbox ++ (tx, msg) ∷ [] }

send_on :
    (ℕ → Bool)
    → ControlHub
    → ControlMessage
    → Option ShyttiConnection
    → ControlHub × Option SpawnError
send_on open_ h msg none = (h, some not_connected)
send_on open_ h msg (some c) =
    if open_ c.tx then (put h c.tx msg, none) else (h, some connection_lost)

unfoldable pub send_to :
    (ℕ → Bool) → ControlHub → Text → ControlMessage → ControlHub × Option SpawnError
unfolding send_on
send_to open_ h host msg = send_on open_ h msg (Map.lookup host h.connections)

unfoldable send_kill : (ℕ → Bool) → ControlHub → Text → Text → ControlHub × Option SpawnError
unfolding send_to
send_kill open_ h host shell_id = send_to open_ h host (kill shell_id)

unfoldable send_resize :
    (ℕ → Bool) → ControlHub → Text → Text → ℕ → ℕ → ControlHub × Option SpawnError
unfolding send_to
send_resize open_ h host shell_id cols rows = send_to open_ h host (resize shell_id cols rows)

-- `spawn` up to the wait, for a connected host: the request is filed before it is sent, and taken
-- back if it cannot be sent. `none` means that the caller now waits.
request :
    (ℕ → Bool)
    → ControlHub
    → Text
    → ControlMessage
    → Option ShyttiConnection
    → ControlHub × Option SpawnError
request open_ h req_id msg none = (h, some not_connected)
request open_ h req_id msg (some c) =
    if open_ c.tx
    then (put (record h { pending_spawns = Map.insert req_id tt h.pending_spawns }) c.tx msg, none)
    else (
      record h { pending_spawns = Map.remove req_id (Map.insert req_id tt h.pending_spawns) },
      some connection_lost,
    )

unfoldable pub spawn_request :
    (ℕ → Bool)
    → ControlHub
    → Text
    → Text
    → Option Text
    → Option Text
    → ControlHub × Option SpawnError
unfolding request
spawn_request open_ h req_id host shell cwd =
    request open_ h req_id (spawn req_id shell cwd none) (Map.lookup host h.connections)

-- What ended the wait of 10 seconds.
pub data Wait : Type 0 where
  answered dropped expired : Wait

abbrev answer_or_drop : Option SpawnOutcome → SpawnOutcome
answer_or_drop none = failed channel_dropped
answer_or_drop (some o) = o

-- `spawn` from the wait on.
unfoldable pub spawn_finish : ControlHub → Text → Wait → ControlHub × SpawnOutcome
spawn_finish h req_id answered = (h, answer_or_drop (Map.lookup req_id h.answers))
spawn_finish h req_id dropped =
    (record h { pending_spawns = Map.remove req_id h.pending_spawns }, failed channel_dropped)
spawn_finish h req_id expired =
    (record h { pending_spawns = Map.remove req_id h.pending_spawns }, failed timed_out)

-- `pending_spawns.remove(req_id)`, and the answer into its channel if there was one.
resolve : ControlHub → Text → SpawnOutcome → ControlHub
resolve h req_id outcome =
    if is_some (Map.lookup req_id h.pending_spawns)
    then record h {
      pending_spawns = Map.remove req_id h.pending_spawns;
      answers = Map.insert req_id outcome h.answers;
    }
    else h

unfoldable pub handle_spawn_ok : ControlHub → Text → Text → Text → ControlHub
unfolding resolve
handle_spawn_ok h req_id shell_id session_id =
    resolve h req_id (spawned (record { shell_id = shell_id; session_id = session_id }))

unfoldable pub handle_spawn_err : ControlHub → Text → Text → ControlHub
unfolding resolve
handle_spawn_err h req_id error = resolve h req_id (failed (refused error))

unfoldable has_connections : ControlHub → Bool
has_connections h = not (is_empty h.connections)
