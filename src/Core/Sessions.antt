-- ===== src/Core/Sessions.antt =====
-- hermytt-core/src/session.rs: `Session`, `SessionManager`. The operating system enters by
-- arguments: what opening the PTY gave (`Native`), whether a process has exited, fresh identifiers.
-- The slave end that a session keeps open is not modelled.
pub mod Invariant
pub mod Managed
pub mod Results
pub mod Tests
use hermytt.Prelude.{
  ℕ, ◌+◌, Bool, true, false, not, List, [], ◌∷◌, ◌++◌, Option, none, some, length, ltb, is_some,
  if◌then◌else◌, unwrap_or,
}
use hermytt.Prelude.Text.{Text, codes}
use hermytt.Prelude.Map
use hermytt.Prelude.Map.{Map}
use hermytt.Core.Scrollback.{ScrollbackBuffer}
use hermytt.Core.Scrollback

-- `b"\x1b[HERMYTT_EXIT]"`
abbrev pub pty_exit_sentinel : Text
pty_exit_sentinel = 0x1b ∷ codes "[HERMYTT_EXIT]"

pub record PtySize : Type 0 where
  pub rows : ℕ
  pub cols : ℕ

-- `stdin_rx` tells whether the receiver is still in its slot; `child` is a process id.
pub record Session : Type 0 where
  pub id : Text
  pub host : Option Text
  pub name : Option Text
  pub scrollback : ScrollbackBuffer
  pub stdin_rx : Bool
  pub child : Option ℕ
  pub master : Option PtySize
  pub managed : Bool
  pub shell : Text

pub data Error : Type 0 where
  max_sessions_reached already_exists not_found not_started already_started : Error
  pty_failed resize_failed : Error

pub data Result {ℓ} (A : Type ℓ) : Type ℓ where
  ok : A → Result A
  err : Error → Result A

-- What the system answered while a session started: no PTY, no shell, a shell whose PTY gave no
-- writer or no reader, or a shell that runs.
pub data Native : Type 0 where
  no_pty no_shell : Native
  no_writer no_reader running : ℕ → Native

-- `sent` is the trace of the output channels: a session's id and the bytes broadcast on it.
pub record SessionManager : Type 0 where
  pub sessions : Map Session
  pub shell : Text
  pub scrollback_capacity : ℕ
  pub max_sessions : ℕ
  pub sent : List (Text × Text)

pub new_session : Text → Text → ℕ → Session
new_session id shell scrollback_capacity = record {
  id = id;
  host = none;
  name = none;
  scrollback = Scrollback.new scrollback_capacity;
  stdin_rx = true;
  child = none;
  master = none;
  managed = false;
  shell = shell;
}

-- The receiver is taken first, and stays taken when the system refuses.
started : Session → Native → Session × Result (Unit {0})
started s no_pty = (s, err pty_failed)
started s no_shell = (s, err pty_failed)
started s (no_writer pid) = (record s { child = some pid }, err pty_failed)
started s (no_reader pid) = (record s { child = some pid }, err pty_failed)
started s (running pid) =
    (record s { child = some pid; master = some (record { rows = 24; cols = 80 }) }, ok tt)

pub start : Session → Native → Session × Result (Unit {0})
unfolding started
start s native =
    if s.stdin_rx then started (record s { stdin_rx = false }) native else (s, err already_started)

resize_master : Session → Option PtySize → PtySize → Bool → Session × Result (Unit {0})
resize_master s none size accepted = (s, err not_started)
resize_master s (some old) size accepted =
    if accepted then (record s { master = some size }, ok tt) else (s, err resize_failed)

-- `accepted` is the system's answer.
pub resize : Session → ℕ → ℕ → Bool → Session × Result (Unit {0})
unfolding resize_master
resize s cols rows accepted =
    resize_master s s.master (record { rows = rows; cols = cols }) accepted

child_runs : (ℕ → Bool) → Option ℕ → Bool
child_runs exited none = false
child_runs exited (some pid) = not (exited pid)

pub is_alive : (ℕ → Bool) → Session → Bool
unfolding child_runs
is_alive exited s = if s.managed then true else child_runs exited s.child

pub with_max_sessions : Text → ℕ → ℕ → SessionManager
with_max_sessions shell scrollback_capacity max_sessions = record {
  sessions = [];
  shell = shell;
  scrollback_capacity = scrollback_capacity;
  max_sessions = max_sessions;
  sent = [];
}

unfoldable new : Text → ℕ → SessionManager
unfolding with_max_sessions
new shell scrollback_capacity = with_max_sessions shell scrollback_capacity 16

-- `session.start().await?`, and the insertion when it succeeded
admit : SessionManager → Session × Result (Unit {0}) → SessionManager × Result Session
admit m (s, err e) = (m, err e)
admit m (s, ok _) = (record m { sessions = Map.insert s.id s m.sessions }, ok s)

pub create_session : SessionManager → Text → Native → SessionManager × Result Session
unfolding admit start new_session
create_session m fresh native =
    if ltb (length m.sessions) m.max_sessions
    then admit m (start (new_session fresh m.shell m.scrollback_capacity) native)
    else (m, err max_sessions_reached)

pub managed_session : Text → Option Text → ℕ → Session
managed_session id host scrollback_capacity = record {
  id = id;
  host = host;
  name = none;
  scrollback = Scrollback.new scrollback_capacity;
  stdin_rx = true;
  child = none;
  master = none;
  managed = true;
  shell = [];
}

-- The insertion behind the test that the id is free.
register_as : SessionManager → Text → Option Text → SessionManager × Result Session
unfolding managed_session
register_as m id host =
    let s = managed_session id host m.scrollback_capacity in
    if is_some (Map.lookup id m.sessions)
    then (m, err already_exists)
    else (record m { sessions = Map.insert id s m.sessions }, ok s)

unfoldable pub register_session :
    SessionManager → Option Text → Option Text → Text → SessionManager × Result Session
unfolding register_as
register_session m id host fresh =
    if ltb (length m.sessions) m.max_sessions
    then register_as m (unwrap_or id fresh) host
    else (m, err max_sessions_reached)

abbrev pub send_output : Text → Text → SessionManager → SessionManager
send_output id bytes m = record m { sent = m.sent ++ (id, bytes) ∷ [] }

unfoldable pub unregister_session : SessionManager → Text → SessionManager × Result (Unit {0})
unregister_session m id =
    if is_some (Map.lookup id m.sessions)
    then (
      send_output id pty_exit_sentinel (record m { sessions = Map.remove id m.sessions }),
      ok tt,
    )
    else (m, err not_found)

unfoldable pub get_session : SessionManager → Text → Option Session
get_session m id = Map.lookup id m.sessions

-- `Option::take` on the receiver's slot: whether the caller got it.
abbrev has_stdin_rx : Option Session → Bool
has_stdin_rx none = false
has_stdin_rx (some s) = s.stdin_rx

unfoldable pub take_stdin_rx : SessionManager → Text → SessionManager × Bool
take_stdin_rx m id = (
  record m { sessions = Map.update id (λ s. record s { stdin_rx = false }) m.sessions },
  has_stdin_rx (Map.lookup id m.sessions),
)

resize_found :
    SessionManager
    → Text
    → Option (Session × Result (Unit {0}))
    → SessionManager × Result (Unit {0})
resize_found m id none = (m, err not_found)
resize_found m id (some (s, r)) =
    (record m { sessions = Map.update id (λ old. record old { master = s.master }) m.sessions }, r)

abbrev map_found {ℓ} : {A : Type ℓ} → (Session → A) → Option Session → Option A
map_found f none = none
map_found f (some s) = some (f s)

pub resize_session : SessionManager → Text → ℕ → ℕ → Bool → SessionManager × Result (Unit {0})
unfolding resize_found resize
resize_session m id cols rows accepted =
    resize_found m id (map_found (λ s. resize s cols rows accepted) (Map.lookup id m.sessions))

unfoldable list_sessions : SessionManager → List Text
list_sessions m = Map.keys m.sessions

abbrev pub session_rows : Map Session → List (Text × Option Text × Option Text)
session_rows [] = []
session_rows ((k, s) ∷ m) = (s.id, s.host, s.name) ∷ session_rows m

unfoldable pub list_sessions_with_host : SessionManager → List (Text × Option Text × Option Text)
list_sessions_with_host m = session_rows m.sessions

pub rename_session : SessionManager → Text → Text → SessionManager × Bool
rename_session m id name = (
  record m { sessions = Map.update id (λ s. record s { name = some name }) m.sessions },
  is_some (Map.lookup id m.sessions),
)

default_of : Map Session → SessionManager → Text → Native → SessionManager × Result Session
unfolding create_session
default_of [] m fresh native = create_session m fresh native
default_of ((k, s) ∷ _) m fresh native = (m, ok s)

-- The read lock is given up before the creation, which is `create_session` alone if something comes
-- between.
unfoldable pub default_session : SessionManager → Text → Native → SessionManager × Result Session
unfolding default_of
default_session m fresh native = default_of m.sessions m fresh native

-- The first half of `cleanup_dead`, under the read lock.
pub dead_ids : (ℕ → Bool) → Map Session → List Text
unfolding is_alive
dead_ids exited [] = []
dead_ids exited ((k, s) ∷ m) =
    if is_alive exited s then dead_ids exited m else k ∷ dead_ids exited m

-- The second half, under the write lock.
pub remove_all : List Text → Map Session → Map Session
remove_all [] m = m
remove_all (k ∷ ks) m = remove_all ks (Map.remove k m)

-- Between the halves no lock is held: what is removed may have been found dead some time ago.
unfoldable pub remove_dead : SessionManager → List Text → SessionManager × ℕ
remove_dead m dead = (record m { sessions = remove_all dead m.sessions }, length dead)

-- Both, when nothing comes between.
pub cleanup_dead : SessionManager → (ℕ → Bool) → SessionManager × ℕ
unfolding remove_dead
cleanup_dead m exited = remove_dead m (dead_ids exited m.sessions)
