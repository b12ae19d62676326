-- ===== src/Transport/Recordings.antt =====
-- The recording handlers of hermytt-transport/src/rest.rs. A handle is the channel to its recorder
-- with the file's name; a recorder whose handle is dropped ends. A start checks under one lock, starts
-- the recorder without any, and enters its handle under another lock; a stop takes the handle out
-- under a lock and ends the recorder without it: each is a function for every part. Time stamps are
-- texts of digits; how a recorder starts and what the directory holds are arguments.
pub mod Concurrent
pub mod Recorders
pub mod Races
pub mod Names
pub mod Tests
use hermytt.Prelude.{
  ℕ, Bool, true, false, not, ◌||◌, ◌==◌, List, [], ◌∷◌, ◌++◌, Option, none, some, is_some,
  if◌then◌else◌, any, keep,
}
use hermytt.Prelude.Text.{Text, codes, contains}
use hermytt.Prelude.Map
use hermytt.Prelude.Map.{Map}
use hermytt.Transport.Files.{Directory}

pub record RecordingHandle : Type 0 where
  pub stop_tx : ℕ
  pub filename : Text

-- A recorder that runs, with its session.
pub record Running : Type 0 where
  pub channel : ℕ
  pub session : Text

pub record Recordings : Type 0 where
  pub recordings : Map RecordingHandle
  pub running : List Running

pub data Started : Type 0 where
  not_found already_recorded internal_error : Started
  recording : Text → Started

pub data Stopped : Type 0 where
  not_recorded : Stopped
  stopped : Text → Stopped

-- What a dropped handle, or a stop through it, leaves running.
abbrev pub drop_handle : Option RecordingHandle → List Running → List Running
drop_handle none rs = rs
drop_handle (some h) rs = keep (λ r. not (r.channel == h.stop_tx)) rs

abbrev pub recording_name : Text → Text → Text
recording_name id timestamp = id ++ (b'-' ∷ (timestamp ++ codes ".cast"))

-- `HashMap::insert` drops the handle that it replaces.
unfoldable pub enter : Recordings → Text → RecordingHandle → Recordings
enter s id h = record {
  recordings = Map.insert id h s.recordings;
  running = drop_handle (Map.lookup id s.recordings) s.running;
}

-- `start_recording` up to its first answer: nothing if it goes on.
unfoldable pub start_check : Recordings → Bool → Bool → Text → Option Started
start_check s has_dir has_session id =
    if not has_dir || not has_session
    then some not_found
    else if is_some (Map.lookup id s.recordings)
    then some already_recorded
    else none

-- Then the recorder, on its channel if it starts, and its handle, which the handler holds.
unfoldable pub start_recorder :
    Recordings → Text → Text → Option ℕ → Recordings × Option RecordingHandle
start_recorder s id timestamp none = (s, none)
start_recorder s id timestamp (some channel) = (
  record s { running = (record { channel = channel; session = id }) ∷ s.running },
  some (record { stop_tx = channel; filename = recording_name id timestamp }),
)

-- Last, once the lock is there, the handle is entered.
unfoldable pub start_enter : Recordings → Text → Option RecordingHandle → Recordings × Started
start_enter s id none = (s, internal_error)
start_enter s id (some h) = (enter s id h, recording h.filename)

-- From the check on, when nothing comes between.
unfoldable pub start_commit : Recordings → Text → Text → Option ℕ → Recordings × Started
start_commit s id timestamp started =
    let (s', h) = start_recorder s id timestamp started in start_enter s' id h

abbrev or_commit : Recordings × Started → Recordings → Option Started → Recordings × Started
or_commit committed s none = committed
or_commit committed s (some answer) = (s, answer)

unfoldable pub start_recording :
    Recordings → Bool → Bool → Text → Text → Option ℕ → Recordings × Started
start_recording s has_dir has_session id timestamp started =
    or_commit (start_commit s id timestamp started) s (start_check s has_dir has_session id)

abbrev stop_answer : Option RecordingHandle → Stopped
stop_answer none = not_recorded
stop_answer (some h) = stopped h.filename

-- `stop_recording` under the lock: the handle is taken out, and the handler holds it.
unfoldable pub stop_take : Recordings → Text → Recordings × Option RecordingHandle
stop_take s id = (record s { recordings = Map.remove id s.recordings }, Map.lookup id s.recordings)

-- Without the lock: the recorder is told to end, and the handle is dropped.
unfoldable pub stop_end : Recordings → Option RecordingHandle → Recordings × Stopped
stop_end s h = (record s { running = drop_handle h s.running }, stop_answer h)

-- Both, when nothing comes between.
unfoldable pub stop_recording : Recordings → Text → Recordings × Stopped
stop_recording s id = let (s', h) = stop_take s id in stop_end s' h

unfoldable pub auto_record_session : Recordings → Text → Text → Option ℕ → Recordings
auto_record_session s id timestamp started = (start_commit s id timestamp started).0

-- A recorder that ends by itself leaves its handle behind.
unfoldable pub recorder_ends : Recordings → ℕ → Recordings
recorder_ends s channel = record s { running = keep (λ r. not (r.channel == channel)) s.running }

pub data Fetched : Type 0 where
  bad_request absent unread : Fetched
  file : Text → Fetched

abbrev contents : Bool → Option Text → Fetched
contents readable none = absent
contents readable (some t) = if readable then file t else unread

unfoldable pub download_recording : Option Directory → Text → Bool → Fetched
download_recording none filename readable = absent
download_recording (some dir) filename readable =
    if contains (codes "..") filename
      || (any (λ c. c == b'/') filename || any (λ c. c == b'\\') filename)
    then bad_request
    else contents readable (Map.lookup filename dir)
