-- ===== src/Core/Recording.antt =====
-- hermytt-core/src/recording.rs: the recorder of a session, and the list of recordings. The texts
-- that `serde_json` makes of a header and of an event (of the bytes read as UTF-8 with losses) are
-- parameters. What the `select!` sees comes as a sequence; a dropped handle reads as `stop`.
pub mod Lines
pub mod Listing
pub mod Tests
use hermytt.Prelude.{
  ℕ, Bool, true, false, List, [], ◌∷◌, ◌++◌, Option, none, some, if◌then◌else◌, ltb, not, is_empty,
}
use hermytt.Prelude.Text.{Text, codes, eq_text, strip_prefix, ends_with_char}
use hermytt.Core.Sessions.{pty_exit_sentinel}
use mathlib.Core.List.{reverse}

pub record AsciicastHeader : Type 0 where
  pub version : ℕ
  pub width : ℕ
  pub height : ℕ
  pub timestamp : Option ℕ
  pub title : Option Text

-- The time is `now` in seconds, unless the clock stands before 1970.
unfoldable pub new_header : ℕ → ℕ → Option Text → Option ℕ → AsciicastHeader
new_header width height title now = record {
  version = 2;
  width = width;
  height = height;
  timestamp = now;
  title = title;
}

pub data EventType : Type 0 where
  output input : EventType

pub record AsciicastEvent : Type 0 where
  pub time : ℕ
  pub event_type : EventType
  pub payload : Text

-- A write that was done, or that failed after some of the bytes.
pub data Write : Type 0 where
  done : Write
  broken : Text → Write

-- What the recorder's `select!` sees: for a chunk, also the time since the start and how the writes
-- of its line and of the line break end.
pub data Seen : Type 0 where
  stop lagged closed : Seen
  chunk : ℕ → Text → Write → Write → Seen

pub data End : Type 0 where
  stopped exited failed channel_closed : End

-- The file, and why the loop ended, if it did.
pub record Recorder : Type 0 where
  pub file : Text
  pub ended : Option End

abbrev pub newline : Text
newline = 10 ∷ []

abbrev pub ends : End → Text → Recorder
ends e file = record { file = file; ended = some e }

-- Up to the recorder's start: the file with its first line, if it could be made and written.
unfoldable pub start_recording : Option Text → Bool → Write → Write → Option Text
start_recording none created w v = none
start_recording (some line) false w v = none
start_recording (some line) true (broken part) v = none
start_recording (some line) true done (broken part) = none
start_recording (some line) true done done = some (line ++ newline)

-- The writes for one chunk: the file, and whether they were done.
abbrev pub append_line : Text → Option Text → Write → Write → Text × Bool
append_line file none w v = (file, true)
append_line file (some line) (broken part) v = (file ++ part, false)
append_line file (some line) done (broken part) = (file ++ (line ++ part), false)
append_line file (some line) done done = (file ++ (line ++ newline), true)

abbrev pub event_at : ℕ → Text → AsciicastEvent
event_at time bytes = record { time = time; event_type = output; payload = bytes }

module _ (event_json : AsciicastEvent → Option Text) where
  unfoldable pub record_loop : List Seen → Text → Recorder
  record_loop [] file = record { file = file; ended = none }
  record_loop (stop ∷ es) file = ends stopped file
  record_loop (lagged ∷ es) file = record_loop es file
  record_loop (closed ∷ es) file = ends channel_closed file
  record_loop (chunk time bytes w v ∷ es) file =
      let (file', ok) = append_line file (event_json (event_at time bytes)) w v in
      let rest = record_loop es file' in
      if eq_text bytes pty_exit_sentinel
      then ends exited file
      else if ok
      then rest
      else ends failed file'

-- What the directory holds: a name, and its size and time of change if they can be read.
pub record Entry : Type 0 where
  pub filename : Text
  pub metadata : Option (ℕ × Option ℕ)

pub record RecordingInfo : Type 0 where
  pub filename : Text
  pub size : ℕ
  pub modified : Option ℕ

-- `path.extension() == Some("cast")`: something stands before the dot.
abbrev before_dot : Option Text → Bool
before_dot none = false
before_dot (some stem) = not (is_empty stem)

unfoldable pub is_cast : Text → Bool
is_cast name = before_dot (strip_prefix (reverse (codes ".cast")) (reverse name))

abbrev info_of : Text → Option (ℕ × Option ℕ) → List RecordingInfo → List RecordingInfo
info_of name none rest = rest
info_of name (some (size, modified)) rest =
    record { filename = name; size = size; modified = modified } ∷ rest

unfoldable pub read_entries : List Entry → List RecordingInfo
read_entries [] = []
read_entries (e ∷ es) =
    let rest = read_entries es in
    if is_cast e.filename then info_of e.filename e.metadata rest else rest

-- `a.cmp(b)` is `Less`, of two `Option`s.
unfoldable pub older : Option ℕ → Option ℕ → Bool
older none none = false
older none (some b) = true
older (some a) none = false
older (some a) (some b) = ltb a b

-- The stable `sort_by`: an entry goes before the first that is older.
unfoldable pub insert_sorted : RecordingInfo → List RecordingInfo → List RecordingInfo
insert_sorted x [] = x ∷ []
insert_sorted x (y ∷ ys) =
    let rest = y ∷ insert_sorted x ys in if older x.modified y.modified then rest else x ∷ y ∷ ys

unfoldable pub sort : List RecordingInfo → List RecordingInfo
sort [] = []
sort (x ∷ xs) = insert_sorted x (sort xs)

unfoldable pub list_recordings : List Entry → List RecordingInfo
list_recordings entries = sort (read_entries entries)
