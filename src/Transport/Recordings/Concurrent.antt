-- ===== src/Transport/Recordings/Concurrent.antt =====
-- hermytt-transport/src/rest.rs: the handlers that start and stop recordings, at work side by side.
use hermytt.Prelude.{ℕ, zero, suc, ◌≡◌, List, [], ◌∷◌, Option, none, some, All, ◌⊎◌}
use hermytt.Prelude.Text.{Text}
use hermytt.Prelude.Map
use hermytt.Prelude.Map.{Map, lookup-insert, lookup-remove}
use hermytt.Transport.Recordings.{
  RecordingHandle, Running, Recordings, drop_handle, start_recorder, start_enter, stop_take,
  stop_end, recorder_ends,
}

-- A handler that waits with a handle in its hands: to enter it for a session, or to have its
-- recorder end.
pub data Handler : Type 0 where
  entering : Text → RecordingHandle → Handler
  stopping : RecordingHandle → Handler

pub record World : Type 0 where
  pub state : Recordings
  pub handlers : List Handler

abbrev pub handle_of : Handler → RecordingHandle
handle_of (entering id h) = h
handle_of (stopping h) = h

-- What the handlers and the recorders do, an automatic start like a start by a handler: `n` counts the
-- handlers that wait. A start is not kept from going on by what its check found.
pub data Op : Type 0 where
  starts : Text → Text → Option ℕ → Op
  takes : Text → Op
  goes_on : ℕ → Op
  is_abandoned : ℕ → Op
  ends : ℕ → Op

abbrev pub entering_if : Text → Recordings × Option RecordingHandle → List Handler → World
entering_if id (s, none) hs = record { state = s; handlers = hs }
entering_if id (s, some h) hs = record { state = s; handlers = entering id h ∷ hs }

abbrev pub stopping_if : Recordings × Option RecordingHandle → List Handler → World
stopping_if (s, none) hs = record { state = s; handlers = hs }
stopping_if (s, some h) hs = record { state = s; handlers = stopping h ∷ hs }

abbrev pub nth : ℕ → List Handler → Option Handler
nth n [] = none
nth zero (x ∷ xs) = some x
nth (suc n) (x ∷ xs) = nth n xs

abbrev pub without : ℕ → List Handler → List Handler
without n [] = []
without zero (x ∷ xs) = xs
without (suc n) (x ∷ xs) = x ∷ without n xs

abbrev pub proceed : Recordings → Option Handler → List Handler → World
proceed s none hs = record { state = s; handlers = hs }
proceed s (some (entering id h)) hs = record {
  state = (start_enter s id (some h)).0;
  handlers = hs;
}
proceed s (some (stopping h)) hs = record { state = (stop_end s (some h)).0; handlers = hs }

-- A handler whose client has gone is dropped, with the handle that it holds.
abbrev pub abandon : Recordings → Option Handler → List Handler → World
abandon s none hs = record { state = s; handlers = hs }
abandon s (some x) hs = record {
  state = record s { running = drop_handle (some (handle_of x)) s.running };
  handlers = hs;
}

unfoldable pub step : World → Op → World
step w (starts id timestamp started) =
    entering_if id (start_recorder w.state id timestamp started) w.handlers
step w (takes id) = stopping_if (stop_take w.state id) w.handlers
step w (goes_on n) = proceed w.state (nth n w.handlers) (without n w.handlers)
step w (is_abandoned n) = abandon w.state (nth n w.handlers) (without n w.handlers)
step w (ends channel) = record w { state = recorder_ends w.state channel }

unfoldable pub run : World → List Op → World
run w [] = w
run w (op ∷ ops) = run (step w op) ops

-- The handle under a recorder's session is the recorder's own.
abbrev pub IsHeld : Map RecordingHandle → Running → Type 0
IsHeld m r = (h : RecordingHandle) × (Map.lookup r.session m ≡ some h) × (h.stop_tx ≡ r.channel)

-- The handler is about to enter the recorder's handle for its session, or to end the recorder.
abbrev pub Owns : Running → Handler → Type 0
Owns r (entering id h) = (id ≡ r.session) × (h.stop_tx ≡ r.channel)
Owns r (stopping h) = h.stop_tx ≡ r.channel

abbrev pub IsInHand : List Handler → Running → Type 0
IsInHand [] r = ⊥
IsInHand (x ∷ xs) r = Owns r x ⊎ IsInHand xs r

abbrev pub IsOwned : Map RecordingHandle → List Handler → Running → Type 0
IsOwned m hs r = IsHeld m r ⊎ IsInHand hs r

abbrev pub Inv : World → Type 0
Inv w = All (IsOwned w.state.recordings w.handlers) w.state.running

abbrev pub nothing_recorded : World
nothing_recorded = record { state = record { recordings = []; running = [] }; handlers = [] }
