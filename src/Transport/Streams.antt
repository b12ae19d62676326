-- ===== src/Transport/Streams.antt =====
-- hermytt-transport/src/rest.rs: the output of a session as server-sent events, `stream_stdout` and
-- `make_sse_stream`, and a command that runs outside a session, `run_exec`. The lossy decoding of bytes
-- is the parameter `lossy`. A session's output is the sequence of its buffer's events.
use hermytt.Prelude.{ℕ, ◌≡◌, refl, ◌<◌, true, List, Option, none, some, length, map}
use hermytt.Prelude.Text.{Text}
use hermytt.Core.Sessions.{
  SessionManager, Session, Result, ok, err, Native, get_session, default_session,
}
use hermytt.Core.Buffer.{Event, BufferedOutput, new}
use hermytt.Core.Buffer.Drain.{drain, drain_complete, concat, closes}
use hermytt.Core.Buffer.Stream.{received}
use hermytt.Core.Exec.{ExecResult, Waited, exec}
use hermytt.Transport.Handlers.{Status, not_found, internal_error}

pub data Answered (A : Type 0) : Type 0 where
  answered : A → Answered A
  failed_with : Status → Answered A

abbrev rest_buffer_window : ℕ
rest_buffer_window = 100

module _ (lossy : Text → Text) where
  -- The texts of the events sent, until the output ends.
  unfoldable pub make_sse_stream : ℕ → BufferedOutput → List Event → List Text
  make_sse_stream fuel b es = map lossy (drain fuel b es)

  unfoldable pub resolve_stdout : ℕ → List Event → List Text
  unfolding make_sse_stream
  resolve_stdout fuel es = make_sse_stream fuel (new rest_buffer_window) es

  abbrev streamed : ℕ → List Event → Option Session → Status → Answered (List Text)
  streamed fuel es none status = failed_with status
  streamed fuel es (some s) status = answered (resolve_stdout fuel es)

  unfoldable pub stream_stdout : SessionManager → Text → ℕ → List Event → Answered (List Text)
  stream_stdout m id fuel es = streamed fuel es (get_session m id) not_found

  abbrev streamed_default :
      ℕ → List Event → SessionManager × Result Session → SessionManager × Answered (List Text)
  streamed_default fuel es (m, ok s) = (m, streamed fuel es (some s) internal_error)
  streamed_default fuel es (m, err e) = (m, streamed fuel es none internal_error)

  unfoldable pub stream_stdout_default :
      SessionManager → Text → Native → ℕ → List Event → SessionManager × Answered (List Text)
  stream_stdout_default m fresh native fuel es =
      streamed_default fuel es (default_session m fresh native)

  abbrev exec_response : Option ExecResult → Answered ExecResult
  exec_response none = failed_with internal_error
  exec_response (some result) = answered result

  unfoldable pub run_exec : List (Option Text) → List (Option Text) → Waited → Answered ExecResult
  run_exec stdout stderr waited = exec_response (exec lossy stdout stderr waited)

  -- The events of a session that is there carry, each decoded by itself, pieces of bytes that together
  -- are the whole output until it ends.
  pub stream_stdout_complete :
      (m : SessionManager) (id : Text) (s : Session) (fuel : ℕ) (es : List Event)
      → get_session m id ≡ some s
      → closes es ≡ true
      → length es < fuel
      → (pieces : List Text) × (stream_stdout m id fuel es ≡ answered (map lossy pieces))
        × (concat pieces ≡ received es)
  unfolding stream_stdout resolve_stdout make_sse_stream
  stream_stdout_complete m id s fuel es h c l = (
    drain fuel (new rest_buffer_window) es,
    rw h refl,
    drain_complete rest_buffer_window fuel es c l,
  )
