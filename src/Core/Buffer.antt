-- ===== src/Core/Buffer.antt =====
-- hermytt-core/src/buffer.rs: `BufferedOutput`. The broadcast channel and the timer enter as the
-- sequence of events in which the `select!` sees them; a timer that goes off while nothing is
-- buffered is not waited for and is skipped. A closed channel stays closed, so that event stays.
pub mod Stream
pub mod Drain
pub mod Tests
use hermytt.Prelude.{
  ℕ, ◌*◌, Bool, true, false, List, [], ◌∷◌, ◌++◌, Option, none, some, length, leb, ◌==◌, is_empty,
  if◌then◌else◌,
}
use hermytt.Prelude.Text.{Text}

pub data Event : Type 0 where
  bytes : Text → Event
  lagged closed timer : Event

-- `window` in milliseconds; `deadline` tells whether the timer is set.
pub record BufferedOutput : Type 0 where
  pub window : ℕ
  pub max_bytes : ℕ
  pub buf : Text
  pub deadline : Bool

-- A `recv` that is still waiting when the events run out, or that returned.
pub data Recv : Type 0 where
  waiting : BufferedOutput → Recv
  returned : Option Text → BufferedOutput → List Event → Recv

pub new : ℕ → BufferedOutput
new window = record { window = window; max_bytes = 16 * 1024; buf = []; deadline = false }

unfoldable pub flush : BufferedOutput → List Event → Recv
flush b es = returned (some b.buf) (record b { buf = []; deadline = false }) es

unfoldable pub recv_raw : BufferedOutput → List Event → Recv
recv_raw b [] = waiting b
recv_raw b (bytes d ∷ es) = returned (some d) b es
recv_raw b (lagged ∷ es) = recv_raw b es
recv_raw b (closed ∷ es) = returned none b (closed ∷ es)
recv_raw b (timer ∷ es) = recv_raw b es

-- Both halves of the loop append and flush alike; they differ in setting or keeping the timer.
abbrev pub extend : BufferedOutput → Text → BufferedOutput
extend b d = record b { buf = b.buf ++ d; deadline = true }

unfoldable pub recv_buffered : BufferedOutput → List Event → Recv
unfolding flush
recv_buffered b [] = waiting b
recv_buffered b (bytes d ∷ es) =
    let rest = recv_buffered (extend b d) es in
    if leb b.max_bytes (length (b.buf ++ d)) then flush (extend b d) es else rest
recv_buffered b (lagged ∷ es) = recv_buffered b es
recv_buffered b (closed ∷ es) =
    if is_empty b.buf then returned none b (closed ∷ es) else flush b (closed ∷ es)
recv_buffered b (timer ∷ es) =
    let rest = recv_buffered b es in if is_empty b.buf then rest else flush b es

pub recv : BufferedOutput → List Event → Recv
unfolding recv_raw recv_buffered
recv b es = if b.window == 0 then recv_raw b es else recv_buffered b es
