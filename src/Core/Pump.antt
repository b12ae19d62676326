-- ===== src/Core/Pump.antt =====
-- hermytt-core/src/session.rs: the two tasks that `Session::start` spawns, over the sequence of what
-- the PTY answers to each read and each write. The scrollback's lock is never poisoned: nothing
-- that holds it panics.
pub mod Delivery
pub mod Tests
use hermytt.Prelude.{
  ℕ, ◌≡◌, refl, ap, Bool, true, false, List, [], ◌∷◌, ◌++◌, keep, if◌then◌else◌, arith, Bool-cases,
  inl, inr,
}
use hermytt.Prelude.Text.{Text}
use hermytt.Prelude.Utf8.{is_utf8}
use hermytt.Core.Scrollback.{ScrollbackBuffer, push}
use hermytt.Core.Scrollback.Laws.{push_all}
use hermytt.Core.Sessions.{pty_exit_sentinel}

-- `master_reader.read`: no bytes, some bytes, an error.
pub data Read : Type 0 where
  eof failed : Read
  chunk : Text → Read

abbrev remember : ScrollbackBuffer → Text → ScrollbackBuffer
remember sb bytes = if is_utf8 bytes then push sb bytes else sb

-- PTY stdout to broadcast: the scrollback at the end, and what was sent into the broadcast channel.
unfoldable pub pump : ScrollbackBuffer → List Read → ScrollbackBuffer × List Text
pump sb [] = (sb, [])
pump sb (eof ∷ rs) = (sb, pty_exit_sentinel ∷ [])
pump sb (failed ∷ rs) = (sb, pty_exit_sentinel ∷ [])
pump sb (chunk bytes ∷ rs) = let (sb', out) = pump (remember sb bytes) rs in (sb', bytes ∷ out)

-- Session stdin to the PTY: each input with whether the PTY takes it; what the PTY took.
unfoldable pub feed : List (Text × Bool) → List Text
feed [] = []
feed ((bytes, accepted) ∷ inputs) = let rest = bytes ∷ feed inputs in if accepted then rest else []
