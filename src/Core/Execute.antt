-- ===== src/Core/Execute.antt =====
-- hermytt-core/src/session.rs: `SessionHandle::execute`. What the `select!` sees comes as a sequence;
-- the two timers are events in it, the deadline's being looked at first.
pub mod Collected
use hermytt.Prelude.{
  Bool, true, false, ◌||◌, List, [], ◌∷◌, ◌++◌, Option, none, some, if◌then◌else◌,
}
use hermytt.Prelude.Text.{Text, codes, ends_with_char}

pub data Seen : Type 0 where
  deadline silence lagged closed : Seen
  output : Text → Seen

-- The command as it is typed: with a carriage return, unless its line is ended.
unfoldable pub typed : Text → Text
typed cmd = if ends_with_char 13 cmd || ends_with_char 10 cmd then cmd else cmd ++ 13 ∷ []

-- What was collected, if the wait is over.
unfoldable pub collect : Text → List Seen → Option Text
collect out [] = none
collect out (deadline ∷ es) = some out
collect out (silence ∷ es) = some out
collect out (lagged ∷ es) = collect out es
collect out (closed ∷ es) = some out
collect out (output bytes ∷ es) = collect (out ++ bytes) es

pub data Executed : Type 0 where
  stdin_closed waiting : Executed
  collected : Text → Text → Executed

abbrev finished : Text → Option Text → Executed
finished input none = waiting
finished input (some out) = collected input out

-- `taken` tells whether the shell's input took the command.
unfoldable pub execute : Text → Bool → List Seen → Executed
execute cmd taken es = if taken then finished (typed cmd) (collect [] es) else stdin_closed
