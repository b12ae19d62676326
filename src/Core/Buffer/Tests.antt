-- ===== src/Core/Buffer/Tests.antt =====
-- Runs on concrete values: the buffered output.
use hermytt.Prelude.{◌≡◌, refl, true, List, [], ◌∷◌, arith}
use hermytt.Prelude.Text.{codes}
use hermytt.Core.Buffer.{BufferedOutput, Event, bytes, lagged, closed, timer, new}
use hermytt.Core.Buffer.Stream.{received}
use hermytt.Core.Buffer.Drain.{drain_complete, drain, concat}

abbrev events : List Event
events = bytes (codes "ab") ∷ lagged ∷ timer ∷ bytes (codes "c") ∷ closed ∷ []

abbrev waits : BufferedOutput
waits = record { window = 100; max_bytes = 16; buf = codes "x"; deadline = true }

drain_complete_example : concat (drain 6 (new 100) events) ≡ received events
drain_complete_example = drain_complete 100 6 events refl (omega arith)
