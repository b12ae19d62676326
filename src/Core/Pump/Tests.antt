-- ===== src/Core/Pump/Tests.antt =====
-- Runs on concrete values: the PTY tasks.
use hermytt.Prelude.{◌≡◌, refl, List, [], ◌∷◌, ◌++◌, arith}
use hermytt.Prelude.Text.{Text, codes}
use hermytt.Core.Buffer.{Event, bytes, closed, timer, new}
use hermytt.Core.Buffer.Drain.{drain, concat}
use hermytt.Core.Pump.{eof, pump}
use hermytt.Core.Pump.Delivery.{Delivery, closes_after, arrives, goes_off, pump_delivered}
use hermytt.Core.Scrollback
use hermytt.Core.Sessions.{pty_exit_sentinel}

abbrev chunks : List Text
chunks = codes "hi\n" ∷ (0xc3 ∷ []) ∷ []

abbrev events : List Event
events = bytes (codes "hi\n") ∷ timer ∷ bytes (0xc3 ∷ []) ∷ bytes pty_exit_sentinel ∷ closed ∷ []

seen : Delivery (codes "hi\n" ∷ (0xc3 ∷ []) ∷ pty_exit_sentinel ∷ []) events
seen = arrives (goes_off (arrives (arrives closes_after)))

pump_delivered_example : concat (drain 6 (new 100) events) ≡ concat chunks ++ pty_exit_sentinel
unfolding pump
pump_delivered_example =
    (pump_delivered (Scrollback.new 5) chunks eof [] events 100 6 refl seen tt (omega arith)).0
