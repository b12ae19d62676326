-- ===== src/Bridge/Stream/Tests.antt =====
-- Runs on concrete values: the stream of events.
use hermytt.Prelude.{◌≡◌, refl, List, [], ◌∷◌, Option, none, some, if◌then◌else◌}
use hermytt.Prelude.Text.{
  Text, codes, eq_text, trim, trim_end_by, trim_start_by, contains, starts_with,
}
use hermytt.Bridge.Status.{ProgressState}
use hermytt.Bridge.Status.Progress.{on_events}
use hermytt.Bridge.Stream.{Json, tell, forward_streaming}
use hermytt.Bridge.Stream.Events.{Event, encode, reply_of, tools_of}
use hermytt.Bridge.Stream.Fields.{forward_streaming-encode}

abbrev field : Text → Text → Json
field k v j = if eq_text j k then some v else none

-- A parser that knows two texts.
abbrev from_str : Text → Option Json
from_str s =
    if eq_text s (codes "1")
    then some (field (codes "name") (codes "ls"))
    else if eq_text s (codes "2\n3")
    then some (field (codes "response") (codes "hi"))
    else none

abbrev events : List Event
events =
    (record { event = codes "tool_use"; first = codes "1"; more = [] })
    ∷ (record { event = codes "delta"; first = codes "broken"; more = [] })
    ∷ (record { event = codes "done"; first = codes "2"; more = codes "3" ∷ [] })
    ∷ []

abbrev stream : Text
stream = codes "text/event-stream"

abbrev idle : Option ProgressState
idle = some (record { completed = []; current = none })

forward_streaming-encode_example :
    ((forward_streaming from_str stream none (encode events) idle).0 ≡ reply_of from_str events)
    × ((forward_streaming from_str stream none (encode events) idle).1
        ≡ tell (λ s. on_events s (tools_of from_str events)) idle)
unfolding contains starts_with trim trim_start_by trim_end_by
forward_streaming-encode_example =
    forward_streaming-encode from_str events stream none idle
      (
        (refl, (λ e. cc), (refl, tt)),
        ((refl, (λ e. cc), (refl, tt)), ((refl, (λ e. cc), (refl, (refl, tt))), tt)),
      )
      refl
