-- ===== src/Bridge/Stream/Events.antt =====
-- The events of apytti's stream by themselves: how a sender writes them, and what each of them
-- means (pyttch-bridge/src/bot.rs, `handle_sse_event`).
use hermytt.Prelude.{
  ◌≡◌, ◌≢◌, List, [], ◌∷◌, ◌++◌, Option, none, some, if◌then◌else◌, unwrap_or, ◌==◌, All, map,
}
use hermytt.Prelude.Text.{Text, codes, eq_text, trim, trim_start_by, join}
use hermytt.Bridge.Status.{newline}
use hermytt.Bridge.Status.Progress.{ToolEvent, tool_use, tool_result}
use hermytt.Bridge.Stream.{Json, Reply, answered, failed, done_text, error_text}

-- An event with the lines of its text, of which there is at least one.
pub record Event : Type 0 where
  pub event : Text
  pub first : Text
  pub more : List Text

abbrev pub payload : Event → Text
payload e = join (newline ∷ []) (e.first ∷ e.more)

abbrev pub event_line : Text → Option Text
event_line name = some (codes "event: " ++ name)

abbrev pub payload_line : Text → Option Text
payload_line l = some (codes "data: " ++ l)

abbrev pub lines_of : Event → List (Option Text)
lines_of e = event_line e.event ∷ payload_line e.first ∷ (map payload_line e.more ++ some [] ∷ [])

abbrev pub encode : List Event → List (Option Text)
encode [] = []
encode (e ∷ es) = lines_of e ++ encode es

-- No line of the text begins with a space, the first is not empty, and the name has no space
-- around it.
abbrev pub IsPlain : Event → Type 0
IsPlain e =
    (trim e.event ≡ e.event)
    × (e.first ≢ [])
    × All (λ l. trim_start_by (λ c. c == b' ') l ≡ l) (e.first ∷ e.more)

pub data Meaning : Type 0 where
  nothing : Meaning
  says : ToolEvent → Meaning
  ends : Text → Meaning

abbrev pub value_meaning : Text → Json → Meaning
value_meaning event val =
    if eq_text event (codes "tool_use")
    then says (
        tool_use (unwrap_or (val (codes "name")) (codes "?"))
          (unwrap_or (val (codes "input_summary")) []))
    else if eq_text event (codes "tool_result")
    then says tool_result
    else if eq_text event (codes "done")
    then ends (done_text [] (val (codes "response")) (val (codes "error")))
    else if eq_text event (codes "error")
    then ends (error_text (unwrap_or (val (codes "error")) (codes "upstream error")))
    else nothing

abbrev pub value_option : Text → Option Json → Meaning
value_option event none = nothing
value_option event (some val) = value_meaning event val

abbrev pub reply_after : Meaning → Reply → Reply
reply_after (ends t) r = answered t
reply_after (says t) r = r
reply_after nothing r = r

abbrev pub tools_after : Meaning → List ToolEvent → List ToolEvent
tools_after (ends t) ts = []
tools_after (says t) ts = t ∷ ts
tools_after nothing ts = ts

module _ (from_str : Text → Option Json) where
  abbrev pub meaning : Event → Meaning
  meaning e = value_option e.event (from_str (payload e))

  -- The text of the first event that ends the stream.
  unfoldable pub reply_of : List Event → Reply
  reply_of [] = failed (codes "stream ended without a done event")
  reply_of (e ∷ es) = reply_after (meaning e) (reply_of es)

  -- What the events before it say of tools.
  unfoldable pub tools_of : List Event → List ToolEvent
  tools_of [] = []
  tools_of (e ∷ es) = tools_after (meaning e) (tools_of es)
