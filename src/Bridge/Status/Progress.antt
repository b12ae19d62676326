-- ===== src/Bridge/Status/Progress.antt =====
-- `on_tool_use` and `on_tool_result` of pyttch-bridge/src/status.rs, over a stream of events.
use hermytt.Prelude.{◌≡◌, sym, ◌∙◌, List, [], ◌∷◌, ◌++◌, append_assoc, append-nil}
use hermytt.Prelude.Text.{Text}
use hermytt.Bridge.Status.{ProgressState, on_tool_use, on_tool_result, finished}

-- What the stream of the assistant says about tools.
pub data ToolEvent : Type 0 where
  tool_use : Text → Text → ToolEvent
  tool_result : ToolEvent

unfoldable pub on_event : ProgressState → ToolEvent → ProgressState
on_event s (tool_use name summary) = on_tool_use s name summary
on_event s tool_result = on_tool_result s

unfoldable pub on_events : ProgressState → List ToolEvent → ProgressState
on_events s [] = s
on_events s (e ∷ es) = on_events (on_event s e) es

-- The tools that the events began.
unfoldable pub used : List ToolEvent → List (Text × Text)
used [] = []
used (tool_use name summary ∷ es) = (name, summary) ∷ used es
used (tool_result ∷ es) = used es

abbrev all_tools : ProgressState → List (Text × Text)
all_tools s = finished s.completed s.current

-- The tools a status has seen, the finished ones and the running one after them, are those it
-- began with and then every tool whose use was announced, once each and in order, however uses and
-- results alternate.
pub on_events-used :
    (s : ProgressState) (es : List ToolEvent)
    → let t = on_events s es in
      finished t.completed t.current ≡ finished s.completed s.current ++ used es
unfolding on_events on_event used on_tool_use on_tool_result
on_events-used s [] = sym (append-nil (all_tools s))
on_events-used s (tool_use name summary ∷ es) =
    on_events-used (on_tool_use s name summary) es ∙ used_tool
  where
    used_tool :
        all_tools (on_tool_use s name summary) ++ used es
        ≡ all_tools s ++ used (tool_use name summary ∷ es)
    used_tool = append_assoc (all_tools s) ((name, summary) ∷ []) (used es)
on_events-used s (tool_result ∷ es) = on_events-used (on_tool_result s) es
