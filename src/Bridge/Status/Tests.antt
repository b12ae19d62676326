-- ===== src/Bridge/Status/Tests.antt =====
-- Runs on concrete values: the status messages.
use hermytt.Prelude.{◌≡◌, List, [], ◌∷◌, none}
use hermytt.Prelude.Text.{Text, codes}
use hermytt.Bridge.Status.{split_response, ProgressState}
use hermytt.Bridge.Status.Content.{split_response-ink, ink, inks}
use hermytt.Bridge.Status.Progress.{ToolEvent, tool_use, tool_result}

abbrev long_answer : Text
long_answer = codes "aa\n\nbb\n\nccccc\nd"

split_response-ink_example : inks (split_response long_answer 4) ≡ ink long_answer
split_response-ink_example = split_response-ink long_answer 4

abbrev tools : List ToolEvent
tools =
    tool_use (codes "Bash") (codes "ls")
    ∷ tool_use (codes "Read") []
    ∷ tool_result
    ∷ tool_result
    ∷ []

abbrev fresh : ProgressState
fresh = record { completed = []; current = none }
