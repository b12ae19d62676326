-- ===== src/Transport/Terminal/Tests.antt =====
-- Runs on concrete values: a terminal over a WebSocket.
use hermytt.Prelude.{◌≡◌, refl, true, List, [], ◌∷◌, Option, none, some, if◌then◌else◌}
use hermytt.Prelude.Text.{Text, codes, eq_text, starts_with}
use hermytt.Prelude.Json.{Json, null}
use hermytt.Transport.Terminal.{text, close, Seen, output, message, handle_ws_socket, control_of}
use hermytt.Transport.Terminal.Typed.{handle_ws_socket-until_end, until_end, typed_by}

-- A parser that takes one text for JSON.
abbrev from_str : Text → Option Json
from_str t = if eq_text t (codes "{}") then some null else none

abbrev seen : List Seen
seen =
    message (text (codes "ls")) true [] true
    ∷ message (text (codes "{}")) true [] true
    ∷ output (codes "a") true
    ∷ message (text (codes "{echo")) true [] true
    ∷ message close true [] true
    ∷ message (text (codes "late")) true [] true
    ∷ []

handle_ws_socket-until_end_example :
    (handle_ws_socket from_str (λ t. none) (λ b. b) (codes "old" ∷ []) [] true seen).to_stdin
    ≡ until_end from_str (λ t. none) (λ b. b) (typed_by from_str (λ t. none) (λ b. b)) seen
handle_ws_socket-until_end_example =
    (handle_ws_socket-until_end from_str (λ t. none) (λ b. b) (codes "old" ∷ []) [] true seen).0

typed_texts :
    until_end from_str (λ t. none) (λ b. b) (typed_by from_str (λ t. none) (λ b. b)) seen
    ≡ codes "ls" ∷ codes "{echo" ∷ []
unfolding until_end control_of starts_with eq_text
typed_texts = refl
