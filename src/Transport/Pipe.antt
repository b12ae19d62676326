-- ===== src/Transport/Pipe.antt =====
-- hermytt-transport/src/rest.rs: the pipe of a host that runs a managed session
-- (`handle_internal_pipe`). What the `select!` sees comes as a sequence.
pub mod Input
pub mod Tests
use hermytt.Prelude.{Bool, true, false, not, ◌||◌, List, [], ◌∷◌, ◌++◌, if◌then◌else◌}
use hermytt.Prelude.Text.{Text}
use hermytt.Core.Sessions.{SessionManager, take_stdin_rx}
use hermytt.Transport.Terminal.{Message, text, binary, close, other}

-- Input of the session's clients, with the fate of its send to the host; the end of all that input; a
-- message of the host.
pub data Seen : Type 0 where
  input : Text → Bool → Seen
  no_input : Seen
  from_host : Message → Seen

-- What was sent to the host, and what was broadcast to the clients.
pub record Pipe : Type 0 where
  pub to_host : List Text
  pub broadcast : List Text

abbrev pub put : Text → Pipe → Pipe
put bytes p = record p { broadcast = p.broadcast ++ bytes ∷ [] }

abbrev pub forward : Text → Pipe → Pipe
forward bytes p = record p { to_host = p.to_host ++ bytes ∷ [] }

-- With the input, the loop is over both; without, over the messages of the host alone.
unfoldable pub pipe_loop : Bool → List Seen → Pipe → Pipe
pipe_loop has_input [] p = p
pipe_loop has_input (input bytes sent ∷ es) p =
    let rest = pipe_loop has_input es (if has_input then forward bytes p else p) in
    if not has_input || sent then rest else p
pipe_loop has_input (no_input ∷ es) p =
    let rest = pipe_loop has_input es p in if has_input then p else rest
pipe_loop has_input (from_host (text t) ∷ es) p = pipe_loop has_input es (put t p)
pipe_loop has_input (from_host (binary b) ∷ es) p = pipe_loop has_input es (put b p)
pipe_loop has_input (from_host close ∷ es) p = p
pipe_loop has_input (from_host other ∷ es) p = pipe_loop has_input es p

unfoldable pub handle_internal_pipe : SessionManager → Text → List Seen → SessionManager × Pipe
handle_internal_pipe m id es =
    let (m', has_input) = take_stdin_rx m id in
    (m', pipe_loop has_input es (record { to_host = []; broadcast = [] }))
