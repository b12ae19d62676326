-- ===== src/Transport/Pipe/Input.antt =====
-- hermytt-transport/src/rest.rs: the input of a managed session over more than one pipe.
use hermytt.Prelude.{
  ◌≡◌, refl, ◌∙◌, true, false, List, [], ◌∷◌, ◌++◌, some, All, append_assoc, append-nil, sym,
}
use hermytt.Prelude.Text.{Text}
use hermytt.Prelude.Map
use hermytt.Core.Sessions.{SessionManager, Session}
use hermytt.Core.Sessions.Invariant.{Call, run, Inv}
use hermytt.Core.Sessions.Managed.{Spares, take_stdin_rx_once}
use hermytt.Transport.Terminal.{text, binary, close, other}
use hermytt.Transport.Pipe.{
  Seen, input, no_input, from_host, Pipe, put, pipe_loop, handle_internal_pipe,
}

-- The bytes of the host before it closes.
abbrev pub said_by_host : List Seen → List Text
said_by_host [] = []
said_by_host (input bytes sent ∷ es) = said_by_host es
said_by_host (no_input ∷ es) = said_by_host es
said_by_host (from_host (text t) ∷ es) = t ∷ said_by_host es
said_by_host (from_host (binary b) ∷ es) = b ∷ said_by_host es
said_by_host (from_host close ∷ es) = []
said_by_host (from_host other ∷ es) = said_by_host es

output_only :
    (es : List Seen) (p : Pipe)
    → ((pipe_loop false es p).to_host ≡ p.to_host)
      × ((pipe_loop false es p).broadcast ≡ p.broadcast ++ said_by_host es)
unfolding pipe_loop
output_only [] p = (refl, sym (append-nil p.broadcast))
output_only (input bytes sent ∷ es) p = output_only es p
output_only (no_input ∷ es) p = output_only es p
output_only (from_host (text t) ∷ es) p =
    let (h, b) = output_only es (put t p) in
    (h, b ∙ append_assoc p.broadcast (t ∷ []) (said_by_host es))
output_only (from_host (binary t) ∷ es) p =
    let (h, b) = output_only es (put t p) in
    (h, b ∙ append_assoc p.broadcast (t ∷ []) (said_by_host es))
output_only (from_host close ∷ es) p = (refl, sym (append-nil p.broadcast))
output_only (from_host other ∷ es) p = output_only es p

-- Once a managed session has had a pipe, another pipe for it, after any calls of the session manager
-- that do not remove it, as unregistered or as dead, and do not start a session under its id, broadcasts all that the host says
-- until it closes, but never hands the host any input, although the first pipe may be closed by then.
pub second_pipe :
    (m : SessionManager) (id : Text) (s : Session) (es : List Seen) (cs : List Call)
    (fs : List Seen)
    → Inv m
    → Map.lookup id m.sessions ≡ some s
    → s.managed ≡ true
    → All (Spares id) cs
    → let again = handle_internal_pipe (run (handle_internal_pipe m id es).0 cs) id fs in
      (again.1.to_host ≡ []) × (again.1.broadcast ≡ said_by_host fs)
unfolding handle_internal_pipe
second_pipe m id s es cs fs v found managed a =
    rw (take_stdin_rx_once m cs id s v found managed a)
      (output_only fs (record { to_host = []; broadcast = [] }))
