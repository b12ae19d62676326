-- ===== src/Transport/Pipe/Tests.antt =====
-- Runs on concrete values: the pipe of a host.
use hermytt.Prelude.{◌≡◌, refl, true, List, [], ◌∷◌, none, some, arith}
use hermytt.Prelude.Text.{codes, eq_text, eq_text_iff}
use hermytt.Prelude.Map
use hermytt.Prelude.Map.{Map, UniqueKeys, keep_if}
use hermytt.Core.Scrollback
use hermytt.Core.Sessions.{SessionManager, Session}
use hermytt.Core.Sessions.Invariant.{run, Inv, cleans}
use hermytt.Transport.Terminal.{text}
use hermytt.Transport.Pipe.{Seen, input, from_host, handle_internal_pipe}
use hermytt.Transport.Pipe.Input.{second_pipe}

abbrev shown : Session
shown = record {
  id = codes "b";
  host = some (codes "h");
  name = none;
  scrollback = Scrollback.new 10;
  stdin_rx = true;
  child = none;
  master = none;
  managed = true;
  shell = [];
}

abbrev manager : SessionManager
manager = record {
  sessions = (codes "b", shown) ∷ [];
  shell = codes "sh";
  scrollback_capacity = 10;
  max_sessions = 2;
  sent = [];
}

manager-Inv : Inv manager
unfolding Map.lookup eq_text
manager-Inv = record {
  unique = (refl, tt);
  filed = record { at = λ k s. ground (arith, eq_text_iff (codes "b") k) };
  bounded = omega arith;
}

abbrev seen : List Seen
seen = from_host (text (codes "out")) ∷ input (codes "in") true ∷ []

second_pipe_example :
    (handle_internal_pipe
      (run (handle_internal_pipe manager (codes "b") seen).0 (cleans (λ p. true) ∷ []))
      (codes "b")
      seen).1.to_host
    ≡ []
unfolding Map.lookup eq_text
second_pipe_example =
    (second_pipe manager (codes "b") shown seen (cleans (λ p. true) ∷ []) seen manager-Inv refl refl
      (tt, tt)).0
