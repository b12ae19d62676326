-- ===== src/Transport/ControlWs/Tests.antt =====
-- Runs on concrete values: the control loops.
use hermytt.Prelude.{◌≡◌, refl, true, false, List, [], ◌∷◌, none, some, if◌then◌else◌, arith, All}
use hermytt.Prelude.Text.{codes, eq_text, eq_text_iff}
use hermytt.Prelude.Map
use hermytt.Prelude.Map.{Map, UniqueKeys, keep_if}
use hermytt.Core.ControlHub.{ControlHub, shell_died, shells_list, spawn_ok, ShellInfo}
use hermytt.Core.Sessions.{Session, SessionManager, pty_exit_sentinel}
use hermytt.Core.Sessions.Invariant.{Inv}
use hermytt.Transport.ControlWs.{Plane, Env, handle_message}
use hermytt.Transport.ControlWs.Sessions.{handle_message-Inv, shell_died_exit}
use hermytt.Transport.ControlWs.Reconnect.{World, Reach, runs, reconnect_unregisters}
use hermytt.Transport.ControlWs.Recovery.{shells_list_recovers, spawn_ok_full, present}

abbrev shown : Session
shown = record {
  id = codes "b";
  host = some (codes "h");
  name = none;
  scrollback = record { lines = []; capacity = 10 };
  stdin_rx = true;
  child = none;
  master = none;
  managed = true;
  shell = [];
}

abbrev manager : SessionManager
manager = record {
  sessions = (codes "b", shown) ∷ [];
  shell = codes "sh";
  scrollback_capacity = 10;
  max_sessions = 1;
  sent = [];
}

manager-Inv : Inv manager
unfolding Map.lookup eq_text
manager-Inv = record {
  unique = (refl, tt);
  filed = record { at = λ k s. ground (arith, eq_text_iff (codes "b") k) };
  bounded = omega arith;
}

abbrev hub : ControlHub
hub = record {
  connections = (codes "h", record { name = codes "h"; meta = codes "null"; tx = 1 }) ∷ [];
  pending_spawns = (codes "r", tt) ∷ [];
  answers = [];
  outbox = [];
}

abbrev plane : Plane
plane = record {
  sessions = manager;
  control_hub = hub;
  registry = record { services = [] };
  forwarders = [];
}

-- A decoder that decodes nothing but one text.
abbrev env : Env
env = record {
  decode = λ t. if eq_text t (codes "aGk=") then some (codes "hi") else none;
  now = 5;
  epoch = 1;
  fresh = codes "f";
}

abbrev listed : List ShellInfo
listed =
    record { shell_id = codes "s"; session_id = codes "i" }
    ∷ record { shell_id = codes "t"; session_id = codes "b" }
    ∷ []

handle_message-Inv_example :
    Inv (handle_message env (codes "e") (codes "h") true (shells_list listed) plane).0.sessions
handle_message-Inv_example =
    handle_message-Inv env (codes "e") (codes "h") true (shells_list listed) plane manager-Inv

shell_died_exit_example :
    (handle_message env
      (codes "e")
      (codes "other")
      true
      (shell_died (codes "s") (some (codes "b")))
      plane).0.sessions.sent
    ≡ (codes "b", pty_exit_sentinel) ∷ (codes "b", pty_exit_sentinel) ∷ []
unfolding Map.lookup eq_text
shell_died_exit_example =
    (shell_died_exit env (codes "e") (codes "other") (codes "s") (codes "b") true plane shown
      refl).1

abbrev world : World
world = record { plane = plane; loops = record { name = codes "h"; tx = 1 } ∷ [] }

reconnect_unregisters_example :
    (w' : World) × Reach world w'
    × (runs (record { name = codes "h"; tx = 2 }) w'.loops ≡ true)
    × (Map.lookup (codes "h") w'.plane.control_hub.connections ≡ none)
    × (Map.lookup (codes "h") w'.plane.registry.services ≡ none)
unfolding eq_text
reconnect_unregisters_example =
    reconnect_unregisters world env (codes "e") (codes "h") 1 2 refl refl

abbrev roomy : Plane
roomy = record plane { sessions = record manager { max_sessions = 4 } }

shells_list_recovers_example :
    All
      (λ s.
        present s.session_id
          (handle_message env (codes "e") (codes "h") true (shells_list listed) roomy).0
        ≡ true)
      listed
shells_list_recovers_example =
    (shells_list_recovers env (codes "e") (codes "h") true listed roomy).1 (omega arith)

spawn_ok_full_example :
    present
      (codes "i")
      (handle_message env
        (codes "e")
        (codes "h")
        true
        (spawn_ok (codes "r") (codes "s") (codes "i"))
        plane).0
    ≡ false
unfolding Map.lookup eq_text
spawn_ok_full_example =
    (spawn_ok_full env (codes "e") (codes "h") (codes "r") (codes "s") (codes "i") true plane
      (omega arith) refl refl).0
