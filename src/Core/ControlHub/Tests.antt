-- ===== src/Core/ControlHub/Tests.antt =====
-- Runs on concrete values: the control hub.
use hermytt.Prelude.{◌≡◌, refl, true, List, [], ◌∷◌, none}
use hermytt.Prelude.Text.{codes, eq_text}
use hermytt.Prelude.Map
use hermytt.Prelude.Map.{Map, UniqueKeys, keep_if}
use hermytt.Core.ControlHub.{
  ControlHub, spawn_request, spawn_finish, SpawnOutcome, spawned, answered,
}
use hermytt.Core.ControlHub.Spawn.{spawn_first_answer, Answer, oks, errs, handle_all}

abbrev hub : ControlHub
hub = record {
  connections = (codes "h", record { name = codes "h"; meta = codes "null"; tx = 1 }) ∷ [];
  pending_spawns = [];
  answers = [];
  outbox = [];
}

abbrev given : List Answer
given =
    errs (codes "r0") (codes "no")
    ∷ oks (codes "r1") (codes "s") (codes "i")
    ∷ errs (codes "r1") (codes "late")
    ∷ []

abbrev spawned_shell : SpawnOutcome
spawned_shell = spawned (record { shell_id = codes "s"; session_id = codes "i" })

spawn_first_answer_example :
    (spawn_finish
      (handle_all (spawn_request (λ _. true) hub (codes "r1") (codes "h") none none).0 given)
      (codes "r1")
      answered).1
    ≡ spawned_shell
unfolding spawn_request Map.lookup eq_text
spawn_first_answer_example =
    (spawn_first_answer (λ _. true) hub (codes "r1") (codes "h") none none given answered
      spawned_shell refl refl).0
