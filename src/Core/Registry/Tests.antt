-- ===== src/Core/Registry/Tests.antt =====
-- Runs on concrete values: the service registry.
use hermytt.Prelude.{◌≡◌, List, [], ◌∷◌, none, arith}
use hermytt.Prelude.Text.{codes}
use hermytt.Core.Registry.{ServiceInfo, connected, shell, new}
use hermytt.Core.Registry.Sightings.{
  Op, registers, unregisters, beats, lists, gets, answers, spec_answers,
}
use hermytt.Core.Registry.Refinement.{answers-spec}

abbrev info : ServiceInfo
info = record {
  name = codes "sh1";
  role = shell;
  endpoint = codes "ws";
  status = connected;
  last_seen_instant = none;
  last_seen = 0;
  meta = codes "null";
}

abbrev asked : List Op
asked =
    registers info 10 3
    ∷ beats (codes "sh1") 20 4
    ∷ lists 40
    ∷ gets (codes "sh1") 40_000_000_000
    ∷ unregisters (codes "sh1")
    ∷ []

answers-spec_example : answers new asked ≡ spec_answers [] asked
answers-spec_example =
    answers-spec 0 asked
      (omega arith, (omega arith, (omega arith, (omega arith, (omega arith, tt)))))
