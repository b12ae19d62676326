-- ===== src/Core/Registry/Sightings.antt =====
-- hermytt-core/src/registry.rs against a registry that remembers sightings and stores no status:
-- what a service is reported as is computed when it is asked for.
use hermytt.Prelude.{ℕ, ◌≤◌, Bool, List, [], ◌∷◌, Option, none, some, is_some, map}
use hermytt.Prelude.Text.{Text}
use hermytt.Prelude.Map
use hermytt.Prelude.Map.{Map}
use hermytt.Core.Registry.{ServiceInfo, ServiceRegistry, register, heartbeat, unregister, list, get}
use hermytt.Core.Registry.Expiry.{status_at}

pub data Op : Type 0 where
  registers : ServiceInfo → ℕ → ℕ → Op
  unregisters : Text → Op
  beats : Text → ℕ → ℕ → Op
  lists : ℕ → Op
  gets : Text → ℕ → Op

pub data Answer : Type 0 where
  accepted : Answer
  found : Bool → Answer
  all_services : List ServiceInfo → Answer
  one_service : Option ServiceInfo → Answer

unfoldable pub step : ServiceRegistry → Op → ServiceRegistry × Answer
step r (registers info now epoch) = (register r info now epoch, accepted)
step r (unregisters name) = ((unregister r name).0, found (unregister r name).1)
step r (beats name now epoch) =
    ((heartbeat r name now epoch).0, found (heartbeat r name now epoch).1)
step r (lists now) = ((list r now).0, all_services (list r now).1)
step r (gets name now) = ((get r name now).0, one_service (get r name now).1)

unfoldable pub answers : ServiceRegistry → List Op → List Answer
unfolding step
answers r [] = []
answers r (op ∷ ops) = (step r op).1 ∷ answers (step r op).0 ops

-- A service as it announced itself, and when it was last heard of.
pub record Sighting : Type 0 where
  pub info : ServiceInfo
  pub at : ℕ
  pub epoch : ℕ

-- What is reported of it at a time.
abbrev pub described : ℕ → Sighting → ServiceInfo
described t s = record s.info {
  status = status_at s.at t;
  last_seen_instant = some s.at;
  last_seen = s.epoch;
}

abbrev pub again : ℕ → ℕ → Sighting → Sighting
again now epoch s = record s { at = now; epoch = epoch }

abbrev pub option_map : (Sighting → ServiceInfo) → Option Sighting → Option ServiceInfo
option_map f none = none
option_map f (some s) = some (f s)

-- The abstract registry: no query changes it.
unfoldable pub spec_step : Map Sighting → Op → Map Sighting × Answer
spec_step m (registers info now epoch) =
    (Map.insert info.name (record { info = info; at = now; epoch = epoch }) m, accepted)
spec_step m (unregisters name) = (Map.remove name m, found (is_some (Map.lookup name m)))
spec_step m (beats name now epoch) =
    (Map.update name (again now epoch) m, found (is_some (Map.lookup name m)))
spec_step m (lists now) = (m, all_services (map (described now) (Map.values m)))
spec_step m (gets name now) = (m, one_service (option_map (described now) (Map.lookup name m)))

unfoldable pub spec_answers : Map Sighting → List Op → List Answer
unfolding spec_step
spec_answers m [] = []
spec_answers m (op ∷ ops) = (spec_step m op).1 ∷ spec_answers (spec_step m op).0 ops

abbrev pub after : ℕ → Op → ℕ
after t (registers info now epoch) = now
after t (unregisters name) = t
after t (beats name now epoch) = now
after t (lists now) = now
after t (gets name now) = now

-- The clock does not run backwards.
abbrev pub InOrder : ℕ → List Op → Type 0
InOrder t [] = Unit
InOrder t (op ∷ ops) = (t ≤ after t op) × InOrder (after t op) ops
