-- ===== src/Transport/Mqtt/Tests.antt =====
-- Runs on concrete values: the MQTT transports.
use hermytt.Prelude.{ℕ, ◌≡◌, refl, [], ◌∷◌, some}
use hermytt.Prelude.Text.{codes, eq_text}
use hermytt.Transport.Mqtt.Attach.{Attached, Poll, polls}
use hermytt.Transport.Mqtt.Attach.Once.{of_id, polls-attach}

abbrev nothing_attached : Attached
nothing_attached = record { attached = []; forwarders = []; announced = [] }

-- The same id on one channel and then on another.
abbrev round : ℕ → Poll
round c = record { current_ids = codes "s" ∷ []; get_session = λ id. some c }

polls-attach_example :
    of_id (codes "s") (polls nothing_attached (round 1 ∷ round 2 ∷ [])).forwarders
    ≡ (codes "s", 1) ∷ []
unfolding eq_text
polls-attach_example =
    polls-attach (codes "s") 1 nothing_attached (round 1) (round 2 ∷ []) refl refl refl (refl, tt)
