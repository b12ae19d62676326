-- ===== src/Transport/Mqtt.antt =====
-- The MQTT transports, hermytt-transport/src/mqtt.rs and hermytt-transport/src/mqtt_pty.rs: which
-- topics are read, where answers go, and the forwarding of a session's output. The broker is
-- outside: what it answers is an argument.
pub mod Topics
pub mod Forwarding
pub mod Attach
pub mod Requests
pub mod Tests
use hermytt.Prelude.{
  ℕ, zero, suc, ◌-◌, Bool, true, false, not, ◌||◌, ◌&&◌, List, [], ◌∷◌, ◌++◌, Option, none, some,
  if◌then◌else◌, length, all, drop, take, ◌==◌, ltb,
}
use hermytt.Prelude.Text.{Text, codes, eq_text, split, starts_with, is_alphanumeric}
use hermytt.Core.Sessions.{pty_exit_sentinel}

plain_id : (ℕ → Bool) → Text → Option Text
plain_id p session_id =
    if eq_text session_id (codes "default") || all p session_id then some session_id else none

-- `parse_input_topic` from the parts of the topic.
input_parts : List Text → Option Text
unfolding plain_id
input_parts (root ∷ session_id ∷ last ∷ []) =
    if not (eq_text root (codes "hermytt")) || not (eq_text last (codes "in"))
    then none
    else plain_id is_alphanumeric session_id
input_parts _ = none

unfoldable pub parse_input_topic : Text → Option Text
unfolding input_parts
parse_input_topic topic = input_parts (split b'/' topic)

abbrev pub is_id_char : ℕ → Bool
is_id_char c = is_alphanumeric c || c == b'-'

pty_input_parts : List Text → Option Text
unfolding plain_id
pty_input_parts (root ∷ session_id ∷ kind ∷ last ∷ []) =
    if not (eq_text root (codes "hermytt"))
      || (not (eq_text kind (codes "pty")) || not (eq_text last (codes "in")))
    then none
    else plain_id is_id_char session_id
pty_input_parts _ = none

unfoldable pub parse_pty_input_topic : Text → Option Text
unfolding pty_input_parts
parse_pty_input_topic topic = pty_input_parts (split b'/' topic)

-- `s.replace(from, to)`; the first argument counts the characters of a match still to be passed.
unfoldable pub replace_from : ℕ → Text → Text → Text → Text
replace_from skip from to [] = []
replace_from (suc k) from to (c ∷ cs) = replace_from k from to cs
replace_from zero from to (c ∷ cs) =
    let matched = to ++ replace_from (length from - 1) from to cs in
    let passed = c ∷ replace_from zero from to cs in
    if starts_with from (c ∷ cs) then matched else passed

-- Where the answer to a command on this topic is published.
unfoldable pub out_topic : Text → Text
unfolding replace_from
out_topic topic = replace_from 0 (codes "/in") (codes "/out") topic

-- What the forwarder of a session publishes.
pub data Published : Type 0 where
  output : Text → Published
  exited : Published

unfoldable pub ends_with : Text → Text → Bool
ends_with p s =
    if ltb (length s) (length p) then false else eq_text (drop (length s - length p) s) p

-- The forwarder on the batches it receives, each with whether the broker took it.
unfoldable pub forward : List (Text × Bool) → List Published
forward [] = []
forward ((batch, taken) ∷ batches) =
    let rest = forward batches in
    if ends_with pty_exit_sentinel batch
    then exited ∷ []
    else if taken
    then output batch ∷ rest
    else []
