-- ===== src/Transport/Mqtt/Requests.antt =====
-- The event loops of both MQTT transports: `request_loop` of hermytt-transport/src/mqtt.rs, and
-- `poll_eventloop` with the input router of hermytt-transport/src/mqtt_pty.rs. What the broker sends
-- comes as a sequence; a command runs in a task of its own, whose result is an argument.
use hermytt.Prelude.{
  ℕ, suc, ◌+◌, ◌≡◌, sym, ◌∙◌, List, [], ◌∷◌, ◌++◌, Option, none, some, append_assoc, append-nil,
  arith, if◌then◌else◌,
}
use hermytt.Prelude.Text.{Text, codes, eq_text}
use hermytt.Core.Sessions.{
  SessionManager, Session, Result, ok, err, Native, default_session, get_session,
}
use hermytt.Transport.Mqtt.{parse_input_topic, parse_pty_input_topic, out_topic}

-- A message, with the combined output of its command if that ran; a connection that is established
-- again; anything else; an error, after which the loop waits.
pub data Event : Type 0 where
  publish : Text → Text → Option Text → Event
  conn_ack : Event
  other_packet : Event
  failure : Event

-- What the client was asked to publish, and how often the topic was subscribed to.
pub record Client : Type 0 where
  pub published : List (Text × Text)
  pub subscribed : ℕ

abbrev answer_on : Text → Option Text → Option Text → List (Text × Text)
answer_on topic none result = []
answer_on topic (some session_id) none = []
answer_on topic (some session_id) (some combined) = (out_topic topic, combined) ∷ []

unfoldable pub request_step : Event → Client → Client
request_step (publish topic payload result) c = record c {
  published = c.published ++ answer_on topic (parse_input_topic topic) result;
}
request_step conn_ack c = record c { subscribed = c.subscribed + 1 }
request_step other_packet c = c
request_step failure c = c

unfoldable pub request_loop : List Event → Client → Client
request_loop [] c = c
request_loop (e ∷ es) c = request_loop es (request_step e c)

-- What the loop of the terminals' transport put into the router's channel, and how often it subscribed.
pub record Router : Type 0 where
  pub routed : List (Text × Text)
  pub subscriptions : ℕ

abbrev route : Option Text → Text → List (Text × Text)
route none payload = []
route (some session_id) payload = (session_id, payload) ∷ []

unfoldable pub poll_step : Event → Router → Router
poll_step (publish topic payload result) r = record r {
  routed = r.routed ++ route (parse_pty_input_topic topic) payload;
}
poll_step conn_ack r = record r { subscriptions = r.subscriptions + 1 }
poll_step other_packet r = r
poll_step failure r = r

unfoldable pub poll_eventloop : List Event → Router → Router
poll_eventloop [] r = r
poll_eventloop (e ∷ es) r = poll_eventloop es (poll_step e r)

abbrev target_of : SessionManager → Option Session → Text → SessionManager × Option (Text × Text)
target_of m none bytes = (m, none)
target_of m (some s) bytes = (m, some (s.id, bytes))

abbrev default_target :
    SessionManager × Result Session → Text → SessionManager × Option (Text × Text)
default_target (m, ok s) bytes = (m, some (s.id, bytes))
default_target (m, err e) bytes = (m, none)

-- What the router sends on, and to which session's input.
unfoldable pub route_input :
    SessionManager → Text × Text → Text → Native → SessionManager × Option (Text × Text)
route_input m (session_id, bytes) fresh native =
    if eq_text session_id (codes "default")
    then default_target (default_session m fresh native) bytes
    else target_of m (get_session m session_id) bytes

abbrev answers : List Event → List (Text × Text)
answers [] = []
answers (publish topic payload result ∷ es) =
    answer_on topic (parse_input_topic topic) result ++ answers es
answers (conn_ack ∷ es) = answers es
answers (other_packet ∷ es) = answers es
answers (failure ∷ es) = answers es

abbrev conn_acks : List Event → ℕ
conn_acks [] = 0
conn_acks (conn_ack ∷ es) = suc (conn_acks es)
conn_acks (publish topic payload result ∷ es) = conn_acks es
conn_acks (other_packet ∷ es) = conn_acks es
conn_acks (failure ∷ es) = conn_acks es

-- The loop publishes the output of every command that ran and whose topic is one of requests, in the
-- order in which they came, and subscribes once more for each connection that is established again.
pub request_loop-answers :
    (es : List Event) (c : Client)
    → ((request_loop es c).published ≡ c.published ++ answers es)
      × ((request_loop es c).subscribed ≡ c.subscribed + conn_acks es)
unfolding request_loop request_step
request_loop-answers [] c = (sym (append-nil c.published), omega arith)
request_loop-answers (publish topic payload result ∷ es) c =
    let next = request_step (publish topic payload result) c in
    let (p, s) = request_loop-answers es next in
    (
      p ∙ append_assoc c.published (answer_on topic (parse_input_topic topic) result) (answers es),
      s,
    )
request_loop-answers (conn_ack ∷ es) c =
    let (p, s) = request_loop-answers es (request_step conn_ack c) in (p, s ∙ omega arith)
request_loop-answers (other_packet ∷ es) c = request_loop-answers es c
request_loop-answers (failure ∷ es) c = request_loop-answers es c

abbrev inputs_of : List Event → List (Text × Text)
inputs_of [] = []
inputs_of (publish topic payload result ∷ es) =
    route (parse_pty_input_topic topic) payload ++ inputs_of es
inputs_of (conn_ack ∷ es) = inputs_of es
inputs_of (other_packet ∷ es) = inputs_of es
inputs_of (failure ∷ es) = inputs_of es

-- Every message on a terminal's topic reaches the router, in order, and the topic is subscribed to once
-- more for each connection that is established again.
pub poll_eventloop-inputs :
    (es : List Event) (r : Router)
    → ((poll_eventloop es r).routed ≡ r.routed ++ inputs_of es)
      × ((poll_eventloop es r).subscriptions ≡ r.subscriptions + conn_acks es)
unfolding poll_eventloop poll_step
poll_eventloop-inputs [] r = (sym (append-nil r.routed), omega arith)
poll_eventloop-inputs (publish topic payload result ∷ es) r =
    let next = poll_step (publish topic payload result) r in
    let (p, s) = poll_eventloop-inputs es next in
    (p ∙ append_assoc r.routed (route (parse_pty_input_topic topic) payload) (inputs_of es), s)
poll_eventloop-inputs (conn_ack ∷ es) r =
    let (p, s) = poll_eventloop-inputs es (poll_step conn_ack r) in (p, s ∙ omega arith)
poll_eventloop-inputs (other_packet ∷ es) r = poll_eventloop-inputs es r
poll_eventloop-inputs (failure ∷ es) r = poll_eventloop-inputs es r
