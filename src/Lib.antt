-- ===== src/Lib.antt =====
-- A model of hermytt, a server that shares terminal sessions over several transports, of the control
-- loops between it and the hosts that spawn shells (shyttis), and of its bridge to Telegram.
--
-- Parts, and how they interact. The session manager holds the sessions, each with its scrollback and
-- its channels. The tasks of a session copy the terminal's output to the scrollback and to the clients.
-- Clients read through a buffered output, which batches. Shyttis connect over WebSockets; a control loop
-- per connection registers it with the control hub and the service registry, turns its messages into
-- calls of the session manager and the hub, and cleans up at its end. Requests come in over REST,
-- WebSockets, TCP and MQTT, behind guards that ask the user accounts or compare a service token. The
-- bridge talks to the service registry's proxy and shows its progress in a chat.
--
-- Which file models which part. A source function f is the definition f of the model, where a part of it
-- has a name of its own that is said in its comment.
--   Prelude, Prelude/*: tests, lists, texts, maps, UTF-8 and the pieces of a split text
--   Core/Scrollback: ScrollbackBuffer of hermytt-core/src/session.rs
--   Core/Sessions: Session and SessionManager of hermytt-core/src/session.rs
--   Core/Pump: the tasks that Session::start spawns, hermytt-core/src/session.rs
--   Core/Registry: hermytt-core/src/registry.rs
--   Core/Buffer: BufferedOutput, hermytt-core/src/buffer.rs
--   Core/ControlHub: hermytt-core/src/control.rs
--   Core/Execute: SessionHandle::execute, hermytt-core/src/session.rs
--   Core/Exec: hermytt-core/src/exec.rs
--   Core/Recording: hermytt-core/src/recording.rs
--   Transport/ControlWs: both control loops, hermytt-transport/src/control_ws.rs
--   Transport/Auth: hermytt-transport/src/auth.rs
--   Transport/Guard: the guards of hermytt-transport/src/rest.rs and hermytt-transport/src/tcp.rs
--   Transport/Tcp: the copying tasks of hermytt-transport/src/tcp.rs
--   Transport/Files: the file exchange of hermytt-transport/src/rest.rs
--   Transport/Mqtt: topics, forwarding and event loops,
--     hermytt-transport/src/mqtt.rs, hermytt-transport/src/mqtt_pty.rs
--   Transport/Recordings, Transport/Config: the handlers of recordings and of the configuration,
--     hermytt-transport/src/rest.rs
--   Transport/Pairing: hermytt-core/src/pairing.rs and its handlers in hermytt-transport/src/control_ws.rs
--   Transport/Terminal, Transport/Pipe: the WebSockets of terminals and of hosts,
--     hermytt-transport/src/rest.rs
--   Transport/Proxy: hermytt-transport/src/proxy.rs
--   Transport/Streams: server-sent events and commands, hermytt-transport/src/rest.rs
--   Transport/Handlers: the other REST handlers of hermytt-transport/src/rest.rs and
--     hermytt-transport/src/control_ws.rs
--   Server: hermytt-server/src/config.rs and hermytt-server/src/main.rs
--   Bridge/Status, Bridge/Updater: pyttch-bridge/src/status.rs
--   Bridge/Bots: pyttch-bridge/src/control.rs and pyttch-bridge/src/config.rs
--   Bridge/Turns, Bridge/Urls, Bridge/Prompts, Bridge/Stream: pyttch-bridge/src/bot.rs
--   Bridge/Replies: what goes to Telegram, pyttch-bridge/src/bot.rs and pyttch-bridge/src/status.rs
-- Each has its definitions in the file of its name and its proofs in the files below it, and its runs on
-- concrete values in its Tests, if it has one.
--
-- Conventions. A lock held across an operation makes it one step; where the code gives a lock up in the
-- middle, it is two functions. Hash maps are association lists, of whose order nothing is said. Texts are
-- lists of bytes, or of characters where the code walks characters. Numbers are natural numbers: the
-- counters and sizes of these parts are lengths of what is in memory. Clocks, random bytes, identifiers,
-- the file system, the operating system and the network enter as arguments.
--
-- Outside the model, as parameters: argon2 (the record Hashing), base64 (decode of Env), the decoding of
-- bytes that are no UTF-8 (lossy), JSON and TOML (values come parsed, or the parser is a function). What a
-- receiver sees of a tokio broadcast channel is the relation Delivery of Core/Pump/Delivery.
--
-- Fuel. drain, the repeated recv of a client, runs on fuel; as many calls as there are events, and one
-- more, are enough. The decimal digits of a number run on the number and one more.
--
-- Not modelled: the router and the handlers that read no modelled state, TLS itself, the bootstrap
-- script, the subcommands other than the start, announcement, and the browser code.
pub mod Prelude
pub mod Core
pub mod Transport
pub mod Bridge
pub mod Server
