-- ===== src/Transport.antt =====
-- hermytt-transport/src: the ways in and out of a session.
pub mod ControlWs
pub mod Auth
pub mod Guard
pub mod Files
pub mod Mqtt
pub mod Recordings
pub mod Pairing
pub mod Config
pub mod Terminal
pub mod Pipe
pub mod Proxy
pub mod Handlers
pub mod Tcp
pub mod Streams
