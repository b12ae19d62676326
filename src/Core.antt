-- ===== src/Core.antt =====
-- hermytt-core/src: sessions, their channels, and the registries.
pub mod Scrollback
pub mod Sessions
pub mod Pump
pub mod Registry
pub mod Buffer
pub mod ControlHub
pub mod Exec
pub mod Recording
pub mod Execute
