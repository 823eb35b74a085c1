-- ===== src/External.antt =====
-- cpp/external: the external clock.
pub mod Event
pub mod Relay
pub mod Logger
pub mod Ipc
