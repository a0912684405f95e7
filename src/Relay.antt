-- ===== src/Relay.antt =====
-- muxrd/src/relay: one relay for each attached client. A thread reads the session and feeds the
-- client; a task reads the client and drives the session; both end together.
pub mod Types
pub mod Reader
pub mod Inbound
pub mod Attach
mod Tests
