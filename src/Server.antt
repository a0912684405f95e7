-- ===== src/Server.antt =====
-- muxrd's own decisions: which backends it drives, which of them a session id names, how it serves
-- its port, and whom it lets in.
pub mod Backends
pub mod Routing
pub mod Transport
pub mod Settings
pub mod Auth
mod Tests
