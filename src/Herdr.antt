-- ===== src/Herdr.antt =====
-- muxrd's herdr backend: the id registries, the client of its JSON socket, the operations, and the
-- framing of its binary socket.
pub mod Registry
pub mod Types
pub mod Api
pub mod Control
pub mod Layout
pub mod Backend
pub mod Wire
mod Tests
