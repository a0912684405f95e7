-- ===== src/Grpc.antt =====
-- muxrd/src/grpc: the services. A handler is a function from the request, and from what the registries
-- and the backends are, to the calls and commands that it makes and to its answer.
pub mod Control
pub mod Checks
pub mod Requests
pub mod Handlers
pub mod Spaces
pub mod Tokens
pub mod Sessions
pub mod Services
pub mod Layout
pub mod Listing
mod Tests
