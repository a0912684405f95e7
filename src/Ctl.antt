-- ===== src/Ctl.antt =====
-- muxrctl, the control panel: the state, the messages and the update function of its app layer.
pub mod Screen
pub mod Trust
pub mod State
pub mod Message
pub mod Config
pub mod Sans
pub mod Panels
pub mod Tokens
pub mod Nav
pub mod Poll
pub mod Keys
pub mod Update
pub mod OverlaySteps
pub mod OverlayKeys
pub mod Permits
pub mod Effects
pub mod Rules
pub mod Quit
pub mod Valid
pub mod Overlay
pub mod Polling
pub mod Secret
pub mod Address
pub mod Candidates
pub mod Dedup
pub mod Names
pub mod Navigation
pub mod Typing
pub mod Pairing
mod Tests
