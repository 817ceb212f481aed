-- ===== src/Api.antt =====
-- p2pshare-core/src/api.rs: the functions that the app calls. Sessions are kept under handles; an
-- error is shown as a text.
pub mod Registry
pub mod Handles
pub mod Sessions
pub mod Drive
pub mod People
pub mod Presence
pub mod Settings
