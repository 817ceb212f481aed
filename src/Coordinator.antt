-- ===== src/Coordinator.antt =====
-- p2pshare-core/src/session/coordinator.rs: how a session is established. The steps of an attempt
-- that others can see are recorded in order; what the network answers is a record of parameters.
pub mod Phase
pub mod Attempt
pub mod Network
pub mod Announce
pub mod Lookup
pub mod LocalOnly
pub mod RelayOnly
pub mod Contact
pub mod Ensures
pub mod Steps
pub mod Loops
pub mod Rules
pub mod AnnouncePaths
pub mod LookupPaths
pub mod Sessions
pub mod Connected
pub mod Shown
pub mod Verified
