-- ===== src/Identity.antt =====
-- p2pshare-core/src/identity/: the keys and the fingerprint of a user.
pub mod Fingerprint
pub mod Storage
