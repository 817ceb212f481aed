-- ===== src/Discovery.antt =====
-- p2pshare-core/src/discovery/: how two peers find each other.
pub mod ShareCode
pub mod Dht
pub mod Packets
pub mod Mdns
pub mod Presence
