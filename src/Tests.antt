-- ===== src/Tests.antt =====
-- The theorems at concrete inputs: a file of three bytes in two chunks, and a Noise session that
-- tags its messages.
mod Data
mod Sessions
mod Resumes
mod Transfers
mod Relays
mod Pairings
mod Addresses
mod Handshakes
mod Network
mod Connections
mod FrontEnds
mod Announcements
