-- ===== src/Session.antt =====
-- p2pshare-core/src/session/: the nonces of a session (mod.rs), chunk encryption, and the two kinds
-- of session with their wire formats.
pub mod Nonce
pub mod Cipher
pub mod Codec
pub mod Peer
pub mod Relay
pub mod Either
use p2pfileshare.Base.{ℕ, ◌+◌, ◌*◌, ◌%◌, ◌^◌}

unfoldable pub chunk_nonce_base : ℕ
chunk_nonce_base = 2 ^ 32

-- In `u64`.
unfoldable pub chunk_nonce : ℕ → ℕ → ℕ
unfolding chunk_nonce_base
chunk_nonce chunk_index sub_index =
    (chunk_nonce_base + chunk_index * 2 ^ 16 % 2 ^ 64 + sub_index) % 2 ^ 64
