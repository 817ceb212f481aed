-- ===== src/Session/Nonce.antt =====
-- The nonces of session/mod.rs are never used twice.
use p2pfileshare.Base.{ℕ, ◌^◌, ◌<◌, ◌≡◌, arith}
use p2pfileshare.Session.{chunk_nonce}

-- Two sub-messages of any two chunks have the same nonce only if they are the same sub-message of
-- the same chunk, for chunk indices of 32 bits and at most 65536 sub-messages in a chunk.
pub chunk_nonce-injective :
    (i j k l : ℕ)
    → i < 2 ^ 32
    → k < 2 ^ 32
    → j < 65536
    → l < 65536
    → chunk_nonce i j ≡ chunk_nonce k l
    → (i ≡ k) × (j ≡ l)
unfolding chunk_nonce
chunk_nonce-injective i j k l hi hk hj hl e = omega arith
