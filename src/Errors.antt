-- ===== src/Errors.antt =====
-- p2pshare-core/src/error.rs: the errors of the core library. An error that wraps one of another
-- crate carries its text.
use p2pfileshare.Base.{ℕ, String, Res}

pub data Error : Type 0 where
  io json database quic_stream quic_write quic_read_to_end : String → Error
  hole_punch_timeout : Error
  quic noise connection_failed : String → Error
  peer_not_found share_code_expired identity_mismatch identity_not_found : Error
  contact_not_found hex dht msg_pack : String → Error
  chunk_hash_mismatch : ℕ → Error
  transfer : String → Error

-- `Result<T>` of the crate.
abbrev pub Result {ℓ} : Type ℓ → Type ℓ
Result A = Res Error A
