-- ===== src/Session/Relay.antt =====
-- `RelaySession` of p2pshare-core/src/session/relay_session.rs: control messages and chunks share
-- one TCP stream, told apart by a first byte.
pub mod RoundTrip
pub mod Indices
pub mod Lengths
use p2pfileshare.Base.{
  ◌<>◌, ℕ, ◌+◌, ◌%◌, ◌^◌, ◌==◌, if◌then◌else◌, String, [], ◌∷◌, ◌++◌, length, ok, err, ◌>>=◌,
  map_err,
}
use p2pfileshare.Base.Bytes.{Bytes, to_be_bytes, from_be_bytes, read_exact}
use p2pfileshare.Base.Text.{show_hex}
use p2pfileshare.Errors.{Error, Result, noise, msg_pack, io, connection_failed}
use p2pfileshare.Manifest.{ControlMessage}
use p2pfileshare.Session.Cipher.{Noise, decrypt_chunk}
use p2pfileshare.Session.Codec.{Codec}

pub record RelaySession : Type 0 where
  pub remote_pubkey : Bytes
  pub remote_fingerprint : String
  pub noise_state : Noise
  pub send_nonce : ℕ

pub data RelayMsg : Type 0 where
  ctrl : ControlMessage → RelayMsg
  chunk : ℕ → Bytes → RelayMsg

-- The error of a TCP stream that ends inside a read.
abbrev pub eof : Error
eof = io "early eof"

unfoldable pub send_ctrl : Codec → RelaySession → ControlMessage → RelaySession × Result Bytes
send_ctrl codec s msg =
    let nonce = s.send_nonce in
    (
      record s { send_nonce = (nonce + 1) % 2 ^ 64 },
      do
        plaintext ← map_err msg_pack (codec.to_vec msg)
        ciphertext ← map_err noise (s.noise_state.write_message nonce plaintext)
        ok (0 ∷ (to_be_bytes 8 nonce ++ (to_be_bytes 4 (length ciphertext) ++ ciphertext))),
    )

unfoldable pub send_chunk_raw : ℕ → Bytes → Bytes
send_chunk_raw chunk_index payload =
    1 ∷ (to_be_bytes 4 chunk_index ++ (to_be_bytes 4 (length payload) ++ payload))

recv_ctrl_body : Codec → RelaySession → Bytes → Result (RelayMsg × Bytes)
recv_ctrl_body codec s stream = do
  (nonce_buf, stream) ← read_exact eof 8 stream
  (len_buf, stream) ← read_exact eof 4 stream
  (ciphertext, stream) ← read_exact eof (from_be_bytes len_buf) stream
  plaintext ← map_err noise (s.noise_state.read_message (from_be_bytes nonce_buf) ciphertext)
  msg ← map_err msg_pack (codec.from_slice plaintext)
  ok (ctrl msg, stream)

recv_chunk_body : Bytes → Result (RelayMsg × Bytes)
recv_chunk_body stream = do
  (idx_buf, stream) ← read_exact eof 4 stream
  (len_buf, stream) ← read_exact eof 4 stream
  (ciphertext, stream) ← read_exact eof (from_be_bytes len_buf) stream
  ok (chunk (from_be_bytes idx_buf) ciphertext, stream)

recv_typed : Codec → RelaySession → Bytes → Bytes → Result (RelayMsg × Bytes)
unfolding recv_ctrl_body recv_chunk_body
recv_typed codec s [] stream = err eof
recv_typed codec s (t ∷ _) stream =
    if t == 0
    then recv_ctrl_body codec s stream
    else if t == 1
    then recv_chunk_body stream
    else err (connection_failed ("relay: unknown msg type " <> show_hex t))

-- The message at the front of the stream, and the stream behind it.
unfoldable pub recv_msg : Codec → RelaySession → Bytes → Result (RelayMsg × Bytes)
unfolding recv_typed
recv_msg codec s stream = do
  (type_buf, stream) ← read_exact eof 1 stream
  recv_typed codec s type_buf stream

expect_ctrl : RelayMsg × Bytes → Result (ControlMessage × Bytes)
expect_ctrl (ctrl msg, stream) = ok (msg, stream)
expect_ctrl (chunk _ _, stream) = err (connection_failed "expected ctrl msg, got chunk")

unfoldable pub recv_ctrl_msg : Codec → RelaySession → Bytes → Result (ControlMessage × Bytes)
unfolding recv_msg expect_ctrl
recv_ctrl_msg codec s stream = recv_msg codec s stream >>= expect_ctrl

-- The session decrypts a chunk as a direct session does, under its own keys.
abbrev pub relay_decrypt_chunk : RelaySession → ℕ → Bytes → Result Bytes
relay_decrypt_chunk s chunk_index ciphertext = decrypt_chunk s.noise_state chunk_index ciphertext
