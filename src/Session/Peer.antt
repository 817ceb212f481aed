-- ===== src/Session/Peer.antt =====
-- `PeerSession` of p2pshare-core/src/session/coordinator.rs: control messages over a QUIC stream,
-- `[8-byte nonce][4-byte length][sealed bytes]`. A stream is the list of its bytes.
pub mod RoundTrip
use p2pfileshare.Base.{ℕ, ◌+◌, ◌%◌, ◌^◌, String, ◌++◌, length, ok, ◌>>=◌, map_err}
use p2pfileshare.Base.Bytes.{Bytes, to_be_bytes, from_be_bytes, read_exact}
use p2pfileshare.Errors.{Error, Result, noise, msg_pack, quic_stream}
use p2pfileshare.Manifest.{ControlMessage}
use p2pfileshare.Session.Cipher.{Noise}
use p2pfileshare.Session.Codec.{Codec}

pub record PeerSession : Type 0 where
  pub remote_pubkey : Bytes
  pub remote_fingerprint : String
  pub noise_state : Noise
  pub send_nonce : ℕ

-- The error of `quinn` for a stream that ends inside a read.
abbrev pub ended : Error
ended = quic_stream "stream finished early"

-- The session with its counter moved on, also on an error, and the bytes written to the stream.
unfoldable pub send_ctrl : Codec → PeerSession → ControlMessage → PeerSession × Result Bytes
send_ctrl codec s msg =
    let nonce = s.send_nonce in
    (
      record s { send_nonce = (nonce + 1) % 2 ^ 64 },
      do
        plaintext ← map_err msg_pack (codec.to_vec msg)
        ciphertext ← map_err noise (s.noise_state.write_message nonce plaintext)
        ok (to_be_bytes 8 nonce ++ (to_be_bytes 4 (length ciphertext) ++ ciphertext)),
    )

-- The message at the front of the stream, and the stream behind it.
unfoldable pub recv_ctrl : Codec → PeerSession → Bytes → Result (ControlMessage × Bytes)
recv_ctrl codec s stream = do
  (nonce_buf, stream) ← read_exact ended 8 stream
  (len_buf, stream) ← read_exact ended 4 stream
  (ciphertext, stream) ← read_exact ended (from_be_bytes len_buf) stream
  plaintext ← map_err noise (s.noise_state.read_message (from_be_bytes nonce_buf) ciphertext)
  msg ← map_err msg_pack (codec.from_slice plaintext)
  ok (msg, stream)
