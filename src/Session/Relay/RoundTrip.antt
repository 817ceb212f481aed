-- ===== src/Session/Relay/RoundTrip.antt =====
-- What one end of a relay session writes, the other end reads: control messages and chunks, in the
-- order in which they were written.
use p2pfileshare.Base.{
  ℕ, ◌+◌, ◌%◌, ◌^◌, ◌≤◌, ◌<◌, ◌≡◌, refl, [], ◌∷◌, ◌++◌, length, append_assoc, ok, arith,
}
use p2pfileshare.Base.Bytes.{
  Bytes, to_be_bytes, length-to_be_bytes, from-to_be_bytes, read_exact-append,
}
use p2pfileshare.Session.Cipher.{max_plain}
use p2pfileshare.Session.Cipher.RoundTrip.{IsPaired}
use p2pfileshare.Session.Codec.{Codec, IsCodec}
use p2pfileshare.Session.Relay.{
  RelaySession, ctrl, chunk, eof, send_ctrl, send_chunk_raw, recv_typed, recv_msg, recv_ctrl_body,
  recv_chunk_body,
}
use p2pfileshare.Manifest.{ControlMessage}

-- A control message that encodes into one Noise message is written behind the byte 0, and the other
-- end reads it back as a control message, with the rest of the stream behind it.
pub recv_msg-send_ctrl :
    (codec : Codec) (s r : RelaySession) (msg : ControlMessage) (p : Bytes)
    → IsCodec codec
    → IsPaired s.noise_state r.noise_state
    → codec.to_vec msg ≡ ok p
    → length p ≤ max_plain
    → s.send_nonce < 2 ^ 64
    → (out : Bytes) × (send_ctrl codec s msg
        ≡ (record s { send_nonce = (s.send_nonce + 1) % 2 ^ 64 }, ok out))
      × ((rest : Bytes) → recv_msg codec r (out ++ rest) ≡ ok (ctrl msg, rest))
unfolding send_ctrl recv_msg recv_typed recv_ctrl_body
recv_msg-send_ctrl codec s r msg p lawful paired encoded short fits =
    let (c, sealed, len) = paired.seals s.send_nonce p short in
    let size : ℕ = length c in
    (
      0 ∷ (to_be_bytes 8 s.send_nonce ++ (to_be_bytes 4 (length c) ++ c)),
      rw (encoded, sealed),
      λ rest.
          rw (append_assoc, append_assoc)
            (rw
              (read_exact-append eof (0 ∷ [])
                (to_be_bytes 8 s.send_nonce ++ (to_be_bytes 4 size ++ (c ++ rest))) 1 refl)
              (rw
                (read_exact-append eof (to_be_bytes 8 s.send_nonce)
                  (to_be_bytes 4 size ++ (c ++ rest)) 8 (length-to_be_bytes 8 s.send_nonce))
                (rw
                  (read_exact-append eof (to_be_bytes 4 size) (c ++ rest) 4
                    (length-to_be_bytes 4 size))
                  (rw (from-to_be_bytes 4 size (omega arith)) (
                    rw (read_exact-append eof c rest size refl) (
                      rw (from-to_be_bytes 8 s.send_nonce fits) (
                        rw (paired.opens s.send_nonce p c sealed)
                          (rw (lawful.from_slice-to_vec msg p encoded) refl)))))))),
    )

-- A chunk payload of less than 2^32 bytes under an index of 32 bits is read back as that chunk, byte
-- for byte and still sealed, with the rest of the stream behind it.
pub recv_msg-send_chunk_raw :
    (codec : Codec) (r : RelaySession) (i : ℕ) (payload rest : Bytes)
    → i < 2 ^ 32
    → length payload < 2 ^ 32
    → recv_msg codec r (send_chunk_raw i payload ++ rest) ≡ ok (chunk i payload, rest)
unfolding send_chunk_raw recv_msg recv_typed recv_chunk_body
recv_msg-send_chunk_raw codec r i payload rest fits size =
    rw (append_assoc, append_assoc)
      (rw
        (read_exact-append eof (1 ∷ [])
          (to_be_bytes 4 i ++ (to_be_bytes 4 (length payload) ++ (payload ++ rest))) 1 refl)
        (rw
          (read_exact-append eof (to_be_bytes 4 i)
            (to_be_bytes 4 (length payload) ++ (payload ++ rest)) 4 (length-to_be_bytes 4 i))
          (rw
            (read_exact-append eof (to_be_bytes 4 (length payload)) (payload ++ rest) 4
              (length-to_be_bytes 4 (length payload)))
            (rw (from-to_be_bytes 4 (length payload) size) (
              rw (read_exact-append eof payload rest (length payload) refl)
                (rw (from-to_be_bytes 4 i fits) refl))))))
