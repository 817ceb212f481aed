-- ===== src/Session/Peer/RoundTrip.antt =====
-- A control message that one end sends, the other end receives.
use p2pfileshare.Base.{ℕ, ◌+◌, ◌%◌, ◌^◌, ◌≤◌, ◌<◌, ◌≡◌, refl, ◌++◌, length, append_assoc, ok, arith}
use p2pfileshare.Base.Bytes.{
  Bytes, to_be_bytes, length-to_be_bytes, from-to_be_bytes, read_exact-append,
}
use p2pfileshare.Manifest.{ControlMessage}
use p2pfileshare.Session.Cipher.{max_plain}
use p2pfileshare.Session.Cipher.RoundTrip.{IsPaired}
use p2pfileshare.Session.Codec.{Codec, IsCodec}
use p2pfileshare.Session.Peer.{PeerSession, ended, send_ctrl, recv_ctrl}

-- A message that encodes into one Noise message is sent, and is read back at the other end with the
-- rest of the stream behind it. The counter has moved on by one.
pub recv-send_ctrl :
    (codec : Codec) (s r : PeerSession) (msg : ControlMessage) (p : Bytes)
    → IsCodec codec
    → IsPaired s.noise_state r.noise_state
    → codec.to_vec msg ≡ ok p
    → length p ≤ max_plain
    → s.send_nonce < 2 ^ 64
    → (out : Bytes) × (send_ctrl codec s msg
        ≡ (record s { send_nonce = (s.send_nonce + 1) % 2 ^ 64 }, ok out))
      × ((rest : Bytes) → recv_ctrl codec r (out ++ rest) ≡ ok (msg, rest))
unfolding send_ctrl recv_ctrl
recv-send_ctrl codec s r msg p lawful paired encoded short fits =
    let (c, sealed, len) = paired.seals s.send_nonce p short in
    let size : ℕ = length c in
    (
      to_be_bytes 8 s.send_nonce ++ (to_be_bytes 4 (length c) ++ c),
      rw (encoded, sealed),
      λ rest.
          rw (append_assoc, append_assoc)
            (rw
              (read_exact-append ended (to_be_bytes 8 s.send_nonce)
                (to_be_bytes 4 size ++ (c ++ rest)) 8 (length-to_be_bytes 8 s.send_nonce))
              (rw
                (read_exact-append ended (to_be_bytes 4 size) (c ++ rest) 4
                  (length-to_be_bytes 4 size))
                (rw (from-to_be_bytes 4 size (omega arith)) (
                  rw (read_exact-append ended c rest size refl) (
                    rw (from-to_be_bytes 8 s.send_nonce fits) (
                      rw (paired.opens s.send_nonce p c sealed)
                        (rw (lawful.from_slice-to_vec msg p encoded) refl))))))),
    )
