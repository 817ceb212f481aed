-- ===== src/Tests/Sessions.antt =====
-- Messages and chunks from one end of a session to the other, their nonces, and a manifest.
use p2pfileshare.Base.{ℕ, ◌+◌, ◌*◌, ◌≡◌, refl, [], ◌∷◌, ◌++◌, length, ok, arith}
use p2pfileshare.Base.Bytes.{Bytes, to_be_bytes}
use p2pfileshare.Manifest.{complete, progress, FileManifest, FileInfo, build_manifest, bulk}
use p2pfileshare.Manifest.Chunks.{sum_sizes, build_manifest_covers}
use p2pfileshare.Session.Nonce.{chunk_nonce-injective}
use p2pfileshare.Session.Cipher.{encrypt_chunk, decrypt_chunk, chunks, max_plain}
use p2pfileshare.Session.Cipher.RoundTrip.{decrypt-encrypt_chunk}
use p2pfileshare.Session.Peer
use p2pfileshare.Session.Peer.RoundTrip.{recv-send_ctrl}
use p2pfileshare.Session.Relay
use p2pfileshare.Session.Relay.{ctrl, chunk}
use p2pfileshare.Session.Relay.RoundTrip.{recv_msg-send_ctrl}
use p2pfileshare.Tests.Data.{
  tagging, tagging-IsPaired, small_codec, small_codec-IsCodec, peer, relayed,
}

abbrev third : ℕ
third = 3

abbrev second : ℕ
second = 1

-- The second sub-message of the third chunk, and the same again.
chunk_nonce-injective_example : (third ≡ third) × (second ≡ second)
chunk_nonce-injective_example =
    chunk_nonce-injective third second third second (omega arith) (omega arith) (omega arith)
      (omega arith) refl

decrypt-encrypt_chunk_example :
    (e : Bytes) × (encrypt_chunk tagging 5 (97 ∷ 98 ∷ []) ≡ ok e)
    × (decrypt_chunk tagging 5 e ≡ ok (97 ∷ 98 ∷ []))
    × (length e ≡ 2 + 20 * length (chunks max_plain (97 ∷ 98 ∷ [])) + 2)
decrypt-encrypt_chunk_example =
    decrypt-encrypt_chunk tagging tagging tagging-IsPaired 5 (97 ∷ 98 ∷ []) (omega arith)

recv-send_ctrl_example :
    (out : Bytes) × (Peer.send_ctrl small_codec (peer tagging) (progress 9)
      ≡ (record (peer tagging) { send_nonce = 1 }, ok out))
    × ((rest : Bytes)
        → Peer.recv_ctrl small_codec (peer tagging) (out ++ rest) ≡ ok (progress 9, rest))
unfolding small_codec to_be_bytes
recv-send_ctrl_example =
    recv-send_ctrl small_codec (peer tagging) (peer tagging) (progress 9)
      (2 ∷ 0 ∷ 0 ∷ 0 ∷ 0 ∷ 0 ∷ 0 ∷ 0 ∷ 9 ∷ []) small_codec-IsCodec tagging-IsPaired refl
      (omega arith) (omega arith)

recv_msg-send_ctrl_example :
    (out : Bytes) × (Relay.send_ctrl small_codec (relayed tagging) complete
      ≡ (record (relayed tagging) { send_nonce = 1 }, ok out))
    × ((rest : Bytes)
        → Relay.recv_msg small_codec (relayed tagging) (out ++ rest) ≡ ok (ctrl complete, rest))
unfolding small_codec
recv_msg-send_ctrl_example =
    recv_msg-send_ctrl small_codec (relayed tagging) (relayed tagging) complete (0 ∷ [])
      small_codec-IsCodec tagging-IsPaired refl (omega arith) (omega arith)

abbrev movie : FileInfo
movie = record { metadata = ok 6_000_000; file_name = "a.mp4"; random_id = 1 ∷ []; now = 0 }

abbrev movie_manifest : FileManifest
movie_manifest = record {
  session_id = 1 ∷ [];
  filename = "a.mp4";
  mime_type = "video/mp4";
  total_size = 6_000_000;
  chunk_size = 8_388_608;
  chunk_count = 1;
  transfer_mode = bulk;
  created_at = 0;
}

build_manifest_covers_example :
    (movie_manifest.total_size ≡ 6_000_000) × (sum_sizes 6_000_000 8_388_608 1 ≡ 6_000_000)
unfolding build_manifest
build_manifest_covers_example =
    build_manifest_covers (λ text. text) movie 6_000_000 movie_manifest refl (omega arith) refl
