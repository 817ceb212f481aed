-- ===== src/Session/Cipher.antt =====
-- Chunk encryption, the same in `PeerSession` (session/coordinator.rs) and `RelaySession`
-- (session/relay_session.rs): a chunk is cut into Noise messages, each behind its length.
pub mod Split
pub mod RoundTrip
unfoldable pub use Split.*
use p2pfileshare.Base.{
  ℕ, zero, suc, ◌%◌, ◌^◌, ltb, String, List, [], ◌∷◌, ◌++◌, length, take, drop, Res, ok, ◌>>=◌,
  map_err, fail_if,
}
use p2pfileshare.Base.Bytes.{Bytes, to_be_bytes, from_be_bytes}
use p2pfileshare.Errors.{Result, noise}
use p2pfileshare.Session.{chunk_nonce}

-- `snow::StatelessTransportState`: one end of an authenticated session.
pub record Noise : Type 0 where
  pub write_message : ℕ → Bytes → Res String Bytes
  pub read_message : ℕ → Bytes → Res String Bytes

abbrev pub max_plain : ℕ
max_plain = 65519

-- The loop over the pieces of a chunk, from piece `i` on.
unfoldable pub encrypt_subs : Noise → ℕ → ℕ → List Bytes → Result Bytes
encrypt_subs n chunk_index i [] = ok []
encrypt_subs n chunk_index i (sub ∷ subs) = do
  buf ← map_err noise (n.write_message (chunk_nonce chunk_index (i % 2 ^ 32)) sub)
  rest ← encrypt_subs n chunk_index (suc i) subs
  ok (to_be_bytes 4 (length buf) ++ (buf ++ rest))

unfoldable pub encrypt_chunk : Noise → ℕ → Bytes → Result Bytes
unfolding encrypt_subs
encrypt_chunk n chunk_index plaintext = do
  let subs = chunks max_plain plaintext
  out ← encrypt_subs n chunk_index 0 subs
  ok (to_be_bytes 2 (length subs) ++ out)

unfoldable pub decrypt_sub_message : Noise → ℕ → ℕ → Bytes → Result Bytes
decrypt_sub_message n chunk_index sub_index ciphertext =
    map_err noise (n.read_message (chunk_nonce chunk_index sub_index) ciphertext)

-- The loop over `count` sub-messages, from sub-message `i` on; `rest` is the text from `pos` on.
unfoldable pub decrypt_subs : Noise → ℕ → ℕ → ℕ → Bytes → Result Bytes
unfolding decrypt_sub_message
decrypt_subs n chunk_index zero i rest = ok []
decrypt_subs n chunk_index (suc count) i rest = do
  _ ← fail_if (ltb (length rest) 4) (noise "truncated sub-message length")
  let sub_len = from_be_bytes (take 4 rest)
  let body = drop 4 rest
  _ ← fail_if (ltb (length body) sub_len) (noise "truncated sub-message body")
  sub ← decrypt_sub_message n chunk_index (i % 2 ^ 32) (take sub_len body)
  out ← decrypt_subs n chunk_index count (suc i) (drop sub_len body)
  ok (sub ++ out)

unfoldable pub decrypt_chunk : Noise → ℕ → Bytes → Result Bytes
unfolding decrypt_subs
decrypt_chunk n chunk_index ciphertext = do
  _ ← fail_if (ltb (length ciphertext) 2) (noise "chunk too short")
  decrypt_subs n chunk_index (from_be_bytes (take 2 ciphertext)) 0 (drop 2 ciphertext)
