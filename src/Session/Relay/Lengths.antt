-- ===== src/Session/Relay/Lengths.antt =====
-- Every message takes bytes off a relay stream.
use p2pfileshare.Base.{
  ◌<◌, ◌≤◌, ◌==◌, [], ◌∷◌, length, map_err, arith, Post, returns, fails, Post->>=, Post-self,
  Post-mono, Bool-cases, inl, inr,
}
use p2pfileshare.Base.Bytes.{Bytes, from_be_bytes, read_exact-Post}
use p2pfileshare.Errors.{noise, msg_pack}
use p2pfileshare.Session.Codec.{Codec}
use p2pfileshare.Session.Relay.{
  RelaySession, ctrl, chunk, eof, recv_msg, recv_typed, recv_ctrl_body, recv_chunk_body,
}

recv_ctrl_body_shrinks :
    (codec : Codec) (r : RelaySession) (s : Bytes)
    → Post (λ q. length q.1 ≤ length s) (recv_ctrl_body codec r s)
unfolding recv_ctrl_body
recv_ctrl_body_shrinks codec r s = Post->>= _ (read_exact-Post eof 8 s) λ (nonce_buf, s₁) h₁.
    Post->>= _ (read_exact-Post eof 4 s₁) λ (len_buf, s₂) h₂.
      Post->>= _ (read_exact-Post eof (from_be_bytes len_buf) s₂) λ (c, s₃) h₃.
        Post->>= _
          (Post-self (map_err noise (r.noise_state.read_message (from_be_bytes nonce_buf) c)))
          λ p _.
            Post->>= _ (Post-self (map_err msg_pack (codec.from_slice p)))
              λ msg _. returns {a = (ctrl msg, s₃)} (omega (arith, h₁, h₂, h₃))

recv_chunk_body_shrinks : (s : Bytes) → Post (λ q. length q.1 ≤ length s) (recv_chunk_body s)
unfolding recv_chunk_body
recv_chunk_body_shrinks s = Post->>= _ (read_exact-Post eof 4 s) λ (idx_buf, s₁) h₁.
    Post->>= _ (read_exact-Post eof 4 s₁) λ (len_buf, s₂) h₂.
      Post->>= _ (read_exact-Post eof (from_be_bytes len_buf) s₂) λ (c, s₃) h₃.
        returns {a = (chunk (from_be_bytes idx_buf) c, s₃)} (omega (arith, h₁, h₂, h₃))

recv_typed_shrinks :
    (codec : Codec) (r : RelaySession) (t s : Bytes)
    → Post (λ q. length q.1 ≤ length s) (recv_typed codec r t s)
unfolding recv_typed
recv_typed_shrinks codec r [] s = fails
recv_typed_shrinks codec r (t ∷ _) s = elim (Bool-cases (t == 0)) [
  | inl zero_type ↦ rw zero_type (recv_ctrl_body_shrinks codec r s)
  | inr other ↦ rw other (elim (Bool-cases (t == 1)) [
    | inl one ↦ rw one (recv_chunk_body_shrinks s)
    | inr unknown ↦ rw unknown fails
  ])
]

pub recv_msg_shrinks :
    (codec : Codec) (r : RelaySession) (s : Bytes)
    → Post (λ q. length q.1 < length s) (recv_msg codec r s)
unfolding recv_msg
recv_msg_shrinks codec r s =
    Post->>= _ (read_exact-Post eof 1 s)
      λ (t, s₁) h. Post-mono (recv_typed_shrinks codec r t s₁) λ q l. omega (arith, h)
