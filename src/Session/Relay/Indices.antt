-- ===== src/Session/Relay/Indices.antt =====
-- A chunk that is read off a relay stream has an index of 32 bits.
use p2pfileshare.Base.{
  ◌^◌, ◌<◌, ◌==◌, [], ◌∷◌, map_err, Post, returns, fails, Post->>=, Post-self, Bool-cases, inl, inr,
}
use p2pfileshare.Base.Bytes.{Bytes, from_be_bytes, from_be_bytes-lt, read_exact, read_exact-Post}
use p2pfileshare.Errors.{noise, msg_pack}
use p2pfileshare.Session.Codec.{Codec}
use p2pfileshare.Session.Relay.{
  RelaySession, RelayMsg, ctrl, chunk, eof, recv_msg, recv_typed, recv_ctrl_body, recv_chunk_body,
}

abbrev pub IndexFits : RelayMsg → Type 0
IndexFits (ctrl _) = Unit {0}
IndexFits (chunk i _) = i < 2 ^ 32

recv_ctrl_body-IndexFits :
    (codec : Codec) (r : RelaySession) (s : Bytes)
    → Post (λ q. IndexFits q.0) (recv_ctrl_body codec r s)
unfolding recv_ctrl_body
recv_ctrl_body-IndexFits codec r s =
    Post->>= _ (Post-self (read_exact eof 8 s)) λ (nonce_buf, s₁) _.
      Post->>= _ (Post-self (read_exact eof 4 s₁)) λ (len_buf, s₂) _.
        Post->>= _ (Post-self (read_exact eof (from_be_bytes len_buf) s₂)) λ (c, s₃) _.
          Post->>= _
            (Post-self (map_err noise (r.noise_state.read_message (from_be_bytes nonce_buf) c)))
            λ p _.
              Post->>= _ (Post-self (map_err msg_pack (codec.from_slice p)))
                λ msg _. returns {a = (ctrl msg, s₃)} tt

recv_chunk_body-IndexFits : (s : Bytes) → Post (λ q. IndexFits q.0) (recv_chunk_body s)
unfolding recv_chunk_body
recv_chunk_body-IndexFits s = Post->>= _ (read_exact-Post eof 4 s) λ (idx_buf, s₁) h.
    Post->>= _ (Post-self (read_exact eof 4 s₁)) λ (len_buf, s₂) _.
      Post->>= _ (Post-self (read_exact eof (from_be_bytes len_buf) s₂)) λ (c, s₃) _.
        returns {a = (chunk (from_be_bytes idx_buf) c, s₃)} (from_be_bytes-lt 4 idx_buf h.0)

recv_typed-IndexFits :
    (codec : Codec) (r : RelaySession) (t s : Bytes)
    → Post (λ q. IndexFits q.0) (recv_typed codec r t s)
unfolding recv_typed
recv_typed-IndexFits codec r [] s = fails
recv_typed-IndexFits codec r (t ∷ _) s = elim (Bool-cases (t == 0)) [
  | inl zero_type ↦ rw zero_type (recv_ctrl_body-IndexFits codec r s)
  | inr other ↦ rw other (elim (Bool-cases (t == 1)) [
    | inl one ↦ rw one (recv_chunk_body-IndexFits s)
    | inr unknown ↦ rw unknown fails
  ])
]

pub recv_msg-IndexFits :
    (codec : Codec) (r : RelaySession) (s : Bytes) → Post (λ q. IndexFits q.0) (recv_msg codec r s)
unfolding recv_msg
recv_msg-IndexFits codec r s =
    Post->>= _ (Post-self (read_exact eof 1 s)) λ (t, s₁) _. recv_typed-IndexFits codec r t s₁
