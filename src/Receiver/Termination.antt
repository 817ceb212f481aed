-- ===== src/Receiver/Termination.antt =====
-- The loop of transfer/receiver.rs ends: every frame takes bytes from the stream.
use p2pfileshare.Base.{
  ℕ, zero, suc, ◌+◌, ◌≤◌, ◌<◌, ◌≢◌, Bool, length, none, ok, err, arith, Post, returns, Post->>=,
  Post-fail_if, Post-eq-ok, Post-self, Post-mono, Bool-cases, Option-cases, Res-cases, inl, inr,
}
use p2pfileshare.Base.Bytes.{Bytes, from_be_bytes, read_exact-Post}
use p2pfileshare.Base.Sets.{is_empty}
use p2pfileshare.Progress.{Progress}
use p2pfileshare.Manifest.{
  FileManifest, ControlMessage, manifest, manifest_ack, resume_request, chunk_nack, progress,
  complete, error, TransferMode, bulk, streaming,
}
use p2pfileshare.Session.Cipher.{Noise}
use p2pfileshare.Session.Peer.{PeerSession, ended, recv_ctrl}
use p2pfileshare.Receiver.{
  Env, Recv, Subs, receive_subs, receive_frame, receive_loop, receive_chunks,
}
use p2pfileshare.Receiver.Start.{
  Disk, begin, prepare, receive_manifest, receive_first, receive_file_direct,
}

receive_subs_shrinks :
    (n : Noise) (i : ℕ) (is_pending : Bool) (count j : ℕ) (acc : Subs) (s : Bytes)
    → Post (λ p. length p.1 ≤ length s) (receive_subs n i is_pending count j acc s)
unfolding receive_subs
receive_subs_shrinks n i is_pending zero j acc s = returns (omega arith)
receive_subs_shrinks n i is_pending (suc count) j acc s =
    Post->>= _ (read_exact-Post ended 4 s) λ (len_buf, s₁) h₁. Post->>= _ (Post-fail_if _ _) λ _ _.
      Post->>= _ (read_exact-Post ended (from_be_bytes len_buf) s₁) λ (c, s₂) h₂.
        Post-mono (receive_subs_shrinks n i is_pending count (suc j) _ s₂)
          λ p h. omega (arith, h₁.1, h₂.1, h)

receive_frame_shrinks :
    (env : Env) (m : FileManifest) (r : Recv) (s : Bytes)
    → Post (λ p. length p.1 + 10 ≤ length s) (receive_frame env m r s)
unfolding receive_frame
receive_frame_shrinks env m r s = Post->>= _ (read_exact-Post ended 4 s) λ (idx_buf, s₁) h₁.
    Post->>= _ (read_exact-Post ended 4 s₁) λ (len_buf, s₂) h₂. Post->>= _ (Post-fail_if _ _) λ _ _.
      Post->>= _ (read_exact-Post ended 2 s₂) λ (count_buf, s₃) h₃.
        Post->>= _ (receive_subs_shrinks _ _ _ (from_be_bytes count_buf) 0 _ s₃) λ (acc, s₄) h₄.
          Post->>= _ (Post-self _)
            λ r' _. returns {a = (r', s₄)} (omega (arith, h₁.1, h₂.1, h₃.1, h₄))

-- The loop of the receiver always ends: with more fuel than the stream has bytes it does not run
-- out of fuel, whatever the bytes are.
pub receive_loop-ne-none :
    (fuel : ℕ) (env : Env) (m : FileManifest) (r : Recv) (s : Bytes)
    → length s < fuel
    → receive_loop fuel env m r s ≢ none
unfolding receive_loop
receive_loop-ne-none zero env m r s h = absurd (omega arith)
receive_loop-ne-none (suc fuel) env m r s h = elim (Bool-cases (is_empty r.pending)) [
  | inl done ↦ rw (done, receive_loop) (λ e. cc)
  | inr more ↦ elim (Res-cases (receive_frame env m r s)) [
    | inl ((r', s'), e) ↦ ground (
      arith,
      Post-eq-ok (receive_frame_shrinks env m r s) e,
      receive_loop-ne-none fuel env m r' s',
    )
    | inr (_, e) ↦ ground arith
  ]
]

receive_chunks-ne-none :
    (fuel : ℕ) (env : Env) (m : FileManifest) (r : Recv) (s : Bytes)
    → length s < fuel
    → receive_chunks fuel env m r s ≢ none
unfolding receive_chunks
receive_chunks-ne-none fuel env m r s h = elim (Option-cases (receive_loop fuel env m r s)) [
  | inl out ↦ absurd (receive_loop-ne-none fuel env m r s h out)
  | inr (ok _, out) ↦ ground arith
  | inr (err _, out) ↦ ground arith
]

receive_manifest-ne-none :
    (fuel : ℕ) (env : Env) (d : Disk) (session : PeerSession) (bar : Progress) (m : FileManifest)
    (s : Bytes) (mode : TransferMode)
    → length s < fuel
    → receive_manifest fuel env d session bar m s mode ≢ none
unfolding receive_manifest
receive_manifest-ne-none fuel env d session bar m s (streaming _) h = λ e. cc
receive_manifest-ne-none fuel env d session bar m s bulk h =
    elim (Res-cases (begin env d session m bar)) [
      | inr (_, out) ↦ ground arith
      | inl (r, out) ↦ elim (Res-cases d.opened) [
        | inr (_, shut) ↦ ground arith
        | inl (_, opened) ↦ ground (arith, receive_chunks-ne-none fuel env m (prepare m r) s h)
      ]
    ]

receive_first-ne-none :
    (fuel : ℕ) (env : Env) (d : Disk) (session : PeerSession) (bar : Progress)
    (msg : ControlMessage) (s : Bytes)
    → length s < fuel
    → receive_first fuel env d session bar msg s ≢ none
unfolding receive_first
receive_first-ne-none fuel env d session bar (manifest m) s h =
    receive_manifest-ne-none fuel env d session bar m s m.transfer_mode h
receive_first-ne-none fuel env d session bar manifest_ack s h = λ e. cc
receive_first-ne-none fuel env d session bar (resume_request _) s h = λ e. cc
receive_first-ne-none fuel env d session bar (chunk_nack _) s h = λ e. cc
receive_first-ne-none fuel env d session bar (progress _) s h = λ e. cc
receive_first-ne-none fuel env d session bar complete s h = λ e. cc
receive_first-ne-none fuel env d session bar (error _ _) s h = λ e. cc

-- The transfer always ends, with a result or an error: with more fuel than the data stream has bytes
-- it does not run out of fuel, whatever arrives on the two streams and whatever the disk does.
pub receive_file_direct-ne-none :
    (fuel : ℕ) (env : Env) (d : Disk) (session : PeerSession) (bar : Progress) (ctrl s : Bytes)
    → length s < fuel
    → receive_file_direct fuel env d session bar ctrl s ≢ none
unfolding receive_file_direct
receive_file_direct-ne-none fuel env d session bar ctrl s h =
    elim (Res-cases (recv_ctrl env.codec session ctrl)) [
      | inl ((msg, _), e) ↦ ground (arith, receive_first-ne-none fuel env d session bar msg s h)
      | inr (_, e) ↦ ground arith
    ]
