-- ===== src/Receiver/Frames.antt =====
-- How a fact about the view is carried through the frames of transfer/receiver.rs.
use p2pfileshare.Base.{
  ℕ, zero, suc, ◌^◌, ◌<◌, ◌≡◌, true, some, ok, arith, Post, returns, Post->>=, Post-fail_if,
  Post-eq-ok, Bool-cases, Res-cases, inl, inr, subst, sym,
}
use p2pfileshare.Base.Bytes.{Bytes, from_be_bytes, from_be_bytes-lt, read_exact-Post}
use p2pfileshare.Base.Sets.{contains, is_empty}
use p2pfileshare.Manifest.{FileManifest}
use p2pfileshare.Session.Peer.{ended}
use p2pfileshare.Receiver.{Env, Recv, Subs, sub_start, receive_subs, receive_frame, receive_loop}
use p2pfileshare.Receiver.View.{View, view, judged, judge_chunk-view}

module _ (env : Env) (m : FileManifest) where
  -- `I` holds of what the loop over the sub-messages of chunk `i` leaves.
  pub receive_frame_rule {κ μ} :
      (Q : View → Type κ) (I : ℕ → Subs → Type μ) (r : Recv) (s : Bytes)
      → ((i count : ℕ) (s : Bytes)
          → i < 2 ^ 32
          → count < 2 ^ 16
          → Post
              (λ p. I i p.0)
              (receive_subs r.session.noise_state i
                (contains r.pending i)
                count
                0
                (sub_start r.bar)
                s))
      → ((i : ℕ) (acc : Subs) → I i acc → Q (judged m (view r) i (contains r.pending i) acc))
      → Post (λ p. Q (view p.0)) (receive_frame env m r s)
  unfolding receive_frame
  receive_frame_rule Q I r s subs judge = Post->>= _ (read_exact-Post ended 4 s) λ (idx_buf, s₁) h₁.
      Post->>= _ (read_exact-Post ended 4 s₁) λ (len_buf, s₂) _.
        Post->>= _ (Post-fail_if _ _) λ _ _.
          Post->>= _ (read_exact-Post ended 2 s₂) λ (count_buf, s₃) h₂.
            Post->>= _
              (subs (from_be_bytes idx_buf) (from_be_bytes count_buf) s₃
                (from_be_bytes-lt 4 idx_buf h₁.0) (from_be_bytes-lt 2 count_buf h₂.0))
              λ (acc, s₄) h.
                Post->>= _
                  (judge_chunk-view env m r (from_be_bytes idx_buf)
                    (contains r.pending (from_be_bytes idx_buf)) acc)
                  λ r' e.
                    returns {a = (r', s₄)} (subst Q (sym e) (judge (from_be_bytes idx_buf) acc h))

  -- What every frame keeps holds behind the loop, and no chunk is wanted any more.
  pub receive_loop_rule {κ} :
      (Q : View → Type κ)
      → ((r : Recv) (s : Bytes) → Q (view r) → Post (λ p. Q (view p.0)) (receive_frame env m r s))
      → (fuel : ℕ) (r : Recv) (s : Bytes) (r' : Recv) (s' : Bytes) → Q (view r)
      → receive_loop fuel env m r s ≡ some (ok (r', s'))
      → Q (view r') × (is_empty r'.pending ≡ true)
  unfolding receive_loop
  receive_loop_rule Q step zero r s r' s' q e = cc
  receive_loop_rule Q step (suc fuel) r s r' s' q e = elim (Bool-cases (is_empty r.pending)) [
    | inl done ↦
        let same : r ≡ r' = ground arith in
        (subst (λ x. Q (view x)) same q, subst (λ x. is_empty x.pending ≡ true) same done)
    | inr more ↦ elim (Res-cases (receive_frame env m r s)) [
      | inl ((r₁, s₁), f) ↦
          receive_loop_rule Q step fuel r₁ s₁ r' s' (Post-eq-ok (step r s q) f) (ground arith)
      | inr (_, f) ↦ absurd (ground arith)
    ]
  ]
