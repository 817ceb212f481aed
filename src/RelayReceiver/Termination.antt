-- ===== src/RelayReceiver/Termination.antt =====
-- The loop of transfer/relay_receiver.rs ends.
use p2pfileshare.Base.{
  ℕ, zero, suc, ◌<◌, ◌≡◌, ◌≢◌, refl, length, none, ok, err, ◌>>=◌, arith, Post, returns, fails,
  Post->>=, Post-self, Post-eq-ok, Post-mono, Bool-cases, Option-cases, Res-cases, inl, inr,
}
use p2pfileshare.Base.Bytes.{Bytes}
use p2pfileshare.Base.Sets.{is_empty}
use p2pfileshare.Manifest.{FileManifest}
use p2pfileshare.Session.Relay.{RelayMsg, ctrl, chunk, recv_msg}
use p2pfileshare.Session.Relay.Lengths.{recv_msg_shrinks}
use p2pfileshare.Receiver.{Env}
use p2pfileshare.RelayReceiver.{RelayRecv, relay_chunk, relay_msg, relay_loop, relay_chunks}

relay_msg_rest :
    (env : Env) (m : FileManifest) (r : RelayRecv) (msg : RelayMsg × Bytes)
    → Post (λ q. q.1 ≡ msg.1) (relay_msg env m r msg)
unfolding relay_msg
relay_msg_rest env m r (ctrl msg, s) = fails
relay_msg_rest env m r (chunk i c, s) =
    Post->>= _ (Post-self (relay_chunk env m r i c)) λ r' _. returns {a = (r', s)} refl

step_shrinks :
    (env : Env) (m : FileManifest) (r : RelayRecv) (s : Bytes)
    → Post (λ q. length q.1 < length s) (recv_msg env.codec r.session s >>= relay_msg env m r)
step_shrinks env m r s =
    Post->>= _ (recv_msg_shrinks env.codec r.session s)
      λ msg h. Post-mono (relay_msg_rest env m r msg) λ q e. rw e h

relay_loop-ne-none :
    (fuel : ℕ) (env : Env) (m : FileManifest) (r : RelayRecv) (s : Bytes)
    → length s < fuel
    → relay_loop fuel env m r s ≢ none
unfolding relay_loop
relay_loop-ne-none zero env m r s h = absurd (omega arith)
relay_loop-ne-none (suc fuel) env m r s h = elim (Bool-cases (is_empty r.pending)) [
  | inl done ↦ rw (done, relay_loop) (λ e. cc)
  | inr more ↦ elim (Res-cases (recv_msg env.codec r.session s >>= relay_msg env m r)) [
    | inl ((r', s'), e) ↦
        ground (arith, Post-eq-ok (step_shrinks env m r s) e, relay_loop-ne-none fuel env m r' s')
    | inr (_, e) ↦ ground arith
  ]
]

-- The receiver of a relay transfer always ends, with a result or an error: with more fuel than the
-- stream has bytes it does not run out of fuel, whatever arrives.
pub relay_chunks-ne-none :
    (fuel : ℕ) (env : Env) (m : FileManifest) (r : RelayRecv) (s : Bytes)
    → length s < fuel
    → relay_chunks fuel env m r s ≢ none
unfolding relay_chunks
relay_chunks-ne-none fuel env m r s h = elim (Option-cases (relay_loop fuel env m r s)) [
  | inl out ↦ absurd (relay_loop-ne-none fuel env m r s h out)
  | inr (ok _, out) ↦ ground arith
  | inr (err _, out) ↦ ground arith
]
