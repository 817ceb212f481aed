-- ===== src/RelayReceiver/Delivery.antt =====
-- A transfer over a relay that ends, whatever the stream holds.
use p2pfileshare.Base.{
  ℕ, zero, suc, ◌/◌, ◌^◌, ◌≤◌, ◌<◌, ltb, ◌==◌, not, ◌&&◌, ◌≡◌, refl, sym, ap, subst, true, [],
  length, some, ok, err, ◌>>=◌, arith, Post, returns, fails, Post->>=, Post-mono, Post-self,
  Post-eq-ok, Bool-cases, Option-cases, Res-cases, inl, inr,
}
use native.Mathlib.Decide.{dec_lt}
use p2pfileshare.Base.Bytes.{Bytes}
use p2pfileshare.Base.Sets.{contains, is_empty, contains-remove, contains-insert, is_empty-contains}
use p2pfileshare.Manifest.{FileManifest, actual_chunk_size, complete, chunk_nack}
use p2pfileshare.Manifest.Chunks.{IsSound}
use p2pfileshare.Files.{File, write_at}
use p2pfileshare.Resume.{save}
use p2pfileshare.Session.Cipher.{Noise, decrypt_chunk}
use p2pfileshare.Session.Relay.{RelayMsg, ctrl, chunk, recv_msg}
use p2pfileshare.Progress.{Progress}
use p2pfileshare.Receiver.{Env}
use p2pfileshare.Receiver.View.{View, accepted}
use p2pfileshare.Receiver.Integrity.{IsAuthentic, Holds, accepted-Holds, in_count}
use p2pfileshare.RelayReceiver.{
  RelayRecv, relay_send, relay_chunk, relay_msg, relay_loop, relay_finish, relay_chunks,
}
use p2pfileshare.Session.Relay.Indices.{IndexFits, recv_msg-IndexFits}
use p2pfileshare.RelayReceiver.View.{view, relay_send-view, relay_accept-view}
use p2pfileshare.RelayReceiver.Opened.{OpensNoMore, whole, decrypt_chunk-Post}

module _ (m : FileManifest) (sound : IsSound m) (small : m.total_size < 2 ^ 63) (src : File) where
  pub record Kept (n : Noise) (v : View) : Type 0 where
    pub wanted : (i : ℕ) → contains v.pending i ≡ (ltb i m.chunk_count && not (contains v.done i))
    pub holds : Holds m sound small src v
    pub same : v.noise ≡ n

  pub accepted-Kept :
      (n : Noise) (v : View) (i : ℕ) (p : Bytes)
      → (i < m.chunk_count → p ≡ whole m sound small src i)
      → (m.chunk_count ≤ i → p ≡ [])
      → Kept n v
      → Kept n (accepted m v i p)
  unfolding accepted write_at
  accepted-Kept n v i p inside outside k = record {
    wanted =
        λ j. ground (arith, k.wanted j, contains-remove i j v.pending, contains-insert i j v.done);
    holds = elim (dec_lt i m.chunk_count) [
      | yes below ↦ accepted-Holds m sound small src v i p below (inside below) k.holds
      | no above ↦ rw (outside (omega arith)) (record {
        bytes = λ b below known. ground (
          arith,
          k.holds.bytes b below,
          known,
          in_count m sound small src b below,
          contains-insert i (b / m.chunk_size) v.done,
        );
        len = k.holds.len;
      })
    ];
    same = k.same;
  }

  pub barred : (n : Noise) (v : View) (bar : Progress) → Kept n v → Kept n (record v { bar = bar })
  barred n v bar k = record {
    wanted = k.wanted;
    holds = record { bytes = k.holds.bytes; len = k.holds.len };
    same = k.same;
  }

  relay_chunk-Kept :
      (env : Env) (n : Noise) (r : RelayRecv) (i : ℕ) (c : Bytes)
      → IsAuthentic m sound small src n
      → OpensNoMore m sound small src n
      → i < 2 ^ 32
      → Kept n (view r)
      → Post (λ r'. Kept n (view r')) (relay_chunk env m r i c)
  unfolding relay_chunk
  relay_chunk-Kept env n r i c auth never w k =
      elim (Res-cases (decrypt_chunk r.session.noise_state i c)) [
        | inr (_, bad) ↦ rw (bad, relay_chunk) again
        | inl (p, good) ↦
            rw (good, relay_chunk)
              (elim (Bool-cases (length p == actual_chunk_size i m.chunk_size m.total_size)) [
                | inr other ↦ rw other again
                | inl fits ↦
                    let exact : length p ≡ actual_chunk_size i m.chunk_size m.total_size =
                      ground (arith, fits) in
                    let (inside, outside) =
                      Post-eq-ok
                        (decrypt_chunk-Post m sound small src r.session.noise_state i c
                          (subst (IsAuthentic m sound small src) (sym k.same) auth)
                          (subst (OpensNoMore m sound small src) (sym k.same) never) w)
                        good in
                    rw fits (
                      Post-mono (relay_accept-view env m r i p exact) λ r' e.
                        subst (Kept n) (sym e) (
                          accepted-Kept n _ i p (λ below. inside below exact) outside
                            (barred n (view r) _ k)))
              ])
      ]
    where
      again : Post (λ r'. Kept n (view r')) (relay_send env r (chunk_nack i))
      again = Post-mono (relay_send-view env r (chunk_nack i)) λ r' e. subst (Kept n) (sym e) k

  relay_msg-Kept :
      (env : Env) (n : Noise) (r : RelayRecv) (msg : RelayMsg × Bytes)
      → IsAuthentic m sound small src n
      → OpensNoMore m sound small src n
      → IndexFits msg.0
      → Kept n (view r)
      → Post (λ q. Kept n (view q.0)) (relay_msg env m r msg)
  unfolding relay_msg
  relay_msg-Kept env n r (ctrl msg, s) auth never w k = fails
  relay_msg-Kept env n r (chunk i c, s) auth never w k =
      Post->>= _ (relay_chunk-Kept env n r i c auth never w k) λ r' k'. returns {a = (r', s)} k'

  relay_loop-Kept :
      (fuel : ℕ) (env : Env) (n : Noise) (r : RelayRecv) (s : Bytes) (r' : RelayRecv) (s' : Bytes)
      → IsAuthentic m sound small src n
      → OpensNoMore m sound small src n
      → Kept n (view r)
      → relay_loop fuel env m r s ≡ some (ok (r', s'))
      → Kept n (view r') × (is_empty r'.pending ≡ true)
  unfolding relay_loop
  relay_loop-Kept zero env n r s r' s' auth never k e = cc
  relay_loop-Kept (suc fuel) env n r s r' s' auth never k e =
      elim (Bool-cases (is_empty r.pending)) [
        | inl done ↦
            let same : r ≡ r' = ground arith in
            (subst (λ x. Kept n (view x)) same k, subst (λ x. is_empty x.pending ≡ true) same done)
        | inr more ↦ elim (Res-cases (recv_msg env.codec r.session s >>= relay_msg env m r)) [
          | inl ((r₁, s₁), f) ↦
              let step : Post (λ q. Kept n (view q.0))
                  (recv_msg env.codec r.session s >>= relay_msg env m r) =
                Post->>= _ (recv_msg-IndexFits env.codec r.session s)
                  λ msg w. relay_msg-Kept env n r msg auth never w k in
              relay_loop-Kept fuel env n r₁ s₁ r' s' auth never (Post-eq-ok step f) (ground arith)
          | inr (_, f) ↦ absurd (ground arith)
        ]
      ]

  pub relay_finish_file :
      (env : Env) (r : RelayRecv) → Post (λ r'. r'.file ≡ r.file) (relay_finish env r)
  unfolding relay_finish
  relay_finish_file env r = Post->>= _ (Post-self (save env.json r.state r.store)) λ store _.
      Post->>= _ (relay_send-view env (record r { store = store }) complete)
        λ r₁ h. returns (ap (λ v. v.landed) h)

  -- A relay transfer that ends with a result has left the sender's file on the disk, whatever bytes
  -- arrived on the relay stream, chunks that were sent again and chunks that the file does not have
  -- included. It is assumed that the manifest fits its fields and announces less than 2^63 bytes,
  -- that under each nonce of a chunk the Noise transport opens nothing but that piece of the file,
  -- and nothing for further chunks of 32-bit indices, and that the receiver starts with the chunks wanted that are not
  -- done and with the sender's bytes in those that are.
  pub relay_chunks_deliver :
      (fuel : ℕ) (env : Env) (r r' : RelayRecv) (s : Bytes)
      → IsAuthentic m sound small src r.session.noise_state
      → OpensNoMore m sound small src r.session.noise_state
      → ((i : ℕ)
          → contains r.pending i ≡ (ltb i m.chunk_count && not (contains r.state.chunks_done i)))
      → Holds m sound small src (view r)
      → relay_chunks fuel env m r s ≡ some (ok r')
      → (r'.file.len ≡ m.total_size) × ((k : ℕ) → k < m.total_size → r'.file.byte k ≡ src.byte k)
  unfolding relay_chunks
  relay_chunks_deliver fuel env r r' s auth never wanted holds e =
      elim (Option-cases (relay_loop fuel env m r s)) [
        | inl out ↦ absurd (ground arith)
        | inr (err x, out) ↦ absurd (ground arith)
        | inr (ok (r₁, s₁), out) ↦
            let (k, empty) =
              relay_loop-Kept fuel env r.session.noise_state r s r₁ s₁ auth never
                (record { wanted = wanted; holds = holds; same = refl }) out in
            let same : r'.file ≡ r₁.file =
              Post-eq-ok {a = r'} (relay_finish_file env r₁) (ground arith) in
            rw same (
              k.holds.len,
              λ b below. k.holds.bytes b below (
                  ground (
                    arith,
                    k.wanted (b / m.chunk_size),
                    is_empty-contains r₁.pending (b / m.chunk_size) empty,
                    in_count m sound small src b below,
                  )),
            )
      ]
