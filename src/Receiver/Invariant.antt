-- ===== src/Receiver/Invariant.antt =====
-- The bookkeeping of the loop in transfer/receiver.rs, through every frame whatever it holds.
use p2pfileshare.Base.{
  ℕ, ◌+◌, ◌^◌, ◌≤◌, ◌<◌, ltb, ◌==◌, not, ◌&&◌, ◌≡◌, refl, Bool, true, false, length, arith, Post,
  ok, some, Post-mono, Bool-cases, inl, inr, subst, ◌∙◌, sym,
}
use p2pfileshare.Base.Bytes.{Bytes}
use p2pfileshare.Base.Sets.{
  contains, insert, Ascending, contains-remove, contains-insert, insert-Ascending,
  is_empty-contains,
}
use p2pfileshare.Manifest.{FileManifest, actual_chunk_size, sum_chunks}
use p2pfileshare.Manifest.Chunks.{IsSound}
use p2pfileshare.Manifest.Sums.{sum_chunks-insert, sum_chunks-le_total, sum_chunks-eq_total}
use p2pfileshare.Progress.{Progress, retract}
use p2pfileshare.Session.Cipher.{Noise}
use p2pfileshare.Receiver.{Env, Recv, Subs, sub_start, receive_subs, receive_frame, receive_loop}
use p2pfileshare.Receiver.SubMessages.{
  IsShort, BarFits, take_sub-BarFits, take_sub_idle, receive_subs_inv,
}
use p2pfileshare.Receiver.Frames.{receive_frame_rule, receive_loop_rule}
use p2pfileshare.Receiver.View.{View, view, accepted, judged, noise-judged}

-- Wanted are the chunks below the count that are not done; the confirmed bytes are those of the
-- chunks that are done; and the bar shows the confirmed bytes.
pub record Inv (m : FileManifest) (v : View) : Type 0 where
  pub wanted : (i : ℕ) → contains v.pending i ≡ (ltb i m.chunk_count && not (contains v.done i))
  pub ordered : Ascending 0 m.chunk_count v.done
  pub counted : v.confirmed ≡ sum_chunks m v.done
  pub shown : v.bar.bytes_done ≡ v.confirmed

module _ (m : FileManifest) (sound : IsSound m) (small : m.total_size < 2 ^ 63) where
  accepted-Inv :
      (v : View) (i : ℕ) (plaintext : Bytes) (bar : Progress)
      → Inv m v
      → contains v.pending i ≡ true
      → bar.bytes_done ≡ v.confirmed + actual_chunk_size i m.chunk_size m.total_size
      → Inv m (accepted m (record v { bar = bar }) i plaintext)
  unfolding accepted
  accepted-Inv v i plaintext bar inv hit e = record {
    wanted = λ j.
        ground (arith, inv.wanted j, contains-remove i j v.pending, contains-insert i j v.done);
    ordered = done';
    counted = ground (arith, inv.counted, added, bound);
    shown = ground (arith, inv.counted, added, bound, e);
  }
    where
      fresh : (i < m.chunk_count) × (contains v.done i ≡ false)
      fresh = ground (arith, inv.wanted i)

      done' : Ascending 0 m.chunk_count (insert i v.done)
      done' = insert-Ascending 0 m.chunk_count i v.done (omega arith) fresh.0 inv.ordered

      added :
          sum_chunks m (insert i v.done)
          ≡ sum_chunks m v.done + actual_chunk_size i m.chunk_size m.total_size
      added = sum_chunks-insert m i v.done fresh.1

      bound : sum_chunks m (insert i v.done) ≤ m.total_size
      bound = sum_chunks-le_total m (insert i v.done) sound done'

  shown-Inv :
      (v : View) (bar : Progress)
      → Inv m v
      → bar.bytes_done ≡ v.confirmed
      → Inv m (record v { bar = bar })
  shown-Inv v bar inv e = record {
    wanted = inv.wanted;
    ordered = inv.ordered;
    counted = inv.counted;
    shown = e;
  }

  judged-Inv :
      (v : View) (i count : ℕ) (is_pending : Bool) (acc : Subs)
      → Inv m v
      → contains v.pending i ≡ is_pending
      → BarFits v.confirmed count acc
      → (is_pending ≡ false → acc.advanced ≡ 0)
      → Inv m (judged m v i is_pending acc)
  unfolding judged retract
  judged-Inv v i count false acc inv hit b idle =
      shown-Inv v acc.sub_bar inv (ground (arith, b.shown))
  judged-Inv v i count true acc inv hit b idle = elim (Bool-cases acc.decrypt_failed) [
    | inl failed ↦ rw failed (shown-Inv v acc.sub_bar inv (ground (arith, b.shown, b.failed)))
    | inr whole ↦
        rw whole
          (elim (Bool-cases
            (length acc.plaintext == actual_chunk_size i m.chunk_size m.total_size)) [
              | inl fits ↦ rw fits (
                  accepted-Inv v i acc.plaintext acc.sub_bar inv hit
                    (ground (arith, b.shown, b.whole)))
              | inr short ↦ rw short (shown-Inv v _ inv (ground (arith, b.shown)))
            ])
  ]

  -- One frame, with a transport that keeps to its buffers.
  abbrev pub Kept : Noise → View → Type 0
  Kept n v = Inv m v × (v.noise ≡ n)

  subs-BarFits :
      (n : Noise) (bar : Progress) (i count : ℕ) (is_pending : Bool) (s : Bytes)
      → IsShort n
      → bar.bytes_done < 2 ^ 63
      → count < 2 ^ 16
      → Post
          (λ p. BarFits bar.bytes_done count p.0 × (is_pending ≡ false → p.0.advanced ≡ 0))
          (receive_subs n i is_pending count 0 (sub_start bar) s)
  subs-BarFits n bar i count is_pending s short below h =
      receive_subs_inv
        (λ j acc. BarFits bar.bytes_done j acc × (is_pending ≡ false → acc.advanced ≡ 0)) n i
        is_pending count
        (λ j c acc lt (b, idle). (
          take_sub-BarFits n i bar.bytes_done j is_pending c acc short below (omega arith) b,
          take_sub_idle n i is_pending j c acc idle,
        ))
        count 0 (sub_start bar) s (omega arith) (omega arith, λ _. refl)

  pub receive_frame-Kept :
      (env : Env) (n : Noise) (r : Recv) (s : Bytes)
      → IsShort n
      → Kept n (view r)
      → Post (λ p. Kept n (view p.0)) (receive_frame env m r s)
  receive_frame-Kept env n r s short (inv, same) =
      receive_frame_rule env m (Kept n)
        (λ i acc.
          (count : ℕ) × (BarFits r.confirmed count acc)
          × (contains r.pending i ≡ false → acc.advanced ≡ 0))
        r s
        (λ i count s₁ _ h.
          Post-mono
            (subs-BarFits r.session.noise_state r.bar i count (contains r.pending i) s₁
              (subst IsShort (sym same) short) below h)
            λ p (b, idle). (count, subst (λ k. BarFits k count p.0) inv.shown b, idle))
        λ i acc (count, b, idle). (
          judged-Inv (view r) i count (contains r.pending i) acc inv refl b idle,
          noise-judged m (view r) i (contains r.pending i) acc ∙ same,
        )
    where
      below : r.bar.bytes_done < 2 ^ 63
      below = omega (
        arith,
        inv.shown,
        inv.counted,
        sum_chunks-le_total m r.state.chunks_done sound inv.ordered,
      )

  -- When the loop ends with a result, every chunk is done and the confirmed bytes and the progress
  -- bar stand at the size of the file, whatever arrived on the stream. It is assumed that the
  -- bookkeeping was in order at the start and that the Noise transport keeps to its buffers.
  pub receive_loop_complete :
      (fuel : ℕ) (env : Env) (r r' : Recv) (s s' : Bytes)
      → IsShort r.session.noise_state
      → Inv m (view r)
      → receive_loop fuel env m r s ≡ some (ok (r', s'))
      → ((i : ℕ) → i < m.chunk_count → contains r'.state.chunks_done i ≡ true)
        × (r'.confirmed ≡ m.total_size)
        × (r'.bar.bytes_done ≡ m.total_size)
  receive_loop_complete fuel env r r' s s' short inv e =
      let ((inv', _), empty) =
        receive_loop_rule env m (Kept r.session.noise_state)
          (λ r₁ s₁. receive_frame-Kept env r.session.noise_state r₁ s₁ short) fuel r s r' s'
          (inv, refl) e in
      let all : (i : ℕ) → i < m.chunk_count → contains r'.state.chunks_done i ≡ true =
        λ i h. ground (arith, inv'.wanted i, is_empty-contains r'.pending i empty) in
      let total : sum_chunks m r'.state.chunks_done ≡ m.total_size =
        sum_chunks-eq_total m r'.state.chunks_done sound inv'.ordered all in
      (all, inv'.counted ∙ total, inv'.shown ∙ (inv'.counted ∙ total))
