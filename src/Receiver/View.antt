-- ===== src/Receiver/View.antt =====
-- The receiver of transfer/receiver.rs seen without its channels and counters: which chunks are
-- wanted and done, and the file as it is once the background write has landed.
use p2pfileshare.Base.{
  ℕ, ◌+◌, ◌*◌, ◌%◌, ◌^◌, ◌==◌, if◌then◌else◌, Bool, true, false, not, ◌||◌, ◌≡◌, refl, List, length,
  Option, none, some, ok, arith, Post, returns, Post->>=, Bool-cases, inl, inr, Post-of, Res-cases,
}
use p2pfileshare.Base.Bytes.{Bytes}
use p2pfileshare.Base.Sets.{remove, insert}
use p2pfileshare.Manifest.{FileManifest, ControlMessage, progress, chunk_nack, actual_chunk_size}
use p2pfileshare.Progress.{Progress, retract}
use p2pfileshare.Files.{File, write_at}
use p2pfileshare.Session.Cipher.{Noise}
use p2pfileshare.Session.Peer.{send_ctrl}
use p2pfileshare.Receiver.{
  Env, Recv, Subs, send, flush, acknowledge, save_throttled, hand_over, accept_chunk, judge_chunk,
}

pub record View : Type 0 where
  pub pending : List ℕ
  pub done : List ℕ
  pub confirmed : ℕ
  pub landed : File
  pub bar : Progress
  pub noise : Noise

abbrev pub land : Option (ℕ × Bytes) → File → File
land none f = f
land (some (offset, bytes)) f = write_at offset bytes f

abbrev pub view : Recv → View
view r = record {
  pending = r.pending;
  done = r.state.chunks_done;
  confirmed = r.confirmed;
  landed = land r.pending_write r.file;
  bar = r.bar;
  noise = r.session.noise_state;
}

unfoldable pub accepted : FileManifest → View → ℕ → Bytes → View
accepted m v i plaintext = record v {
  pending = remove i v.pending;
  done = insert i v.done;
  confirmed = (v.confirmed + actual_chunk_size i m.chunk_size m.total_size) % 2 ^ 64;
  landed = write_at (i * m.chunk_size) plaintext v.landed;
}

-- What one frame does to the view.
unfoldable pub judged : FileManifest → View → ℕ → Bool → Subs → View
unfolding accepted
judged m v i is_pending acc =
    if not is_pending || acc.decrypt_failed
    then record v { bar = acc.sub_bar }
    else if length acc.plaintext == actual_chunk_size i m.chunk_size m.total_size
    then accepted m (record v { bar = acc.sub_bar }) i acc.plaintext
    else record v { bar = retract acc.advanced acc.sub_bar }

module _ (env : Env) where
  send-view :
      (r : Recv) (msg : ControlMessage) {r' : Recv} → send env r msg ≡ ok r' → view r' ≡ view r
  unfolding send send_ctrl
  send-view r msg e = ground arith

  pub flush-view :
      (r : Recv) {r' : Recv} → flush env r ≡ ok r' → (view r' ≡ view r) × (r'.pending_write ≡ none)
  unfolding flush
  flush-view r e = ground arith

  acknowledge-view : (r : Recv) {r' : Recv} → acknowledge env r ≡ ok r' → view r' ≡ view r
  unfolding acknowledge
  acknowledge-view r e = elim (Res-cases (send env r (progress r.confirmed))) [
    | inl (r₁, sent) ↦ ground (arith, send-view r (progress r.confirmed) sent)
    | inr (_, failed) ↦ ground arith
  ]

  save_throttled-view : (r : Recv) {r' : Recv} → save_throttled env r ≡ ok r' → view r' ≡ view r
  unfolding save_throttled
  save_throttled-view r e = ground arith

  pub accept_chunk-view :
      (m : FileManifest) (r : Recv) (i : ℕ) (plaintext : Bytes)
      → Post (λ r'. view r' ≡ accepted m (view r) i plaintext) (accept_chunk env m r i plaintext)
  unfolding accept_chunk hand_over accepted
  accept_chunk-view m r i plaintext = Post->>= _ (Post-of _ (λ r₁. flush-view r)) λ r₁ h₁.
      Post->>= _ (Post-of _ (λ r₂. acknowledge-view (hand_over m r₁ i plaintext)))
        λ r₂ h₂. Post-of _ (λ r₃ e. ground (arith, save_throttled-view r₂ e, h₂, h₁))

  -- Whatever chunk a frame is for and whatever its sub-messages have left, if the receiver goes on
  -- after it, then its wanted and done chunks, its confirmed bytes, its progress bar and the file as
  -- it is once the background write has landed are those of the abstract step `judged`.
  pub judge_chunk-view :
      (m : FileManifest) (r : Recv) (i : ℕ) (is_pending : Bool) (acc : Subs)
      → Post
          (λ r'. view r' ≡ judged m (view r) i is_pending acc)
          (judge_chunk env m r i is_pending acc)
  unfolding judge_chunk judged
  judge_chunk-view m r i false acc = returns refl
  judge_chunk-view m r i true acc = elim (Bool-cases acc.decrypt_failed) [
    | inl failed ↦
        rw failed (Post-of _ (λ r' e. send-view (record r { bar = acc.sub_bar }) (chunk_nack i) e))
    | inr whole ↦
        rw whole
          (elim (Bool-cases
            (length acc.plaintext == actual_chunk_size i m.chunk_size m.total_size)) [
              | inl fits ↦
                  rw fits (accept_chunk-view m (record r { bar = acc.sub_bar }) i acc.plaintext)
              | inr short ↦ rw short (Post-of _ (λ r' e. send-view _ (chunk_nack i) e))
            ])
  ]

pub noise-judged :
    (m : FileManifest) (v : View) (i : ℕ) (is_pending : Bool) (acc : Subs)
    → (judged m v i is_pending acc).noise ≡ v.noise
unfolding judged
noise-judged m v i is_pending acc = ground arith
