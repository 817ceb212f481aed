-- ===== src/Receiver/Saves.antt =====
-- When transfer/receiver.rs saves its state, and what the file holds at that moment.
use p2pfileshare.Base.{
  ℕ, ◌*◌, ◌≡◌, refl, ◌∙◌, ap, true, some, ok, arith, Post, returns, Post->>=, Post-eq-ok, Post-of,
  Post-self, Post-mono,
}
use p2pfileshare.Base.Bytes.{Bytes}
use p2pfileshare.Base.Sets.{contains, contains-insert}
use p2pfileshare.Manifest.{FileManifest}
use p2pfileshare.Resume.{save, load}
use p2pfileshare.Resume.Laws.{IsJson, load-save, same_id_refl}
use p2pfileshare.Session.Peer.{send_ctrl}
use p2pfileshare.Receiver.{
  Env, Recv, send, flush, hand_over, acknowledge, save_throttled, accept_chunk,
}
use p2pfileshare.Receiver.View.{view}

-- What an acknowledgement leaves alone.
acknowledge_kept :
    (env : Env) (r : Recv)
    → Post
        (λ r'.
          (r'.state ≡ r.state)
          × (r'.file ≡ r.file)
          × (r'.pending_write ≡ r.pending_write)
          × (r'.chunks_since_save ≡ r.chunks_since_save)
          × (r'.store ≡ r.store))
        (acknowledge env r)
unfolding acknowledge send send_ctrl
acknowledge_kept env r = Post-of _ λ r' e. ground (arith, e)

flushed :
    (env : Env) (r : Recv)
    → Post
        (λ r'. (r'.file ≡ (view r).landed) × (r'.chunks_since_save ≡ r.chunks_since_save))
        (flush env r)
unfolding flush
flushed env r = Post-of _ λ r' e. ground (arith, e)

saved :
    (env : Env) (r : Recv)
    → IsJson env.json
    → r.chunks_since_save ≡ 15
    → Post
        (λ r'.
          (load env.json r'.state.session_id r'.store ≡ ok (some r'.state))
          × (r'.state ≡ r.state)
          × (r'.file ≡ r.file)
          × (r'.pending_write ≡ r.pending_write))
        (save_throttled env r)
unfolding save_throttled
saved env r lawful h = rw h (
    Post->>= _ (Post-self (save env.json r.state r.store)) λ store e. returns (
      ground (
        arith,
        load-save env.json r.state r.state.session_id r.store store lawful e,
        same_id_refl r.state.session_id,
      ),
      refl,
      refl,
      refl,
    ))

-- What a chunk that is accepted as the sixteenth since the last save leaves: the state is saved, and
-- it lists the chunk, but the file is the one from before the chunk: its write is still to come. So
-- an interruption at this moment leaves a saved state that lists a chunk the file does not have.
pub accept_chunk_saves_early :
    (env : Env) (m : FileManifest) (r r' : Recv) (i : ℕ) (plaintext : Bytes)
    → IsJson env.json
    → r.chunks_since_save ≡ 15
    → accept_chunk env m r i plaintext ≡ ok r'
    → (load env.json r'.state.session_id r'.store ≡ ok (some r'.state))
      × (contains r'.state.chunks_done i ≡ true)
      × (r'.pending_write ≡ some (i * m.chunk_size, plaintext))
      × (r'.file ≡ (view r).landed)
unfolding accept_chunk hand_over
accept_chunk_saves_early env m r r' i plaintext lawful count = Post-eq-ok {P = left} {a = r'} (
    Post->>= _ (flushed env r) λ r₁ (waited, kept).
      Post->>= _ (acknowledge_kept env (hand_over m r₁ i plaintext)) λ r₂ (st, f, w, n, _).
        Post-mono (saved env r₂ lawful (n ∙ (kept ∙ count))) λ r₃ (loads, st', f', w'). (
          loads,
          ap (λ x. contains x.chunks_done i) (st' ∙ st)
              ∙ (contains-insert i i r₁.state.chunks_done ∙ ground arith),
          w' ∙ w,
          f' ∙ (f ∙ waited),
        ))
  where
    left : Recv → Type 0
    left r' =
        (load env.json r'.state.session_id r'.store ≡ ok (some r'.state))
        × (contains r'.state.chunks_done i ≡ true)
        × (r'.pending_write ≡ some (i * m.chunk_size, plaintext))
        × (r'.file ≡ (view r).landed)
