-- ===== src/RelayReceiver/View.antt =====
-- The receiver of transfer/relay_receiver.rs seen as that of a direct session.
use p2pfileshare.Base.{
  ℕ, ◌+◌, ◌*◌, ◌%◌, ◌^◌, ◌==◌, if◌then◌else◌, [], ◌∷◌, ◌++◌, ok, err, Post-both, Bool-cases,
  Res-cases, ◌≡◌, refl, ◌∙◌, length, arith, Post, fails, Post->>=, Post-of, Post-eq-ok,
  Option-cases, inl, inr,
}
use p2pfileshare.Base.Bytes.{Bytes}
use p2pfileshare.Manifest.{FileManifest, ControlMessage, chunk_nack, progress, actual_chunk_size}
use p2pfileshare.Errors.{Result}
use p2pfileshare.Session.Cipher.{decrypt_chunk}
use p2pfileshare.Session.Relay.{send_ctrl}
use p2pfileshare.Progress.{advance}
use p2pfileshare.Receiver.{Env}
use p2pfileshare.Receiver.View.{View, accepted}
use p2pfileshare.RelayReceiver.{RelayRecv, relay_send, save_every_16, relay_accept, relay_chunk}

abbrev pub view : RelayRecv → View
view r = record {
  pending = r.pending;
  done = r.state.chunks_done;
  confirmed = r.confirmed;
  landed = r.file;
  bar = r.bar;
  noise = r.session.noise_state;
}

-- What a chunk does to the view, by what its decryption gives.
unfoldable pub judged_relay : FileManifest → View → ℕ → Result Bytes → View
judged_relay m v i (err _) = v
judged_relay m v i (ok p) =
    if length p == actual_chunk_size i m.chunk_size m.total_size
    then accepted m (record v { bar = advance (length p) v.bar }) i p
    else v

-- The message that answers it.
unfoldable pub reply_to : FileManifest → ℕ → ℕ → Result Bytes → ControlMessage
reply_to m confirmed i (err _) = chunk_nack i
reply_to m confirmed i (ok p) =
    if length p == actual_chunk_size i m.chunk_size m.total_size
    then progress ((confirmed + length p) % 2 ^ 64)
    else chunk_nack i

abbrev pub Answered : FileManifest → RelayRecv → ℕ → Result Bytes → RelayRecv → Type 0
Answered m r i plaintext r' =
    (view r' ≡ judged_relay m (view r) i plaintext)
    × (r'.sent ≡ r.sent ++ (reply_to m r.confirmed i plaintext ∷ []))

module _ (env : Env) where
  pub relay_send-view :
      (r : RelayRecv) (msg : ControlMessage) → Post (λ r'. view r' ≡ view r) (relay_send env r msg)
  unfolding relay_send send_ctrl
  relay_send-view r msg = Post-of _ λ r' e. ground (arith, e)

  save_every_16-view : (r : RelayRecv) → Post (λ r'. view r' ≡ view r) (save_every_16 env r)
  unfolding save_every_16
  save_every_16-view r = Post-of _ λ r' e. ground (arith, e)

  pub relay_accept-view :
      (m : FileManifest) (r : RelayRecv) (i : ℕ) (p : Bytes)
      → length p ≡ actual_chunk_size i m.chunk_size m.total_size
      → Post
          (λ r'. view r' ≡ accepted m (record (view r) { bar = advance (length p) r.bar }) i p)
          (relay_accept env m r i p)
  unfolding accepted relay_accept
  relay_accept-view m r i p exact = elim (Option-cases (env.disk_error (i * m.chunk_size))) [
    | inr (x, bad) ↦ rw (bad, relay_accept) fails
    | inl good ↦
        rw (good, relay_accept)
          (Post->>= _ (relay_send-view _ _)
            λ r₁ h₁. Post-of _ λ r₂ e. Post-eq-ok (save_every_16-view r₁) e ∙ (h₁ ∙ rw exact refl))
  ]

  told :
      (r : RelayRecv) (msg : ControlMessage)
      → Post (λ r'. r'.sent ≡ r.sent ++ (msg ∷ [])) (relay_send env r msg)
  unfolding relay_send send_ctrl
  told r msg = Post-of _ λ r' e. ground (arith, e)

  save_every_16_sent : (r : RelayRecv) → Post (λ r'. r'.sent ≡ r.sent) (save_every_16 env r)
  unfolding save_every_16
  save_every_16_sent r = Post-of _ λ r' e. ground (arith, e)

  relay_accept_sent :
      (m : FileManifest) (r : RelayRecv) (i : ℕ) (p : Bytes)
      → Post
          (λ r'. r'.sent ≡ r.sent ++ (progress ((r.confirmed + length p) % 2 ^ 64) ∷ []))
          (relay_accept env m r i p)
  unfolding relay_accept
  relay_accept_sent m r i p = elim (Option-cases (env.disk_error (i * m.chunk_size))) [
    | inr (x, bad) ↦ rw (bad, relay_accept) fails
    | inl good ↦
        rw (good, relay_accept)
          (Post->>= _ (told _ _)
            λ r₁ h₁. Post-of _ λ r₂ e. Post-eq-ok (save_every_16_sent r₁) e ∙ h₁)
  ]

  refused :
      (r : RelayRecv) (i : ℕ)
      → Post
          (λ r'. (view r' ≡ view r) × (r'.sent ≡ r.sent ++ (chunk_nack i ∷ [])))
          (relay_send env r (chunk_nack i))
  refused r i = Post-both (relay_send-view r (chunk_nack i)) (told r (chunk_nack i))

  -- What one chunk of the relay stream does, if the receiver goes on after it. A chunk that cannot
  -- be decrypted or has not the size that the manifest gives it changes none of the chunks wanted
  -- and done, the confirmed bytes, the progress bar and the file, and is asked for again by a
  -- `ChunkNack`. Every other chunk, wanted or not and done or not, is accepted as the receiver of a
  -- direct session accepts one that is wanted, and a `Progress` reports the bytes with it.
  pub relay_chunk-view :
      (m : FileManifest) (r : RelayRecv) (i : ℕ) (c : Bytes)
      → Post
          (λ r'. Answered m r i (decrypt_chunk r.session.noise_state i c) r')
          (relay_chunk env m r i c)
  unfolding relay_chunk judged_relay reply_to
  relay_chunk-view m r i c = elim (Res-cases (decrypt_chunk r.session.noise_state i c)) [
    | inr (_, bad) ↦ rw (bad, relay_chunk) (refused r i)
    | inl (p, good) ↦
        rw (good, relay_chunk)
          (elim (Bool-cases (length p == actual_chunk_size i m.chunk_size m.total_size)) [
            | inr other ↦ rw other (refused r i)
            | inl fits ↦ rw fits (
                Post-both (relay_accept-view m r i p (ground (arith, fits)))
                  (relay_accept_sent m r i p))
          ])
  ]
