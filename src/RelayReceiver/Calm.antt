-- ===== src/RelayReceiver/Calm.antt =====
-- The steps of transfer/relay_receiver.rs when nothing fails at the receiver's end.
use p2pfileshare.Base.{
  ℕ, ◌+◌, ◌*◌, ◌%◌, ◌^◌, ◌≡◌, refl, sym, subst, List, [], ◌∷◌, ◌++◌, length, ok, arith, Post-eq-ok,
  Res-cases, inl, inr,
}
use p2pfileshare.Base.Bytes.{Bytes}
use p2pfileshare.Base.Sets.{insert, remove}
use p2pfileshare.Manifest.{FileManifest, ControlMessage, progress, complete, actual_chunk_size}
use p2pfileshare.Progress.{advance}
use p2pfileshare.Files.{write_at}
use p2pfileshare.Resume.{delete}
use p2pfileshare.Session.Cipher.{Noise}
use p2pfileshare.Session.Cipher.RoundTrip.{IsPaired}
use p2pfileshare.Session.Relay.{send_ctrl}
use p2pfileshare.Receiver.{Env}
use p2pfileshare.Receiver.View.{accepted}
use p2pfileshare.Receiver.Calm.{Fits, IsCalm, save_ok}
use p2pfileshare.RelayReceiver.{RelayRecv, relay_send, save_every_16, relay_accept, relay_finish}
use p2pfileshare.RelayReceiver.View.{view, relay_accept-view}

module _ (env : Env) (calm : IsCalm env) (a b : Noise) (answers : IsPaired b a) where
  relay_send_ok :
      (r : RelayRecv) (msg : ControlMessage)
      → Fits env.codec msg
      → r.session.noise_state ≡ b
      → (r' : RelayRecv) × (relay_send env r msg ≡ ok r') × (r'.sent ≡ r.sent ++ (msg ∷ []))
  unfolding relay_send send_ctrl
  relay_send_ok r msg (p, encoded, short) same =
      let own : IsPaired r.session.noise_state a = subst (λ n. IsPaired n a) (sym same) answers in
      let (c, sealed, _) = own.seals r.session.send_nonce p short in
      elim (Res-cases (relay_send env r msg)) [
        | inl (r', e) ↦ (r', e, ground (arith, e, encoded, sealed))
        | inr (_, e) ↦ absurd (ground (arith, e, encoded, sealed))
      ]

  save_every_16_ok : (r : RelayRecv) → (r' : RelayRecv) × (save_every_16 env r ≡ ok r')
  unfolding save_every_16
  save_every_16_ok r =
      let (store, e) = save_ok env calm a b answers r.state r.store in
      elim (Res-cases (save_every_16 env r)) [
        | inl (r', out) ↦ (r', out)
        | inr (_, out) ↦ absurd (ground (arith, e))
      ]

  -- A chunk that is written and counted.
  abbrev landed : FileManifest → RelayRecv → ℕ → Bytes → RelayRecv
  landed m r i p = record r {
    file = write_at (i * m.chunk_size) p r.file;
    bar = advance (length p) r.bar;
    pending = remove i r.pending;
    state = record (r.state) { chunks_done = insert i r.state.chunks_done };
    confirmed = (r.confirmed + length p) % 2 ^ 64;
  }

  pub relay_accept_ok :
      (m : FileManifest) (r : RelayRecv) (i : ℕ) (p : Bytes)
      → r.session.noise_state ≡ b
      → length p ≡ actual_chunk_size i m.chunk_size m.total_size
      → (r' : RelayRecv) × (relay_accept env m r i p ≡ ok r')
        × (view r' ≡ accepted m (record (view r) { bar = advance (length p) r.bar }) i p)
  unfolding relay_accept
  relay_accept_ok m r i p same exact =
      let (r₁, e₁, _) =
        relay_send_ok (landed m r i p) (progress ((r.confirmed + length p) % 2 ^ 64))
          (calm.progress_fits ((r.confirmed + length p) % 2 ^ 64) (omega arith)) same in
      let (r₂, e₂) = save_every_16_ok r₁ in
      let out : relay_accept env m r i p ≡ ok r₂ =
        rw (calm.disk (i * m.chunk_size), relay_accept, e₁) e₂ in
      (r₂, out, Post-eq-ok (relay_accept-view env m r i p exact) out)

  pub relay_finish_ok :
      (r : RelayRecv)
      → r.session.noise_state ≡ b
      → (r' : RelayRecv) × (relay_finish env r ≡ ok r')
        × ((earlier : List ControlMessage) × (r'.sent ≡ earlier ++ (complete ∷ [])))
  unfolding relay_finish
  relay_finish_ok r same =
      let (store, e₁) = save_ok env calm a b answers r.state r.store in
      let (r₁, e₂, last) =
        relay_send_ok (record r { store = store }) complete calm.complete_fits same in
      (record r₁ { store = delete r₁.state r₁.store }, rw (e₁, e₂) refl, (r.sent, last))
