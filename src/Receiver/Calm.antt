-- ===== src/Receiver/Calm.antt =====
-- The steps of transfer/receiver.rs when nothing fails at the receiver's end.
use p2pfileshare.Base.{
  ℕ, ◌^◌, ◌≤◌, ◌<◌, ◌≡◌, refl, sym, ap, subst, ◌∙◌, String, List, [], ◌∷◌, ◌++◌, length, none, ok,
  arith, Post-eq-ok, Option-cases, Res-cases, inl, inr,
}
use p2pfileshare.Base.Bytes.{Bytes}
use p2pfileshare.Manifest.{FileManifest, ControlMessage, progress, complete}
use p2pfileshare.Resume.{TransferState, Store, save, delete}
use p2pfileshare.Session.Cipher.{Noise, max_plain}
use p2pfileshare.Session.Cipher.RoundTrip.{IsPaired}
use p2pfileshare.Session.Codec.{Codec}
use p2pfileshare.Session.Peer.{send_ctrl}
use p2pfileshare.Receiver.{
  Env, Recv, send, flush, acknowledge, save_throttled, hand_over, accept_chunk, finish,
}
use p2pfileshare.Receiver.View.{view, accepted, flush-view, accept_chunk-view}

-- A message that the codec encodes into one Noise message.
abbrev pub Fits : Codec → ControlMessage → Type 0
Fits codec msg = (p : Bytes) × (codec.to_vec msg ≡ ok p) × (length p ≤ max_plain)

-- Nothing fails at the receiver's end: its disk takes every write, its states have a JSON text and
-- are written, and the two messages of constant size that it sends fit a Noise message.
pub record IsCalm (env : Env) : Type 0 where
  pub disk : (offset : ℕ) → env.disk_error offset ≡ none
  pub json : (s : TransferState) → (text : String) × (env.json.to_string_pretty s ≡ ok text)
  pub dir : env.json.dir_made ≡ ok tt
  pub written : env.json.file_written ≡ ok tt
  pub progress_fits : (bytes : ℕ) → bytes < 2 ^ 64 → Fits env.codec (progress bytes)
  pub complete_fits : Fits env.codec complete

module _ (env : Env) (calm : IsCalm env) (a b : Noise) (answers : IsPaired b a) where
  send_ok :
      (r : Recv) (msg : ControlMessage)
      → Fits env.codec msg
      → r.session.noise_state ≡ b
      → (r' : Recv) × (send env r msg ≡ ok r') × (r'.sent ≡ r.sent ++ (msg ∷ []))
  unfolding send send_ctrl
  send_ok r msg (p, encoded, short) same =
      let own : IsPaired r.session.noise_state a = subst (λ n. IsPaired n a) (sym same) answers in
      let (c, sealed, _) = own.seals r.session.send_nonce p short in
      elim (Res-cases (send env r msg)) [
        | inl (r', e) ↦ (r', e, ground (arith, e, encoded, sealed))
        | inr (_, e) ↦ absurd (ground (arith, e, encoded, sealed))
      ]

  flush_ok : (r : Recv) → (r' : Recv) × (flush env r ≡ ok r') × (view r' ≡ view r)
  unfolding flush
  flush_ok r = elim (Res-cases (flush env r)) [
    | inl (r', e) ↦ (r', e, (flush-view env r e).0)
    | inr (_, e) ↦ absurd (elim (Option-cases r.pending_write) [
      | inl idle ↦ ground arith
      | inr ((offset, _), busy) ↦ ground (arith, calm.disk offset)
    ])
  ]

  pub save_ok :
      (s : TransferState) (store : Store) → (store' : Store) × (save env.json s store ≡ ok store')
  unfolding save
  save_ok s store =
      let (text, e) = calm.json s in
      elim (Res-cases (save env.json s store)) [
        | inl (store', out) ↦ (store', out)
        | inr (_, out) ↦ absurd (ground (arith, e, calm.dir, calm.written))
      ]

  acknowledge_ok :
      (r : Recv)
      → r.confirmed < 2 ^ 64
      → r.session.noise_state ≡ b
      → (r' : Recv) × (acknowledge env r ≡ ok r')
  unfolding acknowledge
  acknowledge_ok r below same =
      let (sent, e, _) =
        send_ok r (progress r.confirmed) (calm.progress_fits r.confirmed below) same in
      elim (Res-cases (acknowledge env r)) [
        | inl (r', out) ↦ (r', out)
        | inr (_, out) ↦ absurd (ground (arith, e))
      ]

  save_throttled_ok : (r : Recv) → (r' : Recv) × (save_throttled env r ≡ ok r')
  unfolding save_throttled
  save_throttled_ok r =
      let (store, e) = save_ok r.state r.store in
      elim (Res-cases (save_throttled env r)) [
        | inl (r', out) ↦ (r', out)
        | inr (_, out) ↦ absurd (ground (arith, e))
      ]

  pub accept_chunk_ok :
      (m : FileManifest) (r : Recv) (i : ℕ) (plaintext : Bytes)
      → r.session.noise_state ≡ b
      → (r' : Recv) × (accept_chunk env m r i plaintext ≡ ok r')
        × (view r' ≡ accepted m (view r) i plaintext)
  unfolding accept_chunk hand_over
  accept_chunk_ok m r i plaintext same =
      let (r₁, e₁, v₁) = flush_ok r in
      let (r₂, e₂) =
        acknowledge_ok (hand_over m r₁ i plaintext) (omega arith) (ap (λ v. v.noise) v₁ ∙ same) in
      let (r₃, e₃) = save_throttled_ok r₂ in
      let out : accept_chunk env m r i plaintext ≡ ok r₃ = rw (e₁, e₂) e₃ in
      (r₃, out, Post-eq-ok (accept_chunk-view env m r i plaintext) out)

  pub finish_ok :
      (r : Recv)
      → r.session.noise_state ≡ b
      → (r' : Recv) × (finish env r ≡ ok r')
        × ((earlier : List ControlMessage) × (r'.sent ≡ earlier ++ (complete ∷ [])))
  unfolding finish
  finish_ok r same =
      let (r₁, e₁, v₁) = flush_ok r in
      let (store, e₂) = save_ok r₁.state r₁.store in
      let (r₂, e₃, last) =
        send_ok (record r₁ { store = store }) complete calm.complete_fits
          (ap (λ v. v.noise) v₁ ∙ same) in
      (record r₂ { store = delete r₂.state r₂.store }, rw (e₁, e₂, e₃) refl, (r₁.sent, last))
