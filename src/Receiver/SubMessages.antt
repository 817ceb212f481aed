-- ===== src/Receiver/SubMessages.antt =====
-- The loop over the sub-messages of a chunk in transfer/receiver.rs: what it keeps.
use p2pfileshare.Base.{
  ℕ, zero, suc, ◌+◌, ◌*◌, ◌^◌, ◌≤◌, ◌<◌, ◌≡◌, refl, Bool, true, false, length, length-append, ok,
  arith, Post, returns, Post->>=, Post-fail_if, Res-cases, inl, inr, subst,
}
use p2pfileshare.Base.Bytes.{Bytes, from_be_bytes, read_exact-Post}
use p2pfileshare.Progress.{advance, retract}
use p2pfileshare.Session.{chunk_nonce}
use p2pfileshare.Session.Cipher.{Noise, decrypt_sub_message, max_plain}
use p2pfileshare.Session.Peer.{ended}
use p2pfileshare.Receiver.{Subs, take_sub, receive_subs}

-- An invariant of one step is an invariant of the loop.
pub receive_subs_inv {κ} :
    (P : ℕ → Subs → Type κ) (n : Noise) (i : ℕ) (is_pending : Bool) (last : ℕ)
    → ((j : ℕ) (c : Bytes) (acc : Subs)
        → j < last
        → P j acc
        → P (suc j) (take_sub n i is_pending j c acc))
    → (count j : ℕ) (acc : Subs) (s : Bytes) → j + count ≡ last
    → P j acc
    → Post (λ p. P last p.0) (receive_subs n i is_pending count j acc s)
unfolding receive_subs
receive_subs_inv P n i is_pending last step zero j acc s h p =
    returns (subst (λ k. P k acc) (omega arith) p)
receive_subs_inv P n i is_pending last step (suc count) j acc s h p =
    Post->>= _ (read_exact-Post ended 4 s) λ (len_buf, s₁) _. Post->>= _ (Post-fail_if _ _) λ _ _.
      Post->>= _ (read_exact-Post ended (from_be_bytes len_buf) s₁) λ (c, s₂) _.
        receive_subs_inv P n i is_pending last step count (suc j) (take_sub n i is_pending j c acc)
          s₂ (omega arith) (step j c acc (omega arith) p)

-- No sub-message is read for a chunk that is not wanted.
pub receive_subs_idle :
    (n : Noise) (i count : ℕ) (acc : Subs) (s : Bytes)
    → Post (λ p. p.0 ≡ acc) (receive_subs n i false count 0 acc s)
unfolding take_sub
receive_subs_idle n i count acc s =
    receive_subs_inv (λ _ acc'. acc' ≡ acc) n i false count (λ j c acc' _ e. e) count 0 acc s
      (omega arith) refl

-- A message that is opened fits the buffer that it is opened into.
abbrev pub IsShort : Noise → Type 0
IsShort n = (nonce : ℕ) (c p : Bytes) → n.read_message nonce c ≡ ok p → length p ≤ max_plain

-- The bar shows what was shown before and the bytes that the chunk has added.
pub record BarFits (before : ℕ) (j : ℕ) (acc : Subs) : Type 0 where
  pub shown : acc.sub_bar.bytes_done ≡ before + acc.advanced
  pub small : acc.advanced ≤ max_plain * j
  pub whole : acc.decrypt_failed ≡ false → acc.advanced ≡ length acc.plaintext
  pub failed : acc.decrypt_failed ≡ true → acc.advanced ≡ 0

pub take_sub-BarFits :
    (n : Noise) (i before j : ℕ) (is_pending : Bool) (c : Bytes) (acc : Subs)
    → IsShort n
    → before < 2 ^ 63
    → j < 2 ^ 16
    → BarFits before j acc
    → BarFits before (suc j) (take_sub n i is_pending j c acc)
unfolding take_sub decrypt_sub_message advance retract
take_sub-BarFits n i before j is_pending c acc short h hj b =
    elim (Res-cases (n.read_message (chunk_nonce i j) c)) [
      | inl (p, opened) ↦ ground (
        arith,
        b.shown,
        b.small,
        b.whole,
        b.failed,
        short (chunk_nonce i j) c p opened,
        length-append acc.plaintext p,
      )
      | inr (_, refused) ↦ ground arith
    ]

pub take_sub_idle :
    (n : Noise) (i : ℕ) (is_pending : Bool) (j : ℕ) (c : Bytes) (acc : Subs)
    → (is_pending ≡ false → acc.advanced ≡ 0)
    → is_pending ≡ false
    → (take_sub n i is_pending j c acc).advanced ≡ 0
unfolding take_sub
take_sub_idle n i false j c acc h e = h e
take_sub_idle n i true j c acc h e = cc
