-- ===== src/Receiver/Integrity.antt =====
-- Whatever the network does, transfer/receiver.rs completes only with the sender's bytes.
use native.Mathlib.Nat.{div-eq_of_lt-le, div-add-mod', mod-lt, suc-mul, mul-le-mul_right}
use native.Mathlib.Decide.{dec_lt, ℕ_discrete}
use p2pfileshare.Base.{
  ℕ, suc, ◌+◌, ◌-◌, ◌*◌, ◌/◌, ◌^◌, ◌≤◌, ◌<◌, min, ◌≡◌, ◌≢◌, ◌↔◌, ◌∙◌, refl, sym, ap, subst, ◌==◌,
  Bool, true, false, length, take, drop, take-append-take-drop, take_all, ok, arith, Post,
  Post-mono, Bool-cases, Res-cases, inl, inr,
}
use p2pfileshare.Base.Bytes.{Bytes}
use p2pfileshare.Base.Sets.{contains, contains-insert}
use p2pfileshare.Manifest.{FileManifest, actual_chunk_size}
use p2pfileshare.Manifest.Chunks.{IsSound, actual_chunk_size-in_file, div_ceil_lt, div_ceil_bounds}
use p2pfileshare.Files.{
  File, write_at, bytes_at, length-bytes_at, get_or-bytes_at, byte-write_at_inside,
  byte-write_at_outside, len-write_at_inside,
}
use p2pfileshare.Progress.{Progress}
use p2pfileshare.Session.{chunk_nonce}
use p2pfileshare.Session.Cipher.{Noise, max_plain, decrypt_sub_message}
use p2pfileshare.Receiver.{Env, Recv, Subs, sub_start, take_sub, receive_subs, receive_frame}
use p2pfileshare.Receiver.SubMessages.{receive_subs_inv, receive_subs_idle}
use p2pfileshare.Receiver.Frames.{receive_frame_rule}
use p2pfileshare.Receiver.View.{View, view, accepted, judged}
use p2pfileshare.Receiver.Invariant.{Kept}

-- Byte `k` lies in chunk `k / cs`.
in_chunk : (k cs i : ℕ) → 0 < cs → (k / cs ≡ i) ↔ ((i * cs ≤ k) × (k < i * cs + cs))
in_chunk k cs i p = (
  (λ e.
      let f : (k / cs) * cs ≡ i * cs = ap (λ t. t * cs) e in
      omega (arith, f, div-add-mod' k cs, mod-lt k p)),
  (λ h. div-eq_of_lt-le cs h.0 (omega (arith, h.1, suc-mul i cs))),
)

module _ (m : FileManifest) (sound : IsSound m) (small : m.total_size < 2 ^ 63) (src : File) where
  -- Chunk `i` of the sender's file.
  abbrev pub chunk_bytes : ℕ → Bytes
  chunk_bytes i = bytes_at src (i * m.chunk_size) (actual_chunk_size i m.chunk_size m.total_size)

  -- What an authenticated channel promises: under the nonce of a sub-message nothing is opened but
  -- that piece of the sender's file.
  abbrev pub IsAuthentic : Noise → Type 0
  IsAuthentic n =
      (i j : ℕ) (c p : Bytes)
      → i < m.chunk_count
      → j < 2 ^ 16
      → n.read_message (chunk_nonce i j) c ≡ ok p
      → p ≡ take max_plain (drop (j * max_plain) (chunk_bytes i))

  -- The chunks that are done hold the sender's bytes, and the file has its full length.
  pub record Holds (v : View) : Type 0 where
    pub bytes :
        (k : ℕ)
        → k < m.total_size
        → contains v.done (k / m.chunk_size) ≡ true
        → v.landed.byte k ≡ src.byte k
    pub len : v.landed.len ≡ m.total_size

  abbrev size : ℕ → ℕ
  size i = actual_chunk_size i m.chunk_size m.total_size

  size_in_file :
      (i : ℕ)
      → i < m.chunk_count
      → (i * m.chunk_size < m.total_size)
        × (size i ≡ min (m.total_size - i * m.chunk_size) m.chunk_size)
  size_in_file i h = (begins, sized)
    where
      begins : i * m.chunk_size < m.total_size
      begins = div_ceil_lt m.total_size m.chunk_size i sound.chunk_pos (omega (arith, sound.count))

      sized : size i ≡ min (m.total_size - i * m.chunk_size) m.chunk_size
      sized =
          actual_chunk_size-in_file m.total_size m.chunk_size sound.total_width sound.chunk_width i
            (omega (arith, begins))

  -- A byte of the file lies in one of its chunks.
  pub in_count : (k : ℕ) → k < m.total_size → k / m.chunk_size < m.chunk_count
  in_count k below = elim (dec_lt (k / m.chunk_size) m.chunk_count) [
    | yes lt ↦ lt
    | no ge ↦
        let le : m.chunk_count ≤ k / m.chunk_size = omega arith in
        absurd (
          omega (
            arith,
            mul-le-mul_right m.chunk_size le,
            div-add-mod' k m.chunk_size,
            div_ceil_bounds m.total_size m.chunk_size sound.chunk_pos,
            ap (λ c. c * m.chunk_size) sound.count,
          ))
  ]

  -- A write of the chunk gives its bytes, and leaves those of other chunks alone.
  written :
      (i k : ℕ) (f : File)
      → i < m.chunk_count
      → k < m.total_size
      → k / m.chunk_size ≡ i
      → (write_at (i * m.chunk_size) (chunk_bytes i) f).byte k ≡ src.byte k
  written i k f h below e =
      byte-write_at_inside (i * m.chunk_size) (chunk_bytes i) f k range.0
        (omega (arith, range, length-bytes_at src (i * m.chunk_size) (size i), size_in_file i h))
      ∙ (get_or-bytes_at src (i * m.chunk_size) (size i) (k - i * m.chunk_size) 0
            (omega (arith, range, size_in_file i h))
          ∙ ap src.byte (omega (arith, range)))
    where
      range : (i * m.chunk_size ≤ k) × (k < i * m.chunk_size + m.chunk_size)
      range = (in_chunk k m.chunk_size i sound.chunk_pos).0 e

  untouched :
      (i k : ℕ) (f : File)
      → i < m.chunk_count
      → k / m.chunk_size ≢ i
      → (write_at (i * m.chunk_size) (chunk_bytes i) f).byte k ≡ f.byte k
  untouched i k f h ne = byte-write_at_outside (i * m.chunk_size) (chunk_bytes i) f k λ from.
      elim (dec_lt k (i * m.chunk_size + m.chunk_size)) [
        | yes to ↦ absurd (ne ((in_chunk k m.chunk_size i sound.chunk_pos).1 (from, to)))
        | no far ↦ omega (arith, length-bytes_at src (i * m.chunk_size) (size i), size_in_file i h)
      ]

  pub accepted-Holds :
      (v : View) (i : ℕ) (plaintext : Bytes)
      → i < m.chunk_count
      → plaintext ≡ chunk_bytes i
      → Holds v
      → Holds (accepted m v i plaintext)
  unfolding accepted
  accepted-Holds v i plaintext h e holds = record {
    bytes = λ k below known. rw e (elim (ℕ_discrete (k / m.chunk_size) i) [
      | yes mine ↦ written i k v.landed h below mine
      | no other ↦
          untouched i k v.landed h other
          ∙ holds.bytes k below (ground (arith, contains-insert i (k / m.chunk_size) v.done))
    ]);
    len = rw e (sized ∙ holds.len);
  }
    where
      sized : (write_at (i * m.chunk_size) (chunk_bytes i) v.landed).len ≡ v.landed.len
      sized = len-write_at_inside (i * m.chunk_size) (chunk_bytes i) v.landed (
          omega
            (arith, length-bytes_at src (i * m.chunk_size) (size i), size_in_file i h, holds.len))

  -- The pieces that were opened so far are the front of the chunk.
  abbrev Front : ℕ → ℕ → Subs → Type 0
  Front i j acc = acc.decrypt_failed ≡ false → acc.plaintext ≡ take (j * max_plain) (chunk_bytes i)

  next : (j : ℕ) → j * max_plain + max_plain ≡ suc j * max_plain
  next j = omega arith

  take_sub-Front :
      (n : Noise) (i j : ℕ) (c : Bytes) (acc : Subs)
      → IsAuthentic n
      → i < m.chunk_count
      → j < 2 ^ 16
      → Front i j acc
      → Front i (suc j) (take_sub n i true j c acc)
  unfolding take_sub decrypt_sub_message
  take_sub-Front n i j c acc auth h hj front =
      elim (Res-cases (n.read_message (chunk_nonce i j) c)) [
        | inl (p, opened) ↦ elim (Bool-cases acc.decrypt_failed) [
          | inl failed ↦ ground (arith, failed)
          | inr whole ↦
              rw (whole, opened)
                (λ _.
                  rw (front whole, auth i j c p h hj opened)
                    (take-append-take-drop (j * max_plain) max_plain (chunk_bytes i)
                      ∙ ap (λ k. take k (chunk_bytes i)) (next j)))
        ]
        | inr (_, refused) ↦ ground arith
      ]

  judged-Holds :
      (v : View) (i count : ℕ) (is_pending : Bool) (acc : Subs)
      → (is_pending ≡ true → (i < m.chunk_count) × Front i count acc)
      → Holds v
      → Holds (judged m v i is_pending acc)
  unfolding judged
  judged-Holds v i count false acc front holds = record { bytes = holds.bytes; len = holds.len }
  judged-Holds v i count true acc front holds = elim (Bool-cases acc.decrypt_failed) [
    | inl failed ↦ rw failed (record { bytes = holds.bytes; len = holds.len })
    | inr whole ↦ rw whole (elim (Bool-cases (length acc.plaintext == size i)) [
      | inl fits ↦ rw fits (
          accepted-Holds (record v { bar = acc.sub_bar }) i acc.plaintext (front refl).0
            (chunk whole fits) (record { bytes = holds.bytes; len = holds.len }))
      | inr short ↦ rw short (record { bytes = holds.bytes; len = holds.len })
    ])
  ]
    where
      chunk :
          acc.decrypt_failed ≡ false
          → (length acc.plaintext == size i) ≡ true
          → acc.plaintext ≡ chunk_bytes i
      chunk whole fits =
          let cut : acc.plaintext ≡ take (count * max_plain) (chunk_bytes i) =
            (front refl).1 whole in
          cut
          ∙ take_all (count * max_plain) (chunk_bytes i)
              (ground (arith, fits, ap length cut, length-bytes_at src (i * m.chunk_size) (size i)))

  subs-Front :
      (n : Noise) (bar : Progress) (i count : ℕ) (is_pending : Bool) (s : Bytes)
      → IsAuthentic n
      → (is_pending ≡ true → i < m.chunk_count)
      → count < 2 ^ 16
      → Post
          (λ p. is_pending ≡ true → (i < m.chunk_count) × Front i count p.0)
          (receive_subs n i is_pending count 0 (sub_start bar) s)
  subs-Front n bar i count false s auth h c =
      Post-mono (receive_subs_idle n i count _ s) λ p _ e. cc
  subs-Front n bar i count true s auth h c =
      Post-mono
        (receive_subs_inv (Front i) n i true count
          (λ j ct acc lt. take_sub-Front n i j ct acc auth (h refl) (omega arith)) count 0
          (sub_start bar) s (omega arith) (λ _. refl))
        λ p front _. (h refl, front)

  pub receive_frame-Holds :
      (env : Env) (n : Noise) (r : Recv) (s : Bytes)
      → IsAuthentic n
      → Kept m sound small n (view r)
      → Holds (view r)
      → Post (λ p. Holds (view p.0)) (receive_frame env m r s)
  receive_frame-Holds env n r s auth (inv, same) holds =
      receive_frame_rule env m Holds
        (λ i acc.
          (count : ℕ) × (contains r.pending i ≡ true → (i < m.chunk_count) × Front i count acc))
        r s
        (λ i count s₁ _ c.
          Post-mono
            (subs-Front r.session.noise_state r.bar i count (contains r.pending i) s₁
              (subst IsAuthentic (sym same) auth) (λ e. ground (arith, inv.wanted i)) c)
            λ p h. (count, h))
        λ i acc (count, h). judged-Holds (view r) i count (contains r.pending i) acc h holds
