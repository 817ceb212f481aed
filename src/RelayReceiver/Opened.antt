-- ===== src/RelayReceiver/Opened.antt =====
-- What `decrypt_chunk` gives when the transport is authentic.
use p2pfileshare.Base.{
  ℕ, zero, suc, ◌+◌, ◌*◌, ◌%◌, ◌^◌, ◌≤◌, ◌<◌, ltb, ◌≡◌, refl, sym, ap, subst, ◌∙◌, false, [], ◌++◌,
  length, take, drop, take-append-take-drop, take_all, length-take, append_assoc, append-nil, ok,
  arith, Post, returns, Post->>=, Post-fail_if, Post-self, Post-of, Post-eq-ok, Res-cases, inl, inr,
}
use p2pfileshare.Base.Bytes.{Bytes, from_be_bytes, from_be_bytes-lt}
use p2pfileshare.Manifest.{FileManifest, actual_chunk_size}
use p2pfileshare.Manifest.Chunks.{IsSound}
use p2pfileshare.Files.{File, length-bytes_at}
use p2pfileshare.Session.{chunk_nonce}
use p2pfileshare.Session.Cipher.{Noise, max_plain, decrypt_sub_message, decrypt_subs, decrypt_chunk}
use p2pfileshare.Receiver.Integrity.{IsAuthentic, chunk_bytes}

module _ (m : FileManifest) (sound : IsSound m) (small : m.total_size < 2 ^ 63) (src : File) where
  -- Nothing is opened under the nonces of a chunk that the file does not have.
  abbrev pub OpensNoMore : Noise → Type 0
  OpensNoMore n =
      (i j : ℕ) (c p : Bytes)
      → m.chunk_count ≤ i
      → i < 2 ^ 32
      → j < 2 ^ 16
      → n.read_message (chunk_nonce i j) c ≡ ok p
      → ⊥

  abbrev pub whole : ℕ → Bytes
  whole i = chunk_bytes m sound small src i

  -- The first sub-message behind its length.
  abbrev sealed : Bytes → Bytes
  sealed rest = take (from_be_bytes (take 4 rest)) (drop 4 rest)

  joined : (j : ℕ) → j * max_plain + max_plain ≡ suc j * max_plain
  joined j = omega arith

  opened :
      (n : Noise) (i j : ℕ) (c sub : Bytes)
      → j < 2 ^ 16
      → decrypt_sub_message n i (j % 2 ^ 32) c ≡ ok sub
      → n.read_message (chunk_nonce i j) c ≡ ok sub
  unfolding decrypt_sub_message
  opened n i j c sub h e =
      let same : j % 2 ^ 32 ≡ j = omega arith in
      subst (λ k. n.read_message (chunk_nonce i k) c ≡ ok sub) same
        (elim (Res-cases (n.read_message (chunk_nonce i (j % 2 ^ 32)) c)) [
          | inl (p, good) ↦ ground (arith, e, good)
          | inr (_, bad) ↦ absurd (ground (arith, e, bad))
        ])

  decrypt_subs_front :
      (n : Noise) (i count j : ℕ) (rest : Bytes)
      → IsAuthentic m sound small src n
      → i < m.chunk_count
      → j + count ≤ 2 ^ 16
      → Post
          (λ p. take (j * max_plain) (whole i) ++ p ≡ take ((j + count) * max_plain) (whole i))
          (decrypt_subs n i count j rest)
  unfolding decrypt_subs
  decrypt_subs_front n i zero j rest auth h b = returns (
      append-nil (take (j * max_plain) (whole i))
      ∙ ap (λ k. take (k * max_plain) (whole i)) (omega arith))
  decrypt_subs_front n i (suc count) j rest auth h b = Post->>= _ (Post-fail_if _ _) λ _ _.
      Post->>= _ (Post-fail_if _ _) λ _ _.
        Post->>= _ (Post-self (decrypt_sub_message n i (j % 2 ^ 32) (sealed rest))) λ sub e.
          Post->>= _
            (decrypt_subs_front n i count (suc j) (drop (from_be_bytes (take 4 rest)) (drop 4 rest))
              auth h (omega arith))
            λ out ih. returns {a = sub ++ out} (
              sym (append_assoc (take (j * max_plain) (whole i)) sub out)
              ∙ (ap (λ t. t ++ out)
                    (ap (◌++◌ (take (j * max_plain) (whole i))) (
                        auth i j (sealed rest) sub h (omega arith)
                          (opened n i j (sealed rest) sub (omega arith) e))
                      ∙ (take-append-take-drop (j * max_plain) max_plain (whole i)
                          ∙ ap (λ k. take k (whole i)) (joined j)))
                  ∙ (ih ∙ ap (λ k. take (k * max_plain) (whole i)) (omega arith))))

  decrypt_subs_none :
      (n : Noise) (i count j : ℕ) (rest : Bytes)
      → OpensNoMore n
      → m.chunk_count ≤ i
      → i < 2 ^ 32
      → j + count ≤ 2 ^ 16
      → Post (λ p. p ≡ []) (decrypt_subs n i count j rest)
  unfolding decrypt_subs
  decrypt_subs_none n i zero j rest never h w b = returns refl
  decrypt_subs_none n i (suc count) j rest never h w b = Post->>= _ (Post-fail_if _ _) λ _ _.
      Post->>= _ (Post-fail_if _ _) λ _ _.
        Post->>= _ (Post-self (decrypt_sub_message n i (j % 2 ^ 32) (sealed rest))) λ sub e.
          absurd (
            never i j (sealed rest) sub h w (omega arith)
              (opened n i j (sealed rest) sub (omega arith) e))

  -- What a chunk that was decrypted can hold, if it has the right size.
  pub decrypt_chunk-Post :
      (n : Noise) (i : ℕ) (c : Bytes)
      → IsAuthentic m sound small src n
      → OpensNoMore n
      → i < 2 ^ 32
      → Post
          (λ p.
            (i < m.chunk_count
              → length p ≡ actual_chunk_size i m.chunk_size m.total_size
              → p ≡ whole i)
            × (m.chunk_count ≤ i → p ≡ []))
          (decrypt_chunk n i c)
  unfolding decrypt_chunk
  decrypt_chunk-Post n i c auth never w = Post->>= _ (Post-fail_if _ _) λ _ long. Post-of _ λ p e. (
    (λ below exact.
        let front : p ≡ take ((0 + count) * max_plain) (whole i) =
          Post-eq-ok (decrypt_subs_front n i count 0 (drop 2 c) auth below (fits long)) e in
        let cut : p ≡ take (count * max_plain) (whole i) =
          front ∙ ap (λ k. take (k * max_plain) (whole i)) (omega arith) in
        cut
        ∙ take_all (count * max_plain) (whole i) (
            ground (
              arith,
              exact,
              ap length cut,
              length-bytes_at src (i * m.chunk_size)
                  (actual_chunk_size i m.chunk_size m.total_size),
            ))),
    λ above. Post-eq-ok (decrypt_subs_none n i count 0 (drop 2 c) never above w (fits long)) e,
  )
    where
      count : ℕ
      count = from_be_bytes (take 2 c)

      fits : ltb (length c) 2 ≡ false → 0 + count ≤ 2 ^ 16
      fits long =
          omega (arith, from_be_bytes-lt 2 (take 2 c) (ground (arith, long, length-take 2 c)))
