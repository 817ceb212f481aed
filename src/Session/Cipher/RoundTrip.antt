-- ===== src/Session/Cipher/RoundTrip.antt =====
-- What `encrypt_chunk` of session/coordinator.rs writes, `decrypt_chunk` reads.
use p2pfileshare.Base.{
  fail_if, ℕ, suc, ◌+◌, ◌*◌, ◌%◌, ◌^◌, ◌≤◌, ◌<◌, ◌≡◌, refl, ap, List, [], ◌∷◌, ◌++◌, length,
  length-append, append_assoc, append-nil, ok, arith,
}
use p2pfileshare.Base.Bytes.{
  Bytes, to_be_bytes, length-to_be_bytes, from-to_be_bytes, take-length_append, drop-length_append,
  take-append, drop-append,
}
use p2pfileshare.Session.{chunk_nonce}
use p2pfileshare.Session.Cipher.Split.{
  chunks, concat, AllShort, concat-chunks, chunks-AllShort, length-chunks,
}
use p2pfileshare.Session.Cipher.{
  Noise, max_plain, encrypt_subs, encrypt_chunk, decrypt_subs, decrypt_chunk,
}

-- What the Noise protocol promises of two ends of one session: a message that fits is sealed with
-- 16 more bytes, and opened by the other end under the same nonce.
pub record IsPaired (a b : Noise) : Type 0 where
  pub seals :
      (nonce : ℕ) (p : Bytes)
      → length p ≤ max_plain
      → (c : Bytes) × (a.write_message nonce p ≡ ok c) × (length c ≡ length p + 16)
  pub opens :
      (nonce : ℕ) (p c : Bytes) → a.write_message nonce p ≡ ok c → b.read_message nonce c ≡ ok p

-- One sub-message is read off, and the loop goes on behind it.
decrypt_subs-cons :
    (b : Noise) (chunk_index n i : ℕ) (c s sub out : Bytes)
    → length c < 2 ^ 32
    → b.read_message (chunk_nonce chunk_index (i % 2 ^ 32)) c ≡ ok sub
    → decrypt_subs b chunk_index n (suc i) s ≡ ok out
    → decrypt_subs b chunk_index (suc n) i (to_be_bytes 4 (length c) ++ (c ++ s)) ≡ ok (sub ++ out)
unfolding decrypt_subs fail_if
decrypt_subs-cons b chunk_index n i c s sub out h opened more =
    rw (take-append 4 header (c ++ s) four) (
      rw (drop-append 4 header (c ++ s) four) (
        rw (from-to_be_bytes 4 (length c) h) (
          rw (take-length_append c s) (
            rw (drop-length_append c s) (
              ground
                (arith, opened, more, length-append header (c ++ s), length-append c s, four))))))
  where
    header : Bytes
    header = to_be_bytes 4 (length c)

    four : length header ≡ 4
    four = length-to_be_bytes 4 (length c)

module _ (a b : Noise) (paired : IsPaired a b) (chunk_index : ℕ) where
  -- The sealed text of the pieces from piece `i` on.
  abbrev Opens : ℕ → List Bytes → Bytes → Type 0
  Opens i subs e =
      (encrypt_subs a chunk_index i subs ≡ ok e)
      × ((rest : Bytes) → decrypt_subs b chunk_index (length subs) i (e ++ rest) ≡ ok (concat subs))
      × (length e ≡ 20 * length subs + length (concat subs))

  decrypt-encrypt_subs :
      (i : ℕ) (subs : List Bytes) → AllShort max_plain subs → (e : Bytes) × (Opens i subs e)
  unfolding encrypt_subs decrypt_subs
  decrypt-encrypt_subs i [] short = ([], (refl, (λ rest. refl), refl))
  decrypt-encrypt_subs i (sub ∷ subs) (s, short) =
      let (c, sealed, len) = paired.seals (chunk_nonce chunk_index (i % 2 ^ 32)) sub s in
      let (e, (enc, dec, size)) = decrypt-encrypt_subs (suc i) subs short in
      (
        to_be_bytes 4 (length c) ++ (c ++ e),
        (
          rw (sealed, enc),
          (λ rest.
              rw (append_assoc, append_assoc)
                (decrypt_subs-cons b chunk_index (length subs) i c (e ++ rest) sub (concat subs)
                  (omega arith) (paired.opens _ sub c sealed) (dec rest))),
          omega (
            arith,
            length-append (to_be_bytes 4 (length c)) (c ++ e),
            length-append c e,
            length-append sub (concat subs),
            length-to_be_bytes 4 (length c),
          ),
        ),
      )

  -- A chunk of at most 65535 pieces is encrypted, with 20 more bytes for each piece and 2 for the
  -- count, and the other end decrypts it to the same bytes.
  pub decrypt-encrypt_chunk :
      (plaintext : Bytes)
      → length plaintext ≤ max_plain * 65535
      → (e : Bytes) × (encrypt_chunk a chunk_index plaintext ≡ ok e)
        × (decrypt_chunk b chunk_index e ≡ ok plaintext)
        × (length e ≡ 2 + 20 * length (chunks max_plain plaintext) + length plaintext)
  unfolding encrypt_chunk decrypt_chunk fail_if
  decrypt-encrypt_chunk plaintext h =
      let (e, (enc, dec, size)) =
        decrypt-encrypt_subs 0 subs (chunks-AllShort max_plain plaintext) in
      (
        header ++ e,
        rw enc,
        rw (take-append 2 header e two) (
            rw (drop-append 2 header e two) (
              rw (from-to_be_bytes 2 (length subs) count)
                (ground (arith, rw append-nil at (dec []), whole, two, length-append header e)))),
        omega (arith, size, length-append header e, two, ap length whole),
      )
    where
      subs : List Bytes
      subs = chunks max_plain plaintext

      header : Bytes
      header = to_be_bytes 2 (length subs)

      whole : concat subs ≡ plaintext
      whole = concat-chunks max_plain plaintext (omega arith)

      two : length header ≡ 2
      two = length-to_be_bytes 2 (length subs)

      count : length subs < 256 ^ 2
      count = omega (arith, length-chunks max_plain plaintext (omega arith))
