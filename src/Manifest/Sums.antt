-- ===== src/Manifest/Sums.antt =====
-- The bytes of a set of chunks, as the resume code of the senders and receivers adds them up.
use native.Mathlib.Decide.{dec_le}
use p2pfileshare.Base.{ap, ℕ, zero, suc, ◌+◌, ◌≤◌, ◌<◌, ◌≡◌, true, false, List, [], ◌∷◌, arith}
use p2pfileshare.Base.Sets.{contains, insert, Ascending, contains-lt}
use p2pfileshare.Manifest.{FileManifest, sum_chunks, actual_chunk_size}
use p2pfileshare.Manifest.Chunks.{sum_sizes, sum_sizes_total, IsSound}

module _ (m : FileManifest) where
  abbrev size : ℕ → ℕ
  size i = actual_chunk_size i m.chunk_size m.total_size

  abbrev upto : ℕ → ℕ
  upto = sum_sizes m.total_size m.chunk_size

  -- A new index adds its chunk.
  pub sum_chunks-insert :
      (i : ℕ) (xs : List ℕ)
      → contains xs i ≡ false
      → sum_chunks m (insert i xs) ≡ sum_chunks m xs + size i
  unfolding sum_chunks insert contains
  sum_chunks-insert i [] h = omega arith
  sum_chunks-insert i (x ∷ xs) h = ground (arith, sum_chunks-insert i xs)

  upto_le : (j k : ℕ) → j ≤ k → upto j ≤ upto k
  unfolding sum_sizes
  upto_le j zero h = ground (arith, ap upto (zero_of j h))
    where
      zero_of : (j : ℕ) → j ≤ 0 → j ≡ 0
      zero_of j h = omega arith
  upto_le j (suc k) h = elim (dec_le j k) [
    | yes p ↦ omega (arith, upto_le j k p)
    | no q ↦ let last : j ≡ suc k = omega arith in omega (arith, ap upto last)
  ]

  sum_chunks-upto :
      (k n : ℕ) (xs : List ℕ) → k ≤ n → Ascending k n xs → sum_chunks m xs + upto k ≤ upto n
  unfolding sum_chunks sum_sizes
  sum_chunks-upto k n [] h a = omega (arith, upto_le k n h)
  sum_chunks-upto k n (x ∷ xs) h a =
      omega (arith, sum_chunks-upto (suc x) n xs a.1 a.2, upto_le k x a.0)

  sum_chunks-upto_all :
      (k n : ℕ) (xs : List ℕ)
      → k ≤ n
      → Ascending k n xs
      → ((i : ℕ) → k ≤ i → i < n → contains xs i ≡ true)
      → sum_chunks m xs + upto k ≡ upto n
  unfolding sum_chunks sum_sizes contains
  sum_chunks-upto_all k n [] h a all = ground (arith, all k)
  sum_chunks-upto_all k n (x ∷ xs) h a all = ground (
    arith,
    first,
    sum_chunks-upto_all (suc x) n xs (omega arith) a.2 (λ i p q. ground (arith, all i, first)),
  )
    where
      first : x ≡ k
      first = ground (arith, all k, contains-lt (suc x) n k xs a.2)

  -- All chunks together are the file.
  pub sum_chunks-eq_total :
      (xs : List ℕ)
      → IsSound m
      → Ascending 0 m.chunk_count xs
      → ((i : ℕ) → i < m.chunk_count → contains xs i ≡ true)
      → sum_chunks m xs ≡ m.total_size
  unfolding sum_sizes
  sum_chunks-eq_total xs s a all = ground (
    arith,
    s.count,
    sum_chunks-upto_all 0 m.chunk_count xs (omega arith) a (λ i _. all i),
    sum_sizes_total m.total_size m.chunk_size s.total_width s.chunk_width s.chunk_pos,
  )

  pub sum_chunks-le_total :
      (xs : List ℕ) → IsSound m → Ascending 0 m.chunk_count xs → sum_chunks m xs ≤ m.total_size
  unfolding sum_sizes
  sum_chunks-le_total xs s a = ground (
    arith,
    s.count,
    sum_chunks-upto 0 m.chunk_count xs,
    sum_sizes_total m.total_size m.chunk_size s.total_width s.chunk_width s.chunk_pos,
  )
