-- ===== src/Manifest/Chunks.antt =====
-- How the chunks of transfer/manifest.rs lie in the file.
use native.Mathlib.Nat.{add-mul, suc-mul, div-add-mod', mod-lt, mul-le-mul_right}
use p2pfileshare.Base.{
  ℕ, zero, suc, ◌+◌, ◌-◌, ◌*◌, ◌/◌, ◌^◌, ◌≤◌, ◌<◌, min, ◌≡◌, ◌∙◌, arith, String, ok,
}
use p2pfileshare.Manifest.{
  FileManifest, FileInfo, actual_chunk_size, div_ceil, chunk_size_for, build_manifest,
}

-- `cs` bytes a chunk, and a size in `u64`.
module _ (total cs : ℕ) (small : total < 2 ^ 64) (width : cs < 2 ^ 32) where
  -- A chunk that begins in the file holds what is left, up to the chunk size.
  pub actual_chunk_size-in_file :
      (i : ℕ) → i * cs ≤ total → actual_chunk_size i cs total ≡ min (total - i * cs) cs
  unfolding actual_chunk_size
  actual_chunk_size-in_file i h = omega arith

  -- A chunk index past the end of the file wraps around and claims a whole chunk.
  pub actual_chunk_size-past_end :
      (i : ℕ) → total < i * cs → i * cs + cs ≤ 2 ^ 64 → actual_chunk_size i cs total ≡ cs
  unfolding actual_chunk_size
  actual_chunk_size-past_end i h k = omega arith

-- Rounding up leaves less than one divisor over.
pub div_ceil_bounds : (n d : ℕ) → 0 < d → (n ≤ div_ceil n d * d) × (div_ceil n d * d < n + d)
unfolding div_ceil
div_ceil_bounds n d p =
    ground (arith, div-add-mod' n d, mod-lt n p, add-mul (n / d) 0 d, add-mul (n / d) 1 d)

-- A chunk below the count begins inside the file.
pub div_ceil_lt : (n d i : ℕ) → 0 < d → i < div_ceil n d → i * d < n
div_ceil_lt n d i p h = omega (arith, div_ceil_bounds n d p, mul-le-mul_right d h, suc-mul i d)

-- The bytes of the first `n` chunks.
unfoldable pub sum_sizes : ℕ → ℕ → ℕ → ℕ
sum_sizes total cs zero = 0
sum_sizes total cs (suc n) = sum_sizes total cs n + actual_chunk_size n cs total

module _ (total cs : ℕ) (small : total < 2 ^ 64) (width : cs < 2 ^ 32) (pos : 0 < cs) where
  pub sum_sizes-eq-min : (n : ℕ) → n ≤ div_ceil total cs → sum_sizes total cs n ≡ min (n * cs) total
  unfolding sum_sizes
  sum_sizes-eq-min zero h = omega arith
  sum_sizes-eq-min (suc n) h = omega (
    arith,
    sum_sizes-eq-min n (omega arith),
    div_ceil_lt total cs n pos h,
    suc-mul n cs,
    actual_chunk_size-in_file total cs small width n,
  )

  -- The chunks make up the whole file, with no byte twice and none left out.
  pub sum_sizes_total : sum_sizes total cs (div_ceil total cs) ≡ total
  sum_sizes_total =
      omega
        (arith, sum_sizes-eq-min (div_ceil total cs) (omega arith), div_ceil_bounds total cs pos)

-- What the rest of the transfer takes for granted of a manifest.
pub record IsSound (m : FileManifest) : Type 0 where
  pub chunk_pos : 0 < m.chunk_size
  pub chunk_width : m.chunk_size < 2 ^ 32
  pub count_width : m.chunk_count < 2 ^ 32
  pub total_width : m.total_size < 2 ^ 64
  pub count : m.chunk_count ≡ div_ceil m.total_size m.chunk_size

chunk_size_for_bounds : (n : ℕ) → (524288 ≤ chunk_size_for n) × (chunk_size_for n ≤ 8388608)
unfolding chunk_size_for
chunk_size_for_bounds n = ground arith

-- Every announced file of at most 2^32 - 1 chunks of 8 MiB: the count is not cut to 32 bits.
pub chunk_count_fits : (n : ℕ) → n ≤ (2 ^ 32 - 1) * 2 ^ 23 → div_ceil n (chunk_size_for n) < 2 ^ 32
unfolding chunk_size_for
chunk_count_fits n h = ground (arith, div_ceil_bounds n 524288, div_ceil_bounds n 8388608)

pub build_manifest-IsSound :
    (lower : String → String) (info : FileInfo) (n : ℕ) (m : FileManifest)
    → info.metadata ≡ ok n
    → n ≤ (2 ^ 32 - 1) * 2 ^ 23
    → build_manifest lower info ≡ ok m
    → IsSound m × (m.total_size ≡ n)
unfolding build_manifest
build_manifest-IsSound lower info n m size h e =
    ground (arith, chunk_count_fits n h, chunk_size_for_bounds n)

-- The announced chunks make up the file: a manifest that `build_manifest` returns for a file of `n`
-- bytes (at most 2^32 - 1 chunks of 8 MiB) names that size, and its chunks' sizes add up to it.
pub build_manifest_covers :
    (lower : String → String) (info : FileInfo) (n : ℕ) (m : FileManifest)
    → info.metadata ≡ ok n
    → n ≤ (2 ^ 32 - 1) * 2 ^ 23
    → build_manifest lower info ≡ ok m
    → (m.total_size ≡ n) × (sum_sizes m.total_size m.chunk_size m.chunk_count ≡ n)
build_manifest_covers lower info n m size h e =
    let (s, t) = build_manifest-IsSound lower info n m size h e in
    (
      t,
      rw s.count
          (sum_sizes_total m.total_size m.chunk_size s.total_width s.chunk_width s.chunk_pos ∙ t),
    )
