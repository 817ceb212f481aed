-- ===== src/Files.antt =====
-- Open files, as `tokio::fs::File` gives them: a length, and the byte at each offset below it.
use p2pfileshare.Base.{
  ℕ, zero, suc, ◌+◌, ◌-◌, ◌≤◌, ◌<◌, max, ltb, leb, ◌==◌, if◌then◌else◌, ◌&&◌, ◌≡◌, refl, ap, [],
  ◌∷◌, length, get_or, ok, err, arith,
}
use p2pfileshare.Base.Bytes.{Bytes}
use p2pfileshare.Errors.{Result, io}

pub record File : Type 0 where
  pub len : ℕ
  pub byte : ℕ → ℕ

-- `File::create` and `set_len`: zeros.
unfoldable pub create : ℕ → File
create n = record { len = n; byte = λ k. 0 }

-- `seek` and `write_all`: writing no bytes leaves the file as it is.
unfoldable pub write_at : ℕ → Bytes → File → File
write_at offset bs f = record {
  len = if length bs == 0 then f.len else max f.len (offset + length bs);
  byte = λ k.
      if leb offset k && ltb k (offset + length bs) then get_or bs (k - offset) 0 else f.byte k;
}

unfoldable pub bytes_at : File → ℕ → ℕ → Bytes
bytes_at f offset zero = []
bytes_at f offset (suc n) = f.byte offset ∷ bytes_at f (suc offset) n

-- `seek` and `read_exact`.
unfoldable pub read_at : ℕ → ℕ → File → Result Bytes
unfolding bytes_at
read_at offset n f =
    if leb (offset + n) f.len then ok (bytes_at f offset n) else err (io "early eof")

pub length-bytes_at : (f : File) (offset n : ℕ) → length (bytes_at f offset n) ≡ n
unfolding bytes_at
length-bytes_at f offset zero = refl
length-bytes_at f offset (suc n) = ap suc (length-bytes_at f (suc offset) n)

pub get_or-bytes_at :
    (f : File) (offset n k d : ℕ) → k < n → get_or (bytes_at f offset n) k d ≡ f.byte (offset + k)
unfolding bytes_at
get_or-bytes_at f offset zero k d h = absurd (omega arith)
get_or-bytes_at f offset (suc n) zero d h = ground arith
get_or-bytes_at f offset (suc n) (suc k) d h = ground (arith, get_or-bytes_at f (suc offset) n k d)

-- What is written can be read back, and nothing else changes.
pub byte-write_at_inside :
    (offset : ℕ) (bs : Bytes) (f : File) (k : ℕ)
    → offset ≤ k
    → k < offset + length bs
    → (write_at offset bs f).byte k ≡ get_or bs (k - offset) 0
unfolding write_at
byte-write_at_inside offset bs f k h h' = ground arith

pub byte-write_at_outside :
    (offset : ℕ) (bs : Bytes) (f : File) (k : ℕ)
    → (offset ≤ k → offset + length bs ≤ k)
    → (write_at offset bs f).byte k ≡ f.byte k
unfolding write_at
byte-write_at_outside offset bs f k h = ground arith

pub len-write_at_inside :
    (offset : ℕ) (bs : Bytes) (f : File)
    → offset + length bs ≤ f.len
    → (write_at offset bs f).len ≡ f.len
unfolding write_at
len-write_at_inside offset bs f h = ground arith
