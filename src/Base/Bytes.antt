-- ===== src/Base/Bytes.antt =====
-- Bytes as numbers (read modulo 256 where they make up an integer), big-endian integers (`to_be_bytes`, `from_be_bytes`) and exact reads.
use Prim.Native.Nat.{ℕ, zero, suc, ◌+◌, ◌*◌, ◌/◌, ◌%◌, ◌^◌, ◌<◌}
use mathlib.Core.Path.{◌≡◌, refl, sym, ap, ◌∙◌}
use mathlib.Core.Logic.{inl, inr}
use mathlib.Core.List.{List, [], ◌∷◌, ◌++◌}
use native.Mathlib.Omega.{arith}
use native.Mathlib.Nat.{pow-suc, mul-le-mul_right, mod-lt}
use p2pfileshare.Base.Tests.{Bool-cases, ltb, if◌then◌else◌}
use p2pfileshare.Base.Lists.{length, length-append, length-take, length-drop, take, drop}
use p2pfileshare.Base.Results.{Res, ok, err, Post, returns, fails}

abbrev pub Bytes : Type 0
Bytes = List ℕ

-- `n` as `w` big-endian bytes; what does not fit is cut off, as by `n as u16`.
unfoldable pub to_be_bytes : ℕ → ℕ → Bytes
to_be_bytes zero n = []
to_be_bytes (suc w) n = to_be_bytes w (n / 256) ++ (n % 256) ∷ []

from_be_acc : ℕ → Bytes → ℕ
from_be_acc acc [] = acc
from_be_acc acc (b ∷ bs) = from_be_acc (acc * 256 + b % 256) bs

unfoldable pub from_be_bytes : Bytes → ℕ
unfolding from_be_acc
from_be_bytes bs = from_be_acc 0 bs

from_be_acc-append :
    (acc : ℕ) (bs cs : Bytes) → from_be_acc acc (bs ++ cs) ≡ from_be_acc (from_be_acc acc bs) cs
unfolding from_be_acc
from_be_acc-append acc [] cs = refl
from_be_acc-append acc (b ∷ bs) cs = from_be_acc-append (acc * 256 + b % 256) bs cs

pub length-to_be_bytes : (w n : ℕ) → length (to_be_bytes w n) ≡ w
unfolding to_be_bytes
length-to_be_bytes zero n = refl
length-to_be_bytes (suc w) n = omega (
  arith,
  length-append (to_be_bytes w (n / 256)) ((n % 256) ∷ []),
  length-to_be_bytes w (n / 256),
)

-- An integer that fits its width is read back as it was written.
pub from-to_be_bytes : (w n : ℕ) → n < 256 ^ w → from_be_bytes (to_be_bytes w n) ≡ n
unfolding to_be_bytes from_be_bytes
from-to_be_bytes zero n h = omega arith
from-to_be_bytes (suc w) n h =
    from_be_acc-append 0 (to_be_bytes w (n / 256)) ((n % 256) ∷ [])
    ∙ omega (arith, from-to_be_bytes w (n / 256) (omega (arith, pow-suc 256 w)))

from_be_acc-lt : (acc : ℕ) (bs : Bytes) → from_be_acc acc bs < (acc + 1) * 256 ^ length bs
unfolding from_be_acc
from_be_acc-lt acc [] = omega arith
from_be_acc-lt acc (b ∷ bs) = rw (pow-suc 256 (length bs)) (
    omega (
      arith,
      from_be_acc-lt (acc * 256 + b % 256) bs,
      mul-le-mul_right (256 ^ length bs) (mod-lt b (byte_pos)),
    ))
  where
    byte_pos : 0 < 256
    byte_pos = omega arith

pub from_be_bytes-lt : (w : ℕ) (bs : Bytes) → length bs ≡ w → from_be_bytes bs < 256 ^ w
unfolding from_be_bytes
from_be_bytes-lt w bs h = rw (← h) (omega (arith, from_be_acc-lt 0 bs))

-- `read_exact`: the next `n` bytes of a stream, or the error of a stream that ends before.
unfoldable pub read_exact : {E : Type 0} → E → ℕ → Bytes → Res E (Bytes × Bytes)
read_exact e n s = if ltb (length s) n then err e else ok (take n s, drop n s)

pub take-length_append : (bs cs : Bytes) → take (length bs) (bs ++ cs) ≡ bs
take-length_append [] cs = refl
take-length_append (b ∷ bs) cs = ap (◌∷◌ b) (take-length_append bs cs)

pub drop-length_append : (bs cs : Bytes) → drop (length bs) (bs ++ cs) ≡ cs
drop-length_append [] cs = refl
drop-length_append (b ∷ bs) cs = drop-length_append bs cs

pub read_exact-append :
    {E : Type 0} (e : E) (bs cs : Bytes) (n : ℕ)
    → length bs ≡ n
    → read_exact e n (bs ++ cs) ≡ ok (bs, cs)
unfolding read_exact
read_exact-append e bs cs n h =
    ground (arith, h, length-append bs cs, take-length_append bs cs, drop-length_append bs cs)

-- An exact read that succeeds splits the stream.
pub read_exact-Post :
    {E : Type 0} (e : E) (n : ℕ) (s : Bytes)
    → Post (λ p. (length p.0 ≡ n) × (length s ≡ n + length p.1)) (read_exact e n s)
unfolding read_exact
read_exact-Post e n s = elim (Bool-cases (ltb (length s) n)) [
  | inl short ↦ rw short fails
  | inr long ↦ rw long (returns (ground (arith, length-take n s, length-drop n s)))
]

-- The two at a length known by an equation.
pub take-append : (n : ℕ) (bs cs : Bytes) → length bs ≡ n → take n (bs ++ cs) ≡ bs
take-append n bs cs h = ap (λ k. take k (bs ++ cs)) (sym h) ∙ take-length_append bs cs

pub drop-append : (n : ℕ) (bs cs : Bytes) → length bs ≡ n → drop n (bs ++ cs) ≡ cs
drop-append n bs cs h = ap (λ k. drop k (bs ++ cs)) (sym h) ∙ drop-length_append bs cs
