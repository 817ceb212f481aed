-- ===== src/Stun/Xor.antt =====
-- `^` of nat/stun.rs.
use native.Mathlib.Nat.{pow-suc}
use p2pfileshare.Base.{ℕ, zero, suc, ◌+◌, ◌*◌, ◌/◌, ◌%◌, ◌^◌, ◌<◌, ◌≡◌, arith}
use p2pfileshare.Stun.{xor}

-- Twice the same key is no key.
pub xor-xor : (w a k : ℕ) → a < 2 ^ w → xor w (xor w a k) k ≡ a
unfolding xor
xor-xor zero a k h = omega arith
xor-xor (suc w) a k h =
    let half : a / 2 < 2 ^ w = omega (arith, h, pow-suc 2 w) in
    let back : xor w (xor w (a / 2) (k / 2)) (k / 2) ≡ a / 2 = xor-xor w (a / 2) (k / 2) half in
    let bit : ((a % 2 + k % 2) % 2 + 2 * xor w (a / 2) (k / 2)) / 2 ≡ xor w (a / 2) (k / 2) =
      omega arith in
    rw (bit, back) (omega arith)

pub xor-lt : (w a k : ℕ) → xor w a k < 2 ^ w
unfolding xor
xor-lt zero a k = omega arith
xor-lt (suc w) a k = omega (arith, xor-lt w (a / 2) (k / 2), pow-suc 2 w)
