-- ===== src/Session/Cipher/Split.antt =====
-- `slice::chunks`: the pieces of a chunk.
use native.Mathlib.Nat.{suc-mul}
use p2pfileshare.Base.{
  ℕ, zero, suc, ◌+◌, ◌-◌, ◌*◌, ◌≤◌, ◌<◌, ◌≡◌, refl, ap, ◌∙◌, List, [], ◌∷◌, ◌++◌, length, take,
  drop, length-take, length-drop, take-append-drop, arith,
}
use p2pfileshare.Base.Bytes.{Bytes}

-- Each round takes at least one byte, so the length is fuel enough.
chunks_on : ℕ → ℕ → Bytes → List Bytes
chunks_on zero n xs = []
chunks_on (suc fuel) n [] = []
chunks_on (suc fuel) n (x ∷ xs) = take n (x ∷ xs) ∷ chunks_on fuel n (drop n (x ∷ xs))

unfoldable pub chunks : ℕ → Bytes → List Bytes
unfolding chunks_on
chunks n xs = chunks_on (length xs) n xs

abbrev pub concat : List Bytes → Bytes
concat [] = []
concat (xs ∷ xss) = xs ++ concat xss

abbrev pub AllShort : ℕ → List Bytes → Type 0
AllShort n [] = Unit {0}
AllShort n (xs ∷ xss) = (length xs ≤ n) × AllShort n xss

concat-chunks_on :
    (fuel n : ℕ) (xs : Bytes) → 0 < n → length xs ≤ fuel → concat (chunks_on fuel n xs) ≡ xs
unfolding chunks_on
concat-chunks_on zero n [] p h = refl
concat-chunks_on zero n (x ∷ xs) p h = absurd (omega arith)
concat-chunks_on (suc fuel) n [] p h = refl
concat-chunks_on (suc fuel) n (x ∷ xs) p h =
    ap (◌++◌ (take n (x ∷ xs)))
      (concat-chunks_on fuel n (drop n (x ∷ xs)) p (omega (arith, length-drop n (x ∷ xs))))
    ∙ take-append-drop n (x ∷ xs)

pub concat-chunks : (n : ℕ) (xs : Bytes) → 0 < n → concat (chunks n xs) ≡ xs
unfolding chunks
concat-chunks n xs p = concat-chunks_on (length xs) n xs p (omega arith)

chunks_on-AllShort : (fuel n : ℕ) (xs : Bytes) → AllShort n (chunks_on fuel n xs)
unfolding chunks_on
chunks_on-AllShort zero n xs = tt
chunks_on-AllShort (suc fuel) n [] = tt
chunks_on-AllShort (suc fuel) n (x ∷ xs) =
    (omega (arith, length-take n (x ∷ xs)), chunks_on-AllShort fuel n (drop n (x ∷ xs)))

pub chunks-AllShort : (n : ℕ) (xs : Bytes) → AllShort n (chunks n xs)
unfolding chunks
chunks-AllShort n xs = chunks_on-AllShort (length xs) n xs

one_more_piece :
    (k n len rest : ℕ) → 0 < n → 0 < len → rest ≡ len - n → k * n < rest + n → suc k * n < len + n
one_more_piece zero n len rest p q e h = omega (arith, suc-mul 0 n)
one_more_piece (suc k) n len rest p q e h = omega (arith, suc-mul (suc k) n, suc-mul k n)

length-chunks_on :
    (fuel n : ℕ) (xs : Bytes) → 0 < n → length (chunks_on fuel n xs) * n < length xs + n
unfolding chunks_on
length-chunks_on zero n xs p = omega arith
length-chunks_on (suc fuel) n [] p = omega arith
length-chunks_on (suc fuel) n (x ∷ xs) p =
    one_more_piece (length (chunks_on fuel n rest)) n (suc (length xs)) (length rest) p
      (omega arith) (length-drop n (x ∷ xs)) (length-chunks_on fuel n rest p)
  where
    rest : Bytes
    rest = drop n (x ∷ xs)

-- The last piece begins inside the chunk.
pub length-chunks : (n : ℕ) (xs : Bytes) → 0 < n → length (chunks n xs) * n < length xs + n
unfolding chunks
length-chunks n xs p = length-chunks_on (length xs) n xs p
