-- ===== src/Base/Sets.antt =====
-- Sets of chunk indices: `HashSet<u32>` as a list, `BTreeSet<u32>` as a list in ascending order.
use Prim.Native.Nat.{ℕ, zero, suc, ◌+◌, ◌≤◌, ◌<◌}
use mathlib.Core.Path.{◌≡◌, refl}
use mathlib.Core.Bool.{Bool, true, false, not, ◌&&◌, ◌||◌}
use mathlib.Core.List.{List, [], ◌∷◌, ◌++◌}
use native.Mathlib.Omega.{arith}
use p2pfileshare.Base.Tests.{ltb, leb, ◌==◌, if◌then◌else◌}

unfoldable pub contains : List ℕ → ℕ → Bool
contains [] i = false
contains (x ∷ xs) i = x == i || contains xs i

unfoldable pub is_empty {ℓ} : {A : Type ℓ} → List A → Bool
is_empty [] = true
is_empty (x ∷ xs) = false

-- `HashSet::remove`
unfoldable pub remove : ℕ → List ℕ → List ℕ
remove i [] = []
remove i (x ∷ xs) = let rest = remove i xs in if x == i then rest else x ∷ rest

-- `BTreeSet::insert`
unfoldable pub insert : ℕ → List ℕ → List ℕ
insert i [] = i ∷ []
insert i (x ∷ xs) =
    let rest = insert i xs in if ltb i x then i ∷ x ∷ xs else if i == x then x ∷ xs else x ∷ rest

-- The indices below `n` that the set lacks, from `i` on, in ascending order.
unfoldable pub missing : ℕ → ℕ → List ℕ → List ℕ
missing zero i set = []
missing (suc n) i set =
    let rest = missing n (suc i) set in if contains set i then rest else i ∷ rest

pub contains-append :
    (i : ℕ) (xs ys : List ℕ) → contains (xs ++ ys) i ≡ (contains xs i || contains ys i)
unfolding contains
contains-append i [] ys = refl
contains-append i (x ∷ xs) ys = ground (arith, contains-append i xs ys)

pub contains-remove :
    (i j : ℕ) (xs : List ℕ) → contains (remove i xs) j ≡ (contains xs j && not (i == j))
unfolding contains remove
contains-remove i j [] = refl
contains-remove i j (x ∷ xs) = ground (arith, contains-remove i j xs)

pub contains-insert : (i j : ℕ) (xs : List ℕ) → contains (insert i xs) j ≡ (i == j || contains xs j)
unfolding contains insert
contains-insert i j [] = refl
contains-insert i j (x ∷ xs) = ground (arith, contains-insert i j xs)

pub contains-missing :
    (n i j : ℕ) (set : List ℕ)
    → contains (missing n i set) j ≡ ((leb i j && ltb j (i + n)) && not (contains set j))
unfolding contains missing
contains-missing zero i j set = ground arith
contains-missing (suc n) i j set = ground (arith, contains-missing n (suc i) j set)

pub is_empty-contains : (xs : List ℕ) (i : ℕ) → is_empty xs ≡ true → contains xs i ≡ false
unfolding contains is_empty
is_empty-contains [] i h = refl
is_empty-contains (x ∷ xs) i h = cc

-- In ascending order, from `k` on and below `n`.
abbrev pub Ascending : ℕ → ℕ → List ℕ → Type 0
Ascending k n [] = Unit {0}
Ascending k n (x ∷ xs) = (k ≤ x) × (x < n) × Ascending (suc x) n xs

pub insert-Ascending :
    (k n i : ℕ) (xs : List ℕ) → k ≤ i → i < n → Ascending k n xs → Ascending k n (insert i xs)
unfolding insert
insert-Ascending k n i [] h p a = (h, p, tt)
insert-Ascending k n i (x ∷ xs) h p a = ground (arith, insert-Ascending (suc x) n i xs)

pub contains-lt :
    (k n i : ℕ) (xs : List ℕ) → Ascending k n xs → contains xs i ≡ true → (k ≤ i) × (i < n)
unfolding contains
contains-lt k n i [] a h = cc
contains-lt k n i (x ∷ xs) a h = ground (arith, contains-lt (suc x) n i xs a.2)
