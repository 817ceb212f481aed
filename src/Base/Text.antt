-- ===== src/Base/Text.antt =====
-- Numbers as text: `{}`, `{:x}` and `{:04}` of `format!`.
use Prim.Native.Nat.{ℕ, zero, suc, ◌/◌, ◌%◌}
use Prim.Native.String.{String, ◌++◌ as ◌<>◌}
use mathlib.Core.Path.{◌≡◌, refl}
use mathlib.Core.List.{List, [], ◌∷◌}
use p2pfileshare.Base.Tests.{◌==◌, if◌then◌else◌}
use p2pfileshare.Base.Lists.{get_or}

abbrev digits : List String
digits =
    "0" ∷ "1" ∷ "2" ∷ "3" ∷ "4" ∷ "5" ∷ "6" ∷ "7" ∷ "8" ∷ "9" ∷ "a" ∷ "b" ∷ "c" ∷ "d" ∷ "e" ∷ "f"
    ∷ []

unfoldable pub digit : ℕ → String
digit n = get_or digits n ""

-- Each round drops a digit, so the number itself is fuel enough.
show_on : ℕ → ℕ → ℕ → String
show_on zero base n = digit n
show_on (suc fuel) base n =
    let rest = show_on fuel base (n / base) in
    if n / base == 0 then digit n else rest <> digit (n % base)

unfoldable pub show : ℕ → String
unfolding show_on digit
show n = show_on n 10 n

unfoldable pub show_hex : ℕ → String
unfolding show_on digit
show_hex n = "0x" <> show_on n 16 n

-- Four digits, of a number below 10000.
unfoldable pub show_04 : ℕ → String
unfolding digit
show_04 n = digit (n / 1000) <> digit (n / 100 % 10) <> digit (n / 10 % 10) <> digit (n % 10)

show_test : show 65519 <> show_hex 171 <> show_04 42 ≡ "655190xab0042"
unfolding show show_hex show_04
show_test = refl
