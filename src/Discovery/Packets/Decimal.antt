-- ===== src/Discovery/Packets/Decimal.antt =====
-- A port is read back from its digits.
use p2pfileshare.Base.{
  ℕ, zero, suc, ◌+◌, ◌-◌, ◌*◌, ◌/◌, ◌%◌, ◌≤◌, ◌<◌, ◌==◌, ◌≡◌, ap, ◌∙◌, [], ◌∷◌, ◌++◌, some, arith,
  Bool-cases, inl, inr,
}
use p2pfileshare.Discovery.Packets.{
  Chars, decimal_on, decimal, is_digit, digits_on, digits_of, parse_u16,
}

-- Nothing but digits, and at least one.
pub data Digits : Chars → Type 0 where
  one_digit : {c : ℕ} → 48 ≤ c → c ≤ 57 → Digits (c ∷ [])
  more_digits : {c : ℕ} {cs : Chars} → 48 ≤ c → c ≤ 57 → Digits cs → Digits (c ∷ cs)

snoc-Digits : {cs : Chars} (d : ℕ) → Digits cs → d < 10 → Digits (cs ++ ((48 + d) ∷ []))
snoc-Digits d (one_digit h k) l = more_digits h k (one_digit (omega arith) (omega arith))
snoc-Digits d (more_digits h k ds) l = more_digits h k (snoc-Digits d ds l)

pub decimal_on-Digits : (fuel n : ℕ) → Digits (decimal_on fuel n)
unfolding decimal_on
decimal_on-Digits zero n = one_digit (omega arith) (omega arith)
decimal_on-Digits (suc fuel) n = elim (Bool-cases (n / 10 == 0)) [
  | inl e ↦ rw e (one_digit (omega arith) (omega arith))
  | inr e ↦ rw e (snoc-Digits (n % 10) (decimal_on-Digits fuel (n / 10)) (omega arith))
]

digits_on-snoc :
    (value : ℕ) (cs : Chars) (d n : ℕ)
    → digits_on value cs ≡ some n
    → d < 10
    → n * 10 + d ≤ 65535
    → digits_on value (cs ++ ((48 + d) ∷ [])) ≡ some (n * 10 + d)
unfolding digits_on is_digit
digits_on-snoc value [] d n e h k = ground (arith, e)
digits_on-snoc value (c ∷ cs) d n e h k =
    ground (arith, e, digits_on-snoc (value * 10 + (c - 48)) cs d n)

digits_on-decimal : (fuel n : ℕ) → n ≤ fuel → n ≤ 65535 → digits_on 0 (decimal_on fuel n) ≡ some n
unfolding decimal_on digits_on is_digit
digits_on-decimal zero n h k = ground arith
digits_on-decimal (suc fuel) n h k = elim (Bool-cases (n / 10 == 0)) [
  | inl e ↦ rw e (ground (arith, e))
  | inr e ↦ rw e (
      digits_on-snoc 0 (decimal_on fuel (n / 10)) (n % 10) (n / 10)
        (digits_on-decimal fuel (n / 10) (ground (arith, e)) (omega arith)) (omega arith)
        (omega arith)
      ∙ ap some (omega arith))
]

parse_u16-Digits : {cs : Chars} → Digits cs → parse_u16 cs ≡ digits_on 0 cs
unfolding parse_u16 digits_of
parse_u16-Digits (one_digit h k) = ground arith
parse_u16-Digits (more_digits h k ds) = ground arith

pub parse_u16-decimal : (n : ℕ) → n ≤ 65535 → parse_u16 (decimal n) ≡ some n
unfolding decimal
parse_u16-decimal n h =
    parse_u16-Digits (decimal_on-Digits n n) ∙ digits_on-decimal n n (omega arith) h
