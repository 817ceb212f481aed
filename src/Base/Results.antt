-- ===== src/Base/Results.antt =====
-- `Result<T, E>` with `?` as bind, and `map_err`.
use mathlib.Core.Path.{◌≡◌, refl, ap, subst}
use mathlib.Core.Logic.{◌⊎◌, inl, inr}
use mathlib.Core.Bool.{Bool, true, false}

pub data Res {ℓ} (E : Type 0) (A : Type ℓ) : Type ℓ where
  ok : A → Res E A
  err : E → Res E A

-- On an error, `map_err` changes it and the bind passes it on.
abbrev pub map_err {ℓ} : {E F : Type 0} {A : Type ℓ} → (E → F) → Res E A → Res F A
map_err change (err e) = err (change e)
map_err change (ok a) = ok a

infixl 5 ◌>>=◌
abbrev pub ◌>>=◌ {ℓ κ} : {E : Type 0} {A : Type ℓ} {B : Type κ} → Res E A → (A → Res E B) → Res E B
err e >>= next = err e
ok value >>= next = next value

-- An early `return Err(..)` under a test.
unfoldable pub fail_if : {E : Type 0} → Bool → E → Res E (Unit {0})
fail_if true e = err e
fail_if false e = ok tt

-- To split on a computed result and keep the equation.
pub Res-cases {ℓ} :
    {E : Type 0} {A : Type ℓ} (r : Res E A) → ((a : A) × (r ≡ ok a)) ⊎ ((e : E) × (r ≡ err e))
Res-cases (ok a) = inl (a, refl)
Res-cases (err e) = inr (e, refl)

abbrev or_default {ℓ} : {E : Type 0} {A : Type ℓ} → A → Res E A → A
or_default d (ok a) = a
or_default d (err e) = d

-- What holds of a result if it is one; nothing is said of an error.
pub data Post {ℓ κ} {E : Type 0} {A : Type ℓ} (P : A → Type κ) : Res E A → Type (ℓ ⊔ κ) where
  returns : {a : A} → P a → Post P (ok a)
  fails : {e : E} → Post P (err e)

module _ {ℓ κ} {E : Type 0} {A : Type ℓ} {P : A → Type κ} where
  pub Post-eq-ok : {r : Res E A} {a : A} → Post P r → r ≡ ok a → P a
  Post-eq-ok (returns {a = b} h) e = subst P (ap (or_default b) e) h
  Post-eq-ok fails e = cc

  pub Post->>= {ι μ} :
      {B : Type ι} {Q : B → Type μ} {m : Res E B} (f : B → Res E A)
      → Post Q m
      → ((b : B) → Q b → Post P (f b))
      → Post P (m >>= f)
  Post->>= f (returns h) k = k _ h
  Post->>= f fails k = fails

  pub Post-mono {μ} : {Q : A → Type μ} {r : Res E A} → Post Q r → ((a : A) → Q a → P a) → Post P r
  Post-mono (returns h) k = returns (k _ h)
  Post-mono fails k = fails

pub Post-map_err {ℓ κ} :
    {E F : Type 0} {A : Type ℓ} {P : A → Type κ} {r : Res E A} (change : E → F)
    → Post P r
    → Post P (map_err change r)
Post-map_err change (returns h) = returns h
Post-map_err change fails = fails

-- Nothing but the equation.
pub Post-self {ℓ} : {E : Type 0} {A : Type ℓ} (r : Res E A) → Post (λ a. r ≡ ok a) r
Post-self (ok a) = returns refl
Post-self (err e) = fails

pub Post-fail_if : {E : Type 0} (b : Bool) (e : E) → Post (λ _. b ≡ false) (fail_if b e)
unfolding fail_if
Post-fail_if true e = fails
Post-fail_if false e = returns refl

pub Post-of {ℓ κ} :
    {E : Type 0} {A : Type ℓ} {P : A → Type κ} (r : Res E A) → ((a : A) → r ≡ ok a → P a) → Post P r
Post-of (ok a) h = returns (h a refl)
Post-of (err e) h = fails

pub Post-both {ℓ κ μ} :
    {E : Type 0} {A : Type ℓ} {P : A → Type κ} {Q : A → Type μ} {r : Res E A}
    → Post P r
    → Post Q r
    → Post (λ a. P a × Q a) r
Post-both {P} {Q} p q = Post-of _ λ a e. (Post-eq-ok p e, Post-eq-ok q e)

-- Two results in a row give a result exactly if both do.
pub both-ok {ℓ κ μ} :
    {E : Type 0} {A : Type ℓ} {B : Type κ} {C : Type μ} (m : Res E A) (n : Res E B) (f : A → B → C)
    {c : C}
    → (m >>= λ a. n >>= λ b. ok (f a b)) ≡ ok c
    → (a : A) × (b : B) × (m ≡ ok a) × (n ≡ ok b) × (f a b ≡ c)
both-ok (ok a) (ok b) f e = (a, b, refl, refl, ap (or_default (f a b)) e)
both-ok (ok a) (err x) f e = cc
both-ok (err x) n f e = cc
