-- ===== src/Coordinator/Ensures.antt =====
-- What every action of an attempt satisfies, and the value if one is returned; with the rules for the
-- steps that attempts are made of.
use p2pfileshare.Base.{
  ◌≡◌, subst, ap, Bool, true, false, List, [], ◌∷◌, ◌++◌, ok, err, returns, fails, Post,
}
use p2pfileshare.Errors.{Error, Result}
use p2pfileshare.Coordinator.Attempt.{
  Action, Outcome, waiting, panicked, returned, Attempt, attempt, prepend, ◌>>=◌, result, act,
  or_else, outcome_of, race,
}

pub data All (P : Action → Type 0) : List Action → Type 0 where
  all_nil : All P []
  all_cons : {a : Action} {done : List Action} → P a → All P done → All P (a ∷ done)

pub All-append :
    {P : Action → Type 0} {xs ys : List Action} → All P xs → All P ys → All P (xs ++ ys)
All-append all_nil q = q
All-append (all_cons p ps) q = all_cons p (All-append ps q)

pub data Ensures {A : Type 0} (P : Action → Type 0) (Q : A → Type 0) : Attempt A → Type 0 where
  gives :
      {done : List Action} {a : A} → All P done → Q a → Ensures P Q (attempt done (returned (ok a)))
  gives_up :
      {done : List Action} {e : Error} → All P done → Ensures P Q (attempt done (returned (err e)))
  waits : {done : List Action} → All P done → Ensures P Q (attempt done waiting)
  panics : {done : List Action} → All P done → Ensures P Q (attempt done panicked)

value_or : {A : Type 0} → A → Outcome A → A
value_or d (returned (ok a)) = a
value_or d (returned (err e)) = d
value_or d waiting = d
value_or d panicked = d

module _ {A : Type 0} {P : Action → Type 0} {Q : A → Type 0} where
  pub prepend-Ensures :
      {done : List Action} (m : Attempt A)
      → All P done
      → Ensures P Q m
      → Ensures P Q (prepend done m)
  prepend-Ensures _ p (gives q h) = gives (All-append p q) h
  prepend-Ensures _ p (gives_up q) = gives_up (All-append p q)
  prepend-Ensures _ p (waits q) = waits (All-append p q)
  prepend-Ensures _ p (panics q) = panics (All-append p q)

  pub bind-Ensures :
      {B : Type 0} {R : B → Type 0} {m : Attempt B} (f : B → Attempt A)
      → Ensures P R m
      → ((b : B) → R b → Ensures P Q (f b))
      → Ensures P Q (m >>= f)
  unfolding ◌>>=◌
  bind-Ensures f (gives p h) k = prepend-Ensures (f _) p (k _ h)
  bind-Ensures f (gives_up p) k = gives_up p
  bind-Ensures f (waits p) k = waits p
  bind-Ensures f (panics p) k = panics p

  pub result-Ensures : {r : Result A} → Post Q r → Ensures P Q (result r)
  result-Ensures (returns h) = gives all_nil h
  result-Ensures fails = gives_up all_nil

  pub or_else-Ensures :
      {m other : Attempt A} → Ensures P Q m → Ensures P Q other → Ensures P Q (or_else m other)
  or_else-Ensures (gives p h) o = gives p h
  or_else-Ensures {other} (gives_up p) o = prepend-Ensures other p o
  or_else-Ensures (waits p) o = waits p
  or_else-Ensures (panics p) o = panics p

  pub mono-Ensures :
      {R : A → Type 0} {m : Attempt A} → Ensures P R m → ((a : A) → R a → Q a) → Ensures P Q m
  mono-Ensures (gives p h) k = gives p (k _ h)
  mono-Ensures (gives_up p) k = gives_up p
  mono-Ensures (waits p) k = waits p
  mono-Ensures (panics p) k = panics p

  head-Ensures :
      {a : Action} {done : List Action} {r : Outcome A}
      → Ensures P Q (attempt (a ∷ done) r)
      → P a × Ensures P Q (attempt done r)
  head-Ensures (gives (all_cons p ps) h) = (p, gives ps h)
  head-Ensures (gives_up (all_cons p ps)) = (p, gives_up ps)
  head-Ensures (waits (all_cons p ps)) = (p, waits ps)
  head-Ensures (panics (all_cons p ps)) = (p, panics ps)

  pub outcome-Ensures :
      {m : Attempt A} {a : A} → Ensures P Q m → outcome_of m ≡ returned (ok a) → Q a
  unfolding value_or
  outcome-Ensures (gives {a = b} p h) e = subst Q (ap (value_or b) e) h
  outcome-Ensures (gives_up p) e = cc
  outcome-Ensures (waits p) e = cc
  outcome-Ensures (panics p) e = cc

  push : (a : Action) (m : Attempt A) → P a → Ensures P Q m → Ensures P Q (prepend (a ∷ []) m)
  push a m p h = prepend-Ensures m (all_cons p all_nil) h

  pub race-Ensures :
      (fatal : Bool) (disabled : Error) (turns : List Bool) (first second : Attempt A)
      → Ensures P Q first
      → Ensures P Q second
      → Ensures P Q (race fatal disabled turns first second)
  unfolding race
  race-Ensures fatal disabled [] first second f s = waits all_nil
  race-Ensures fatal disabled (true ∷ turns) (attempt (a ∷ done) r) second f s =
      let (p, g) = head-Ensures f in
      push a _ p (race-Ensures fatal disabled turns (attempt done r) second g s)
  race-Ensures fatal disabled (true ∷ turns) (attempt [] panicked) second f s = panics all_nil
  race-Ensures fatal disabled (true ∷ turns) (attempt [] (returned (ok a))) second f s = f
  race-Ensures fatal disabled (true ∷ turns) (attempt [] waiting) second f s =
      race-Ensures fatal disabled turns (attempt [] waiting) second f s
  race-Ensures fatal disabled (true ∷ turns) (attempt [] (returned (err e))) second f s =
      race-Ensures fatal disabled turns (attempt [] (returned (err e))) second f s
  race-Ensures fatal disabled (false ∷ turns) first (attempt (a ∷ done) r) f s =
      let (p, g) = head-Ensures s in
      push a _ p (race-Ensures fatal disabled turns first (attempt done r) f g)
  race-Ensures fatal disabled (false ∷ turns) first (attempt [] panicked) f s = panics all_nil
  race-Ensures fatal disabled (false ∷ turns) first (attempt [] (returned (ok a))) f s = s
  race-Ensures fatal disabled (false ∷ turns) first (attempt [] waiting) f s =
      race-Ensures fatal disabled turns first (attempt [] waiting) f s
  race-Ensures true disabled (false ∷ turns) first (attempt [] (returned (err e))) f s =
      gives_up all_nil
  race-Ensures false disabled (false ∷ turns) (attempt [] (returned (err d)))
        (attempt [] (returned (err e))) f s =
      gives_up all_nil
  race-Ensures false disabled (false ∷ turns) (attempt [] waiting) (attempt [] (returned (err e))) f
        s =
      race-Ensures false disabled turns (attempt [] waiting) (attempt [] (returned (err e))) f s
  race-Ensures false disabled (false ∷ turns) (attempt [] panicked) (attempt [] (returned (err e)))
        f s =
      race-Ensures false disabled turns (attempt [] panicked) (attempt [] (returned (err e))) f s
  race-Ensures false disabled (false ∷ turns) (attempt [] (returned (ok a)))
        (attempt [] (returned (err e))) f s =
      race-Ensures false disabled turns (attempt [] (returned (ok a)))
        (attempt [] (returned (err e))) f s
  race-Ensures false disabled (false ∷ turns) (attempt (a ∷ done) r) (attempt [] (returned (err e)))
        f s =
      race-Ensures false disabled turns (attempt (a ∷ done) r) (attempt [] (returned (err e))) f s

pub act-Ensures :
    {P : Action → Type 0} {a : Action} → P a → Ensures P (λ (_ : Unit {0}). Unit {0}) (act a)
act-Ensures p = gives (all_cons p all_nil) tt
