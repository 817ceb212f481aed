-- ===== src/Coordinator/Attempt.antt =====
-- An attempt to connect: what it does, in order, and what it returns.
use p2pfileshare.Base.{ℕ, String, Bool, true, false, List, [], ◌∷◌, ◌++◌, ok, err}
use p2pfileshare.Base.Bytes.{Bytes}
use p2pfileshare.Errors.{Error, Result}
use p2pfileshare.Stun.{SocketAddr}

-- `conn_status::set`, `DhtLayer::announce`, the start of `hole_punch`, some more punches after it, and
-- `connect_via_relay` or `connect_via_relay_at`.
pub data Action : Type 0 where
  set : ℕ → Action
  announce : Bytes → ℕ → Action
  punch : SocketAddr → Action
  send_punches : ℕ → SocketAddr → Action
  relay_connect : String → Action
  relay_connect_at : String → String → Action

-- Not yet returned, a panic, or what is returned.
pub data Outcome {ℓ} (A : Type ℓ) : Type ℓ where
  waiting panicked : Outcome A
  returned : Result A → Outcome A

pub data Attempt {ℓ} (A : Type ℓ) : Type ℓ where
  attempt : List Action → Outcome A → Attempt A

abbrev pub prepend {ℓ} : {A : Type ℓ} → List Action → Attempt A → Attempt A
prepend before (attempt done outcome) = attempt (before ++ done) outcome

infixl 5 ◌>>=◌
unfoldable pub ◌>>=◌ {ℓ κ} : {A : Type ℓ} {B : Type κ} → Attempt A → (A → Attempt B) → Attempt B
attempt done waiting >>= next = attempt done waiting
attempt done panicked >>= next = attempt done panicked
attempt done (returned (err e)) >>= next = attempt done (returned (err e))
attempt done (returned (ok a)) >>= next = prepend done (next a)

abbrev pub result {ℓ} : {A : Type ℓ} → Result A → Attempt A
result r = attempt [] (returned r)

abbrev pub act : Action → Attempt (Unit {0})
act a = attempt (a ∷ []) (returned (ok tt))

-- What follows on an error; the error is only printed.
abbrev pub or_else {ℓ} : {A : Type ℓ} → Attempt A → Attempt A → Attempt A
or_else (attempt done (returned (err e))) other = prepend done other
or_else (attempt done outcome) other = attempt done outcome

abbrev pub outcome_of {ℓ} : {A : Type ℓ} → Attempt A → Outcome A
outcome_of (attempt done outcome) = outcome

abbrev pub actions_of {ℓ} : {A : Type ℓ} → Attempt A → List Action
actions_of (attempt done outcome) = done

-- Two arms of `select!`; `true` in `turns` is a turn of the first arm. An arm that returns a value
-- ends the race, and the other arm is dropped. An error disables the arm, but if `fatal` holds an
-- error of the second arm ends the race. With both arms disabled the race ends.
unfoldable pub race {ℓ} :
    {A : Type ℓ} → Bool → Error → List Bool → Attempt A → Attempt A → Attempt A
race fatal disabled [] first second = attempt [] waiting
race fatal disabled (true ∷ turns) (attempt (a ∷ done) r) second =
    prepend (a ∷ []) (race fatal disabled turns (attempt done r) second)
race fatal disabled (true ∷ turns) (attempt [] panicked) second = attempt [] panicked
race fatal disabled (true ∷ turns) (attempt [] (returned (ok a))) second = result (ok a)
race fatal disabled (true ∷ turns) (attempt [] waiting) second =
    race fatal disabled turns (attempt [] waiting) second
race fatal disabled (true ∷ turns) (attempt [] (returned (err e))) second =
    race fatal disabled turns (attempt [] (returned (err e))) second
race fatal disabled (false ∷ turns) first (attempt (a ∷ done) r) =
    prepend (a ∷ []) (race fatal disabled turns first (attempt done r))
race fatal disabled (false ∷ turns) first (attempt [] panicked) = attempt [] panicked
race fatal disabled (false ∷ turns) first (attempt [] (returned (ok a))) = result (ok a)
race fatal disabled (false ∷ turns) first (attempt [] waiting) =
    race fatal disabled turns first (attempt [] waiting)
race true disabled (false ∷ turns) first (attempt [] (returned (err e))) = result (err e)
race false disabled (false ∷ turns) (attempt [] (returned (err d)))
      (attempt [] (returned (err e))) =
    result (err disabled)
race false disabled (false ∷ turns) (attempt [] waiting) (attempt [] (returned (err e))) =
    race false disabled turns (attempt [] waiting) (attempt [] (returned (err e)))
race false disabled (false ∷ turns) (attempt [] panicked) (attempt [] (returned (err e))) =
    race false disabled turns (attempt [] panicked) (attempt [] (returned (err e)))
race false disabled (false ∷ turns) (attempt [] (returned (ok a))) (attempt [] (returned (err e))) =
    race false disabled turns (attempt [] (returned (ok a))) (attempt [] (returned (err e)))
race false disabled (false ∷ turns) (attempt (a ∷ done) r) (attempt [] (returned (err e))) =
    race false disabled turns (attempt (a ∷ done) r) (attempt [] (returned (err e)))

-- `conn_status::get` after some actions: the code that was set last.
unfoldable pub phase_after : ℕ → List Action → ℕ
phase_after phase [] = phase
phase_after phase (set p ∷ rest) = phase_after p rest
phase_after phase (a ∷ rest) = phase_after phase rest
