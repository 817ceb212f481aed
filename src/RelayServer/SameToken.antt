-- ===== src/RelayServer/SameToken.antt =====
-- Whom the relay of p2pshare-relay/src/main.rs joins, in every order of the steps.
use p2pfileshare.Base.{
  ℕ, ◌≡◌, if◌then◌else◌, Bool, true, false, List, [], ◌∷◌, Option, none, some, arith,
}
use p2pfileshare.Base.Bytes.{Bytes}
use p2pfileshare.Resume.{same_id}
use p2pfileshare.Resume.Laws.{same_id_iff}
use p2pfileshare.RelayServer.{Task, holding, gave, got, piping, Relay, lookup, remove_token}

-- Whom a task deals with.
abbrev partner : Task → Option ℕ
partner (holding j) = some j
partner (gave j) = some j
partner (got j) = some j
partner (piping j) = some j
partner _ = none

-- Whose stream a task has.
abbrev pipes : Task → Option ℕ
pipes (got j) = some j
pipes (piping j) = some j
pipes _ = none

abbrev is_gave : Task → Bool
is_gave (gave j) = true
is_gave _ = false

record Paired (r : Relay) : Type 0 where
  entries : (t : Bytes) (j : ℕ) → lookup t r.waiting ≡ some j → r.token j ≡ t
  pairs : (i j : ℕ) → partner (r.task i) ≡ some j → r.token i ≡ r.token j
  gives : (i j : ℕ) → pipes (r.task i) ≡ some j → r.task j ≡ gave i

pub lookup-remove_token :
    (t u : Bytes) (ws : List (Bytes × ℕ))
    → lookup t (remove_token u ws) ≡ (if same_id u t then none else lookup t ws)
unfolding lookup remove_token
lookup-remove_token t u [] = ground arith
lookup-remove_token t u ((v, i) ∷ ws) =
    ground (arith, lookup-remove_token t u ws, same_id_iff v u, same_id_iff v t, same_id_iff u t)
