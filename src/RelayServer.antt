-- ===== src/RelayServer.antt =====
-- p2pshare-relay/src/main.rs: the relay pairs two connections that send the same token. Each
-- connection is a task; tasks run side by side, and a step ends where a task gives up the lock of the
-- map or waits.
pub mod SameToken
pub mod Race
use p2pfileshare.Base.{
  ℕ, ◌≡◌, ◌≢◌, ◌==◌, if◌then◌else◌, Bool, true, false, ◌&&◌, ◌||◌, not, List, [], ◌∷◌, Option, none,
  some,
}
use p2pfileshare.Base.Bytes.{Bytes}
use p2pfileshare.Resume.{same_id}

-- What a task has done: nothing; looked and found no one; registered; taken the sender of a waiting
-- task; given its own stream away; got a stream; the pipe runs; given up but not yet removed; over.
pub data Task : Type 0 where
  unread : Task
  looked : Task
  registered : Task
  holding : ℕ → Task
  gave : ℕ → Task
  got : ℕ → Task
  piping : ℕ → Task
  expired : Task
  closed : Task

pub record Relay : Type 0 where
  pub token : ℕ → Bytes
  pub task : ℕ → Task
  pub waiting : List (Bytes × ℕ)

unfoldable pub set_task : ℕ → Task → Relay → Relay
set_task i t r = record r { task = λ j. if j == i then t else r.task j }

unfoldable pub lookup : Bytes → List (Bytes × ℕ) → Option ℕ
unfolding same_id
lookup t [] = none
lookup t ((u, i) ∷ ws) = if same_id u t then some i else lookup t ws

unfoldable pub remove_token : Bytes → List (Bytes × ℕ) → List (Bytes × ℕ)
unfolding same_id
remove_token t [] = []
remove_token t ((u, i) ∷ ws) =
    let rest = remove_token t ws in if same_id u t then rest else (u, i) ∷ rest

-- The token is read, and the map is asked for it and loses it.
unfoldable pub look : Relay → ℕ → Relay
unfolding set_task lookup remove_token
look r i = elim (lookup (r.token i) r.waiting) [
  | none ↦ set_task i looked r
  | some j ↦ set_task i (holding j) (record r { waiting = remove_token (r.token i) r.waiting })
]

-- No one was there: the task enters itself.
unfoldable pub register : Relay → ℕ → Relay
unfolding set_task remove_token
register r i =
    set_task i registered
      (record r { waiting = (r.token i, i) ∷ remove_token (r.token i) r.waiting })

-- `tx.send(stream)` to a task that still waits; otherwise the stream is dropped.
unfoldable pub hand : Relay → ℕ → ℕ → Task → Relay
unfolding set_task
hand r i j registered = set_task j (got i) (set_task i (gave j) r)
hand r i j _ = set_task i closed r

-- The time is over, or the sender was dropped.
unfoldable pub give_up : Relay → ℕ → Relay
unfolding set_task
give_up r i = set_task i expired r

-- The task that gave up removes the entry of its token, whoever it is of.
unfoldable pub clean_up : Relay → ℕ → Relay
unfolding set_task remove_token
clean_up r i = set_task i closed (record r { waiting = remove_token (r.token i) r.waiting })

-- Both ends are told that they are paired, or one of them is gone.
unfoldable pub signal : Relay → ℕ → ℕ → Bool → Relay
unfolding set_task
signal r i j true = set_task i (piping j) r
signal r i j false = set_task i closed r

-- Some task holds the sender that wakes task `i`.
abbrev pub Held : Relay → ℕ → Type 0
Held r i = (k : ℕ) × (r.task k ≡ holding i)

-- One step of one task; one that cannot read its token leaves at once. A sender is dropped when its entry is gone and no task holds it.
pub data Step : Relay → Relay → Type 0 where
  leaves : {r : Relay} (i : ℕ) → r.task i ≡ unread → Step r (set_task i closed r)
  looks : {r : Relay} (i : ℕ) → r.task i ≡ unread → Step r (look r i)
  registers : {r : Relay} (i : ℕ) → r.task i ≡ looked → Step r (register r i)
  hands : {r : Relay} (i j : ℕ) → r.task i ≡ holding j → Step r (hand r i j (r.task j))
  times_out : {r : Relay} (i : ℕ) → r.task i ≡ registered → Step r (give_up r i)
  is_dropped :
      {r : Relay} (i : ℕ)
      → r.task i ≡ registered
      → lookup (r.token i) r.waiting ≢ some i
      → (Held r i → ⊥)
      → Step r (give_up r i)
  cleans_up : {r : Relay} (i : ℕ) → r.task i ≡ expired → Step r (clean_up r i)
  signals :
      {r : Relay} (i j : ℕ) (written : Bool) → r.task i ≡ got j → Step r (signal r i j written)
  ends : {r : Relay} (i j : ℕ) → r.task i ≡ piping j → Step r (set_task i closed r)

pub data Steps : Relay → Relay → Type 0 where
  here : {r : Relay} → Steps r r
  next : {r r' r'' : Relay} → Step r r' → Steps r' r'' → Steps r r''

-- The relay before any connection.
abbrev pub start : (ℕ → Bytes) → Relay
start token = record { token = token; task = λ i. unread; waiting = [] }
