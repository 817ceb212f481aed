-- ===== src/Api/Registry.antt =====
-- The registry of the sessions.
use p2pfileshare.Base.{
  ℕ, ◌+◌, ◌%◌, ◌^◌, ◌==◌, if◌then◌else◌, String, List, [], ◌∷◌, Option, none, some,
}
use p2pfileshare.Session.Either.{Session, direct, relay}

-- `SESSION_REGISTRY` and `NEXT_SESSION_ID`
pub record Registry : Type 0 where
  pub sessions : List (ℕ × Session)
  pub next_id : ℕ

unfoldable pub start : Registry
start = record { sessions = []; next_id = 1 }

-- `HashMap::remove`, `get` and `insert`
unfoldable pub without : ℕ → List (ℕ × Session) → List (ℕ × Session)
without id [] = []
without id ((i, s) ∷ sessions) =
    let rest = without id sessions in if i == id then rest else (i, s) ∷ rest

unfoldable pub get : ℕ → List (ℕ × Session) → Option Session
get id [] = none
get id ((i, s) ∷ sessions) = if i == id then some s else get id sessions

unfoldable pub insert : ℕ → Session → List (ℕ × Session) → List (ℕ × Session)
unfolding without
insert id s sessions = (id, s) ∷ without id sessions

-- `fetch_add` wraps.
unfoldable pub store_session : Session → Registry → Registry × ℕ
unfolding insert
store_session s r = (
  record r { sessions = insert r.next_id s r.sessions; next_id = (r.next_id + 1) % 2 ^ 64 },
  r.next_id,
)

unfoldable pub take_session : ℕ → Registry → Registry × Option Session
unfolding get without
take_session id r = (record r { sessions = without id r.sessions }, get id r.sessions)

unfoldable pub type_of : Option Session → String
type_of (some (direct s)) = "direct"
type_of (some (relay s)) = "relay"
type_of none = "unknown"

unfoldable pub api_session_type : ℕ → Registry → String
unfolding get type_of
api_session_type handle r = type_of (get handle r.sessions)

unfoldable pub api_close_session : ℕ → Registry → Registry
unfolding take_session
api_close_session handle r = (take_session handle r).0
