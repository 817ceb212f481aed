-- ===== src/Api/Handles.antt =====
-- A session is handed out once.
use p2pfileshare.Base.{
  ℕ, suc, ◌+◌, ◌%◌, ◌^◌, ◌≤◌, ◌<◌, ◌≡◌, ◌≢◌, refl, leb, ◌==◌, if◌then◌else◌, List, [], ◌∷◌, Option,
  none, some, arith, ◌∙◌, Bool-cases, inl, inr,
}
use p2pfileshare.Session.Either.{Session}
use p2pfileshare.Api.Registry.{
  Registry, start, without, get, insert, store_session, take_session, api_close_session,
}

-- What the app does with the registry: a session is stored, driven, or closed.
pub data Call : Type 0 where
  store : Session → Call
  drive : ℕ → Call
  close : ℕ → Call

unfoldable pub given : ℕ → Option Session → List (ℕ × Session)
given handle none = []
given handle (some s) = (handle, s) ∷ []

-- The registry after a call, and the session that the call gets.
unfoldable pub call : Call → Registry → Registry × List (ℕ × Session)
unfolding store_session take_session api_close_session given
call (store s) r = ((store_session s r).0, [])
call (drive handle) r = ((take_session handle r).0, given handle (take_session handle r).1)
call (close handle) r = (api_close_session handle r, [])

-- How often a handle stands in a list.
unfoldable pub count : ℕ → List (ℕ × Session) → ℕ
count handle [] = 0
count handle ((i, s) ∷ sessions) = (if i == handle then 1 else 0) + count handle sessions

-- The drives of a handle that get a session.
unfoldable pub drives : ℕ → List Call → Registry → ℕ
unfolding call count
drives handle [] r = 0
drives handle (c ∷ calls) r = count handle (call c r).1 + drives handle calls (call c r).0

unfoldable pub stores : List Call → ℕ
stores [] = 0
stores (store s ∷ calls) = suc (stores calls)
stores (drive handle ∷ calls) = stores calls
stores (close handle ∷ calls) = stores calls

count-without :
    (handle id : ℕ) (sessions : List (ℕ × Session))
    → count handle (without id sessions) ≡ (if id == handle then 0 else count handle sessions)
unfolding count without
count-without handle id [] = ground arith
count-without handle id ((i, s) ∷ sessions) = ground (arith, count-without handle id sessions)

count-get :
    (handle : ℕ) (sessions : List (ℕ × Session))
    → count handle (given handle (get handle sessions)) ≤ count handle sessions
unfolding count given get
count-get handle [] = ground arith
count-get handle ((i, s) ∷ sessions) = ground (arith, count-get handle sessions)

-- The handle's share of the registry and of the handles to come.
unfoldable owed : ℕ → Registry → ℕ
owed handle r = count handle r.sessions + (if leb r.next_id handle then 1 else 0)

count-given : (handle id : ℕ) (o : Option Session) → handle ≢ id → count handle (given id o) ≡ 0
unfolding count given
count-given handle id none h = refl
count-given handle id (some s) h = ground (arith, h)

call-owed :
    (handle : ℕ) (c : Call) (r : Registry)
    → r.next_id + stores (c ∷ []) < 2 ^ 64
    → count handle (call c r).1 + owed handle (call c r).0 ≤ owed handle r
unfolding call owed store_session take_session api_close_session insert count stores
call-owed handle (store s) r h =
    let next : (r.next_id + 1) % 2 ^ 64 ≡ r.next_id + 1 = omega arith in
    rw next (ground (arith, count-without handle r.next_id r.sessions))
call-owed handle (drive id) r h = elim (Bool-cases (id == handle)) [
  | inl e ↦ ground (arith, e, count-without handle id r.sessions, count-get handle r.sessions)
  | inr e ↦
      ground
        (arith, e, count-without handle id r.sessions, count-given handle id (get id r.sessions))
]
call-owed handle (close id) r h = ground (arith, count-without handle id r.sessions)

next_id-call :
    (c : Call) (calls : List Call) (r : Registry)
    → r.next_id + stores (c ∷ calls) < 2 ^ 64
    → (r.next_id + stores (c ∷ []) < 2 ^ 64) × ((call c r).0.next_id + stores calls < 2 ^ 64)
unfolding call store_session take_session api_close_session stores
next_id-call (store s) calls r h = (omega arith, omega arith)
next_id-call (drive id) calls r h = (omega arith, h)
next_id-call (close id) calls r h = (omega arith, h)

drives-le :
    (handle : ℕ) (calls : List Call) (r : Registry)
    → r.next_id + stores calls < 2 ^ 64
    → drives handle calls r ≤ owed handle r
unfolding drives
drives-le handle [] r h = omega arith
drives-le handle (c ∷ calls) r h =
    let (before, after) = next_id-call c calls r h in
    let ih = drives-le handle calls (call c r).0 after in
    let one = call-owed handle c r before in omega arith

-- A handle drives a transfer at most once, in every sequence of calls from the start of the library
-- that stores fewer than 2^64 - 1 sessions.
pub drives_once :
    (handle : ℕ) (calls : List Call) → 1 + stores calls < 2 ^ 64 → drives handle calls start ≤ 1
unfolding start
drives_once handle calls h =
    let bound = drives-le handle calls start h in unfold owed count in ground arith

unfoldable pub calls_on : List Call → Registry → Registry
unfolding call
calls_on [] r = r
calls_on (c ∷ calls) r = calls_on calls (call c r).0

-- The calls leave a handle alone.
abbrev pub Spares : ℕ → List Call → Type 0
Spares handle [] = Unit {0}
Spares handle (store s ∷ calls) = Spares handle calls
Spares handle (drive id ∷ calls) = (id ≢ handle) × Spares handle calls
Spares handle (close id ∷ calls) = (id ≢ handle) × Spares handle calls

get-without :
    (handle id : ℕ) (sessions : List (ℕ × Session))
    → id ≢ handle
    → get handle (without id sessions) ≡ get handle sessions
unfolding get without
get-without handle id [] h = refl
get-without handle id ((i, s) ∷ sessions) h = ground (arith, h, get-without handle id sessions h)

get-calls_on :
    (handle : ℕ) (calls : List Call) (r : Registry)
    → Spares handle calls
    → handle < r.next_id
    → r.next_id + stores calls < 2 ^ 64
    → get handle (calls_on calls r).sessions ≡ get handle r.sessions
unfolding calls_on call store_session take_session api_close_session insert stores
get-calls_on handle [] r p k h = refl
get-calls_on handle (store s ∷ calls) r p k h =
    let next : (r.next_id + 1) % 2 ^ 64 ≡ r.next_id + 1 = omega arith in
    let ih =
      get-calls_on handle calls (store_session s r).0 p (omega (arith, next))
        (omega (arith, next)) in
    ih ∙ unfold get in ground (arith, get-without handle r.next_id r.sessions)
get-calls_on handle (drive id ∷ calls) r (p, ps) k h =
    get-calls_on handle calls (take_session id r).0 ps k h ∙ get-without handle id r.sessions p
get-calls_on handle (close id ∷ calls) r (p, ps) k h =
    get-calls_on handle calls (take_session id r).0 ps k h ∙ get-without handle id r.sessions p

-- The handle under which a session was stored drives that very session later on, whatever other
-- sessions were stored, driven or closed in between, until the handles are used up.
pub drive-store :
    (s : Session) (calls : List Call) (r : Registry)
    → Spares (store_session s r).1 calls
    → r.next_id + 1 + stores calls < 2 ^ 64
    → (call (drive (store_session s r).1) (calls_on calls (store_session s r).0)).1
      ≡ ((store_session s r).1, s) ∷ []
unfolding call store_session take_session given insert get
drive-store s calls r p h =
    let next : (r.next_id + 1) % 2 ^ 64 ≡ r.next_id + 1 = omega arith in
    let kept =
      get-calls_on r.next_id calls (store_session s r).0 p (omega (arith, next))
        (omega (arith, next)) in
    rw kept (ground arith)
