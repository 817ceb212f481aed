-- ===== src/Api/Sessions.antt =====
-- The functions that establish sessions and drive transfers. Each of them asks for the identity, for
-- the DHT where it needs it, and keeps the session under a fresh handle.
use p2pfileshare.Base.{
  ℕ, ◌%◌, String, Bool, true, false, List, Option, none, some, Res, ok, err, ◌>>=◌, map_err,
}
use p2pfileshare.Errors.{Error, Result}
use p2pfileshare.RelayClient.{Reply}
use p2pfileshare.Session.Either.{Session, remote_fingerprint}
use p2pfileshare.Identity.Storage.{UserIdentity}
use p2pfileshare.Coordinator.Attempt.{Outcome, waiting, panicked, returned, Attempt, outcome_of}
use p2pfileshare.Coordinator.Network.{Crates, Quic, Socket}
use p2pfileshare.Coordinator.Announce.{
  SenderNet, announce_and_connect, announce_and_connect_with_code,
}
use p2pfileshare.Coordinator.Lookup.{ReceiverNet, lookup_and_connect}
use p2pfileshare.Coordinator.LocalOnly.{announce_mdns_only_with_code, lookup_mdns_only}
use p2pfileshare.Coordinator.RelayOnly.{
  announce_via_relay_only_with_code, announce_via_relay_only_with_code_via_proxy,
}
use p2pfileshare.Api.Registry.{Registry, store_session}

-- What the functions find: the identity, the DHT client, and the text of an error.
pub record Host (S : Type 0) : Type 0 where
  pub identity : Result (Option UserIdentity)
  pub dht : Result (Unit {0})
  pub crates : UserIdentity → Crates S
  pub to_string : Error → String

-- What a call has given so far: nothing, a panic, or its answer.
pub data Answer (A : Type 0) : Type 0 where
  unanswered crashed : Answer A
  answer : Res String A → Answer A

unfoldable pub ok_or : {A : Type 0} → String → Option A → Res String A
ok_or why none = err why
ok_or why (some a) = ok a

unfoldable pub get_dht : {S : Type 0} → Host S → Bool → Res String (Unit {0})
get_dht h true = map_err h.to_string h.dht
get_dht h false = ok tt

unfoldable pub ready : {S : Type 0} → Host S → Bool → Res String UserIdentity
unfolding ok_or get_dht
ready h with_dht = do
  found ← map_err h.to_string h.identity
  identity ← ok_or "no identity" found
  _ ← get_dht h with_dht
  ok identity

unfoldable pub stored :
    {S : Type 0} → Host S → Outcome Session → Registry → Registry × Answer (ℕ × String)
unfolding store_session remote_fingerprint
stored h waiting r = (r, unanswered)
stored h panicked r = (r, crashed)
stored h (returned (err e)) r = (r, answer (err (h.to_string e)))
stored h (returned (ok s)) r =
    let (r', handle) = store_session s r in (r', answer (ok (handle, remote_fingerprint s)))

unfoldable pub connect_as :
    {S : Type 0}
    → Host S
    → Bool
    → (Crates S → Attempt Session)
    → Registry
    → Registry × Answer (ℕ × String)
unfolding ready stored
connect_as h with_dht path r = elim (ready h with_dht) [
  | err why ↦ (r, answer (err why))
  | ok identity ↦ stored h (outcome_of (path (h.crates identity))) r
]

-- With the code that was made for the session.
unfoldable pub stored_with_code :
    {S : Type 0} → Host S → Outcome (String × Session) → Registry → Registry × Answer (String × ℕ)
unfolding store_session
stored_with_code h waiting r = (r, unanswered)
stored_with_code h panicked r = (r, crashed)
stored_with_code h (returned (err e)) r = (r, answer (err (h.to_string e)))
stored_with_code h (returned (ok (code, s))) r =
    let (r', handle) = store_session s r in (r', answer (ok (code, handle)))

-- The functions of the sender return the handle alone.
unfoldable pub handle_of : Answer (ℕ × String) → Answer ℕ
handle_of unanswered = unanswered
handle_of crashed = crashed
handle_of (answer (err why)) = answer (err why)
handle_of (answer (ok (handle, fingerprint))) = answer (ok handle)

module _ {S : Type 0} (h : Host S) where
  unfoldable pub begin_as : Bool → (Crates S → Attempt Session) → Registry → Registry × Answer ℕ
  unfolding connect_as handle_of
  begin_as with_dht path r = let (r', a) = connect_as h with_dht path r in (r', handle_of a)

  unfoldable pub api_begin_send : SenderNet → String → List Bool → Registry → Registry × Answer ℕ
  unfolding begin_as
  api_begin_send n code turns =
      begin_as true λ c. announce_and_connect_with_code c n code true turns

  unfoldable pub api_begin_send_dht_only :
      SenderNet → String → List Bool → Registry → Registry × Answer ℕ
  unfolding begin_as
  api_begin_send_dht_only n code turns =
      begin_as true λ c. announce_and_connect_with_code c n code false turns

  unfoldable pub api_begin_send_lan_only :
      Socket → List (Option Quic) → Registry → Registry × Answer ℕ
  unfolding begin_as
  api_begin_send_lan_only socket incoming =
      begin_as false λ c. announce_mdns_only_with_code c socket incoming

  unfoldable pub api_connect_lan_only : ReceiverNet → Registry → Registry × Answer ℕ
  unfolding begin_as
  api_connect_lan_only n = begin_as false λ c. lookup_mdns_only c n

  unfoldable pub api_begin_send_relay_only : String → Reply → Registry → Registry × Answer ℕ
  unfolding begin_as
  api_begin_send_relay_only code reply =
      begin_as false λ c. announce_via_relay_only_with_code c code reply

  -- The port is cut to 16 bits.
  unfoldable pub api_begin_send_relay_via_proxy :
      String → ℕ → Reply → Registry → Registry × Answer ℕ
  unfolding begin_as
  api_begin_send_relay_via_proxy code proxy_port reply =
      begin_as false
        λ c. announce_via_relay_only_with_code_via_proxy c code (proxy_port % 65536) reply

  unfoldable pub api_connect_to_code :
      ReceiverNet → String → List Bool → Registry → Registry × Answer (ℕ × String)
  unfolding connect_as
  api_connect_to_code n code turns = connect_as h true λ c. lookup_and_connect c n code true turns

  unfoldable pub api_connect_to_code_dht_only :
      ReceiverNet → String → List Bool → Registry → Registry × Answer (ℕ × String)
  unfolding connect_as
  api_connect_to_code_dht_only n code turns =
      connect_as h true λ c. lookup_and_connect c n code false turns

  unfoldable pub api_create_send_session :
      SenderNet → ℕ → ℕ → List Bool → Registry → Registry × Answer (String × ℕ)
  unfolding ready stored_with_code
  api_create_send_session n x y turns r = elim (ready h true) [
    | err why ↦ (r, answer (err why))
    | ok identity ↦
        stored_with_code h (outcome_of (announce_and_connect (h.crates identity) n x y turns)) r
  ]
