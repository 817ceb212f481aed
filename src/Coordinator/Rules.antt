-- ===== src/Coordinator/Rules.antt =====
-- What is to be shown of an action and of a session so that it holds of every path, and the paths
-- through the relay.
use p2pfileshare.Base.{ℕ, ◌≡◌, Bool, true, String, returns}
use p2pfileshare.Base.Bytes.{Bytes}
use p2pfileshare.Identity.Fingerprint.{to_fingerprint}
use p2pfileshare.Handshake.{HandshakeResult}
use p2pfileshare.RelayClient.{Reply, connect_via_relay_at}
use p2pfileshare.Session.Either.{Session, direct, relay}
use p2pfileshare.Stun.{SocketAddr}
use p2pfileshare.Coordinator.Attempt.{Action, set, announce, punch, send_punches, relay_connect}
use p2pfileshare.Coordinator.Network.{
  Crates, HandshakeRole, make_peer_session, from_split, relay_handshake, via_relay,
}
use p2pfileshare.Coordinator.Ensures.{Ensures, bind-Ensures, result-Ensures, act-Ensures}
use p2pfileshare.Coordinator.Steps.{HasKey, plain-Ensures, shake-Ensures}

-- `P` holds of every action but a hole punch, and of the connection to the relay only where it is
-- allowed; `Q` holds of the sessions that are made of a handshake with a key of 32 bytes.
pub record Rules {S : Type 0} (c : Crates S) (relayed : Bool) (P : Action → Type 0)
    (Q : Session → Type 0) : Type 0 where
  pub sets : (phase : ℕ) → P (set phase)
  pub announces : (infohash : Bytes) (port : ℕ) → P (announce infohash port)
  pub punches : (addr : SocketAddr) → P (punch addr)
  pub sends : (k : ℕ) (addr : SocketAddr) → P (send_punches k addr)
  pub relays : relayed ≡ true → (code : String) → P (relay_connect code)
  pub directs : (hs : HandshakeResult) → HasKey hs → Q (direct (make_peer_session c hs))
  pub relayeds :
      relayed ≡ true
      → (hs : HandshakeResult) → HasKey hs
      → Q (relay (from_split hs (to_fingerprint c.words hs.remote_pubkey)))

module _ {S : Type 0} (c : Crates S) (relayed : Bool) (P : Action → Type 0) (Q : Session → Type 0)
    (rules : Rules c relayed P Q) where
  open rules use {sets, announces, punches, sends, relays, directs, relayeds}

  pub relay_handshake-Ensures :
      (role : HandshakeRole) (s : Bytes) → relayed ≡ true → Ensures P Q (relay_handshake c role s)
  unfolding relay_handshake
  relay_handshake-Ensures role s h =
      bind-Ensures _ (shake-Ensures c role s) λ hs k. result-Ensures (returns (relayeds h hs k))

  pub via_relay-Ensures :
      (role : HandshakeRole) (code : String) (reply : Reply)
      → relayed ≡ true
      → Ensures P Q (via_relay c role code reply)
  unfolding via_relay
  via_relay-Ensures role code reply h = bind-Ensures _ (act-Ensures (relays h code)) λ _ _.
      bind-Ensures _ (plain-Ensures (connect_via_relay_at reply))
        λ tcp _. relay_handshake-Ensures role tcp h
