-- ===== src/Coordinator/Sessions.antt =====
-- The sessions that are established: direct only if the relay is not allowed, and always with the key
-- that the handshake has authenticated.
use p2pfileshare.Base.{ℕ, ◌≡◌, refl, Bool, true, false, List, length, String, Option}
use p2pfileshare.Identity.Fingerprint.{to_fingerprint}
use p2pfileshare.RelayClient.{Reply, connect_via_relay_at}
use p2pfileshare.Session.Either.{Session, direct, relay}
use p2pfileshare.Coordinator.Attempt.{Action, relay_connect, relay_connect_at}
use p2pfileshare.Coordinator.Network.{
  Crates, Quic, Socket, HandshakeRole, initiator, responder, make_peer_session, from_split,
}
use p2pfileshare.Coordinator.Announce.{SenderNet, announce_and_connect_with_code}
use p2pfileshare.Coordinator.Lookup.{ReceiverNet, lookup_and_connect}
use p2pfileshare.Coordinator.LocalOnly.{announce_mdns_only_with_code, lookup_mdns_only}
use p2pfileshare.Coordinator.RelayOnly.{
  announce_via_relay_only_with_code, connect_via_relay_only, via_proxy,
  announce_via_relay_only_with_code_via_proxy, connect_via_relay_only_via_proxy,
}
use p2pfileshare.Coordinator.Ensures.{Ensures, bind-Ensures, act-Ensures}
use p2pfileshare.Coordinator.Steps.{plain-Ensures}
use p2pfileshare.Coordinator.Rules.{Rules, relay_handshake-Ensures, via_relay-Ensures}
use p2pfileshare.Coordinator.AnnouncePaths.{announce-Ensures}
use p2pfileshare.Coordinator.LookupPaths.{
  lookup-Ensures, lookup_mdns-Ensures, announce_mdns-Ensures,
}

-- Not a connection to the relay.
abbrev pub NotRelay : Action → Type 0
NotRelay (relay_connect code) = ⊥
NotRelay (relay_connect_at addr code) = ⊥
NotRelay _ = Unit {0}

abbrev pub IsDirect : Session → Type 0
IsDirect (direct s) = Unit {0}
IsDirect (relay s) = ⊥

module _ {S : Type 0} (c : Crates S) where
  IsDirect-Rules : Rules c false NotRelay IsDirect
  IsDirect-Rules = record {
    sets = λ _. tt;
    announces = λ _ _. tt;
    punches = λ _. tt;
    sends = λ _ _. tt;
    relays = λ h. cc;
    directs = λ _ _. tt;
    relayeds = λ h. cc;
  }

  -- With `allow_relay` false neither side ever connects to the relay, whatever the network does and
  -- in whatever order the LAN and the internet path take their turns, and a session that they return
  -- is a direct one.
  pub without_relay :
      (n : SenderNet) (m : ReceiverNet) (code : String) (turns : List Bool)
      → Ensures NotRelay IsDirect (announce_and_connect_with_code c n code false turns)
        × Ensures NotRelay IsDirect (lookup_and_connect c m code false turns)
  without_relay n m code turns = (
    announce-Ensures c false NotRelay IsDirect IsDirect-Rules n code turns,
    lookup-Ensures c false NotRelay IsDirect IsDirect-Rules m code turns,
  )

  -- What a fresh session is: its key has 32 bytes, its fingerprint is the one of its key, and no
  -- nonce of it is used.
  abbrev pub IsFresh : Session → Type 0
  IsFresh (direct s) =
      (length s.remote_pubkey ≡ 32)
      × (s.remote_fingerprint ≡ to_fingerprint c.words s.remote_pubkey)
      × (s.send_nonce ≡ 0)
  IsFresh (relay s) =
      (length s.remote_pubkey ≡ 32)
      × (s.remote_fingerprint ≡ to_fingerprint c.words s.remote_pubkey)
      × (s.send_nonce ≡ 0)

  IsFresh-Rules : (relayed : Bool) → Rules c relayed (λ _. Unit {0}) IsFresh
  unfolding make_peer_session from_split
  IsFresh-Rules relayed = record {
    sets = λ _. tt;
    announces = λ _ _. tt;
    punches = λ _. tt;
    sends = λ _ _. tt;
    relays = λ _ _. tt;
    directs = λ hs k. (k, refl, refl);
    relayeds = λ _ hs k. (k, refl, refl);
  }

  via_proxy-IsFresh :
      (role : HandshakeRole) (code : String) (port : ℕ) (reply : Reply)
      → Ensures (λ _. Unit {0}) IsFresh (via_proxy c role code port reply)
  unfolding via_proxy
  via_proxy-IsFresh role code port reply = bind-Ensures _ (act-Ensures tt) λ _ _.
      bind-Ensures _ (plain-Ensures (connect_via_relay_at reply)) λ tcp _.
        relay_handshake-Ensures c true (λ _. Unit {0}) IsFresh (IsFresh-Rules true) role tcp refl

  -- A session that any of the eight ways to connect by a share code returns is fresh: it holds a key
  -- of 32 bytes, the fingerprint of that key, and a nonce counter at 0.
  pub sessions-IsFresh :
      (n : SenderNet) (m : ReceiverNet) (socket : Socket) (incoming : List (Option Quic))
      (reply : Reply) (code : String) (allow_relay : Bool) (port : ℕ) (turns : List Bool)
      → Ensures (λ _. Unit {0}) IsFresh (announce_and_connect_with_code c n code allow_relay turns)
        × Ensures (λ _. Unit {0}) IsFresh (lookup_and_connect c m code allow_relay turns)
        × Ensures (λ _. Unit {0}) IsFresh (announce_mdns_only_with_code c socket incoming)
        × Ensures (λ _. Unit {0}) IsFresh (lookup_mdns_only c m)
        × Ensures (λ _. Unit {0}) IsFresh (announce_via_relay_only_with_code c code reply)
        × Ensures (λ _. Unit {0}) IsFresh (connect_via_relay_only c code reply)
        × Ensures
            (λ _. Unit {0})
            IsFresh
            (announce_via_relay_only_with_code_via_proxy c code port reply)
        × Ensures (λ _. Unit {0}) IsFresh (connect_via_relay_only_via_proxy c code port reply)
  unfolding announce_via_relay_only_with_code connect_via_relay_only
      announce_via_relay_only_with_code_via_proxy connect_via_relay_only_via_proxy
  sessions-IsFresh n m socket incoming reply code allow_relay port turns = (
    announce-Ensures c allow_relay _ IsFresh (IsFresh-Rules allow_relay) n code turns,
    lookup-Ensures c allow_relay _ IsFresh (IsFresh-Rules allow_relay) m code turns,
    announce_mdns-Ensures c true _ IsFresh (IsFresh-Rules true) socket incoming,
    lookup_mdns-Ensures c true _ IsFresh (IsFresh-Rules true) m,
    via_relay-Ensures c true _ IsFresh (IsFresh-Rules true) responder code reply refl,
    via_relay-Ensures c true _ IsFresh (IsFresh-Rules true) initiator (c.to_uppercase code) reply
        refl,
    via_proxy-IsFresh responder code port reply,
    via_proxy-IsFresh initiator (c.to_uppercase code) port reply,
  )
