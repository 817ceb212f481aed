-- ===== src/Coordinator/Network.antt =====
-- What an attempt meets in the network, and the steps that the attempts share.
use p2pfileshare.Base.{
  ℕ, String, ◌==◌, Bool, false, List, [], Option, none, some, Res, ok, err, map_err,
}
use p2pfileshare.Base.Bytes.{Bytes}
use p2pfileshare.Errors.{Result, quic}
use p2pfileshare.Handshake.{HandshakeState, HandshakeResult, perform_handshake}
use p2pfileshare.Identity.Fingerprint.{to_fingerprint}
use p2pfileshare.RelayClient.{Reply, connect_via_relay_at}
use p2pfileshare.Session.Peer.{PeerSession}
use p2pfileshare.Session.Relay.{RelaySession}
use p2pfileshare.Session.Either.{Session, relay}
use p2pfileshare.Stun.{SocketAddr}
use p2pfileshare.Coordinator.Attempt.{relay_connect, waiting, Attempt, attempt, ◌>>=◌, result, act}

pub data HandshakeRole : Type 0 where
  initiator responder : HandshakeRole

-- The functions of other crates. `begin` is the fresh handshake state of a role with our private
-- key, and `messages` is fuel for its messages.
pub record Crates (S : Type 0) : Type 0 where
  pub sha1 : Bytes → Bytes
  pub as_bytes : String → Bytes
  pub to_uppercase : String → String
  pub words : ℕ → String
  pub hex_decode : String → Res String Bytes
  pub parse_addr : String → Option SocketAddr
  pub handshake : HandshakeState S
  pub begin : HandshakeRole → S
  pub messages : ℕ

-- A QUIC connection that comes in or is dialled: its first step, the connection itself, and what the
-- peer writes on the stream that is opened.
pub record Quic : Type 0 where
  pub started : Res String (Unit {0})
  pub connection : Res String (Unit {0})
  pub stream : Res String Bytes

-- A UDP socket: its port, what the STUN servers answer on it at each try, what arrives at it during
-- the hole punch, and the QUIC endpoint that is made of it.
pub record Socket : Type 0 where
  pub bound : Result ℕ
  pub stun : ℕ → List (Bytes × SocketAddr) × List (Bytes × SocketAddr)
  pub packets : List (Res String (Bytes × SocketAddr))
  pub unwrapped : Result (Unit {0})
  pub config : Result (Unit {0})
  pub endpoint : Result (Unit {0})

-- `make_peer_session`
unfoldable pub make_peer_session : {S : Type 0} → Crates S → HandshakeResult → PeerSession
make_peer_session c hs = record {
  remote_pubkey = hs.remote_pubkey;
  remote_fingerprint = to_fingerprint c.words hs.remote_pubkey;
  noise_state = hs.transport;
  send_nonce = 0;
}

-- `RelaySession::from_split`
unfoldable pub from_split : HandshakeResult → String → RelaySession
from_split hs fingerprint = record {
  remote_pubkey = hs.remote_pubkey;
  remote_fingerprint = fingerprint;
  noise_state = hs.transport;
  send_nonce = 0;
}

-- The handshake on what the peer sends.
unfoldable pub shake : {S : Type 0} → Crates S → HandshakeRole → Bytes → Attempt HandshakeResult
shake c role s = elim (perform_handshake c.messages c.handshake (c.begin role) s) [
  | none ↦ attempt [] waiting
  | some (err e) ↦ result (err e)
  | some (ok (hs, out, rest)) ↦ result (ok hs)
]

-- The handshake on a stream of the relay, and the session.
unfoldable pub relay_handshake : {S : Type 0} → Crates S → HandshakeRole → Bytes → Attempt Session
unfolding shake from_split
relay_handshake c role s = do
  hs ← shake c role s
  let fingerprint = to_fingerprint c.words hs.remote_pubkey
  result (ok (relay (from_split hs fingerprint)))

unfoldable pub via_relay :
    {S : Type 0} → Crates S → HandshakeRole → String → Reply → Attempt Session
unfolding relay_handshake
via_relay c role code reply = do
  _ ← act (relay_connect code)
  tcp ← result (connect_via_relay_at reply)
  relay_handshake c role tcp

-- A connection and its stream; between the two the phase may change.
unfoldable pub establish : Quic → Attempt (Unit {0})
establish q = do _ ← result (map_err quic q.started); result (map_err quic q.connection)

unfoldable pub open_stream : Quic → Attempt Bytes
open_stream q = result (map_err quic q.stream)

-- The port to announce: as the STUN servers see it, or else our own.
unfoldable pub announce_port_of : Option SocketAddr → ℕ → ℕ
announce_port_of (some ext) local_port = ext.port
announce_port_of none local_port = local_port

-- Whether a peer has our external IP.
unfoldable pub same_nat : Option SocketAddr → SocketAddr → Bool
same_nat (some ext) peer = ext.ip == peer.ip
same_nat none peer = false
