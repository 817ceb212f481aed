-- ===== src/Session/Either.antt =====
-- `Session` of p2pshare-core/src/session/mod.rs: a direct or a relayed session.
use p2pfileshare.Base.{String}
use p2pfileshare.Base.Bytes.{Bytes}
use p2pfileshare.Session.Peer.{PeerSession}
use p2pfileshare.Session.Relay.{RelaySession}

pub data Session : Type 0 where
  direct : PeerSession → Session
  relay : RelaySession → Session

unfoldable pub remote_fingerprint : Session → String
remote_fingerprint (direct s) = s.remote_fingerprint
remote_fingerprint (relay s) = s.remote_fingerprint

unfoldable pub remote_pubkey : Session → Bytes
remote_pubkey (direct s) = s.remote_pubkey
remote_pubkey (relay s) = s.remote_pubkey
