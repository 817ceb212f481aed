-- ===== src/Coordinator/LocalOnly.antt =====
-- `announce_mdns_only_with_code` and `lookup_mdns_only`: the LAN alone.
use p2pfileshare.Base.{List, Option, ok}
use p2pfileshare.Errors.{Error, connection_failed}
use p2pfileshare.Session.Either.{Session, direct}
use p2pfileshare.Coordinator.Attempt.{Attempt, ◌>>=◌, result}
use p2pfileshare.Coordinator.Network.{Crates, Quic, Socket, make_peer_session}
use p2pfileshare.Coordinator.Announce.{accept_peer}
use p2pfileshare.Coordinator.Lookup.{ReceiverNet, sender_on_lan, dial_on_lan}

unfoldable pub announce_mdns_only_with_code :
    {S : Type 0} → Crates S → Socket → List (Option Quic) → Attempt Session
unfolding accept_peer make_peer_session
announce_mdns_only_with_code c socket incoming = do
  _ ← result socket.config
  _ ← result socket.bound
  _ ← result socket.endpoint
  hs ← accept_peer c incoming
  result (ok (direct (make_peer_session c hs)))

abbrev pub not_on_lan : Error
not_on_lan =
    connection_failed
      "Sender not found on local network. Check that both devices are on the same WiFi and your router does not have AP/Client Isolation enabled."

unfoldable pub lookup_mdns_only : {S : Type 0} → Crates S → ReceiverNet → Attempt Session
unfolding sender_on_lan dial_on_lan
lookup_mdns_only c n = do _ ← sender_on_lan not_on_lan n.sighting; dial_on_lan c n
