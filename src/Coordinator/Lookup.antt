-- ===== src/Coordinator/Lookup.antt =====
-- `lookup_and_connect`: the side of the receiver.
use p2pfileshare.Base.{ℕ, String, Bool, true, false, List, [], ◌∷◌, Option, none, some, ok, err}
use p2pfileshare.Errors.{Error, Result, connection_failed, hole_punch_timeout, peer_not_found}
use p2pfileshare.Discovery.ShareCode.{to_recv_infohash}
use p2pfileshare.Discovery.Dht.{Round, lookup_with_retry}
use p2pfileshare.HolePunch.{hole_punch}
use p2pfileshare.RelayClient.{Reply}
use p2pfileshare.Session.Either.{Session, direct}
use p2pfileshare.Stun.{SocketAddr, external_addr, stun_attempts}
use p2pfileshare.Coordinator.Phase.{
  announcing, waiting_for_peer, peer_found, hole_punching, connecting, handshaking, connected,
  relay_connecting,
}
use p2pfileshare.Coordinator.Attempt.{
  set, announce, punch, send_punches, waiting, panicked, Attempt, attempt, ◌>>=◌, result, act, race,
}
use p2pfileshare.Coordinator.Network.{
  Crates, Quic, Socket, initiator, make_peer_session, shake, via_relay, establish, open_stream,
  announce_port_of, same_nat,
}

-- What the listeners on the LAN give within their time: an address, nothing, or an error from every
-- one of them. The `select!` over them has no `else`, so that it panics in the last case.
pub data Sighting : Type 0 where
  sighted : SocketAddr → Sighting
  unseen : Sighting
  all_failed : Sighting

-- What the receiver meets. The hours of the code are those of its lookup.
pub record ReceiverNet : Type 0 where
  pub sighting : Sighting
  pub lan : Socket
  pub lan_quic : Quic
  pub internet : Socket
  pub internet_quic : Quic
  pub looked_up_at : ℕ
  pub rounds : List Round
  pub reply : Reply

unfoldable pub sender_on_lan : Error → Sighting → Attempt SocketAddr
sender_on_lan timed_out (sighted addr) = result (ok addr)
sender_on_lan timed_out unseen = result (err timed_out)
sender_on_lan timed_out all_failed = attempt [] panicked

-- A QUIC client on a fresh socket, up to the end of the handshake.
unfoldable pub dial_on_lan : {S : Type 0} → Crates S → ReceiverNet → Attempt Session
unfolding establish open_stream shake make_peer_session
dial_on_lan c n = do
  _ ← result n.lan.bound
  _ ← result n.lan.endpoint
  _ ← result n.lan.config
  _ ← establish n.lan_quic
  s ← open_stream n.lan_quic
  hs ← shake c initiator s
  result (ok (direct (make_peer_session c hs)))

unfoldable pub lan_lookup_arm : {S : Type 0} → Crates S → ReceiverNet → Attempt Session
unfolding sender_on_lan dial_on_lan
lan_lookup_arm c n = do
  _ ← sender_on_lan peer_not_found n.sighting
  session ← dial_on_lan c n
  _ ← act (set connected)
  result (ok session)

-- `into_iter().next().ok_or(Error::PeerNotFound)` on what the DHT has at the end of the retries.
unfoldable pub first_peer : Option (List SocketAddr) → Attempt SocketAddr
first_peer none = attempt [] waiting
first_peer (some []) = result (err peer_not_found)
first_peer (some (addr ∷ peers)) = result (ok addr)

-- The QUIC client on the punched socket.
unfoldable pub dial_punched : {S : Type 0} → Crates S → ReceiverNet → SocketAddr → Attempt Session
unfolding establish open_stream shake make_peer_session
dial_punched c n sender_addr = do
  _ ← act (send_punches 10 sender_addr)
  _ ← act (set connecting)
  _ ← result n.internet.unwrapped
  _ ← result n.internet.endpoint
  _ ← result n.internet.config
  _ ← establish n.internet_quic
  _ ← act (set handshaking)
  s ← open_stream n.internet_quic
  hs ← shake c initiator s
  _ ← act (set connected)
  result (ok (direct (make_peer_session c hs)))

unfoldable pub relay_after_timeout :
    {S : Type 0} → Crates S → Bool → String → Reply → Attempt Session
unfolding via_relay
relay_after_timeout c false code reply =
    result (err (connection_failed "hole punch timed out and relay is disabled"))
relay_after_timeout c true code reply = do
  _ ← act (set relay_connecting)
  via_relay c initiator code reply

-- The `match` on the hole punch.
unfoldable pub after_lookup_punch :
    {S : Type 0}
    → Crates S
    → ReceiverNet
    → Bool
    → String
    → SocketAddr
    → Result (Unit {0})
    → Attempt Session
unfolding dial_punched relay_after_timeout
after_lookup_punch c n allow_relay code sender_addr (ok _) = dial_punched c n sender_addr
after_lookup_punch c n allow_relay code sender_addr (err hole_punch_timeout) =
    relay_after_timeout c allow_relay code n.reply
after_lookup_punch c n allow_relay code sender_addr (err e) = result (err e)

-- Behind the same router there is no hole punch; the phase stays as it is.
unfoldable pub relay_same_nat : {S : Type 0} → Crates S → Bool → String → Reply → Attempt Session
unfolding via_relay
relay_same_nat c false code reply =
    result (err (connection_failed "same-NAT: LAN path failed and relay is disabled"))
relay_same_nat c true code reply = via_relay c initiator code reply

-- The internet path after the back-announcement.
unfoldable pub reach_sender :
    {S : Type 0} → Crates S → ReceiverNet → Bool → String → Bool → SocketAddr → Attempt Session
unfolding relay_same_nat after_lookup_punch
reach_sender c n allow_relay code true sender_addr = relay_same_nat c allow_relay code n.reply
reach_sender c n allow_relay code false sender_addr = do
  _ ← act (set hole_punching)
  _ ← act (punch sender_addr)
  after_lookup_punch c n allow_relay code sender_addr (hole_punch sender_addr n.internet.packets)

unfoldable pub internet_lookup_arm :
    {S : Type 0} → Crates S → ReceiverNet → Bool → String → Attempt Session
unfolding first_peer reach_sender
internet_lookup_arm c n allow_relay code = do
  let sha1 = λ (text : String). c.sha1 (c.as_bytes text)
  _ ← act (set waiting_for_peer)
  sender_addr ← first_peer (lookup_with_retry 30000 n.rounds)
  _ ← act (set peer_found)
  local_port ← result n.internet.bound
  let own_ext = external_addr stun_attempts n.internet.stun
  let announce_port = announce_port_of own_ext local_port
  _ ← act (announce (to_recv_infohash sha1 n.looked_up_at code) announce_port)
  reach_sender c n allow_relay code (same_nat own_ext sender_addr) sender_addr

unfoldable pub lookup_and_connect :
    {S : Type 0} → Crates S → ReceiverNet → String → Bool → List Bool → Attempt Session
unfolding lan_lookup_arm internet_lookup_arm race
lookup_and_connect c n code allow_relay turns = do
  _ ← act (set announcing)
  race false peer_not_found turns (lan_lookup_arm c n)
      (internet_lookup_arm c n allow_relay (c.to_uppercase code))
