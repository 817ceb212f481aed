-- ===== src/Coordinator/Announce.antt =====
-- `announce_and_connect_with_code` and `poll_for_receiver`: the side of the sender.
pub mod Poll
use p2pfileshare.Base.{
  ℕ, ◌-◌, ◌*◌, max, leb, if◌then◌else◌, String, Bool, true, false, not, List, [], ◌∷◌, Option, none,
  some, Res, ok, err, map_err,
}
use p2pfileshare.Base.Bytes.{Bytes}
use p2pfileshare.Errors.{Error, Result, quic, connection_failed, hole_punch_timeout, peer_not_found}
use p2pfileshare.Discovery.ShareCode.{
  generate_share_code, to_infohash, to_recv_infohash, secs_until_expiry,
}
use p2pfileshare.Discovery.Dht.{Round}
use p2pfileshare.Handshake.{HandshakeResult}
use p2pfileshare.HolePunch.{hole_punch}
use p2pfileshare.RelayClient.{Reply}
use p2pfileshare.Session.Either.{Session, direct}
use p2pfileshare.Stun.{SocketAddr, external_addr, stun_attempts}
use p2pfileshare.Coordinator.Phase.{
  announcing, waiting_for_peer, peer_found, hole_punching, connecting, handshaking, connected,
  relay_connecting,
}
use p2pfileshare.Coordinator.Attempt.{
  Action, set, announce, punch, waiting, Attempt, attempt, prepend, ◌>>=◌, result, act, or_else,
  race,
}
use p2pfileshare.Coordinator.Network.{
  Crates, Quic, Socket, responder, make_peer_session, shake, via_relay, establish, open_stream,
  announce_port_of, same_nat,
}

-- What the sender meets. `none` among the incoming connections means that the endpoint was closed;
-- `accepted` is what the endpoint of the internet path has after 15 seconds at most. The times are
-- those of the announcement and of the start of the internet path, in seconds.
pub record SenderNet : Type 0 where
  pub lan : Socket
  pub incoming : List (Option Quic)
  pub internet : Socket
  pub announced_at : ℕ
  pub polled_at : ℕ
  pub rounds : List Round
  pub accepted : Option (Option Quic)
  pub reply : Reply

-- The loop over the incoming connections: one that fails does not end it.
unfoldable pub accept_peer : {S : Type 0} → Crates S → List (Option Quic) → Attempt HandshakeResult
unfolding shake establish open_stream
accept_peer c [] = attempt [] waiting
accept_peer c (none ∷ incoming) = result (err (connection_failed "LAN endpoint closed"))
accept_peer c (some q ∷ incoming) =
    let this = (do _ ← establish q; s ← open_stream q; shake c responder s) in
    or_else this (accept_peer c incoming)

unfoldable pub lan_arm : {S : Type 0} → Crates S → List (Option Quic) → Attempt Session
unfolding accept_peer make_peer_session
lan_arm c incoming = do
  hs ← accept_peer c incoming
  _ ← act (set connected)
  result (ok (direct (make_peer_session c hs)))

-- In milliseconds.
abbrev pub reannounce_interval : ℕ
reannounce_interval = 240000

-- A round: what is found, whether the time is over, and the rounds to come.
unfoldable pub poll_round : List SocketAddr → Bool → Attempt SocketAddr → Attempt SocketAddr
poll_round (addr ∷ peers) late rest = result (ok addr)
poll_round [] true rest = result (err peer_not_found)
poll_round [] false rest = rest

-- The announcement again, if the last one is stale.
unfoldable pub refresh : Bool → Bytes → ℕ → List Action
refresh true own_infohash own_port = announce own_infohash own_port ∷ []
refresh false own_infohash own_port = []

-- The loop from the round on that comes next, with the time of the last announcement.
unfoldable pub poll_for_receiver : Bytes → ℕ → ℕ → ℕ → List Round → Attempt SocketAddr
unfolding poll_round refresh
poll_for_receiver own_infohash own_port deadline last_announce [] = attempt [] waiting
poll_for_receiver own_infohash own_port deadline last_announce (r ∷ rounds) =
    let stale = leb reannounce_interval (r.now - last_announce) in
    let rest =
      poll_for_receiver own_infohash own_port deadline
        (if stale then r.announced else last_announce) rounds in
    poll_round r.peers (leb deadline r.now) (prepend (refresh stale own_infohash own_port) rest)

-- `timeout(15 s, ep.accept())`
unfoldable pub incoming_of : Option (Option Quic) → Result Quic
incoming_of none = err (connection_failed "timed out waiting for QUIC")
incoming_of (some none) = err (connection_failed "endpoint closed")
incoming_of (some (some q)) = ok q

-- The QUIC server on the punched socket.
unfoldable pub serve : {S : Type 0} → Crates S → SenderNet → Attempt Session
unfolding incoming_of establish open_stream shake make_peer_session
serve c n = do
  _ ← act (set connecting)
  _ ← result n.internet.unwrapped
  _ ← result n.internet.endpoint
  q ← result (incoming_of n.accepted)
  _ ← establish q
  _ ← act (set handshaking)
  s ← open_stream q
  hs ← shake c responder s
  _ ← act (set connected)
  result (ok (direct (make_peer_session c hs)))

-- The relay, where it is allowed.
unfoldable pub fall_back :
    {S : Type 0} → Crates S → Bool → String → String → Reply → Attempt Session
unfolding via_relay
fall_back c false why code reply = result (err (connection_failed why))
fall_back c true why code reply = do
  _ ← act (set relay_connecting)
  via_relay c responder code reply

-- The `match` on the hole punch.
unfoldable pub after_punch :
    {S : Type 0} → Crates S → SenderNet → Bool → String → Result (Unit {0}) → Attempt Session
unfolding serve fall_back
after_punch c n allow_relay code (ok _) = serve c n
after_punch c n allow_relay code (err hole_punch_timeout) =
    fall_back c allow_relay "hole punch timed out and relay is disabled" code n.reply
after_punch c n allow_relay code (err e) = result (err e)

-- Where hairpin NAT is certain there is no hole punch.
unfoldable pub choose_path :
    {S : Type 0} → Crates S → SenderNet → Bool → String → Bool → SocketAddr → Attempt Session
unfolding fall_back after_punch
choose_path c n allow_relay code true receiver_addr =
    fall_back c allow_relay "same-NAT: LAN path failed and relay is disabled" code n.reply
choose_path c n allow_relay code false receiver_addr = do
  _ ← act (set hole_punching)
  _ ← act (punch receiver_addr)
  after_punch c n allow_relay code (hole_punch receiver_addr n.internet.packets)

-- The internet path once a receiver has been found.
unfoldable pub reach_receiver :
    {S : Type 0}
    → Crates S
    → SenderNet
    → Bool
    → String
    → Option SocketAddr
    → SocketAddr
    → Attempt Session
unfolding choose_path
reach_receiver c n allow_relay code own_ext receiver_addr = do
  _ ← act (set peer_found)
  choose_path c n allow_relay code (same_nat own_ext receiver_addr) receiver_addr

unfoldable pub internet_arm :
    {S : Type 0} → Crates S → SenderNet → Bool → String → Option SocketAddr → ℕ → Attempt Session
unfolding poll_for_receiver reach_receiver
internet_arm c n allow_relay code own_ext announce_port = do
  let sha1 = λ (text : String). c.sha1 (c.as_bytes text)
  let wait_secs = max (secs_until_expiry n.polled_at n.polled_at) 120
  receiver_addr ←
      poll_for_receiver (to_infohash sha1 n.announced_at code) announce_port (wait_secs * 1000) 0
        n.rounds
  reach_receiver c n allow_relay code own_ext receiver_addr

-- `turns` is the schedule of the two arms.
unfoldable pub announce_and_connect_with_code :
    {S : Type 0} → Crates S → SenderNet → String → Bool → List Bool → Attempt Session
unfolding lan_arm internet_arm race
announce_and_connect_with_code c n code allow_relay turns = do
  let sha1 = λ (text : String). c.sha1 (c.as_bytes text)
  _ ← result n.lan.config
  _ ← result n.lan.bound
  _ ← result n.lan.endpoint
  _ ← result n.internet.config
  local_port ← result n.internet.bound
  let own_ext = external_addr stun_attempts n.internet.stun
  let announce_port = announce_port_of own_ext local_port
  _ ← act (set announcing)
  _ ← act (announce (to_infohash sha1 n.announced_at code) announce_port)
  _ ← act (set waiting_for_peer)
  race true peer_not_found turns (lan_arm c n.incoming)
      (internet_arm c n allow_relay code own_ext announce_port)

-- `r` and `s` are random.
unfoldable pub announce_and_connect :
    {S : Type 0} → Crates S → SenderNet → ℕ → ℕ → List Bool → Attempt (String × Session)
unfolding announce_and_connect_with_code
announce_and_connect c n r s turns = do
  let code = generate_share_code c.words r s
  session ← announce_and_connect_with_code c n code true turns
  result (ok (code, session))
