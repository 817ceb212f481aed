-- ===== src/Coordinator/Contact.antt =====
-- `connect_to_contact` and `lookup_contact_on_dht`.
use p2pfileshare.Base.{
  ◌==◌, if◌then◌else◌, String, ◌<>◌, not, List, [], length, none, some, ok, err, map_err, fail_if,
}
use p2pfileshare.Base.Bytes.{Bytes}
use p2pfileshare.Errors.{Result, connection_failed, hole_punch_timeout}
use p2pfileshare.Contacts.{Contact}
use p2pfileshare.Discovery.Dht.{Round, lookup_with_retry}
use p2pfileshare.HolePunch.{hole_punch}
use p2pfileshare.Identity.Fingerprint.{to_fingerprint}
use p2pfileshare.RelayClient.{Reply, connect_via_relay_at}
use p2pfileshare.Resume.{same_id}
use p2pfileshare.Session.Either.{Session, direct, relay}
use p2pfileshare.Stun.{SocketAddr, external_addr, stun_attempts}
use p2pfileshare.Coordinator.Attempt.{
  announce, punch, send_punches, relay_connect, Attempt, ◌>>=◌, result, act,
}
use p2pfileshare.Coordinator.Network.{
  Crates, Quic, Socket, initiator, make_peer_session, from_split, shake, establish, open_stream,
  announce_port_of,
}
use p2pfileshare.Coordinator.Lookup.{first_peer}

pub record ContactNet : Type 0 where
  pub rounds : List Round
  pub socket : Socket
  pub dialled : Quic
  pub reply : Reply

unfoldable pub key_of_hex : {S : Type 0} → Crates S → String → Result Bytes
key_of_hex c text = elim (c.hex_decode text) [
  | err e ↦ err (connection_failed "invalid contact public key")
  | ok key ↦ if length key == 32 then ok key else err (connection_failed "public key wrong length")
]

unfoldable pub lookup_contact_on_dht :
    {S : Type 0} → Crates S → String → List Round → Attempt SocketAddr
unfolding first_peer
lookup_contact_on_dht c public_key rounds = do
  _ ← result (map_err (λ e. connection_failed "bad public key hex") (c.hex_decode public_key))
  first_peer (lookup_with_retry 20000 rounds)

-- The address of the last time if it can be read, or else the one in the DHT.
unfoldable pub resolve : {S : Type 0} → Crates S → Contact → List Round → Attempt SocketAddr
unfolding lookup_contact_on_dht
resolve c contact rounds = elim contact.last_known_addr [
  | none ↦ lookup_contact_on_dht c contact.public_key rounds
  | some text ↦ elim (c.parse_addr text) [
    | some addr ↦ result (ok addr)
    | none ↦ lookup_contact_on_dht c contact.public_key rounds
  ]
]

-- The infohash on which we announce ourselves.
unfoldable pub contact_infohash : {S : Type 0} → Crates S → String → Bytes
contact_infohash c public_key = elim (c.hex_decode public_key) [
  | ok key ↦ c.sha1 key
  | err e ↦ c.sha1 []
]

unfoldable pub dial_contact :
    {S : Type 0} → Crates S → Contact → ContactNet → Bytes → SocketAddr → Attempt Session
unfolding establish open_stream shake make_peer_session
dial_contact c contact n expected_pubkey peer_addr = do
  _ ← act (send_punches 10 peer_addr)
  _ ← result n.socket.unwrapped
  _ ← result n.socket.endpoint
  _ ← result n.socket.config
  _ ← establish n.dialled
  s ← open_stream n.dialled
  hs ← shake c initiator s
  let got = to_fingerprint c.words hs.remote_pubkey
  let why = "identity mismatch: expected " <> contact.fingerprint <> " but got " <> got
  _ ← result (fail_if (not (same_id hs.remote_pubkey expected_pubkey)) (connection_failed why))
  result (ok (direct (make_peer_session c hs)))

unfoldable pub relay_to_contact :
    {S : Type 0} → Crates S → Contact → ContactNet → Bytes → Attempt Session
unfolding shake from_split
relay_to_contact c contact n expected_pubkey = do
  _ ← act (relay_connect contact.fingerprint)
  tcp ← result (connect_via_relay_at n.reply)
  hs ← shake c initiator tcp
  _ ← result (
      fail_if (not (same_id hs.remote_pubkey expected_pubkey))
        (connection_failed "identity mismatch on relay"))
  let fingerprint = to_fingerprint c.words hs.remote_pubkey
  result (ok (relay (from_split hs fingerprint)))

unfoldable pub after_contact_punch :
    {S : Type 0}
    → Crates S
    → Contact
    → ContactNet
    → Bytes
    → SocketAddr
    → Result (Unit {0})
    → Attempt Session
unfolding dial_contact relay_to_contact
after_contact_punch c contact n expected peer_addr (ok _) =
    dial_contact c contact n expected peer_addr
after_contact_punch c contact n expected peer_addr (err hole_punch_timeout) =
    relay_to_contact c contact n expected
after_contact_punch c contact n expected peer_addr (err e) = result (err e)

unfoldable pub connect_to_contact : {S : Type 0} → Crates S → Contact → ContactNet → Attempt Session
unfolding key_of_hex resolve contact_infohash after_contact_punch
connect_to_contact c contact n = do
  expected_pubkey ← result (key_of_hex c contact.public_key)
  peer_addr ← resolve c contact n.rounds
  local_port ← result n.socket.bound
  let own_ext = external_addr stun_attempts n.socket.stun
  let announce_port = announce_port_of own_ext local_port
  _ ← act (announce (contact_infohash c contact.public_key) announce_port)
  _ ← act (punch peer_addr)
  after_contact_punch c contact n expected_pubkey peer_addr (hole_punch peer_addr n.socket.packets)
