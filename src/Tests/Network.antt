-- ===== src/Tests/Network.antt =====
-- A small network, the crates, and an identity.
use text.Mathlib.Text.{◌==◌ as str_eq}
use p2pfileshare.Base.{
  ℕ, ◌-◌, ◌==◌, if◌then◌else◌, Bool, true, false, List, [], ◌∷◌, none, some, ok, err, replicate,
}
use p2pfileshare.Base.Bytes.{Bytes}
use p2pfileshare.Contacts.{Contact, new_contact}
use p2pfileshare.Discovery.Dht.{Round}
use p2pfileshare.Handshake.{HandshakeState}
use p2pfileshare.HolePunch.{punch_magic}
use p2pfileshare.Identity.Storage.{UserIdentity}
use p2pfileshare.RelayClient.{bytes, silent}
use p2pfileshare.Session.Either.{Session, direct}
use p2pfileshare.Stun.{SocketAddr}
use p2pfileshare.Coordinator.Network.{
  Crates, Quic, Socket, HandshakeRole, initiator, responder, make_peer_session,
}
use p2pfileshare.Coordinator.Announce.{SenderNet}
use p2pfileshare.Coordinator.Lookup.{ReceiverNet, unseen}
use p2pfileshare.Coordinator.Contact.{ContactNet}
use p2pfileshare.Tests.Data.{tagging}

abbrev pub key : Bytes
key = replicate 32 7

-- One message of the initiator.
abbrev pub one_message : HandshakeState ℕ
one_message = record {
  is_handshake_finished = λ n. n == 0;
  is_my_turn = λ n. true;
  write_message = λ n. ok (n ∷ [], n - 1);
  read_message = λ n msg. ok (n - 1);
  get_remote_static = λ n. some key;
  into_stateless_transport_mode = λ n. ok tagging;
}

abbrev turns_of : HandshakeRole → ℕ
turns_of initiator = 1
turns_of responder = 0

abbrev pub crates : Crates ℕ
crates = record {
  sha1 = λ b. b;
  as_bytes = λ s. [];
  to_uppercase = λ s. s;
  words = λ n. "ABOUT";
  hex_decode = λ s. if str_eq s "" then ok [] else ok key;
  parse_addr = λ s. none;
  handshake = one_message;
  begin = turns_of;
  messages = 3;
}

abbrev pub peer : SocketAddr
peer = record { ip = 9; port = 4000 }

abbrev pub good : Quic
good = record { started = ok tt; connection = ok tt; stream = ok [] }

abbrev pub bad : Quic
bad = record { started = ok tt; connection = err "closed"; stream = ok [] }

abbrev pub socket : Socket
socket = record {
  bound = ok 5000;
  stun = λ k. ([], []);
  packets = ok (1 ∷ [], peer) ∷ ok (punch_magic, peer) ∷ [];
  unwrapped = ok tt;
  config = ok tt;
  endpoint = ok tt;
}

abbrev pub quiet : Socket
quiet = record socket { packets = [] }

abbrev pub rounds : List Round
rounds =
    record { peers = []; now = 0; announced = 0 }
    ∷ record { peers = []; now = 1500; announced = 0 }
    ∷ record { peers = []; now = 3000; announced = 0 }
    ∷ []

abbrev pub found : List Round
found =
    record { peers = []; now = 0; announced = 0 }
    ∷ record { peers = peer ∷ []; now = 1500; announced = 0 }
    ∷ []

abbrev pub sender : SenderNet
sender = record {
  lan = socket;
  incoming = some bad ∷ some good ∷ [];
  internet = quiet;
  announced_at = 100;
  polled_at = 100;
  rounds = found;
  accepted = some (some good);
  reply = bytes (1 ∷ []);
}

abbrev pub receiver : ReceiverNet
receiver = record {
  sighting = unseen;
  lan = socket;
  lan_quic = bad;
  internet = socket;
  internet_quic = good;
  looked_up_at = 100;
  rounds = found;
  reply = silent;
}

abbrev pub schedule : List Bool
schedule = false ∷ true ∷ false ∷ false ∷ false ∷ false ∷ false ∷ []

abbrev pub friend : Contact
friend = record (new_contact "id" 100 "Ann" "0707" "ABOUT-0001-ABOUT-0001") {
  last_known_addr = none;
}

abbrev pub friend_net : ContactNet
friend_net = record { rounds = found; socket = socket; dialled = good; reply = silent }

abbrev pub friend_session : Session
friend_session =
    direct (make_peer_session crates (record { remote_pubkey = key; transport = tagging }))

-- The only identity that is ever saved.
abbrev pub saved : UserIdentity
saved = record {
  public_key = "07";
  private_key = "07";
  display_name = "Unnamed";
  fingerprint = "ABOUT-1799-ABOUT-1799";
  created_at = 100;
}
