-- ===== src/Lib.antt =====
-- p2pfileshare: file transfer between two peers over QUIC or through a relay. Paths that do not begin
-- with a crate are under p2pshare-core/src/.
--
-- A sender announces a file by a manifest (transfer/manifest.rs), which cuts it into chunks. Each
-- chunk is encrypted in Noise messages under nonces of its own (session/mod.rs, the two sessions of
-- session/coordinator.rs and session/relay_session.rs) and sent as a frame on a data stream
-- (transfer/sender.rs). The receiver (transfer/receiver.rs) reads the frames, decrypts and checks
-- each chunk, writes it, and reports on a control stream: progress, chunks to send again, and the
-- end. It saves which chunks it has (transfer/resume.rs), so that an interrupted transfer can be
-- taken up again. Two counters stand behind the progress bar (transfer/progress.rs). Peers that cannot
-- reach each other meet at a relay (p2pshare-relay/src/main.rs), and a transfer then has one stream
-- for both directions' messages and chunks (transfer/relay_sender.rs, transfer/relay_receiver.rs).
-- How the two ends find each other and which path they take is session/coordinator.rs, over the DHT
-- (discovery/dht.rs), STUN and the hole punch (nat/). The app reaches all of it through api.rs, which
-- keeps the sessions under handles, the identity in a file and the contacts in a table. The command
-- line (p2pshare-cli/src/main.rs) uses the same functions.
--
-- Files of the development:
--   Base            results with an error, lists, big-endian bytes, sets of indices, text of numbers
--   Errors          error.rs
--   Manifest        transfer/manifest.rs; Chunks and Sums: how the chunks make up the file
--   Progress        transfer/progress.rs: the two counters as a pair
--   Files           the files of tokio::fs: length and bytes, with write and read at an offset
--   Resume          transfer/resume.rs: the states, their store, find_resumable; Laws
--   Session         chunk_nonce of session/mod.rs; Nonce: nonces are used once
--   Session.Cipher  encrypt_chunk, decrypt_sub_message, decrypt_chunk; RoundTrip
--   Session.Peer    send_ctrl and recv_ctrl of PeerSession; RoundTrip
--   Session.Relay   the messages of RelaySession; RoundTrip
--   Session.Codec   the MessagePack codec as a parameter
--   Sender          send_file_direct: its two loops as turns; Frames, FirstPass
--   Receiver        the loop of receive_file_direct and its end; Start: manifest, resume, counters
--   Receiver.View   the receiver without its channels; Frames: how facts go through the loop
--   Receiver.Invariant, Integrity, Delivery, Termination, Saves: what holds of every stream
--   Receiver.Honest, Calm, Completion: what holds of the stream of a sender that follows sender.rs
--   Transfer        the stream of the sender in the receiver
--   RelayReceiver   transfer/relay_receiver.rs; View, Opened, Calm, Honest, Delivery,
--                   Termination
--   RelaySender     transfer/relay_sender.rs; FirstPass
--   RelayTransfer   the stream of the relay sender in the relay receiver
--   RelayServer     p2pshare-relay/src/main.rs as a step relation; SameToken, Race
--   RelayClient     nat/relay.rs: the address of the relay, the token, the pairing signal; Addresses
--   Stun            nat/stun.rs: Xor, Attributes, Response
--   Handshake       crypto/handshake.rs; Turns
--   HolePunch       nat/hole_punch.rs on the packets that arrive; Laws
--   Identity        Fingerprint: identity/fingerprint.rs; Storage: identity/storage.rs, Laws
--   Discovery       ShareCode: discovery/share_code.rs; Dht: discovery/dht.rs, Retry: polling ends;
--                   Packets: discovery/lan_broadcast.rs and lan_multicast.rs, Decimal, Announced;
--                   Mdns: discovery/mdns.rs; Presence: discovery/presence.rs
--   Contacts        contacts/model.rs; Store: contacts/store.rs, its SQL on a list of rows
--   Coordinator     session/coordinator.rs; Phase: transfer/conn_status.rs; Attempt: actions, outcomes
--                   and select! as a race; Network: what is met, and the shared steps; Announce and
--                   Lookup: the two sides; LocalOnly, RelayOnly, Contact: the other ways
--   Coordinator.Ensures, Steps, Loops, Rules, AnnouncePaths, LookupPaths, Connected: how facts go
--                   through the paths
--   Coordinator.Sessions, Verified, Shown, Announce.Poll: what holds of the sessions, of the phase
--                   and of polling
--   Api             api.rs; Registry and Handles: the sessions; Sessions and Drive: the calls on them;
--                   People: the identity and the contacts, Unkeyed; Presence: who is online;
--                   Settings: the other calls
--   Cli             p2pshare-cli/src/main.rs; Printed: lines and endings; Commands; Contacts, Distinct;
--                   Sent: when it ends with 0
--   Tests           the theorems at concrete inputs
--
-- State and operations. A stream is the list of its bytes, and a read gives what is left of it. A
-- function of the source that changes a session, a counter or a file gives the changed record. An
-- operation that fails gives an Error, and its state is dropped with it, as the `?` of the source
-- ends the transfer. The background write of the receiver is the field pending_write: the file
-- changes when the write is awaited. The loops of the sender run side by side, so a run is a list
-- of turns of either of them, and the theorems hold of every list.
--
-- An attempt to connect is the list of what it does that others can see (phases, announcements, hole
-- punches, connections to the relay) with its outcome: still waiting, a panic, or a result. The arms of
-- a select! take turns by a list, and the theorems hold of every list. What the network answers (STUN,
-- the DHT, packets, incoming connections, the relay) is a record of values, so that a property of an
-- attempt holds of every network. Time is in the rounds of polling, which carry their own clock.
--
-- Numbers are natural numbers; u64 and u32 arithmetic is written out with its remainder where it can
-- wrap, and u64 subtraction wraps as in a release build. Bytes are read modulo 256.
--
-- Fuel. receive_loop takes fuel; Receiver.Termination shows that more than the length of the data
-- stream is enough, since every frame takes at least ten bytes. relay_loop takes fuel in the same way
-- (RelayReceiver.Termination).
--
-- Parameters. snow (Noise), rmp_serde and serde_json are records of functions (Session.Cipher.Noise,
-- Session.Codec.Codec, Resume.Json), with their documented behaviour as records of laws (IsPaired,
-- IsShort, IsAuthentic, IsCodec, IsJson), and Handshake.Turns.Talk for the two ends of a handshake.
-- Receiver.Calm.IsCalm asks of the codec only that Progress and Complete fit one Noise message. File metadata, the random session id and the clock are
-- arguments of build_manifest. Errors of the disk are an argument of the receiver's steps.
--
-- Not modelled: the intervals at which announcements on the LAN and punches are sent, the
-- configuration of QUIC, the registration with mDNS, the parser of the arguments; resolving names and
-- opening sockets only give results. Log lines are left out. The listeners on the LAN take a packet
-- whole, while the source cuts it to its buffer of 256 bytes. The removal of a state file and the
-- duplication of a file handle do not fail in the model, and writes to a stream succeed: a stream that fails ends the transfer with an error at the next step in the source.
pub mod Base
pub mod Errors
pub mod Manifest
pub mod Session
pub mod Progress
pub mod Files
pub mod Resume
pub mod Receiver
pub mod Sender
pub mod Transfer
pub mod RelayReceiver
pub mod RelaySender
pub mod RelayTransfer
pub mod RelayServer
pub mod Stun
pub mod Handshake
pub mod RelayClient
pub mod Identity
pub mod Discovery
pub mod HolePunch
pub mod Contacts
pub mod Coordinator
pub mod Cli
pub mod Api
pub mod Tests
