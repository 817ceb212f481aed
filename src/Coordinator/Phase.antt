-- ===== src/Coordinator/Phase.antt =====
-- p2pshare-core/src/transfer/conn_status.rs: the codes of the phases. The current one is the code
-- that was set last.
use p2pfileshare.Base.{ℕ}

abbrev pub idle : ℕ
idle = 0

abbrev pub announcing : ℕ
announcing = 1

abbrev pub waiting_for_peer : ℕ
waiting_for_peer = 2

abbrev pub peer_found : ℕ
peer_found = 3

abbrev pub hole_punching : ℕ
hole_punching = 4

abbrev pub connecting : ℕ
connecting = 5

abbrev pub handshaking : ℕ
handshaking = 6

abbrev pub connected : ℕ
connected = 7

abbrev pub relay_connecting : ℕ
relay_connecting = 8
