-- ===== src/Tests/Handshakes.antt =====
-- A handshake of three messages.
use p2pfileshare.Base.{
  ℕ, ◌-◌, ◌%◌, ◌==◌, ◌≡◌, refl, Bool, true, false, some, replicate, if◌then◌else◌, [], ◌∷◌, ◌++◌,
  ok, arith,
}
use p2pfileshare.Base.Bytes.{Bytes}
use p2pfileshare.Handshake.{HandshakeState, send_framed, recv_framed, perform_handshake}
use p2pfileshare.Handshake.Turns.{Talk, over, said, recv-send_framed, handshakes_meet}
use p2pfileshare.Tests.Data.{tagging}

recv-send_framed_example :
    recv_framed (send_framed (4 ∷ 5 ∷ []) ++ (6 ∷ [])) ≡ ok (4 ∷ 5 ∷ [], 6 ∷ [])
recv-send_framed_example = recv-send_framed (4 ∷ 5 ∷ []) (6 ∷ []) (omega arith)

abbrev key : Bytes
key = replicate 32 7

-- The state is the number of the messages to come and whether it is the first end, which sends the
-- first and the last one.
abbrev three : HandshakeState (ℕ × Bool)
three = record {
  is_handshake_finished = λ (n, first). n == 0;
  is_my_turn = λ (n, first). if first then n % 2 == 1 else n % 2 == 0;
  write_message = λ (n, first). ok (n ∷ [], (n - 1, first));
  read_message = λ (n, first) msg. ok (n - 1, first);
  get_remote_static = λ _. some key;
  into_stateless_transport_mode = λ _. ok tagging;
}

three-Talk : Talk three 3 (3, true) (3, false) (0, true) (0, false)
three-Talk = said (3 ∷ []) refl refl refl refl refl refl (omega arith) (
    said (2 ∷ []) refl refl refl refl refl refl (omega arith)
      (said (1 ∷ []) refl refl refl refl refl refl (omega arith) (over refl refl)))

handshakes_meet_example :
    (told : Bytes) × (heard : Bytes) × ((rest : Bytes)
      → perform_handshake 4 three (3, true) (heard ++ rest)
        ≡ some (ok (record { remote_pubkey = key; transport = tagging }, told, rest)))
    × ((rest : Bytes)
        → perform_handshake 4 three (3, false) (told ++ rest)
          ≡ some (ok (record { remote_pubkey = key; transport = tagging }, heard, rest)))
handshakes_meet_example =
    handshakes_meet three 3 4 (3, true) (3, false) (0, true) (0, false) key key tagging tagging
      three-Talk refl refl refl refl refl refl (omega arith)
