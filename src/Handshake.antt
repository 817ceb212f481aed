-- ===== src/Handshake.antt =====
-- p2pshare-core/src/crypto/handshake.rs: the Noise handshake over a byte stream. The handshake state
-- of `snow` is a parameter; each message is framed with a length of two bytes.
pub mod Turns
use p2pfileshare.Base.{
  ℕ, zero, suc, ◌==◌, if◌then◌else◌, Bool, true, false, not, String, List, [], ◌∷◌, ◌++◌, length,
  Option, none, some, Res, ok, err, ◌>>=◌, map_err, fail_if,
}
use p2pfileshare.Base.Bytes.{Bytes, to_be_bytes, from_be_bytes, read_exact}
use p2pfileshare.Errors.{Error, Result, noise, io}
use p2pfileshare.Session.Cipher.{Noise}

-- `snow::HandshakeState`
pub record HandshakeState (S : Type 0) : Type 0 where
  pub is_handshake_finished : S → Bool
  pub is_my_turn : S → Bool
  pub write_message : S → Res String (Bytes × S)
  pub read_message : S → Bytes → Res String S
  pub get_remote_static : S → Option Bytes
  pub into_stateless_transport_mode : S → Res String Noise

pub record HandshakeResult : Type 0 where
  pub remote_pubkey : Bytes
  pub transport : Noise

unfoldable pub send_framed : Bytes → Bytes
send_framed msg = to_be_bytes 2 (length msg) ++ msg

unfoldable pub recv_framed : Bytes → Result (Bytes × Bytes)
recv_framed s = do
  (len_buf, s) ← read_exact (io "early eof") 2 s
  read_exact (io "early eof") (from_be_bytes len_buf) s

-- A turn: a message is written behind `out`, or one is read off `s`.
unfoldable pub handshake_turn :
    {S : Type 0} → HandshakeState S → S → Bytes → Bytes → Result (S × Bytes × Bytes)
unfolding send_framed recv_framed
handshake_turn hs state out s =
    if hs.is_my_turn state
    then (do
      (msg, state) ← map_err noise (hs.write_message state)
      ok (state, out ++ send_framed msg, s))
    else (do
      (msg, s) ← recv_framed s
      state ← map_err noise (hs.read_message state msg)
      ok (state, out, s))

-- `while !hs.is_handshake_finished()`; `none` means that the fuel ran out.
unfoldable pub handshake_loop :
    {S : Type 0} → ℕ → HandshakeState S → S → Bytes → Bytes → Option (Result (S × Bytes × Bytes))
unfolding handshake_turn
handshake_loop zero hs state out s = none
handshake_loop (suc fuel) hs state out s = elim (hs.is_handshake_finished state) [
  | true ↦ some (ok (state, out, s))
  | false ↦ elim (handshake_turn hs state out s) [
    | ok (state', out', s') ↦ handshake_loop fuel hs state' out' s'
    | err e ↦ some (err e)
  ]
]

unfoldable pub remote_key : Option Bytes → Result Bytes
remote_key none = err (noise "remote static key unavailable post-handshake")
remote_key (some key) = do
  _ ← fail_if (not (length key == 32)) (noise "remote static key is not 32 bytes")
  ok key

-- What is made of a finished handshake.
unfoldable pub conclude : {S : Type 0} → HandshakeState S → S → Result HandshakeResult
unfolding remote_key
conclude hs state = do
  key ← remote_key (hs.get_remote_static state)
  transport ← map_err noise (hs.into_stateless_transport_mode state)
  ok (record { remote_pubkey = key; transport = transport })

-- The whole handshake on a fresh state: the result, what was written, and what is left to read.
unfoldable pub perform_handshake :
    {S : Type 0}
    → ℕ
    → HandshakeState S
    → S
    → Bytes
    → Option (Result (HandshakeResult × Bytes × Bytes))
unfolding handshake_loop conclude
perform_handshake fuel hs state s = elim (handshake_loop fuel hs state [] s) [
  | none ↦ none
  | some (err e) ↦ some (err e)
  | some (ok (state', out, rest)) ↦
      let concluded = (do result ← conclude hs state'; ok (result, out, rest)) in some concluded
]
