-- ===== src/Handshake/Turns.antt =====
-- The messages of a handshake on the wire, and its end.
use p2pfileshare.Base.{
  ℕ, zero, suc, ◌^◌, ◌<◌, ◌≡◌, refl, sym, ap, ◌∙◌, true, false, [], ◌++◌, length, append_assoc,
  append-nil, some, ok, arith, fail_if,
}
use p2pfileshare.Base.Bytes.{
  Bytes, to_be_bytes, length-to_be_bytes, from-to_be_bytes, read_exact-append,
}
use p2pfileshare.Errors.{io}
use p2pfileshare.Session.Cipher.{Noise}
use p2pfileshare.Handshake.{
  HandshakeState, send_framed, recv_framed, handshake_turn, handshake_loop, perform_handshake,
  remote_key, conclude,
}

-- A message of at most 65535 bytes that one end writes, the other end reads, with the rest of the
-- stream behind it.
pub recv-send_framed :
    (msg rest : Bytes)
    → length msg < 2 ^ 16
    → recv_framed (send_framed msg ++ rest) ≡ ok (msg, rest)
unfolding recv_framed send_framed
recv-send_framed msg rest h = rw append_assoc (
    rw
      (read_exact-append (io "early eof") (to_be_bytes 2 (length msg)) (msg ++ rest) 2
        (length-to_be_bytes 2 (length msg)))
      (rw (from-to_be_bytes 2 (length msg) (omega arith))
        (read_exact-append (io "early eof") msg rest (length msg) refl)))

-- What a Noise library promises of the two ends of one handshake, for `messages` messages that are
-- still to come: both ends are finished at the same time, and before that exactly one has the turn
-- and writes a message that fits the frame, which the other reads. The last two states are those
-- that the ends come to.
pub data Talk {S : Type 0} (hs : HandshakeState S) : (messages : ℕ) → S → S → S → S → Type 0 where
  over :
      {a b : S}
      → hs.is_handshake_finished a ≡ true
      → hs.is_handshake_finished b ≡ true
      → Talk hs 0 a b a b
  said :
      {n : ℕ} {a b a' b' a'' b'' : S} (msg : Bytes)
      → hs.is_handshake_finished a ≡ false
      → hs.is_handshake_finished b ≡ false
      → hs.is_my_turn a ≡ true
      → hs.is_my_turn b ≡ false
      → hs.write_message a ≡ ok (msg, a')
      → hs.read_message b msg ≡ ok b'
      → length msg < 2 ^ 16
      → Talk hs n b' a' b'' a''
      → Talk hs (suc n) a b a'' b''

module _ {S : Type 0} (hs : HandshakeState S) where
  finished_step :
      (fuel : ℕ) (a : S) (out s : Bytes)
      → hs.is_handshake_finished a ≡ true
      → handshake_loop (suc fuel) hs a out s ≡ some (ok (a, out, s))
  unfolding handshake_loop
  finished_step fuel a out s e = rw (e, handshake_loop) refl

  write_step :
      (fuel : ℕ) (a a' : S) (msg out s : Bytes)
      → hs.is_handshake_finished a ≡ false
      → hs.is_my_turn a ≡ true
      → hs.write_message a ≡ ok (msg, a')
      → handshake_loop (suc fuel) hs a out s ≡ handshake_loop fuel hs a' (out ++ send_framed msg) s
  unfolding handshake_loop handshake_turn
  write_step fuel a a' msg out s more mine w = rw (more, mine, w, handshake_loop) refl

  read_step :
      (fuel : ℕ) (b b' : S) (msg out s : Bytes)
      → hs.is_handshake_finished b ≡ false
      → hs.is_my_turn b ≡ false
      → hs.read_message b msg ≡ ok b'
      → length msg < 2 ^ 16
      → handshake_loop (suc fuel) hs b out (send_framed msg ++ s) ≡ handshake_loop fuel hs b' out s
  unfolding handshake_loop handshake_turn
  read_step fuel b b' msg out s more theirs r short =
      rw (more, theirs, recv-send_framed msg s short, r, handshake_loop) refl

  -- An end that reads `heard` writes `told` and comes to the state `a'`.
  abbrev Comes : ℕ → S → S → Bytes → Bytes → Type 0
  Comes n a a' told heard =
      (fuel : ℕ) (out rest : Bytes)
      → n < fuel
      → handshake_loop fuel hs a out (heard ++ rest) ≡ some (ok (a', out ++ told, rest))

  loops_meet :
      {n : ℕ} {a b a' b' : S}
      → Talk hs n a b a' b'
      → (told : Bytes) × (heard : Bytes) × Comes n a a' told heard × Comes n b b' heard told
  loops_meet (over {a} {b} fa fb) = ([], [], stops a fa, stops b fb)
    where
      stops : (c : S) → hs.is_handshake_finished c ≡ true → Comes 0 c c [] []
      stops c f zero out rest h = absurd (omega arith)
      stops c f (suc fuel) out rest h =
          finished_step fuel c out rest f ∙ ap (λ o. some (ok (c, o, rest))) (sym (append-nil out))
  loops_meet (said {n} {a} {b} {a'} {b'} {a''} {b''} msg fa fb ta tb w r short talk) =
      let (told, heard, second, first) = loops_meet talk in
      (send_framed msg ++ heard, told, speaks told heard first, hears told heard second)
    where
      speaks :
          (told heard : Bytes)
          → Comes n a' a'' heard told
          → Comes (suc n) a a'' (send_framed msg ++ heard) told
      speaks told heard c zero out rest h = absurd (omega arith)
      speaks told heard c (suc fuel) out rest h =
          write_step fuel a a' msg out (told ++ rest) fa ta w
          ∙ (c fuel (out ++ send_framed msg) rest (omega arith)
              ∙ ap (λ o. some (ok (a'', o, rest))) (append_assoc out (send_framed msg) heard))

      hears :
          (told heard : Bytes)
          → Comes n b' b'' told heard
          → Comes (suc n) b b'' told (send_framed msg ++ heard)
      hears told heard c zero out rest h = absurd (omega arith)
      hears told heard c (suc fuel) out rest h = rw (append_assoc (send_framed msg) heard rest) (
          read_step fuel b b' msg out (heard ++ rest) fb tb r short ∙ c fuel out rest (omega arith))

  concluded :
      (fuel : ℕ) (a a' : S) (told key s rest : Bytes) (transport : Noise)
      → handshake_loop fuel hs a [] s ≡ some (ok (a', told, rest))
      → hs.get_remote_static a' ≡ some key
      → length key ≡ 32
      → hs.into_stateless_transport_mode a' ≡ ok transport
      → perform_handshake fuel hs a s
        ≡ some (ok (record { remote_pubkey = key; transport = transport }, told, rest))
  unfolding perform_handshake conclude remote_key fail_if
  concluded fuel a a' told key s rest transport e k len t = ground (arith, e, k, len, t)

  -- Two ends that read each other's stream finish the handshake. If the Noise library keeps its
  -- promise for them, each end gets a result, with the key and the transport that the library gives
  -- it in the end; what each of them has written is, frame by frame, just what the other one has
  -- read; and what stands behind the handshake on a stream is left to be read. The fuel is more
  -- than the number of the messages.
  pub handshakes_meet :
      (n fuel : ℕ) (a b a' b' : S) (key_a key_b : Bytes) (transport_a transport_b : Noise)
      → Talk hs n a b a' b'
      → hs.get_remote_static a' ≡ some key_b
      → hs.get_remote_static b' ≡ some key_a
      → length key_a ≡ 32
      → length key_b ≡ 32
      → hs.into_stateless_transport_mode a' ≡ ok transport_a
      → hs.into_stateless_transport_mode b' ≡ ok transport_b
      → n < fuel
      → (told : Bytes) × (heard : Bytes) × ((rest : Bytes)
          → perform_handshake fuel hs a (heard ++ rest)
            ≡ some (ok (record { remote_pubkey = key_b; transport = transport_a }, told, rest)))
        × ((rest : Bytes)
            → perform_handshake fuel hs b (told ++ rest)
              ≡ some (ok (record { remote_pubkey = key_a; transport = transport_b }, heard, rest)))
  handshakes_meet n fuel a b a' b' key_a key_b transport_a transport_b talk ka kb la lb ta tb h =
      let (told, heard, first, second) = loops_meet talk in
      (
        told,
        heard,
        λ rest.
            concluded fuel a a' told key_b (heard ++ rest) rest transport_a (first fuel [] rest h)
              ka lb ta,
        λ rest.
            concluded fuel b b' heard key_a (told ++ rest) rest transport_b (second fuel [] rest h)
              kb la tb,
      )
