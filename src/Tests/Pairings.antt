-- ===== src/Tests/Pairings.antt =====
-- Two connections at the relay.
use p2pfileshare.Base.{ℕ, true, [], ◌∷◌}
use p2pfileshare.Base.Bytes.{Bytes}
use p2pfileshare.RelayServer.{Relay, look, register, hand, signal, start}

abbrev token : ℕ → Bytes
token k = 5 ∷ 6 ∷ []

-- The first one is entered before the second one looks.
abbrev after_look : Relay
after_look = look (register (look (start token) 0) 0) 1

abbrev joined : Relay
joined = signal (hand after_look 1 0 (after_look.task 0)) 0 1 true
