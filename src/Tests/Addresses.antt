-- ===== src/Tests/Addresses.antt =====
-- A STUN response with two addresses.
use p2pfileshare.Base.{ℕ, List, [], ◌∷◌}
use p2pfileshare.Base.Bytes.{Bytes}
use p2pfileshare.Stun.{SocketAddr}
use p2pfileshare.Stun.Attributes.{attribute, xor_value}

abbrev home : SocketAddr
home = record { ip = 3232235777; port = 47474 }

abbrev txn : Bytes
txn = 1 ∷ 2 ∷ 3 ∷ 4 ∷ 5 ∷ 6 ∷ 7 ∷ 8 ∷ 9 ∷ 10 ∷ 11 ∷ 12 ∷ []

-- The name of the server's software stands before the address.
abbrev software : List (ℕ × Bytes)
software = (0x8022, 115 ∷ 116 ∷ 117 ∷ []) ∷ []

-- Another address, hidden, behind the first.
abbrev hidden : Bytes
hidden = attribute 0x0020 (xor_value (record { ip = 1; port = 2 }))
