-- ===== src/RelayServer/Race.antt =====
-- Two peers that reach the relay at the same moment, before either is entered in its map.
use p2pfileshare.Base.{ℕ, ◌≡◌, ◌==◌, false}
use p2pfileshare.Base.Bytes.{Bytes}
use p2pfileshare.RelayServer.{
  Relay, look, register, give_up, clean_up, leaves, looks, registers, hands, times_out, is_dropped,
  cleans_up, signals, ends, Steps, here, next, start,
}

-- No step of a run is a time-out, and none hands a stream over.
abbrev pub IsUnpaired : {r r' : Relay} → Steps r r' → Type 0
IsUnpaired here = Unit {0}
IsUnpaired (next (times_out _ _) ss) = ⊥
IsUnpaired (next (leaves _ _) ss) = IsUnpaired ss
IsUnpaired (next (looks _ _) ss) = IsUnpaired ss
IsUnpaired (next (registers _ _) ss) = IsUnpaired ss
IsUnpaired (next (hands _ _ _) ss) = ⊥
IsUnpaired (next (is_dropped _ _ _ _) ss) = IsUnpaired ss
IsUnpaired (next (cleans_up _ _) ss) = IsUnpaired ss
IsUnpaired (next (signals _ _ _ _) ss) = IsUnpaired ss
IsUnpaired (next (ends _ _ _) ss) = IsUnpaired ss

module _ (token : ℕ → Bytes) (i j : ℕ) (other : (i == j) ≡ false) (same : token i ≡ token j) where
  abbrev both_looked : Relay
  both_looked = look (look (start token) i) j

  abbrev both_entered : Relay
  both_entered = register (register both_looked i) j

  abbrev first_out : Relay
  first_out = clean_up (give_up both_entered i) i

  abbrev second_out : Relay
  second_out = clean_up (give_up first_out j) j
