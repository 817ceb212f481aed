-- ===== src/Discovery/Dht.antt =====
-- p2pshare-core/src/discovery/dht.rs: lookups in the DHT. What `mainline` answers is a parameter.
pub mod Retry
use p2pfileshare.Base.{
  ℕ, leb, if◌then◌else◌, Bool, true, false, ◌||◌, List, [], ◌∷◌, ◌++◌, Option, none, some, Res, ok,
  err,
}
use p2pfileshare.Stun.{SocketAddr, same_addr}

-- `Vec::contains`
unfoldable pub contains : List SocketAddr → SocketAddr → Bool
contains [] addr = false
contains (peer ∷ peers) addr = same_addr addr peer || contains peers addr

-- The loop over one batch, with the peers found before.
unfoldable pub add_batch : List SocketAddr → List SocketAddr → List SocketAddr
add_batch peers [] = peers
add_batch peers (addr ∷ batch) =
    add_batch (if contains peers addr then peers else peers ++ (addr ∷ [])) batch

unfoldable pub add_batches : List SocketAddr → List (List SocketAddr) → List SocketAddr
add_batches peers [] = peers
add_batches peers (batch ∷ batches) = add_batches (add_batch peers batch) batches

-- The answer of the DHT: batches, or an error.
unfoldable pub lookup : {E : Type 0} → Res E (List (List SocketAddr)) → List SocketAddr
lookup (ok batches) = add_batches [] batches
lookup (err e) = []

-- A round of a loop that polls: the peers that its lookup finds, the time after it in milliseconds,
-- and the time after another announcement, if the round makes one.
pub record Round : Type 0 where
  pub peers : List SocketAddr
  pub now : ℕ
  pub announced : ℕ

-- `none` means that the loop is still polling after the last of the rounds.
unfoldable pub lookup_with_retry : ℕ → List Round → Option (List SocketAddr)
lookup_with_retry deadline [] = none
lookup_with_retry deadline (r ∷ rounds) = elim r.peers [
  | peer ∷ peers ↦ some (peer ∷ peers)
  | [] ↦
      let rest = lookup_with_retry deadline rounds in if leb deadline r.now then some [] else rest
]
