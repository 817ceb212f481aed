-- ===== src/Coordinator/Loops.antt =====
-- What the two loops of the sender do: nothing but the announcements that polling makes.
use p2pfileshare.Base.{
  ℕ, leb, ◌-◌, if◌then◌else◌, Bool, true, false, List, [], ◌∷◌, Option, none, some,
}
use p2pfileshare.Base.Bytes.{Bytes}
use p2pfileshare.Discovery.Dht.{Round}
use p2pfileshare.Stun.{SocketAddr}
use p2pfileshare.Coordinator.Attempt.{announce, Action, Attempt}
use p2pfileshare.Coordinator.Network.{Crates, Quic, responder}
use p2pfileshare.Coordinator.Announce.{
  accept_peer, poll_round, refresh, reannounce_interval, poll_for_receiver,
}
use p2pfileshare.Coordinator.Ensures.{
  All, Ensures, all_nil, all_cons, gives, gives_up, waits, prepend-Ensures, bind-Ensures,
  or_else-Ensures,
}
use p2pfileshare.Coordinator.Steps.{
  Any, HasKey, shake-Ensures, establish-Ensures, open_stream-Ensures,
}

module _ {S : Type 0} (c : Crates S) (P : Action → Type 0) where
  pub accept_peer-Ensures :
      (incoming : List (Option Quic)) → Ensures P HasKey (accept_peer c incoming)
  unfolding accept_peer
  accept_peer-Ensures [] = waits all_nil
  accept_peer-Ensures (none ∷ incoming) = gives_up all_nil
  accept_peer-Ensures (some q ∷ incoming) =
      or_else-Ensures
        (bind-Ensures _ (establish-Ensures q)
          λ _ _. bind-Ensures _ (open_stream-Ensures q) λ s _. shake-Ensures c responder s)
        (accept_peer-Ensures incoming)

module _ (P : Action → Type 0)
    (announces : (infohash : Bytes) (port : ℕ) → P (announce infohash port)) where
  poll_round-Ensures :
      (peers : List SocketAddr) (late : Bool) (rest : Attempt SocketAddr)
      → Ensures P Any rest
      → Ensures P Any (poll_round peers late rest)
  unfolding poll_round
  poll_round-Ensures (addr ∷ peers) late rest h = gives all_nil tt
  poll_round-Ensures [] true rest h = gives_up all_nil
  poll_round-Ensures [] false rest h = h

  refresh-All : (stale : Bool) (own : Bytes) (port : ℕ) → All P (refresh stale own port)
  unfolding refresh
  refresh-All true own port = all_cons (announces own port) all_nil
  refresh-All false own port = all_nil

  pub poll-Ensures :
      (own : Bytes) (port deadline last : ℕ) (rounds : List Round)
      → Ensures P Any (poll_for_receiver own port deadline last rounds)
  unfolding poll_for_receiver
  poll-Ensures own port deadline last [] = waits all_nil
  poll-Ensures own port deadline last (r ∷ rounds) =
      let stale = leb reannounce_interval (r.now - last) in
      poll_round-Ensures r.peers (leb deadline r.now) _ (
        prepend-Ensures _ (refresh-All stale own port)
          (poll-Ensures own port deadline (if stale then r.announced else last) rounds))
