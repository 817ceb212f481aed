-- ===== src/Coordinator/Announce/Poll.antt =====
-- Polling for a receiver.
use p2pfileshare.Base.{
  ap, ◌∙◌, ◌++◌, ℕ, ◌+◌, ◌-◌, ◌*◌, ◌≤◌, ◌≡◌, refl, leb, if◌then◌else◌, List, [], ◌∷◌, length,
  Option, some, ok, err, arith, Bool-cases, inl, inr,
}
use p2pfileshare.Base.Bytes.{Bytes}
use p2pfileshare.Errors.{Result, peer_not_found}
use p2pfileshare.Stun.{SocketAddr}
use p2pfileshare.Discovery.Dht.{Round, lookup_with_retry}
use p2pfileshare.Discovery.Dht.Retry.{
  IsPaced, IsPrompt, lookup_with_retry-ne-none, lookup_with_retry-Stops,
}
use p2pfileshare.Coordinator.Attempt.{
  Action, waiting, returned, Attempt, attempt, prepend, outcome_of,
}
use p2pfileshare.Coordinator.Announce.{poll_round, refresh, reannounce_interval, poll_for_receiver}
use p2pfileshare.Coordinator.Lookup.{first_peer}

outcome-prepend :
    {A : Type 0} (done : List Action) (m : Attempt A) → outcome_of (prepend done m) ≡ outcome_of m
outcome-prepend done (attempt more r) = refl

poll_round-first_peer :
    (r : Round) (peers : List SocketAddr) (deadline : ℕ) (rounds : List Round)
    (rest : Attempt SocketAddr)
    → r.peers ≡ peers
    → outcome_of rest ≡ outcome_of (first_peer (lookup_with_retry deadline rounds))
    → outcome_of (poll_round peers (leb deadline r.now) rest)
      ≡ outcome_of (first_peer (lookup_with_retry deadline (r ∷ rounds)))
unfolding lookup_with_retry poll_round first_peer
poll_round-first_peer r (addr ∷ peers) deadline rounds rest e h = rw (e, lookup_with_retry) refl
poll_round-first_peer r [] deadline rounds rest e h = elim (Bool-cases (leb deadline r.now)) [
  | inl late ↦ rw (e, late, lookup_with_retry) refl
  | inr early ↦ rw (e, early, lookup_with_retry) h
]

-- The sender's loop finds what the receiver's retried lookup finds on the same rounds, and ends when
-- it ends: announcing anew in between changes nothing of the outcome.
pub poll_for_receiver-first_peer :
    (own : Bytes) (port deadline last : ℕ) (rounds : List Round)
    → outcome_of (poll_for_receiver own port deadline last rounds)
      ≡ outcome_of (first_peer (lookup_with_retry deadline rounds))
unfolding poll_for_receiver
poll_for_receiver-first_peer own port deadline last [] = unfold first_peer lookup_with_retry in refl
poll_for_receiver-first_peer own port deadline last (r ∷ rounds) =
    let stale = leb reannounce_interval (r.now - last) in
    let ih =
      poll_for_receiver-first_peer own port deadline (if stale then r.announced else last) rounds in
    poll_round-first_peer r r.peers deadline rounds _ refl
      (rw (outcome-prepend (refresh stale own port) _) ih)

-- What the lookup of the receiver makes of the peers that were found.
answer_of : List SocketAddr → Result SocketAddr
answer_of [] = err peer_not_found
answer_of (addr ∷ peers) = ok addr

first_peer-found :
    (found : List SocketAddr) → outcome_of (first_peer (some found)) ≡ returned (answer_of found)
unfolding first_peer answer_of
first_peer-found [] = refl
first_peer-found (addr ∷ peers) = refl

none_found : (found : List SocketAddr) → answer_of found ≡ err peer_not_found → found ≡ []
unfolding answer_of
none_found [] e = refl
none_found (addr ∷ peers) e = cc

-- Polling returns, and in time. It is given rounds that are at least 1500 milliseconds apart and at
-- most `slow`, enough of them to fill the time until the deadline and one pause more. One of them is
-- the last: before it the loop is still polling, with it the loop has returned, at a time not later
-- than `slow` after the deadline, and that is the outcome whatever comes behind. It gives up with
-- `PeerNotFound` only at the deadline or later.
pub poll_for_receiver-returned :
    (own : Bytes) (port deadline last slow : ℕ) (rounds : List Round)
    → IsPaced 1500 0 rounds
    → IsPrompt slow 0 rounds
    → deadline + 1500 ≤ 1500 * length rounds
    → (before : List Round) × (final : Round) × (rest : List Round) × (r : Result SocketAddr)
      × (before ++ (final ∷ rest) ≡ rounds)
      × (outcome_of (poll_for_receiver own port deadline last before) ≡ waiting)
      × (outcome_of (poll_for_receiver own port deadline last (before ++ (final ∷ [])))
          ≡ returned r)
      × (outcome_of (poll_for_receiver own port deadline last rounds) ≡ returned r)
      × (final.now ≤ deadline + slow)
      × (r ≡ err peer_not_found → deadline ≤ final.now)
poll_for_receiver-returned own port deadline last slow rounds p q h =
    let s =
      lookup_with_retry-Stops slow deadline 0 rounds (omega arith) q
        (lookup_with_retry-ne-none 1500 deadline rounds (omega arith) p h) in
    let same = λ (rs : List Round). poll_for_receiver-first_peer own port deadline last rs in
    let ended = λ (x : Option (List SocketAddr)) (e : x ≡ some s.found).
      ap (λ y. outcome_of (first_peer y)) e ∙ first_peer-found s.found in
    (
      s.before,
      s.final,
      s.rest,
      answer_of s.found,
      s.parts,
      same s.before ∙ (ap (λ y. outcome_of (first_peer y)) s.going ∙ unfold first_peer in refl),
      same (s.before ++ (s.final ∷ [])) ∙ ended _ s.over,
      same rounds ∙ ended _ s.whole,
      s.in_time,
      λ e. s.late (none_found s.found e),
    )
