-- ===== src/Discovery/Dht/Retry.antt =====
-- Polling ends.
use p2pfileshare.Base.{
  leb, false, refl, ap, ◌∙◌, ◌++◌, some, Bool-cases, inl, inr, ℕ, ◌+◌, ◌*◌, ◌≤◌, ◌<◌, ◌≡◌, ◌≢◌,
  List, [], ◌∷◌, length, none, arith,
}
use p2pfileshare.Stun.{SocketAddr}
use p2pfileshare.Discovery.Dht.{Round, lookup_with_retry}

-- Each round takes at least `pause` milliseconds from `start` on.
abbrev pub IsPaced : ℕ → ℕ → List Round → Type 0
IsPaced pause start [] = Unit {0}
IsPaced pause start (r ∷ rounds) = (start ≤ r.now) × IsPaced pause (r.now + pause) rounds

still_polling :
    (deadline : ℕ) (peers : List SocketAddr) (r : Round) (rounds : List Round)
    → r.peers ≡ peers
    → lookup_with_retry deadline (r ∷ rounds) ≡ none
    → (r.now < deadline) × (lookup_with_retry deadline rounds ≡ none)
unfolding lookup_with_retry
still_polling deadline peers r rounds e h = ground arith

polling-lt :
    (pause deadline start : ℕ) (rounds : List Round)
    → lookup_with_retry deadline rounds ≡ none
    → IsPaced pause start rounds
    → start < deadline + pause
    → start + pause * length rounds < deadline + pause
polling-lt pause deadline start [] h p k = omega arith
polling-lt pause deadline start (r ∷ rounds) h (p, ps) k =
    let (before, next) = still_polling deadline r.peers r rounds (λ i. r.peers) h in
    let ih = polling-lt pause deadline (r.now + pause) rounds next ps (omega arith) in omega arith

-- Polling has ended once the pauses of the rounds that were made fill the time.
pub lookup_with_retry-ne-none :
    (pause deadline : ℕ) (rounds : List Round)
    → 0 < pause
    → IsPaced pause 0 rounds
    → deadline + pause ≤ pause * length rounds
    → lookup_with_retry deadline rounds ≢ none
lookup_with_retry-ne-none pause deadline rounds k p h e =
    let late = polling-lt pause deadline 0 rounds e p (omega arith) in omega arith

-- Each round ends at most `slow` milliseconds after the one before it.
abbrev pub IsPrompt : ℕ → ℕ → List Round → Type 0
IsPrompt slow start [] = Unit {0}
IsPrompt slow start (r ∷ rounds) = (r.now ≤ start + slow) × IsPrompt slow r.now rounds

-- The round with which polling stops: still polling before it, over with it, and over in time.
pub record Stops (slow deadline : ℕ) (rounds : List Round) : Type 0 where
  pub before : List Round
  pub final : Round
  pub rest : List Round
  pub found : List SocketAddr
  pub parts : before ++ (final ∷ rest) ≡ rounds
  pub going : lookup_with_retry deadline before ≡ none
  pub over : lookup_with_retry deadline (before ++ (final ∷ [])) ≡ some found
  pub whole : lookup_with_retry deadline rounds ≡ some found
  pub in_time : final.now ≤ deadline + slow
  pub late : found ≡ [] → deadline ≤ final.now

here-Stops :
    (slow deadline : ℕ) (r : Round) (rounds : List Round) (found : List SocketAddr)
    → ((rest : List Round) → lookup_with_retry deadline (r ∷ rest) ≡ some found)
    → r.now ≤ deadline + slow
    → (found ≡ [] → deadline ≤ r.now)
    → Stops slow deadline (r ∷ rounds)
unfolding lookup_with_retry
here-Stops slow deadline r rounds found over in_time late = record {
  before = [];
  final = r;
  rest = rounds;
  found = found;
  parts = refl;
  going = refl;
  over = over [];
  whole = over rounds;
  in_time = in_time;
  late = late;
}

goes_on :
    (deadline : ℕ) (r : Round) (rounds : List Round)
    → r.peers ≡ []
    → leb deadline r.now ≡ false
    → lookup_with_retry deadline (r ∷ rounds) ≡ lookup_with_retry deadline rounds
unfolding lookup_with_retry
goes_on deadline r rounds e early = rw (e, early, lookup_with_retry) refl

-- One round, by the peers that it finds.
round-Stops :
    (slow deadline : ℕ) (r : Round) (rounds : List Round) (peers : List SocketAddr)
    → r.peers ≡ peers
    → r.now ≤ deadline + slow
    → (r.now < deadline → lookup_with_retry deadline rounds ≢ none → Stops slow deadline rounds)
    → lookup_with_retry deadline (r ∷ rounds) ≢ none
    → Stops slow deadline (r ∷ rounds)
unfolding lookup_with_retry
round-Stops slow deadline r rounds (addr ∷ peers) e near later ended =
    here-Stops slow deadline r rounds (addr ∷ peers) (λ rest. rw (e, lookup_with_retry) refl) near
      (λ i. cc)
round-Stops slow deadline r rounds [] e near later ended = elim (Bool-cases (leb deadline r.now)) [
  | inl past ↦
      here-Stops slow deadline r rounds [] (λ rest. rw (e, past, lookup_with_retry) refl) near
        (λ _. ground (arith, past))
  | inr early ↦
      let skip = λ (rest : List Round). goes_on deadline r rest e early in
      let s = later (ground (arith, early)) (λ n. ended (skip rounds ∙ n)) in
      record {
        before = r ∷ s.before;
        final = s.final;
        rest = s.rest;
        found = s.found;
        parts = ap (λ t. r ∷ t) s.parts;
        going = skip s.before ∙ s.going;
        over = skip (s.before ++ (s.final ∷ [])) ∙ s.over;
        whole = skip rounds ∙ s.whole;
        in_time = s.in_time;
        late = s.late;
      }
]

-- Polling that has ended stopped no later than one round after the deadline, and without a peer only
-- at the deadline.
pub lookup_with_retry-Stops :
    (slow deadline start : ℕ) (rounds : List Round)
    → start ≤ deadline
    → IsPrompt slow start rounds
    → lookup_with_retry deadline rounds ≢ none
    → Stops slow deadline rounds
lookup_with_retry-Stops slow deadline start [] h p ended =
    absurd (ended (unfold lookup_with_retry in refl))
lookup_with_retry-Stops slow deadline start (r ∷ rounds) h (p, ps) ended =
    round-Stops slow deadline r rounds r.peers refl (omega arith)
      (λ early more. lookup_with_retry-Stops slow deadline r.now rounds (omega arith) ps more) ended
