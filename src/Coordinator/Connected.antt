-- ===== src/Coordinator/Connected.antt =====
-- When the phase `CONNECTED` is shown.
use p2pfileshare.Base.{ℕ, ◌≡◌, ◌≢◌, ◌↔◌, refl, List, [], ◌∷◌, ◌++◌, append_assoc, ok, err}
use p2pfileshare.Errors.{Error}
use p2pfileshare.Session.Either.{Session, direct, relay}
use p2pfileshare.Session.Peer.{PeerSession}
use p2pfileshare.Session.Relay.{RelaySession}
use p2pfileshare.Coordinator.Phase.{connected}
use p2pfileshare.Coordinator.Attempt.{
  Action, set, announce, punch, send_punches, relay_connect, relay_connect_at, waiting, panicked,
  returned, actions_of, Attempt, attempt, prepend, ◌>>=◌, result, act, outcome_of, phase_after,
}
use p2pfileshare.Coordinator.Ensures.{
  All, Ensures, all_cons, gives, gives_up, waits, panics, All-append,
}

-- Not the phase `CONNECTED`.
abbrev pub Unset : Action → Type 0
Unset (set phase) = phase ≢ connected
Unset _ = Unit {0}

-- `CONNECTED` is the last thing that is set, for a direct session and nothing else.
pub data Marks : Attempt Session → Type 0 where
  marked :
      {done : List Action} {s : PeerSession} (before : List Action)
      → before ++ (set connected ∷ []) ≡ done
      → Marks (attempt done (returned (ok (direct s))))
  unmarked_relay :
      {done : List Action} {s : RelaySession}
      → All Unset done
      → Marks (attempt done (returned (ok (relay s))))
  unmarked_error :
      {done : List Action} {e : Error} → All Unset done → Marks (attempt done (returned (err e)))
  unmarked_wait : {done : List Action} → All Unset done → Marks (attempt done waiting)
  unmarked_panic : {done : List Action} → All Unset done → Marks (attempt done panicked)

prepend-Marks :
    {done : List Action} (m : Attempt Session) → All Unset done → Marks m → Marks (prepend done m)
prepend-Marks {done} _ p (marked before e) =
    marked (done ++ before) (rw (← e) (append_assoc done before (set connected ∷ [])))
prepend-Marks _ p (unmarked_relay q) = unmarked_relay (All-append p q)
prepend-Marks _ p (unmarked_error q) = unmarked_error (All-append p q)
prepend-Marks _ p (unmarked_wait q) = unmarked_wait (All-append p q)
prepend-Marks _ p (unmarked_panic q) = unmarked_panic (All-append p q)

pub bind-Marks :
    {B : Type 0} {R : B → Type 0} {m : Attempt B} (f : B → Attempt Session)
    → Ensures Unset R m
    → ((b : B) → R b → Marks (f b))
    → Marks (m >>= f)
unfolding ◌>>=◌
bind-Marks f (gives p h) k = prepend-Marks (f _) p (k _ h)
bind-Marks f (gives_up p) k = unmarked_error p
bind-Marks f (waits p) k = unmarked_wait p
bind-Marks f (panics p) k = unmarked_panic p

-- The last two steps of a direct path.
pub connected-Marks :
    (s : PeerSession) → Marks (act (set connected) >>= λ _. result (ok (direct s)))
unfolding ◌>>=◌
connected-Marks s = marked [] refl

phase_after-append :
    (phase : ℕ) (before : List Action)
    → phase_after phase (before ++ (set connected ∷ [])) ≡ connected
unfolding phase_after
phase_after-append phase [] = refl
phase_after-append phase (set p ∷ before) = phase_after-append p before
phase_after-append phase (announce _ _ ∷ before) = phase_after-append phase before
phase_after-append phase (punch _ ∷ before) = phase_after-append phase before
phase_after-append phase (send_punches _ _ ∷ before) = phase_after-append phase before
phase_after-append phase (relay_connect _ ∷ before) = phase_after-append phase before
phase_after-append phase (relay_connect_at _ _ ∷ before) = phase_after-append phase before

phase_after-Unset :
    (phase : ℕ) (done : List Action)
    → phase ≢ connected
    → All Unset done
    → phase_after phase done ≢ connected
unfolding phase_after
phase_after-Unset phase [] h p = h
phase_after-Unset phase (set q ∷ done) h (all_cons k p) = phase_after-Unset q done k p
phase_after-Unset phase (announce _ _ ∷ done) h (all_cons k p) = phase_after-Unset phase done h p
phase_after-Unset phase (punch _ ∷ done) h (all_cons k p) = phase_after-Unset phase done h p
phase_after-Unset phase (send_punches _ _ ∷ done) h (all_cons k p) =
    phase_after-Unset phase done h p
phase_after-Unset phase (relay_connect _ ∷ done) h (all_cons k p) = phase_after-Unset phase done h p
phase_after-Unset phase (relay_connect_at _ _ ∷ done) h (all_cons k p) =
    phase_after-Unset phase done h p

-- The phase shown after an attempt is `CONNECTED` exactly if a direct session is returned.
abbrev pub ShowsDirect : ℕ → Attempt Session → Type 0
ShowsDirect phase m =
    (phase_after phase (actions_of m) ≡ connected)
    ↔ ((s : PeerSession) × (outcome_of m ≡ returned (ok (direct s))))

pub Marks-ShowsDirect :
    {m : Attempt Session} (phase : ℕ) → phase ≢ connected → Marks m → ShowsDirect phase m
Marks-ShowsDirect phase h (marked {s} before e) =
    ((λ _. (s, refl)), (λ _. rw (← e) (phase_after-append phase before)))
Marks-ShowsDirect phase h (unmarked_relay {done} p) =
    ((λ e. absurd (phase_after-Unset phase done h p e)), (λ (s, e). cc))
Marks-ShowsDirect phase h (unmarked_error {done} p) =
    ((λ e. absurd (phase_after-Unset phase done h p e)), (λ (s, e). cc))
Marks-ShowsDirect phase h (unmarked_wait {done} p) =
    ((λ e. absurd (phase_after-Unset phase done h p e)), (λ (s, e). cc))
Marks-ShowsDirect phase h (unmarked_panic {done} p) =
    ((λ e. absurd (phase_after-Unset phase done h p e)), (λ (s, e). cc))
