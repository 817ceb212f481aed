-- ===== src/Coordinator/Steps.antt =====
-- What the shared steps of the attempts do: no action of their own, and a key of 32 bytes.
use p2pfileshare.Base.{
  ◌==◌, ◌≡◌, arith, not, inl, inr, Option, Option-cases, none, some, ok, err, map_err, returns,
  fails, Post, Post-self, Post-eq-ok, Post->>=, Post-fail_if, Res-cases, [], length,
}
use p2pfileshare.Base.Bytes.{Bytes}
use p2pfileshare.Errors.{Result, noise}
use p2pfileshare.Handshake.{
  HandshakeState, HandshakeResult, remote_key, conclude, handshake_loop, perform_handshake,
}
use p2pfileshare.Coordinator.Attempt.{Action, result}
use p2pfileshare.Coordinator.Network.{Crates, Quic, HandshakeRole, shake, establish, open_stream}
use p2pfileshare.Coordinator.Ensures.{Ensures, all_nil, gives, gives_up, waits, bind-Ensures}

-- Nothing is known of a value.
abbrev pub Any : {A : Type 0} → A → Type 0
Any a = Unit {0}

pub plain-Ensures : {A : Type 0} {P : Action → Type 0} (r : Result A) → Ensures P Any (result r)
plain-Ensures (ok a) = gives all_nil tt
plain-Ensures (err e) = gives_up all_nil

abbrev pub HasKey : HandshakeResult → Type 0
HasKey hs = length hs.remote_pubkey ≡ 32

remote_key_lem : (key : Option Bytes) → Post (λ k. length k ≡ 32) (remote_key key)
unfolding remote_key
remote_key_lem none = fails
remote_key_lem (some key) =
    Post->>= _ (Post-fail_if (not (length key == 32)) _) λ _ h. returns (ground (arith, h))

conclude-HasKey : {S : Type 0} (hs : HandshakeState S) (state : S) → Post HasKey (conclude hs state)
unfolding conclude
conclude-HasKey hs state = Post->>= _ (remote_key_lem (hs.get_remote_static state)) λ key h.
    Post->>= _ (Post-self (map_err noise (hs.into_stateless_transport_mode state))) λ t _. returns h

module _ {S : Type 0} (c : Crates S) where
  pub shake-Ensures :
      {P : Action → Type 0} (role : HandshakeRole) (s : Bytes) → Ensures P HasKey (shake c role s)
  unfolding shake perform_handshake
  shake-Ensures role s =
      elim (Option-cases (handshake_loop c.messages c.handshake (c.begin role) [] s)) [
        | inl e ↦ rw (shake, e) (waits all_nil)
        | inr (err x, e) ↦ rw (shake, e) (gives_up all_nil)
        | inr (ok (state, out, rest), e) ↦ elim (Res-cases (conclude c.handshake state)) [
          | inl (hs, f) ↦
              rw (shake, e, f) (gives all_nil (Post-eq-ok (conclude-HasKey c.handshake state) f))
          | inr (x, f) ↦ rw (shake, e, f) (gives_up all_nil)
        ]
      ]

pub establish-Ensures : {P : Action → Type 0} (q : Quic) → Ensures P Any (establish q)
unfolding establish
establish-Ensures q = bind-Ensures _ (plain-Ensures _) λ _ _. plain-Ensures _

pub open_stream-Ensures : {P : Action → Type 0} (q : Quic) → Ensures P Any (open_stream q)
unfolding open_stream
open_stream-Ensures q = plain-Ensures _
