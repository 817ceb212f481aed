-- ===== src/Cli/Sent.antt =====
-- When the commands `send` and `receive` end with the exit code 0.
use p2pfileshare.Base.{
  ℕ, ◌≡◌, ◌↔◌, refl, sym, ap, subst, ◌∙◌, Option, String, Bool, true, false, List, some, none, ok,
  err, arith,
}
use p2pfileshare.Base.Bytes.{Bytes}
use p2pfileshare.Errors.{Error, Result}
use p2pfileshare.Session.Either.{Session}
use p2pfileshare.Identity.Storage.{UserIdentity}
use p2pfileshare.Coordinator.Network.{Crates}
use p2pfileshare.Coordinator.Announce.{SenderNet}
use p2pfileshare.Api.Sessions.{Host}
use p2pfileshare.Cli.Printed.{
  Line, Ending, gives, stops, exits, hangs, crashes, Printed, printed, before, ◌>>=◌, try, Exit,
  code, main,
}
use p2pfileshare.Cli.Commands.{load_identity_or_exit, announced, send}

abbrev pub ending : {A : Type 0} → Printed A → Ending A
ending (printed lines e) = e

-- The exit code of a command.
abbrev pub exit_of : {A : Type 0} → (Error → String) → Printed A → Exit
unfolding main
exit_of to_string m = (main to_string m).1

ending-before :
    {A : Type 0} (lines : List Line) (m : Printed A) → ending (before lines m) ≡ ending m
ending-before lines (printed more e) = refl

value_or : {A : Type 0} → A → Ending A → A
value_or d (gives a) = a
value_or d _ = d

gives-eq : {A : Type 0} {a b : A} → gives a ≡ gives b → a ≡ b
unfolding value_or
gives-eq {a} e = ap (value_or a) e

-- A sequence of two steps gives a value exactly if both do.
ending-bind :
    {A B : Type 0} (m : Printed A) (f : A → Printed B) (b : B)
    → (ending (m >>= f) ≡ gives b) ↔ ((a : A) × (ending m ≡ gives a) × (ending (f a) ≡ gives b))
unfolding ◌>>=◌
ending-bind (printed lines (gives a)) f b = (
  (λ e. (a, refl, sym (ending-before lines (f a)) ∙ e)),
  (λ (x, e, h).
      ending-before lines (f a) ∙ subst (λ y. ending (f y) ≡ gives b) (sym (gives-eq e)) h),
)
ending-bind (printed lines (stops e)) f b = ((λ e. cc), (λ (a, e, _). cc))
ending-bind (printed lines exits) f b = ((λ e. cc), (λ (a, e, _). cc))
ending-bind (printed lines hangs) f b = ((λ e. cc), (λ (a, e, _). cc))
ending-bind (printed lines crashes) f b = ((λ e. cc), (λ (a, e, _). cc))

exit_of-zero :
    {A : Type 0} (to_string : Error → String) (m : Printed A)
    → (exit_of to_string m ≡ code 0) ↔ ((a : A) × (ending m ≡ gives a))
unfolding exit_of main
exit_of-zero to_string (printed lines (gives a)) = ((λ e. (a, refl)), (λ _. refl))
exit_of-zero to_string (printed lines (stops e)) =
    ((λ h. absurd (ground (arith, h))), (λ (a, e). cc))
exit_of-zero to_string (printed lines exits) = ((λ h. absurd (ground (arith, h))), (λ (a, e). cc))
exit_of-zero to_string (printed lines hangs) = ((λ e. cc), (λ (a, e). cc))
exit_of-zero to_string (printed lines crashes) = ((λ e. cc), (λ (a, e). cc))

try-gives : {A : Type 0} (r : Result A) (a : A) → (ending (try r) ≡ gives a) ↔ (r ≡ ok a)
try-gives (ok b) a = ((λ e. ap ok (gives-eq e)), (λ e. cc))
try-gives (err e) a = ((λ e. cc), (λ e. cc))

found :
    (to_string : Error → String) (r : Result (Option UserIdentity)) (id : UserIdentity)
    → (ending (load_identity_or_exit to_string r) ≡ gives id) ↔ (r ≡ ok (some id))
unfolding load_identity_or_exit
found to_string (ok (some i)) id = ((λ e. ap (λ x. ok (some x)) (gives-eq e)), (λ e. cc))
found to_string (ok none) id = ((λ e. cc), (λ e. cc))
found to_string (err e) id = ((λ e. cc), (λ e. cc))

module _ {S : Type 0} (h : Host S) (c : Crates S) (hex_encode : Bytes → String) where
  -- The command `send` ends with the exit code 0 exactly if the file is there, an identity is found,
  -- a session is established with it and the transfer on that session succeeds.
  pub send-code :
      (n : SenderNet) (x y : ℕ) (turns : List Bool) (run : Session → Result (Unit {0}))
      (file : String) (here via_relay : Bool)
      → (exit_of h.to_string (send h c hex_encode n x y turns run file here via_relay) ≡ code 0) ↔ (
          (here ≡ true)
          × ((id : UserIdentity) × (h.identity ≡ ok (some id))
              × ((made : String × Session) × (ending
                      (announced h c hex_encode n x y turns via_relay (h.crates id))
                    ≡ gives made)
                  × (run made.1 ≡ ok tt))))
  unfolding send main
  send-code n x y turns run file false via_relay =
      ((λ e. absurd (ground (arith, e))), (λ (e, _). cc))
  send-code n x y turns run file true via_relay = (
    (λ e.
        let (u, e₀) = (exit_of-zero h.to_string _).0 e in
        let (id, known, e₁) = (ending-bind _ _ u).0 e₀ in
        let (_, _, e₂) = (ending-bind _ _ u).0 e₁ in
        let (made, there, e₃) = (ending-bind _ _ u).0 e₂ in
        let (_, _, e₄) = (ending-bind _ _ u).0 e₃ in
        let (_, over, _) = (ending-bind _ _ u).0 e₄ in
        (
          refl,
          (id, (found h.to_string h.identity id).0 known, (made, there, (try-gives _ _).0 over)),
        )),
    (λ (_, (id, known, (made, there, over))). (exit_of-zero h.to_string _).1 (
      tt,
      (ending-bind _ _ tt).1 (
        id,
        (found h.to_string h.identity id).1 known,
        (ending-bind _ _ tt).1 (
          tt,
          refl,
          (ending-bind _ _ tt).1 (
            made,
            there,
            (ending-bind _ _ tt).1
                (tt, refl, (ending-bind _ _ tt).1 (tt, (try-gives _ _).1 over, refl)),
          ),
        ),
      ),
    )),
  )
