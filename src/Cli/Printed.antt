-- ===== src/Cli/Printed.antt =====
-- What a command prints, in order, and how it ends.
use p2pfileshare.Base.{ℕ, String, ◌<>◌, List, [], ◌∷◌, ◌++◌, ok, err}
use p2pfileshare.Errors.{Error, Result}
use p2pfileshare.Coordinator.Attempt.{Outcome, waiting, panicked, returned}

-- `println!`, `eprintln!`, and a line of the table of the contacts before it is padded.
pub data Line : Type 0 where
  stdout stderr : String → Line
  columns : String → String → String → Line

-- A value, an error for `main`, `exit(1)` on the spot, still waiting, or a panic.
pub data Ending (A : Type 0) : Type 0 where
  gives : A → Ending A
  stops : Error → Ending A
  exits hangs crashes : Ending A

pub data Printed (A : Type 0) : Type 0 where
  printed : List Line → Ending A → Printed A

abbrev pub before : {A : Type 0} → List Line → Printed A → Printed A
before lines (printed more e) = printed (lines ++ more) e

infixl 5 ◌>>=◌
unfoldable pub ◌>>=◌ : {A B : Type 0} → Printed A → (A → Printed B) → Printed B
printed lines (gives a) >>= next = before lines (next a)
printed lines (stops e) >>= next = printed lines (stops e)
printed lines exits >>= next = printed lines exits
printed lines hangs >>= next = printed lines hangs
printed lines crashes >>= next = printed lines crashes

abbrev pub give : {A : Type 0} → A → Printed A
give a = printed [] (gives a)

abbrev pub say : List Line → Printed (Unit {0})
say lines = printed lines (gives tt)

abbrev pub exit_after : {A : Type 0} → Line → Printed A
exit_after line = printed (line ∷ []) exits

-- `?`
abbrev pub try : {A : Type 0} → Result A → Printed A
try (ok a) = printed [] (gives a)
try (err e) = printed [] (stops e)

-- `.await?`
abbrev pub await : {A : Type 0} → Outcome A → Printed A
await waiting = printed [] hangs
await panicked = printed [] crashes
await (returned r) = try r

-- The exit code of the process, if it ends without a panic.
pub data Exit : Type 0 where
  code : ℕ → Exit
  running panic : Exit

-- An error is printed, and the process ends with 1.
unfoldable pub main : {A : Type 0} → (Error → String) → Printed A → List Line × Exit
main to_string (printed lines (gives a)) = (lines, code 0)
main to_string (printed lines (stops e)) =
    (lines ++ (stderr ("error: " <> to_string e) ∷ []), code 1)
main to_string (printed lines exits) = (lines, code 1)
main to_string (printed lines hangs) = (lines, running)
main to_string (printed lines crashes) = (lines, panic)
