-- ===== src/Api/Drive.antt =====
-- The functions that drive a transfer, and those that connect and transfer in one call. The transfer
-- on a session is the argument `run`.
use p2pfileshare.Base.{false, ℕ, ◌%◌, String, Option, none, some, Res, ok, err, ◌>>=◌, map_err}
use p2pfileshare.Errors.{Error, Result}
use p2pfileshare.RelayClient.{Reply}
use p2pfileshare.Session.Either.{Session}
use p2pfileshare.Coordinator.Attempt.{Outcome, waiting, panicked, returned, outcome_of}
use p2pfileshare.Coordinator.RelayOnly.{
  announce_via_relay_only, connect_via_relay_only, connect_via_relay_only_via_proxy,
}
use p2pfileshare.Api.Registry.{Registry, take_session}
use p2pfileshare.Api.Sessions.{Host, Answer, unanswered, crashed, answer, ok_or, ready}

pub record ApiTransferResult : Type 0 where
  pub file_name : String
  pub file_path : String
  pub bytes_transferred : ℕ

-- The name in a path, and the size of the file.
pub record Paths : Type 0 where
  pub file_name : String → Option String
  pub size : String → Option ℕ

unfoldable pub name_or_empty : Option String → String
name_or_empty none = ""
name_or_empty (some name) = name

unfoldable pub size_or_zero : Option ℕ → ℕ
size_or_zero none = 0
size_or_zero (some n) = n

unfoldable pub transfer_result : Paths → String → ApiTransferResult
unfolding name_or_empty size_or_zero
transfer_result p saved_to = record {
  file_name = name_or_empty (p.file_name saved_to);
  file_path = saved_to;
  bytes_transferred = size_or_zero (p.size saved_to);
}

-- The session leaves the registry before the transfer starts, and does not come back.
unfoldable pub api_drive_send :
    (Error → String)
    → (Session → Result (Unit {0}))
    → ℕ
    → Registry
    → Registry × Res String (Unit {0})
unfolding take_session ok_or
api_drive_send to_string run handle r =
    let (r', found) = take_session handle r in
    let sent = (do session ← ok_or "session not found" found; map_err to_string (run session)) in
    (r', sent)

unfoldable pub api_drive_receive :
    (Error → String)
    → Paths
    → (Session → Result String)
    → ℕ
    → Registry
    → Registry × Res String ApiTransferResult
unfolding take_session ok_or transfer_result
api_drive_receive to_string p run handle r =
    let (r', found) = take_session handle r in
    let received = (do
      session ← ok_or "session not found" found
      saved_to ← map_err to_string (run session)
      ok (transfer_result p saved_to)) in
    (r', received)

-- A transfer on a session that is not kept.
unfoldable pub received_on :
    (Error → String)
    → Paths
    → (Session → Result String)
    → Outcome Session
    → Answer ApiTransferResult
unfolding transfer_result
received_on to_string p run waiting = unanswered
received_on to_string p run panicked = crashed
received_on to_string p run (returned (err e)) = answer (err (to_string e))
received_on to_string p run (returned (ok session)) =
    let received = (do
      saved_to ← map_err to_string (run session)
      ok (transfer_result p saved_to)) in
    answer received

-- The code, once the file has been sent.
unfoldable pub sent_on :
    (Error → String) → (Session → Result (Unit {0})) → Outcome (String × Session) → Answer String
sent_on to_string run waiting = unanswered
sent_on to_string run panicked = crashed
sent_on to_string run (returned (err e)) = answer (err (to_string e))
sent_on to_string run (returned (ok (code, session))) =
    let sent = (do _ ← map_err to_string (run session); ok code) in answer sent

unfoldable pub api_send_file_relay :
    {S : Type 0} → Host S → (Session → Result (Unit {0})) → ℕ → ℕ → Reply → Answer String
unfolding sent_on ready
api_send_file_relay h run x y reply = elim (ready h false) [
  | err why ↦ answer (err why)
  | ok identity ↦
      sent_on h.to_string run (outcome_of (announce_via_relay_only (h.crates identity) x y reply))
]

module _ {S : Type 0} (h : Host S) (p : Paths) (run : Session → Result String) where
  unfoldable pub api_receive_file_relay : String → Reply → Answer ApiTransferResult
  unfolding received_on ready
  api_receive_file_relay code reply = elim (ready h false) [
    | err why ↦ answer (err why)
    | ok identity ↦
        received_on h.to_string p run
          (outcome_of (connect_via_relay_only (h.crates identity) code reply))
  ]

  unfoldable pub api_receive_file_relay_via_proxy : String → ℕ → Reply → Answer ApiTransferResult
  unfolding received_on ready
  api_receive_file_relay_via_proxy code proxy_port reply = elim (ready h false) [
    | err why ↦ answer (err why)
    | ok identity ↦ received_on h.to_string p run (
        outcome_of
          (connect_via_relay_only_via_proxy (h.crates identity) code (proxy_port % 65536) reply))
  ]
