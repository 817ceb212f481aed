-- ===== src/Receiver/Start.antt =====
-- `receive_file_direct` of p2pshare-core/src/transfer/receiver.rs from the manifest to the end: the
-- refusal of streaming, the resumed or fresh start, the progress counters, and the loop.
use p2pfileshare.Base.{
  ℕ, Bool, String, ◌<>◌, [], Option, none, some, ok, err, ◌>>=◌, if◌then◌else◌, ltb,
}
use p2pfileshare.Base.Bytes.{Bytes}
use p2pfileshare.Errors.{Result, connection_failed}
use p2pfileshare.Manifest.{
  FileManifest, ControlMessage, manifest, manifest_ack, resume_request, error, TransferMode, bulk,
  streaming, sum_chunks,
}
use p2pfileshare.Progress.{Progress, reset, advance}
use p2pfileshare.Files.{File, create}
use p2pfileshare.Resume.{TransferState, Store, find_resumable, join, missing_chunks, new}
use p2pfileshare.Session.Peer.{PeerSession, recv_ctrl}
use p2pfileshare.Receiver.{Env, Recv, send, receive_chunks}

-- The disk before the transfer: the files under the output directory, the error that making the
-- output file or opening it meets, and the saved states.
pub record Disk : Type 0 where
  pub output_dir : String
  pub exists : String → Bool
  pub content : String → File
  pub created : Result (Unit {0})
  pub opened : Result (Unit {0})
  pub states : Store

abbrev pub output_path : FileManifest → Disk → String
output_path m d = join d.output_dir m.filename

-- Nothing is wanted before `prepare`.
abbrev pub waiting : PeerSession → TransferState → File → Progress → Store → Recv
waiting session state file bar store = record {
  session = session;
  ctrl_out = [];
  sent = [];
  state = state;
  pending = [];
  file = file;
  pending_write = none;
  chunks_since_save = 0;
  chunks_since_ack = 0;
  confirmed = 0;
  bar = bar;
  store = store;
}

-- Resume or fresh start, with the message that says which.
unfoldable pub begin : Env → Disk → PeerSession → FileManifest → Progress → Result Recv
unfolding find_resumable create new send
begin env d session m bar = elim (find_resumable env.json m d.output_dir d.exists d.states) [
  | some existing ↦
      send env (waiting session existing (d.content (output_path m d)) bar d.states)
        (resume_request existing.chunks_done)
  | none ↦ do
    _ ← d.created
    send env (waiting session (new m (output_path m d)) (create m.total_size) bar d.states)
        manifest_ack
]

-- The counters, and the set of the chunks that are wanted.
unfoldable pub prepare : FileManifest → Recv → Recv
unfolding missing_chunks sum_chunks reset advance
prepare m r =
    let initial_done = sum_chunks m r.state.chunks_done in
    let bar = reset m.total_size r.bar in
    record r {
      bar = if ltb 0 initial_done then advance initial_done bar else bar;
      pending = missing_chunks r.state;
      confirmed = initial_done;
    }

-- The control stream is refused with an error before the transfer is.
unfoldable pub receive_manifest :
    ℕ
    → Env
    → Disk
    → PeerSession
    → Progress
    → FileManifest
    → Bytes
    → TransferMode
    → Option (Result Recv)
unfolding begin prepare receive_chunks
receive_manifest fuel env d session bar m s (streaming _) =
    let refuse = (do
      _ ←
          send env (waiting session (new m "") (create 0) bar d.states)
            (error 1 "Streaming mode not implemented")
      err (connection_failed "streaming mode not supported")) in
    some refuse
receive_manifest fuel env d session bar m s bulk =
    elim (do r ← begin env d session m bar; _ ← d.opened; ok (prepare m r)) [
      | ok r ↦ receive_chunks fuel env m r s
      | err e ↦ some (err e)
    ]

-- The message `msg` that came first on the control stream.
unfoldable pub receive_first :
    ℕ → Env → Disk → PeerSession → Progress → ControlMessage → Bytes → Option (Result Recv)
unfolding receive_manifest
receive_first fuel env d session bar (manifest m) s =
    receive_manifest fuel env d session bar m s m.transfer_mode
receive_first fuel env d session bar msg s =
    some (err (connection_failed ("expected Manifest, got " <> env.codec.debug msg)))

-- The whole transfer, on the bytes of the control stream and those of the data stream.
unfoldable pub receive_file_direct :
    ℕ → Env → Disk → PeerSession → Progress → Bytes → Bytes → Option (Result Recv)
unfolding receive_first
receive_file_direct fuel env d session bar ctrl s = elim (recv_ctrl env.codec session ctrl) [
  | ok (msg, _) ↦ receive_first fuel env d session bar msg s
  | err e ↦ some (err e)
]
