-- ===== src/RelayReceiver.antt =====
-- p2pshare-core/src/transfer/relay_receiver.rs: `receive_file_relay`, over the one stream of a
-- relay session. A write is awaited before the next message is read.
pub mod View
pub mod Opened
pub mod Calm
pub mod Honest
pub mod Termination
pub mod Delivery
use p2pfileshare.Base.{
  ℕ, zero, suc, ◌+◌, ◌*◌, ◌%◌, ◌^◌, ltb, ◌==◌, if◌then◌else◌, Bool, true, false, String, ◌<>◌, List,
  [], ◌∷◌, ◌++◌, length, Option, none, some, ok, err, ◌>>=◌,
}
use p2pfileshare.Base.Bytes.{Bytes}
use p2pfileshare.Base.Sets.{remove, insert, is_empty}
use p2pfileshare.Errors.{Error, Result, connection_failed}
use p2pfileshare.Manifest.{
  FileManifest, ControlMessage, manifest, manifest_ack, resume_request, chunk_nack, progress,
  complete, error, TransferMode, bulk, streaming, actual_chunk_size, sum_chunks,
}
use p2pfileshare.Progress.{Progress, reset, advance}
use p2pfileshare.Files.{File, create, write_at}
use p2pfileshare.Resume.{TransferState, Store, save, delete, new, find_resumable, missing_chunks}
use p2pfileshare.Session.Relay.{
  relay_decrypt_chunk, RelaySession, RelayMsg, ctrl, chunk, send_ctrl, recv_msg, recv_ctrl_msg,
}
use p2pfileshare.Receiver.{Env}
use p2pfileshare.Receiver.Start.{Disk, output_path}

pub record RelayRecv : Type 0 where
  pub session : RelaySession
  pub out : Bytes
  pub sent : List ControlMessage
  pub state : TransferState
  pub pending : List ℕ
  pub file : File
  pub confirmed : ℕ
  pub bar : Progress
  pub store : Store

unfoldable pub relay_send : Env → RelayRecv → ControlMessage → Result RelayRecv
relay_send env r msg =
    let (session', out) = send_ctrl env.codec r.session msg in
    do
      bytes ← out
      ok (record r { session = session'; out = r.out ++ bytes; sent = r.sent ++ (msg ∷ []) })

-- The state is saved whenever the number of the chunks that are done is a multiple of 16.
unfoldable pub save_every_16 : Env → RelayRecv → Result RelayRecv
save_every_16 env r =
    if length r.state.chunks_done % 16 == 0
    then (do store ← save env.json r.state r.store; ok (record r { store = store }))
    else ok r

-- A chunk of the right size: written, counted, reported.
unfoldable pub relay_accept : Env → FileManifest → RelayRecv → ℕ → Bytes → Result RelayRecv
unfolding relay_send save_every_16
relay_accept env m r chunk_index plaintext = elim (env.disk_error (chunk_index * m.chunk_size)) [
  | some e ↦ err e
  | none ↦
      let confirmed = (r.confirmed + length plaintext) % 2 ^ 64 in
      do
        r ←
            relay_send env
              (record r {
                file = write_at (chunk_index * m.chunk_size) plaintext r.file;
                bar = advance (length plaintext) r.bar;
                pending = remove chunk_index r.pending;
                state = record (r.state) { chunks_done = insert chunk_index r.state.chunks_done };
                confirmed = confirmed;
              })
              (progress confirmed)
        save_every_16 env r
]

-- The answer to one chunk: a chunk that cannot be decrypted or has another size is asked for again.
unfoldable pub relay_chunk : Env → FileManifest → RelayRecv → ℕ → Bytes → Result RelayRecv
unfolding relay_accept
relay_chunk env m r chunk_index ciphertext =
    elim (relay_decrypt_chunk r.session chunk_index ciphertext) [
      | err _ ↦ relay_send env r (chunk_nack chunk_index)
      | ok plaintext ↦
          if length plaintext == actual_chunk_size chunk_index m.chunk_size m.total_size
          then relay_accept env m r chunk_index plaintext
          else relay_send env r (chunk_nack chunk_index)
    ]

-- One message of the stream.
unfoldable pub relay_msg :
    Env → FileManifest → RelayRecv → RelayMsg × Bytes → Result (RelayRecv × Bytes)
unfolding relay_chunk
relay_msg env m r (chunk chunk_index ciphertext, s) = do
  r ← relay_chunk env m r chunk_index ciphertext
  ok (r, s)
relay_msg env m r (ctrl msg, s) =
    err (connection_failed ("unexpected ctrl msg during chunk recv: " <> env.codec.debug msg))

-- `while !pending.is_empty()`; `none` means that the fuel ran out.
unfoldable pub relay_loop :
    ℕ → Env → FileManifest → RelayRecv → Bytes → Option (Result (RelayRecv × Bytes))
unfolding relay_msg
relay_loop zero env m r s = none
relay_loop (suc fuel) env m r s = elim (is_empty r.pending) [
  | true ↦ some (ok (r, s))
  | false ↦ elim (recv_msg env.codec r.session s >>= relay_msg env m r) [
    | ok (r', s') ↦ relay_loop fuel env m r' s'
    | err e ↦ some (err e)
  ]
]

-- The last save, `Complete`, and the state file goes.
unfoldable pub relay_finish : Env → RelayRecv → Result RelayRecv
unfolding relay_send
relay_finish env r = do
  store ← save env.json r.state r.store
  r ← relay_send env (record r { store = store }) complete
  ok (record r { store = delete r.state r.store })

abbrev pub relay_waiting : RelaySession → TransferState → File → Progress → Store → RelayRecv
relay_waiting session state file bar store = record {
  session = session;
  out = [];
  sent = [];
  state = state;
  pending = [];
  file = file;
  confirmed = 0;
  bar = bar;
  store = store;
}

-- Resume or fresh start.
unfoldable pub relay_begin : Env → Disk → RelaySession → FileManifest → Progress → Result RelayRecv
unfolding find_resumable create new relay_send
relay_begin env d session m bar = elim (find_resumable env.json m d.output_dir d.exists d.states) [
  | some existing ↦
      relay_send env (relay_waiting session existing (d.content (output_path m d)) bar d.states)
        (resume_request existing.chunks_done)
  | none ↦ do
    _ ← d.created
    relay_send env
        (relay_waiting session (new m (output_path m d)) (create m.total_size) bar d.states)
        manifest_ack
]

-- The counters, and the set of the chunks that are wanted.
unfoldable pub relay_prepare : FileManifest → RelayRecv → RelayRecv
unfolding missing_chunks sum_chunks reset advance
relay_prepare m r =
    let initial_done = sum_chunks m r.state.chunks_done in
    let bar = reset m.total_size r.bar in
    record r {
      bar = if ltb 0 initial_done then advance initial_done bar else bar;
      pending = missing_chunks r.state;
      confirmed = initial_done;
    }

-- The loop and what stands behind it.
unfoldable pub relay_chunks : ℕ → Env → FileManifest → RelayRecv → Bytes → Option (Result RelayRecv)
unfolding relay_loop relay_finish
relay_chunks fuel env m r s = elim (relay_loop fuel env m r s) [
  | none ↦ none
  | some (ok (r', _)) ↦ some (relay_finish env r')
  | some (err e) ↦ some (err e)
]

unfoldable pub relay_manifest :
    ℕ
    → Env
    → Disk
    → RelaySession
    → Progress
    → FileManifest
    → Bytes
    → TransferMode
    → Option (Result RelayRecv)
unfolding relay_begin relay_prepare relay_chunks
relay_manifest fuel env d session bar m s (streaming _) =
    let refuse = (do
      _ ←
          relay_send env (relay_waiting session (new m "") (create 0) bar d.states)
            (error 1 "Streaming mode not implemented")
      err (connection_failed "streaming mode not supported")) in
    some refuse
relay_manifest fuel env d session bar m s bulk =
    elim (do r ← relay_begin env d session m bar; _ ← d.opened; ok (relay_prepare m r)) [
      | ok r ↦ relay_chunks fuel env m r s
      | err e ↦ some (err e)
    ]

unfoldable pub relay_first :
    ℕ → Env → Disk → RelaySession → Progress → ControlMessage → Bytes → Option (Result RelayRecv)
unfolding relay_manifest
relay_first fuel env d session bar (manifest m) s =
    relay_manifest fuel env d session bar m s m.transfer_mode
relay_first fuel env d session bar msg s =
    some (err (connection_failed ("expected Manifest, got " <> env.codec.debug msg)))

-- The whole transfer, on the bytes of the relay stream.
unfoldable pub receive_file_relay :
    ℕ → Env → Disk → RelaySession → Progress → Bytes → Option (Result RelayRecv)
unfolding relay_first
receive_file_relay fuel env d session bar s = elim (recv_ctrl_msg env.codec session s) [
  | ok (msg, s') ↦ relay_first fuel env d session bar msg s'
  | err e ↦ some (err e)
]
