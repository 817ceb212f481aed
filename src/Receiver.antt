-- ===== src/Receiver.antt =====
-- `receive_file_direct` of p2pshare-core/src/transfer/receiver.rs: the loop over the data stream.
-- The control stream is its bytes, with the list of messages in them beside it. The background
-- write of the last chunk is `pending_write`; the file holds it once the write has been awaited.
pub mod SubMessages
pub mod Frames
pub mod Integrity
pub mod Invariant
pub mod View
pub mod Termination
pub mod Calm
pub mod Completion
pub mod Honest
pub mod Saves
pub mod Start
pub mod Delivery
use p2pfileshare.Base.{
  ℕ, zero, suc, ◌+◌, ◌*◌, ◌/◌, ◌%◌, ◌^◌, ltb, leb, ◌==◌, if◌then◌else◌, Bool, true, false, not,
  ◌||◌, String, ◌<>◌, List, [], ◌∷◌, ◌++◌, length, Option, none, some, ok, err, ◌>>=◌, fail_if,
}
use p2pfileshare.Base.Bytes.{Bytes, from_be_bytes, read_exact}
use p2pfileshare.Base.Sets.{contains, remove, insert, is_empty, missing}
use p2pfileshare.Base.Text.{show}
use p2pfileshare.Errors.{Error, Result, connection_failed}
use p2pfileshare.Manifest.{
  FileManifest, ControlMessage, chunk_nack, progress, complete, actual_chunk_size,
}
use p2pfileshare.Progress.{Progress, advance, retract}
use p2pfileshare.Files.{File, write_at}
use p2pfileshare.Resume.{TransferState, Json, Store, save, delete}
use p2pfileshare.Session.Cipher.{Noise, decrypt_sub_message}
use p2pfileshare.Session.Codec.{Codec}
use p2pfileshare.Session.Peer.{PeerSession, ended, send_ctrl}

-- What the transfer runs on: the codecs, and the error that a write at an offset meets, if any.
pub record Env : Type 0 where
  pub codec : Codec
  pub json : Json
  pub disk_error : ℕ → Option Error

pub record Recv : Type 0 where
  pub session : PeerSession
  pub ctrl_out : Bytes
  pub sent : List ControlMessage
  pub state : TransferState
  pub pending : List ℕ
  pub file : File
  pub pending_write : Option (ℕ × Bytes)
  pub chunks_since_save : ℕ
  pub chunks_since_ack : ℕ
  pub confirmed : ℕ
  pub bar : Progress
  pub store : Store

abbrev pub state_save_interval : ℕ
state_save_interval = 16

abbrev pub ack_interval : ℕ
ack_interval = 4

unfoldable pub max_payload : FileManifest → ℕ
max_payload m = m.chunk_size + m.chunk_size / 2048 + 4096

unfoldable pub send : Env → Recv → ControlMessage → Result Recv
send env r msg =
    let (session', out) = send_ctrl env.codec r.session msg in
    do
      bytes ← out
      ok (record r {
        session = session';
        ctrl_out = r.ctrl_out ++ bytes;
        sent = r.sent ++ (msg ∷ []);
      })

-- What the loop over the sub-messages of one chunk keeps.
pub record Subs : Type 0 where
  pub plaintext : Bytes
  pub decrypt_failed : Bool
  pub advanced : ℕ
  pub sub_bar : Progress

abbrev pub sub_start : Progress → Subs
sub_start bar = record { plaintext = []; decrypt_failed = false; advanced = 0; sub_bar = bar }

-- A sub-message is only drained if the chunk is not wanted or has failed before.
unfoldable pub take_sub : Noise → ℕ → Bool → ℕ → Bytes → Subs → Subs
take_sub n chunk_index is_pending sub_idx ciphertext acc =
    if not is_pending || acc.decrypt_failed
    then acc
    else elim (decrypt_sub_message n chunk_index sub_idx ciphertext) [
      | ok sub_plain ↦ record {
        plaintext = acc.plaintext ++ sub_plain;
        decrypt_failed = false;
        advanced = acc.advanced + length sub_plain;
        sub_bar = advance (length sub_plain) acc.sub_bar;
      }
      | err _ ↦ record acc {
        decrypt_failed = true;
        advanced = 0;
        sub_bar = retract acc.advanced acc.sub_bar;
      }
    ]

unfoldable pub receive_subs : Noise → ℕ → Bool → ℕ → ℕ → Subs → Bytes → Result (Subs × Bytes)
unfolding take_sub
receive_subs n chunk_index is_pending zero sub_idx acc s = ok (acc, s)
receive_subs n chunk_index is_pending (suc count) sub_idx acc s = do
  (len_buf, s) ← read_exact ended 4 s
  let sub_len = from_be_bytes len_buf
  _ ← fail_if (ltb 65535 sub_len) (
      connection_failed (
        "chunk "
        <> show chunk_index
        <> " sub "
        <> show sub_idx
        <> " len "
        <> show sub_len
        <> " exceeds Noise max"))
  (ciphertext, s) ← read_exact ended sub_len s
  receive_subs n chunk_index is_pending count (suc sub_idx)
      (take_sub n chunk_index is_pending sub_idx ciphertext acc) s

-- Wait for the background write, if there is one.
unfoldable pub flush : Env → Recv → Result Recv
flush env r = elim r.pending_write [
  | none ↦ ok r
  | some (offset, bytes) ↦ elim (env.disk_error offset) [
    | none ↦ ok (record r { file = write_at offset bytes r.file; pending_write = none })
    | some e ↦ err e
  ]
]

-- Report the confirmed bytes after every fourth chunk and after the last.
unfoldable pub acknowledge : Env → Recv → Result Recv
unfolding send
acknowledge env r =
    if leb ack_interval r.chunks_since_ack || is_empty r.pending
    then (do r ← send env r (progress r.confirmed); ok (record r { chunks_since_ack = 0 }))
    else ok r

-- Save the state after every sixteenth chunk.
unfoldable pub save_throttled : Env → Recv → Result Recv
save_throttled env r =
    let n = r.chunks_since_save + 1 in
    if leb state_save_interval n
    then (do
      store ← save env.json r.state r.store
      ok (record r { store = store; chunks_since_save = 0 }))
    else ok (record r { chunks_since_save = n })

-- The chunk is handed to the background write and counts as done.
unfoldable pub hand_over : FileManifest → Recv → ℕ → Bytes → Recv
hand_over m r chunk_index plaintext = record r {
  pending_write = some (chunk_index * m.chunk_size, plaintext);
  pending = remove chunk_index r.pending;
  state = record (r.state) { chunks_done = insert chunk_index r.state.chunks_done };
  confirmed = (r.confirmed + actual_chunk_size chunk_index m.chunk_size m.total_size) % 2 ^ 64;
  chunks_since_ack = r.chunks_since_ack + 1;
}

unfoldable pub accept_chunk : Env → FileManifest → Recv → ℕ → Bytes → Result Recv
unfolding flush hand_over acknowledge save_throttled
accept_chunk env m r chunk_index plaintext = do
  r ← flush env r
  r ← acknowledge env (hand_over m r chunk_index plaintext)
  save_throttled env r

-- The part of the loop's body behind the sub-messages: skip, refuse or accept the chunk.
unfoldable pub judge_chunk : Env → FileManifest → Recv → ℕ → Bool → Subs → Result Recv
unfolding accept_chunk
judge_chunk env m r chunk_index is_pending acc =
    let expected_size = actual_chunk_size chunk_index m.chunk_size m.total_size in
    let read = record r { bar = acc.sub_bar } in
    if not is_pending
    then ok read
    else if acc.decrypt_failed
    then send env read (chunk_nack chunk_index)
    else if length acc.plaintext == expected_size
    then accept_chunk env m read chunk_index acc.plaintext
    else send env (record r { bar = retract acc.advanced acc.sub_bar }) (chunk_nack chunk_index)

-- The loop's body: one chunk frame, `[4-byte index][4-byte payload length][payload]`.
unfoldable pub receive_frame : Env → FileManifest → Recv → Bytes → Result (Recv × Bytes)
unfolding receive_subs judge_chunk
receive_frame env m r s = do
  (idx_buf, s) ← read_exact ended 4 s
  let chunk_index = from_be_bytes idx_buf
  (len_buf, s) ← read_exact ended 4 s
  let payload_len = from_be_bytes len_buf
  _ ← fail_if (ltb (max_payload m) payload_len) (
      connection_failed (
        "chunk "
        <> show chunk_index
        <> " payload_len "
        <> show payload_len
        <> " exceeds max "
        <> show (max_payload m)))
  (sub_count_buf, s) ← read_exact ended 2 s
  let is_pending = contains r.pending chunk_index
  (acc, s) ←
      receive_subs r.session.noise_state chunk_index is_pending (from_be_bytes sub_count_buf) 0
        (sub_start r.bar) s
  r ← judge_chunk env m r chunk_index is_pending acc
  ok (r, s)

-- `while !pending.is_empty()`; `none` means that the fuel ran out.
unfoldable pub receive_loop : ℕ → Env → FileManifest → Recv → Bytes → Option (Result (Recv × Bytes))
unfolding receive_frame
receive_loop zero env m r s = none
receive_loop (suc fuel) env m r s = elim (is_empty r.pending) [
  | true ↦ some (ok (r, s))
  | false ↦ elim (receive_frame env m r s) [
    | ok (r', s') ↦ receive_loop fuel env m r' s'
    | err e ↦ some (err e)
  ]
]

-- Behind the loop: the last write, the last save, `Complete`, and the state file goes.
unfoldable pub finish : Env → Recv → Result Recv
unfolding flush send
finish env r = do
  r ← flush env r
  store ← save env.json r.state r.store
  r ← send env (record r { store = store }) complete
  ok (record r { store = delete r.state r.store })

-- The loop and what stands behind it.
unfoldable pub receive_chunks : ℕ → Env → FileManifest → Recv → Bytes → Option (Result Recv)
unfolding receive_loop finish
receive_chunks fuel env m r s = elim (receive_loop fuel env m r s) [
  | none ↦ none
  | some (ok (r', _)) ↦ some (finish env r')
  | some (err e) ↦ some (err e)
]
