-- ===== src/Sender.antt =====
-- `send_file_direct` of p2pshare-core/src/transfer/sender.rs: the answer to the manifest, the loop
-- over the control stream and the loop that sends. The two loops run side by side: a run is the list
-- of their turns in the order in which they were taken.
pub mod Frames
pub mod FirstPass
use p2pfileshare.Base.{
  ℕ, ◌+◌, ◌*◌, ◌%◌, ◌^◌, ltb, if◌then◌else◌, Bool, true, false, String, ◌<>◌, List, [], ◌∷◌, ◌++◌,
  length, Option, none, some, ok, err, ◌>>=◌,
}
use p2pfileshare.Base.Bytes.{Bytes, to_be_bytes}
use p2pfileshare.Base.Sets.{missing, insert}
use p2pfileshare.Errors.{Error, Result, connection_failed}
use p2pfileshare.Manifest.{
  FileManifest, ControlMessage, manifest, manifest_ack, resume_request, chunk_nack, progress,
  complete, error, actual_chunk_size, sum_chunks,
}
use p2pfileshare.Progress.{Progress, reset, advance, set_done}
use p2pfileshare.Files.{File, read_at}
use p2pfileshare.Session.Cipher.{Noise, encrypt_chunk}
use p2pfileshare.Session.Codec.{Codec}

-- Where the sending loop stands: before a chunk of the first pass, behind one, or behind them all.
pub data Phase : Type 0 where
  sending : Phase
  draining : Phase
  serving : Phase
  ended : Phase

pub record Sender : Type 0 where
  pub noise_state : Noise
  pub file : File
  pub to_send : List ℕ
  pub buf : Option Bytes
  pub stream : Bytes
  pub nacks : List ℕ
  pub closed : Bool
  pub bar : Progress
  pub phase : Phase

unfoldable pub read_chunk : FileManifest → File → ℕ → Result Bytes
unfolding read_at
read_chunk m f i = read_at (i * m.chunk_size) (actual_chunk_size i m.chunk_size m.total_size) f

unfoldable pub encode_chunk_frame : Noise → ℕ → Bytes → Result Bytes
encode_chunk_frame n chunk_index plaintext = do
  encrypted ← encrypt_chunk n chunk_index plaintext
  ok (to_be_bytes 4 chunk_index ++ (to_be_bytes 4 (length encrypted) ++ encrypted))

-- The first chunk of a list is read ahead.
unfoldable pub read_ahead : FileManifest → File → List ℕ → Result (Option Bytes)
unfolding read_chunk
read_ahead m f [] = ok none
read_ahead m f (i ∷ _) = do bytes ← read_chunk m f i; ok (some bytes)

-- `collect` into a set.
unfoldable pub collect : List ℕ → List ℕ
unfolding insert
collect [] = []
collect (i ∷ is) = insert i (collect is)

-- The chunks that the receiver has, from its answer to the manifest.
unfoldable pub chunks_to_skip : Codec → ControlMessage → Result (List ℕ)
unfolding collect
chunks_to_skip codec manifest_ack = ok []
chunks_to_skip codec (resume_request have_chunks) = ok (collect have_chunks)
chunks_to_skip codec msg =
    err (connection_failed ("unexpected response to manifest: " <> codec.debug msg))

unfoldable pub begin :
    Codec → FileManifest → Noise → File → Progress → ControlMessage → Result Sender
unfolding chunks_to_skip read_ahead reset advance sum_chunks
begin codec m n f bar answer = do
  skip ← chunks_to_skip codec answer
  let initial_done = sum_chunks m skip
  let bar = reset m.total_size bar
  let to_send = missing m.chunk_count 0 skip
  buf ← read_ahead m f to_send
  ok (record {
    noise_state = n;
    file = f;
    to_send = to_send;
    buf = buf;
    stream = [];
    nacks = [];
    closed = false;
    bar = if ltb 0 initial_done then advance initial_done bar else bar;
    phase = sending;
  })

-- One message on the control stream. The loop has returned once it is closed.
unfoldable pub on_ctrl : FileManifest → Sender → ControlMessage → Result Sender
unfolding set_done
on_ctrl m s (progress bytes) = ok (record s { bar = set_done bytes s.bar })
on_ctrl m s (chunk_nack index) = ok (record s { nacks = s.nacks ++ (index ∷ []) })
on_ctrl m s complete = ok (record s { bar = set_done m.total_size s.bar; closed = true })
on_ctrl m s (error _ message) = err (connection_failed ("receiver: " <> message))
on_ctrl m s (manifest _) = ok s
on_ctrl m s manifest_ack = ok s
on_ctrl m s (resume_request _) = ok s

unfoldable pub retransmit : FileManifest → Sender → ℕ → Result Sender
unfolding read_chunk encode_chunk_frame
retransmit m s index = do
  plaintext ← read_chunk m s.file index
  frame ← encode_chunk_frame s.noise_state index plaintext
  ok (record s { stream = s.stream ++ frame })

-- A chunk of the first pass: `none` is the panic of `expect("read-ahead buffer")`.
unfoldable pub send_next : FileManifest → Sender → List ℕ → Option Bytes → Option (Result Sender)
unfolding encode_chunk_frame read_ahead
send_next m s [] buf = some (ok (record s { phase = serving }))
send_next m s (index ∷ rest) none = none
send_next m s (index ∷ rest) (some plaintext) =
    let sent = (do
      frame ← encode_chunk_frame s.noise_state index plaintext
      buf ← read_ahead m s.file rest
      ok (record s { stream = s.stream ++ frame; to_send = rest; buf = buf; phase = draining })) in
    some sent

-- `try_recv` behind a chunk of the first pass.
unfoldable pub drain : FileManifest → Sender → List ℕ → Result Sender
unfolding retransmit
drain m s [] = ok (record s { phase = sending })
drain m s (index ∷ nacks) = retransmit m (record s { nacks = nacks }) index

-- `recv().await` behind the first pass: with nothing queued it waits, or ends on a closed channel.
unfoldable pub serve : FileManifest → Sender → List ℕ → Result Sender
unfolding retransmit
serve m s [] = ok (if s.closed then record s { phase = ended } else s)
serve m s (index ∷ nacks) = retransmit m (record s { nacks = nacks }) index

-- A turn of the sending loop.
unfoldable pub send_turn : FileManifest → Sender → Phase → Option (Result Sender)
unfolding send_next drain serve
send_turn m s sending = send_next m s s.to_send s.buf
send_turn m s draining = let sent = drain m s s.nacks in some sent
send_turn m s serving = let sent = serve m s s.nacks in some sent
send_turn m s ended = some (ok s)

pub data Turn : Type 0 where
  ctrl_turn : ControlMessage → Turn
  data_turn : Turn

unfoldable pub turn : FileManifest → Sender → Turn → Option (Result Sender)
unfolding on_ctrl send_turn
turn m s (ctrl_turn msg) = let next = on_ctrl m s msg in some (if s.closed then ok s else next)
turn m s data_turn = send_turn m s s.phase

unfoldable pub run : FileManifest → List Turn → Sender → Option (Result Sender)
unfolding turn
run m [] s = some (ok s)
run m (t ∷ ts) s = elim (turn m s t) [
  | none ↦ none
  | some (err e) ↦ some (err e)
  | some (ok s') ↦ run m ts s'
]
