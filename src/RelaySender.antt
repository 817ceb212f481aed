-- ===== src/RelaySender.antt =====
-- p2pshare-core/src/transfer/relay_sender.rs: `send_file_relay`. Its two loops share the stream: a
-- frame is written as a whole, by a turn of either of them.
pub mod FirstPass
use p2pfileshare.Base.{
  ℕ, ◌+◌, ltb, if◌then◌else◌, Bool, true, false, String, ◌<>◌, List, [], ◌∷◌, ◌++◌, Option, none,
  some, Res, ok, err, ◌>>=◌,
}
use p2pfileshare.Base.Bytes.{Bytes}
use p2pfileshare.Base.Sets.{missing}
use p2pfileshare.Errors.{Error, Result, connection_failed}
use p2pfileshare.Manifest.{
  FileManifest, ControlMessage, manifest, manifest_ack, resume_request, chunk_nack, progress,
  complete, error, sum_chunks,
}
use p2pfileshare.Progress.{Progress, reset, advance, set_done}
use p2pfileshare.Files.{File}
use p2pfileshare.Session.Cipher.{Noise, encrypt_chunk}
use p2pfileshare.Session.Codec.{Codec}
use p2pfileshare.Session.Relay.{send_chunk_raw}
use p2pfileshare.Sender.{read_chunk, chunks_to_skip, Turn, ctrl_turn, data_turn}

pub record RelaySender : Type 0 where
  pub noise_state : Noise
  pub file : File
  pub to_send : List ℕ
  pub stream : Bytes
  pub finished : Bool
  pub bar : Progress

unfoldable pub send_one_chunk : FileManifest → RelaySender → ℕ → Result RelaySender
send_one_chunk m s index = do
  plaintext ← read_chunk m s.file index
  encrypted ← encrypt_chunk s.noise_state index plaintext
  ok (record s { stream = s.stream ++ send_chunk_raw index encrypted })

unfoldable pub relay_begin :
    Codec → FileManifest → Noise → File → Progress → ControlMessage → Result RelaySender
unfolding reset advance sum_chunks
relay_begin codec m n f bar answer = do
  skip ← chunks_to_skip codec answer
  let initial_done = sum_chunks m skip
  let bar = reset m.total_size bar
  ok (record {
    noise_state = n;
    file = f;
    to_send = missing m.chunk_count 0 skip;
    stream = [];
    finished = false;
    bar = if ltb 0 initial_done then advance initial_done bar else bar;
  })

-- The loop over the answers of the receiver, which sends a refused chunk again itself.
unfoldable pub on_answer : FileManifest → RelaySender → ControlMessage → Result RelaySender
unfolding send_one_chunk set_done
on_answer m s (progress bytes) = ok (record s { bar = set_done bytes s.bar })
on_answer m s complete = ok (record s { bar = set_done m.total_size s.bar; finished = true })
on_answer m s (chunk_nack index) = send_one_chunk m s index
on_answer m s (error _ message) = err (connection_failed ("receiver: " <> message))
on_answer m s (manifest _) = ok s
on_answer m s manifest_ack = ok s
on_answer m s (resume_request _) = ok s

-- The next chunk of the first pass.
unfoldable pub send_chunks : FileManifest → RelaySender → List ℕ → Result RelaySender
unfolding send_one_chunk
send_chunks m s [] = ok s
send_chunks m s (index ∷ rest) = send_one_chunk m (record s { to_send = rest }) index

unfoldable pub relay_turn : FileManifest → RelaySender → Turn → Result RelaySender
unfolding on_answer send_chunks
relay_turn m s (ctrl_turn msg) = let next = on_answer m s msg in if s.finished then ok s else next
relay_turn m s data_turn = send_chunks m s s.to_send

unfoldable pub relay_run : FileManifest → List Turn → RelaySender → Result RelaySender
unfolding relay_turn
relay_run m [] s = ok s
relay_run m (t ∷ ts) s = do s ← relay_turn m s t; relay_run m ts s
