-- ===== src/Tests/Transfers.antt =====
-- Transfers of the three-byte file, from the sender's frames to the receiver's disk.
use p2pfileshare.Base.{
  ◌%◌, ◌^◌, ◌+◌, ℕ, ◌<◌, ◌≡◌, ◌≢◌, refl, true, false, List, [], ◌∷◌, ◌++◌, Option, none, some, ok,
  err, ◌>>=◌, fail_if, arith, Post,
}
use p2pfileshare.Base.Bytes.{Bytes, read_exact, from_be_bytes, to_be_bytes}
use p2pfileshare.Base.Sets.{contains, is_empty, missing, remove}
use p2pfileshare.Errors.{Result}
use p2pfileshare.Manifest.{ControlMessage, manifest_ack, complete, chunk_nack, actual_chunk_size}
use p2pfileshare.Progress.{Progress}
use p2pfileshare.Files.{create}
use p2pfileshare.Resume.{new, find_resumable, save}
use p2pfileshare.Session.Cipher.{Noise, decrypt_sub_message, encrypt_chunk, chunks}
use p2pfileshare.Session.{chunk_nonce}
use p2pfileshare.Session.Peer.{recv_ctrl, send_ctrl}
use p2pfileshare.Sender.{
  read_chunk, Sender, Turn, ctrl_turn, data_turn, ended, begin, run, encode_chunk_frame,
}
use p2pfileshare.Sender.Frames.{frame_of, frames}
use p2pfileshare.Transfer.{IsPartial, run-receive_chunks}
use p2pfileshare.Sender.FirstPass.{run_sends, is_first_pass}
use p2pfileshare.Receiver.{
  Recv, Subs, judge_chunk, receive_loop, receive_chunks, accept_chunk, receive_frame, max_payload,
}
use p2pfileshare.Receiver.Start.{Disk, waiting, prepare, receive_file_direct}
use p2pfileshare.Receiver.Delivery.{receive_file_direct_delivers}
use p2pfileshare.Receiver.Completion.{receive_chunks-frames}
use p2pfileshare.Receiver.Honest.{receive-encode_chunk_frame}
use p2pfileshare.Receiver.Invariant.{Inv, receive_loop_complete}
use p2pfileshare.Receiver.Termination.{receive_file_direct-ne-none}
use p2pfileshare.Receiver.View.{view, judged, judge_chunk-view}
use p2pfileshare.Tests.Data.{
  tagging, tagging-IsPaired, tiny, tiny-IsSound, abc, honest, honest-IsShort, honest-IsAuthentic,
  calm_env, honest_env, honest_env-IsCalm, small_codec, peer,
}

abbrev bar : Progress
bar = record { bytes_done = 0; bytes_total = 0 }

abbrev empty_disk : Disk
empty_disk = record {
  output_dir = "d";
  exists = λ path. false;
  content = λ path. create 0;
  created = ok tt;
  opened = ok tt;
  states = [];
}

-- The manifest's control message: nonce 0 and no bytes.
abbrev ctrl_in : Bytes
ctrl_in = 0 ∷ 0 ∷ 0 ∷ 0 ∷ 0 ∷ 0 ∷ 0 ∷ 0 ∷ 0 ∷ 0 ∷ 0 ∷ 0 ∷ []

-- The second chunk, a chunk that the file does not have, and the first chunk.
abbrev data_in : Bytes
data_in =
    0 ∷ 0 ∷ 0 ∷ 1 ∷ 0 ∷ 0 ∷ 0 ∷ 6 ∷ 0 ∷ 1 ∷ 0 ∷ 0 ∷ 0 ∷ 0 ∷ 0 ∷ 0 ∷ 0 ∷ 5 ∷ 0 ∷ 0 ∷ 0 ∷ 2 ∷ 0 ∷ 0
    ∷ 0 ∷ 0 ∷ 0 ∷ 0 ∷ 0 ∷ 0 ∷ 0 ∷ 6 ∷ 0 ∷ 1 ∷ 0 ∷ 0 ∷ 0 ∷ 0 ∷ []

abbrev got {ℓ} : {A : Type ℓ} → A → Option (Result A) → A
got d none = d
got d (some (err _)) = d
got d (some (ok a)) = a

-- A receiver that waits for both chunks.
unfoldable fresh : Noise → Recv
unfolding prepare new create
fresh n = prepare tiny (waiting (peer n) (new tiny "d/f") (create 3) bar [])

unfoldable delivered : Recv
unfolding receive_file_direct fresh
delivered =
    got (fresh honest)
      (receive_file_direct 40 calm_env empty_disk (peer honest) bar ctrl_in data_in)

receive_file_direct_delivers_example :
    (delivered.file.len ≡ 3) × ((k : ℕ) → k < 3 → delivered.file.byte k ≡ abc.byte k)
unfolding delivered receive_file_direct recv_ctrl find_resumable read_exact from_be_bytes send_ctrl
    is_empty missing contains fail_if max_payload decrypt_sub_message chunk_nonce actual_chunk_size
    remove save
receive_file_direct_delivers_example =
    receive_file_direct_delivers tiny tiny-IsSound (omega arith) abc 40 calm_env empty_disk
      (peer honest) bar ctrl_in data_in [] delivered honest-IsShort
      (honest-IsAuthentic (omega arith)) (λ x found. cc) refl refl

receive_file_direct-ne-none_example :
    receive_file_direct 40 calm_env empty_disk (peer honest) bar ctrl_in data_in ≢ none
receive_file_direct-ne-none_example =
    receive_file_direct-ne-none 40 calm_env empty_disk (peer honest) bar ctrl_in data_in
      (omega arith)

unfoldable looped : Recv
unfolding receive_loop fresh
looped = (got (fresh honest, []) (receive_loop 40 calm_env tiny (fresh honest) data_in)).0

fresh-Inv : Inv tiny (view (fresh honest))
unfolding fresh missing contains
fresh-Inv = record { wanted = λ i. ground arith; ordered = tt; counted = refl; shown = refl }

receive_loop_complete_example :
    ((i : ℕ) → i < 2 → contains looped.state.chunks_done i ≡ true)
    × (looped.confirmed ≡ 3)
    × (looped.bar.bytes_done ≡ 3)
unfolding looped receive_loop fresh read_exact from_be_bytes send_ctrl is_empty missing contains
    fail_if max_payload decrypt_sub_message chunk_nonce actual_chunk_size remove save
receive_loop_complete_example =
    receive_loop_complete tiny tiny-IsSound (omega arith) 40 calm_env (fresh honest) looped data_in
      [] honest-IsShort fresh-Inv refl

-- The sender's frames of the second and the first chunk.
unfoldable stream : Bytes
unfolding frames
stream = elim (frames tagging tiny abc (1 ∷ 0 ∷ [])) [ ok s ↦ s | err _ ↦ [] ]

receive_chunks-frames_example :
    (r' : Recv) × (receive_chunks 3 honest_env tiny (fresh tagging) stream ≡ some (ok r'))
    × ((earlier : List ControlMessage) × (r'.sent ≡ earlier ++ (complete ∷ [])))
unfolding stream fresh contains missing frames frame_of read_chunk encode_chunk_frame encrypt_chunk
    chunks chunk_nonce to_be_bytes actual_chunk_size
receive_chunks-frames_example =
    receive_chunks-frames honest_env honest_env-IsCalm tagging tagging tagging-IsPaired
      tagging-IsPaired tiny abc (omega arith) (1 ∷ 0 ∷ []) 3 (fresh tagging) stream (omega arith)
      refl (λ i h. ground arith) (λ i h. ground arith) refl

receive-encode_chunk_frame_example :
    (frame : Bytes) × (encode_chunk_frame tagging 1 (99 ∷ []) ≡ ok frame)
    × ((rest : Bytes)
        → contains (fresh tagging).pending 1 ≡ true
        → (bar : Progress) × (receive_frame calm_env tiny (fresh tagging) (frame ++ rest) ≡ (
            accept_chunk calm_env tiny (record (fresh tagging) { bar = bar }) 1 (99 ∷ []) >>= λ r'.
            ok (r', rest)))
          × (bar.bytes_done % 2 ^ 64 ≡ ((fresh tagging).bar.bytes_done + 1) % 2 ^ 64)
          × (bar.bytes_total ≡ (fresh tagging).bar.bytes_total))
    × ((rest : Bytes)
        → contains (fresh tagging).pending 1 ≡ false
        → receive_frame calm_env tiny (fresh tagging) (frame ++ rest) ≡ ok (fresh tagging, rest))
unfolding fresh actual_chunk_size
receive-encode_chunk_frame_example =
    receive-encode_chunk_frame tagging calm_env tiny (fresh tagging) 1 (99 ∷ []) tagging-IsPaired
      (omega arith) (omega arith) (omega arith) refl

-- The receiver asks for the second chunk again before the first pass is over.
abbrev turns : List Turn
turns =
    data_turn
    ∷ ctrl_turn (chunk_nack 1)
    ∷ data_turn
    ∷ data_turn
    ∷ data_turn
    ∷ data_turn
    ∷ data_turn
    ∷ ctrl_turn complete
    ∷ data_turn
    ∷ []

unfoldable first : Sender
unfolding begin
first = elim (begin small_codec tiny tagging abc bar manifest_ack) [
  | ok s ↦ s
  | err _ ↦ record {
    noise_state = tagging;
    file = abc;
    to_send = [];
    buf = none;
    stream = [];
    nacks = [];
    closed = false;
    bar = bar;
    phase = ended;
  }
]

run_sends_example :
    (r : Result Sender) × (run tiny turns first ≡ some r)
    × (Post
        (λ s'.
          (sent : List ℕ) × (frames tagging tiny abc sent ≡ ok s'.stream)
          × (is_first_pass s'.phase ≡ false
              → (i : ℕ) → i < 2
              → contains [] i ≡ false
              → contains sent i ≡ true))
        r)
unfolding first missing contains actual_chunk_size
run_sends_example = run_sends small_codec tiny tagging abc bar manifest_ack [] first turns refl refl

-- The second chunk, opened.
abbrev opened : Subs
opened = record {
  plaintext = 99 ∷ [];
  decrypt_failed = false;
  advanced = 1;
  sub_bar = record { bytes_done = 1; bytes_total = 3 };
}

judge_chunk-view_example :
    Post
      (λ r'. view r' ≡ judged tiny (view (fresh honest)) 1 true opened)
      (judge_chunk calm_env tiny (fresh honest) 1 true opened)
judge_chunk-view_example = judge_chunk-view calm_env tiny (fresh honest) 1 true opened

-- The sender behind its last turn.
unfoldable last : Sender
unfolding run first
last = elim (run tiny turns first) [ some (ok s) ↦ s | _ ↦ first ]

fresh-IsPartial :
    IsPartial honest_env honest_env-IsCalm tagging tagging tagging-IsPaired tagging-IsPaired tiny
      abc
      (omega arith)
      tiny-IsSound
      (omega arith)
      (view (fresh tagging))
unfolding fresh missing contains create
fresh-IsPartial = record {
  wanted = λ i. ground arith;
  holds = record { bytes = λ k below known. cc; len = refl };
}

run-receive_chunks_example :
    (r' : Recv) × (receive_chunks 200 honest_env tiny (fresh tagging) last.stream ≡ some (ok r'))
    × ((earlier : List ControlMessage) × (r'.sent ≡ earlier ++ (complete ∷ [])))
    × (r'.file.len ≡ 3)
    × ((k : ℕ) → k < 3 → r'.file.byte k ≡ abc.byte k)
unfolding last run first is_first_pass contains actual_chunk_size encode_chunk_frame encrypt_chunk
    chunks chunk_nonce to_be_bytes read_chunk missing fresh
run-receive_chunks_example =
    run-receive_chunks honest_env honest_env-IsCalm tagging tagging tagging-IsPaired
      tagging-IsPaired tiny abc (omega arith) tiny-IsSound (omega arith) small_codec bar
      manifest_ack [] first last turns (fresh tagging) 200 (omega arith) refl refl refl refl refl
      fresh-IsPartial (λ i h. refl) (omega arith)
