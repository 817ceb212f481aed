-- ===== src/Tests/Relays.antt =====
-- The three-byte file over a relay.
use p2pfileshare.Base.{
  none, ℕ, ◌^◌, ◌<◌, ◌||◌, ◌≡◌, ◌≢◌, refl, true, false, List, [], ◌∷◌, ◌++◌, some, ok, err, fail_if,
  arith, Post,
}
use p2pfileshare.Base.Bytes.{Bytes, read_exact, from_be_bytes, to_be_bytes}
use p2pfileshare.Base.Sets.{contains, is_empty, missing, remove, insert}
use p2pfileshare.Errors.{Result}
use p2pfileshare.Manifest.{ControlMessage, actual_chunk_size, manifest_ack, chunk_nack, complete}
use p2pfileshare.Files.{create}
use p2pfileshare.Resume.{new, save}
use p2pfileshare.Session.{chunk_nonce}
use p2pfileshare.Session.Cipher.{decrypt_chunk, encrypt_chunk, chunks}
use p2pfileshare.Session.Relay.{recv_msg, send_chunk_raw, send_ctrl}
use p2pfileshare.Receiver.Integrity.{Holds}
use p2pfileshare.Sender.{Turn, ctrl_turn, data_turn, chunks_to_skip, read_chunk}
use p2pfileshare.RelaySender.{RelaySender, relay_begin, relay_run}
use p2pfileshare.RelaySender.FirstPass.{raw_frames, relay_run_sends}
use p2pfileshare.RelayReceiver.{RelayRecv, relay_waiting, relay_prepare, relay_chunks, relay_chunk}
use p2pfileshare.RelayReceiver.View.{view, Answered, relay_chunk-view}
use p2pfileshare.RelayReceiver.Opened.{OpensNoMore}
use p2pfileshare.RelayReceiver.Termination.{relay_chunks-ne-none}
use p2pfileshare.RelayReceiver.Delivery.{Kept, relay_chunks_deliver}
use p2pfileshare.RelayTransfer.{relay_run-relay_chunks}
use p2pfileshare.Tests.Data.{
  small_codec, tagging, tagging-IsPaired, honest_env, honest_env-IsCalm, tiny, tiny-IsSound, abc,
  honest, honest-IsAuthentic, calm_env, relayed,
}

-- The second chunk twice, a chunk that the file does not have, and the first chunk.
abbrev relay_in : Bytes
relay_in =
    1 ∷ 0 ∷ 0 ∷ 0 ∷ 1 ∷ 0 ∷ 0 ∷ 0 ∷ 6 ∷ 0 ∷ 1 ∷ 0 ∷ 0 ∷ 0 ∷ 0 ∷ 1 ∷ 0 ∷ 0 ∷ 0 ∷ 1 ∷ 0 ∷ 0 ∷ 0 ∷ 6
    ∷ 0 ∷ 1 ∷ 0 ∷ 0 ∷ 0 ∷ 0 ∷ 1 ∷ 0 ∷ 0 ∷ 0 ∷ 5 ∷ 0 ∷ 0 ∷ 0 ∷ 6 ∷ 0 ∷ 1 ∷ 0 ∷ 0 ∷ 0 ∷ 0 ∷ 1 ∷ 0 ∷ 0
    ∷ 0 ∷ 0 ∷ 0 ∷ 0 ∷ 0 ∷ 6 ∷ 0 ∷ 1 ∷ 0 ∷ 0 ∷ 0 ∷ 0 ∷ []

unfoldable waiting : RelayRecv
unfolding relay_prepare new create
waiting = relay_prepare tiny (
    relay_waiting (relayed honest) (new tiny "d/f") (create 3)
      (record { bytes_done = 0; bytes_total = 0 }) [])

unfoldable received : RelayRecv
unfolding relay_chunks waiting
received = elim (relay_chunks 9 calm_env tiny waiting relay_in) [ some (ok r) ↦ r | _ ↦ waiting ]

honest-OpensNoMore : (small : 3 < 2 ^ 63) → OpensNoMore tiny tiny-IsSound small abc honest
unfolding chunk_nonce
honest-OpensNoMore small i j c p above width below e = ground arith

waiting-Holds : (small : 3 < 2 ^ 63) → Holds tiny tiny-IsSound small abc (view waiting)
unfolding waiting contains
waiting-Holds small = record { bytes = λ k below known. cc; len = refl }

relay_chunks_deliver_example :
    (received.file.len ≡ 3) × ((k : ℕ) → k < 3 → received.file.byte k ≡ abc.byte k)
unfolding received relay_chunks waiting missing contains is_empty recv_msg read_exact from_be_bytes
    decrypt_chunk fail_if chunk_nonce actual_chunk_size send_ctrl insert remove save
relay_chunks_deliver_example =
    relay_chunks_deliver tiny tiny-IsSound (omega arith) abc 9 calm_env waiting received relay_in
      (honest-IsAuthentic (omega arith)) (honest-OpensNoMore (omega arith)) (λ i. ground arith)
      (waiting-Holds (omega arith)) refl

-- The second chunk, sealed.
abbrev second : Bytes
second = 0 ∷ 1 ∷ 0 ∷ 0 ∷ 0 ∷ 0 ∷ []

relay_chunk-view_example :
    Post
      (λ r'. Answered tiny waiting 1 (decrypt_chunk waiting.session.noise_state 1 second) r')
      (relay_chunk calm_env tiny waiting 1 second)
relay_chunk-view_example = relay_chunk-view calm_env tiny waiting 1 second

abbrev no_sender : RelaySender
no_sender = record {
  noise_state = tagging;
  file = abc;
  to_send = [];
  stream = [];
  finished = false;
  bar = record { bytes_done = 0; bytes_total = 0 };
}

abbrev unwrap : RelaySender → Result RelaySender → RelaySender
unwrap d (ok s) = s
unwrap d (err _) = d

unfoldable first : RelaySender
unfolding relay_begin
first = unwrap no_sender (relay_begin small_codec tiny tagging abc no_sender.bar manifest_ack)

-- The first chunk is refused once.
abbrev turns : List Turn
turns = data_turn ∷ ctrl_turn (chunk_nack 0) ∷ data_turn ∷ ctrl_turn complete ∷ []

unfoldable last : RelaySender
unfolding relay_run first
last = unwrap no_sender (relay_run tiny turns first)

relay_run_sends_example :
    (sent : List ℕ) × (raw_frames tagging tiny abc sent ≡ ok last.stream)
    × ((i : ℕ)
        → i < 2
        → contains [] i ≡ false
        → (contains sent i || contains last.to_send i) ≡ true)
unfolding first last chunks_to_skip missing contains read_chunk actual_chunk_size encrypt_chunk
    chunks
relay_run_sends_example =
    relay_run_sends small_codec tiny tagging abc no_sender.bar manifest_ack [] first last turns refl
      refl refl

relay_chunks-ne-none_example : relay_chunks 61 calm_env tiny waiting relay_in ≢ none
relay_chunks-ne-none_example = relay_chunks-ne-none 61 calm_env tiny waiting relay_in (omega arith)

unfoldable paired : RelayRecv
unfolding relay_prepare new create
paired = relay_prepare tiny (
    relay_waiting (relayed tagging) (new tiny "d/f") (create 3)
      (record { bytes_done = 0; bytes_total = 0 }) [])

paired-Kept : Kept tiny tiny-IsSound (omega arith) abc tagging (view paired)
unfolding paired contains missing
paired-Kept = record {
  wanted = λ i. ground arith;
  holds = record { bytes = λ k below known. cc; len = refl };
  same = refl;
}

relay_run-relay_chunks_example :
    (r' : RelayRecv) × (relay_chunks 200 honest_env tiny paired last.stream ≡ some (ok r'))
    × ((earlier : List ControlMessage) × (r'.sent ≡ earlier ++ (complete ∷ [])))
    × (r'.file.len ≡ 3)
    × ((k : ℕ) → k < 3 → r'.file.byte k ≡ abc.byte k)
unfolding last first paired missing contains chunks_to_skip read_chunk actual_chunk_size
    encrypt_chunk chunks send_chunk_raw to_be_bytes chunk_nonce
relay_run-relay_chunks_example =
    relay_run-relay_chunks honest_env honest_env-IsCalm tagging tagging tagging-IsPaired
      tagging-IsPaired tiny abc (omega arith) tiny-IsSound (omega arith) refl small_codec
      no_sender.bar manifest_ack [] first last turns paired 200 refl refl refl refl paired-Kept
      (λ i h. refl) (omega arith)
