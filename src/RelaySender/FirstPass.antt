-- ===== src/RelaySender/FirstPass.antt =====
-- The loops of transfer/relay_sender.rs in every order of their turns.
use p2pfileshare.Base.{
  ℕ, ◌<◌, ◌||◌, ◌==◌, if◌then◌else◌, arith, ◌≡◌, refl, ap, Bool, true, false, List, [], ◌∷◌, ◌++◌,
  ok, ◌>>=◌, Post, returns, fails, Post->>=, Post-self, Post-eq-ok,
}
use p2pfileshare.Base.Bytes.{Bytes}
use p2pfileshare.Base.Sets.{contains, missing, contains-missing}
use p2pfileshare.Errors.{Result}
use p2pfileshare.Manifest.{
  FileManifest, ControlMessage, manifest, manifest_ack, resume_request, chunk_nack, progress,
  complete, error,
}
use p2pfileshare.Progress.{Progress}
use p2pfileshare.Files.{File}
use p2pfileshare.Session.Cipher.{Noise, encrypt_chunk}
use p2pfileshare.Session.Codec.{Codec}
use p2pfileshare.Session.Relay.{send_chunk_raw}
use p2pfileshare.Sender.{read_chunk, chunks_to_skip, Turn, ctrl_turn, data_turn}
use p2pfileshare.RelaySender.{
  RelaySender, send_one_chunk, relay_begin, on_answer, send_chunks, relay_turn, relay_run,
}

unfoldable pub raw_frame : Noise → FileManifest → File → ℕ → Result Bytes
raw_frame n m f i = do
  plaintext ← read_chunk m f i
  encrypted ← encrypt_chunk n i plaintext
  ok (send_chunk_raw i encrypted)

-- The stream on which the frames of a list of chunks stand, the last one first.
unfoldable pub raw_frames : Noise → FileManifest → File → List ℕ → Result Bytes
raw_frames n m f [] = ok []
raw_frames n m f (i ∷ is) = do
  before ← raw_frames n m f is
  frame ← raw_frame n m f i
  ok (before ++ frame)

-- What a sender that has sent the frames of the chunks `sent` still owes of the list `all`.
record Owes (m : FileManifest) (n : Noise) (f : File) (all sent : List ℕ) (s : RelaySender)
    : Type 0 where
  key : s.noise_state ≡ n
  source : s.file ≡ f
  written : raw_frames n m f sent ≡ ok s.stream
  covered : (i : ℕ) → contains all i ≡ true → (contains sent i || contains s.to_send i) ≡ true

module _ (m : FileManifest) (n : Noise) (f : File) (all : List ℕ) where
  abbrev Sends : RelaySender → Type 0
  Sends s = (sent : List ℕ) × Owes m n f all sent s

  -- One frame more, and what is left of the first pass without it.
  send_one_chunk-Sends :
      (s : RelaySender) (i : ℕ) (rest : List ℕ)
      → ((j : ℕ) → contains s.to_send j ≡ true → ((i == j) || contains rest j) ≡ true)
      → Sends s
      → Post Sends (send_one_chunk m (record s { to_send = rest }) i)
  unfolding send_one_chunk raw_frames raw_frame contains
  send_one_chunk-Sends s i rest left (sent, o) =
      Post->>= _ (Post-self (read_chunk m s.file i)) λ p read.
        Post->>= _ (Post-self (encrypt_chunk s.noise_state i p)) λ e sealed. returns (
          i ∷ sent,
          record {
            key = o.key;
            source = o.source;
            written = rw (o.written, ← o.key, ← o.source, read, sealed) refl;
            covered = λ j h. ground (arith, o.covered j h, left j);
          },
        )

  moved :
      (s : RelaySender) (finished : Bool) (bar : Progress)
      → Sends s
      → Sends (record s { finished = finished; bar = bar })
  moved s finished bar (sent, o) =
      (sent, record { key = o.key; source = o.source; written = o.written; covered = o.covered })

  on_answer-Sends :
      (s : RelaySender) (msg : ControlMessage) → Sends s → Post Sends (on_answer m s msg)
  unfolding on_answer
  on_answer-Sends s (progress bytes) o = returns (moved s s.finished _ o)
  on_answer-Sends s (chunk_nack index) o =
      send_one_chunk-Sends s index s.to_send (λ j h. ground (arith, h)) o
  on_answer-Sends s complete o = returns (moved s true _ o)
  on_answer-Sends s (error _ _) o = fails
  on_answer-Sends s (manifest _) o = returns o
  on_answer-Sends s manifest_ack o = returns o
  on_answer-Sends s (resume_request _) o = returns o

  send_chunks-Sends :
      (s : RelaySender) (to_send : List ℕ)
      → s.to_send ≡ to_send
      → Sends s
      → Post Sends (send_chunks m s to_send)
  unfolding send_chunks contains
  send_chunks-Sends s [] e o = returns o
  send_chunks-Sends s (i ∷ rest) e o =
      send_one_chunk-Sends s i rest (λ j h. ground (arith, h, ap (λ is. contains is j) e)) o

  answered :
      (b : Bool) (s : RelaySender) (r : Result RelaySender)
      → Sends s
      → Post Sends r
      → Post Sends (if b then ok s else r)
  answered true s r o p = returns o
  answered false s r o p = p

  relay_run-Sends : (ts : List Turn) (s : RelaySender) → Sends s → Post Sends (relay_run m ts s)
  unfolding relay_run relay_turn
  relay_run-Sends [] s o = returns o
  relay_run-Sends (data_turn ∷ ts) s o =
      Post->>= _ (send_chunks-Sends s s.to_send refl o) λ s' o'. relay_run-Sends ts s' o'
  relay_run-Sends (ctrl_turn msg ∷ ts) s o =
      Post->>= _ (answered s.finished s _ o (on_answer-Sends s msg o))
        λ s' o'. relay_run-Sends ts s' o'

relay_begin-Sends :
    (codec : Codec) (m : FileManifest) (n : Noise) (f : File) (bar : Progress)
    (answer : ControlMessage) (skip : List ℕ)
    → chunks_to_skip codec answer ≡ ok skip
    → Post (Sends m n f (missing m.chunk_count 0 skip)) (relay_begin codec m n f bar answer)
unfolding relay_begin raw_frames contains
relay_begin-Sends codec m n f bar answer skip e =
    rw e (returns ([], record { key = refl; source = refl; written = refl; covered = λ i h. h }))

-- In every order of the turns of the two loops, unless an error ends it, the relay stream holds whole
-- frames of chunks of the file and nothing else, and every chunk that the receiver did not claim to
-- have is either among them or still to be sent.
pub relay_run_sends :
    (codec : Codec) (m : FileManifest) (n : Noise) (f : File) (bar : Progress)
    (answer : ControlMessage) (skip : List ℕ) (s s' : RelaySender) (ts : List Turn)
    → chunks_to_skip codec answer ≡ ok skip
    → relay_begin codec m n f bar answer ≡ ok s
    → relay_run m ts s ≡ ok s'
    → (sent : List ℕ) × (raw_frames n m f sent ≡ ok s'.stream)
      × ((i : ℕ)
          → i < m.chunk_count
          → contains skip i ≡ false
          → (contains sent i || contains s'.to_send i) ≡ true)
relay_run_sends codec m n f bar answer skip s s' ts e e' e'' =
    let all : List ℕ = missing m.chunk_count 0 skip in
    let (sent, o) =
      Post-eq-ok
        (relay_run-Sends m n f all ts s
          (Post-eq-ok (relay_begin-Sends codec m n f bar answer skip e) e'))
        e'' in
    (
      sent,
      o.written,
      λ i below new. o.covered i (ground (arith, contains-missing m.chunk_count 0 i skip)),
    )
