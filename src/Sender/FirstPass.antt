-- ===== src/Sender/FirstPass.antt =====
-- The sending loop of transfer/sender.rs in every order of its turns with those of the control loop.
use p2pfileshare.Base.{
  ℕ, ◌<◌, arith, ◌≡◌, refl, ap, Bool, true, false, ◌||◌, List, [], ◌∷◌, ◌++◌, Option, none, some,
  ok, err, Res-cases, if◌then◌else◌, inl, inr, Post, returns, fails, Post->>=, Post-self, Post-mono,
  Post-eq-ok,
}
use p2pfileshare.Base.Bytes.{Bytes}
use p2pfileshare.Base.Sets.{contains, missing, contains-append, contains-missing}
use p2pfileshare.Errors.{Result}
use p2pfileshare.Manifest.{
  FileManifest, ControlMessage, manifest, manifest_ack, resume_request, chunk_nack, progress,
  complete, error,
}
use p2pfileshare.Progress.{Progress}
use p2pfileshare.Files.{File}
use p2pfileshare.Session.Cipher.{Noise}
use p2pfileshare.Session.Codec.{Codec}
use p2pfileshare.Sender.{
  Sender, Phase, sending, draining, serving, ended, Turn, ctrl_turn, data_turn, read_chunk,
  read_ahead, encode_chunk_frame, chunks_to_skip, begin, on_ctrl, retransmit, send_next, drain,
  serve, send_turn, turn, run,
}
use p2pfileshare.Sender.Frames.{frame_of, frames, frames-snoc}

-- What holds of the two branches holds of a test.
either {κ ℓ} :
    {A : Type ℓ} {yes no : A} (P : A → Type κ) (test : Bool)
    → P yes
    → P no
    → P (if test then yes else no)
either P false _ holds = holds
either P true holds _ = holds

-- In the phases behind the first pass nothing of it is left.
unfoldable pub is_first_pass : Phase → Bool
is_first_pass sending = true
is_first_pass draining = true
is_first_pass serving = false
is_first_pass ended = false

-- What a sender that has sent the frames of the chunks `sent` still owes of the list `all`.
pub record Owes (m : FileManifest) (n : Noise) (f : File) (all sent : List ℕ) (s : Sender)
    : Type 0 where
  pub key : s.noise_state ≡ n
  pub source : s.file ≡ f
  pub written : frames n m f sent ≡ ok s.stream
  pub covered : (i : ℕ) → contains all i ≡ true → (contains sent i || contains s.to_send i) ≡ true
  pub ahead : read_ahead m f s.to_send ≡ ok s.buf
  pub through : is_first_pass s.phase ≡ false → s.to_send ≡ []

module _ (m : FileManifest) (n : Noise) (f : File) (all : List ℕ) where
  abbrev Sends : Sender → Type 0
  Sends s = (sent : List ℕ) × Owes m n f all sent s

  kept :
      (s : Sender) (nacks : List ℕ) (closed : Bool) (bar : Progress)
      → Sends s
      → Sends (record s { nacks = nacks; closed = closed; bar = bar })
  kept s nacks closed bar (sent, o) = (
    sent,
    record {
      key = o.key;
      source = o.source;
      written = o.written;
      covered = o.covered;
      ahead = o.ahead;
      through = o.through;
    },
  )

  moved :
      (s : Sender) (phase : Phase)
      → (is_first_pass phase ≡ false → s.to_send ≡ [])
      → Sends s
      → Sends (record s { phase = phase })
  moved s phase through (sent, o) = (
    sent,
    record {
      key = o.key;
      source = o.source;
      written = o.written;
      covered = o.covered;
      ahead = o.ahead;
      through = through;
    },
  )

  on_ctrl-Sends : (s : Sender) (msg : ControlMessage) → Sends s → Post Sends (on_ctrl m s msg)
  unfolding on_ctrl
  on_ctrl-Sends s (progress bytes) o = returns (kept s s.nacks s.closed _ o)
  on_ctrl-Sends s (chunk_nack index) o = returns (kept s _ s.closed s.bar o)
  on_ctrl-Sends s complete o = returns (kept s s.nacks true _ o)
  on_ctrl-Sends s (error _ _) o = fails
  on_ctrl-Sends s (manifest _) o = returns o
  on_ctrl-Sends s manifest_ack o = returns o
  on_ctrl-Sends s (resume_request _) o = returns o

  framed :
      {sent : List ℕ} (s : Sender) (i : ℕ) (p frame : Bytes)
      → Owes m n f all sent s
      → read_chunk m s.file i ≡ ok p
      → encode_chunk_frame s.noise_state i p ≡ ok frame
      → frame_of n m f i ≡ ok frame
  unfolding frame_of
  framed s i p frame o r e = rw (← o.key, ← o.source, r) e

  -- A frame more on the stream.
  retransmit-Sends : (s : Sender) (i : ℕ) → Sends s → Post Sends (retransmit m s i)
  unfolding retransmit
  retransmit-Sends s i (sent, o) = Post->>= _ (Post-self (read_chunk m s.file i)) λ p r.
      Post->>= _ (Post-self (encode_chunk_frame s.noise_state i p)) λ frame e. returns (
        sent ++ (i ∷ []),
        record {
          key = o.key;
          source = o.source;
          written = frames-snoc n m f sent i s.stream frame o.written (framed s i p frame o r e);
          covered = λ j h. ground (arith, o.covered j h, contains-append j sent (i ∷ []));
          ahead = o.ahead;
          through = o.through;
        },
      )

  send_next-Sends :
      (s : Sender) (to_send : List ℕ) (buf : Option Bytes)
      → s.to_send ≡ to_send
      → s.buf ≡ buf
      → Sends s
      → (r : Result Sender) × (send_next m s to_send buf ≡ some r) × (Post Sends r)
  unfolding send_next read_ahead contains is_first_pass
  send_next-Sends s [] buf e e' o = (_, refl, returns (moved s serving (λ _. e) o))
  send_next-Sends s (i ∷ rest) none e e' (sent, o) = elim (Res-cases (read_chunk m f i)) [
    | inl (_, out) ↦ absurd (ground (arith, o.ahead, e, e', out))
    | inr (_, out) ↦ absurd (ground (arith, o.ahead, e, e', out))
  ]
  send_next-Sends s (i ∷ rest) (some p) e e' (sent, o) = (
    _,
    refl,
    Post->>= _ (Post-self (encode_chunk_frame s.noise_state i p)) λ frame framed_as.
        Post->>= _ (Post-self (read_ahead m s.file rest)) λ buf found. returns (
          sent ++ (i ∷ []),
          record {
            key = o.key;
            source = o.source;
            written =
                frames-snoc n m f sent i s.stream frame o.written
                  (framed s i p frame o (rw o.source read) framed_as);
            covered = λ j h.
                ground (
                  arith,
                  o.covered j h,
                  contains-append j sent (i ∷ []),
                  ap (λ is. contains is j) e,
                );
            ahead = rw (← o.source) found;
            through = λ x. cc;
          },
        ),
  )
    where
      read : read_chunk m f i ≡ ok p
      read = elim (Res-cases (read_chunk m f i)) [
        | inl (_, out) ↦ ground (arith, o.ahead, e, e', out)
        | inr (_, out) ↦ absurd (ground (arith, o.ahead, e, e', out))
      ]

  send_turn-Sends :
      (s : Sender) (phase : Phase)
      → s.phase ≡ phase
      → Sends s
      → (r : Result Sender) × (send_turn m s phase ≡ some r) × (Post Sends r)
  unfolding send_turn drain serve is_first_pass
  send_turn-Sends s sending e o = send_next-Sends s s.to_send s.buf refl refl o
  send_turn-Sends s draining e o = (_, refl, drained s.nacks)
    where
      drained : (nacks : List ℕ) → Post Sends (drain m s nacks)
      drained [] = returns (moved s sending (λ x. cc) o)
      drained (i ∷ nacks) =
          retransmit-Sends (record s { nacks = nacks }) i (kept s nacks s.closed s.bar o)
  send_turn-Sends s serving e o = (_, refl, served s.nacks)
    where
      served : (nacks : List ℕ) → Post Sends (serve m s nacks)
      served [] =
          returns
            (either Sends s.closed (moved s ended (λ _. o.1.through (ap is_first_pass e)) o) o)
      served (i ∷ nacks) =
          retransmit-Sends (record s { nacks = nacks }) i (kept s nacks s.closed s.bar o)
  send_turn-Sends s ended e o = (_, refl, returns o)

  turn-Sends :
      (s : Sender) (t : Turn)
      → Sends s
      → (r : Result Sender) × (turn m s t ≡ some r) × (Post Sends r)
  unfolding turn
  turn-Sends s data_turn o = send_turn-Sends s s.phase refl o
  turn-Sends s (ctrl_turn msg) o =
      (_, refl, either (Post Sends) s.closed (returns o) (on_ctrl-Sends s msg o))

  abbrev Outcome : Option (Result Sender) → Type 0
  Outcome o = (r : Result Sender) × (o ≡ some r) × (Post Sends r)

  run_step :
      (ts : List Turn) (s : Sender) (t : Turn) (r : Result Sender)
      → turn m s t ≡ some r
      → Post Sends r
      → ((s' : Sender) → Sends s' → Outcome (run m ts s'))
      → Outcome (run m (t ∷ ts) s)
  unfolding run
  run_step ts s t (ok s') e p more = rw (e, run) (more s' (Post-eq-ok p refl))
  run_step ts s t (err x) e p more = rw (e, run) (_, refl, fails)

  run-Sends : (ts : List Turn) (s : Sender) → Sends s → Outcome (run m ts s)
  unfolding run
  run-Sends [] s o = (_, refl, returns o)
  run-Sends (t ∷ ts) s o =
      let (r, e, p) = turn-Sends s t o in run_step ts s t r e p (λ s' o'. run-Sends ts s' o')

begin-Sends :
    (codec : Codec) (m : FileManifest) (n : Noise) (f : File) (bar : Progress)
    (answer : ControlMessage) (skip : List ℕ)
    → chunks_to_skip codec answer ≡ ok skip
    → Post (Sends m n f (missing m.chunk_count 0 skip)) (begin codec m n f bar answer)
unfolding begin frames is_first_pass contains
begin-Sends codec m n f bar answer skip e = rw e (
    Post->>= _ (Post-self (read_ahead m f (missing m.chunk_count 0 skip))) λ buf ahead. returns (
      [],
      record {
        key = refl;
        source = refl;
        written = refl;
        covered = λ i h. h;
        ahead = ahead;
        through = λ x. cc;
      },
    ))

-- In every order of the turns of the two loops, whatever control messages arrive, the sending loop
-- does not panic on its read-ahead buffer, and unless an error ends it the data stream holds whole
-- frames of chunks of the file and nothing else; and once the first pass is over, the frame of every
-- chunk that the receiver did not claim to have is among them.
pub run_sends :
    (codec : Codec) (m : FileManifest) (n : Noise) (f : File) (bar : Progress)
    (answer : ControlMessage) (skip : List ℕ) (s : Sender) (ts : List Turn)
    → chunks_to_skip codec answer ≡ ok skip
    → begin codec m n f bar answer ≡ ok s
    → (r : Result Sender) × (run m ts s ≡ some r)
      × (Post
          (λ s'.
            (sent : List ℕ) × (frames n m f sent ≡ ok s'.stream)
            × (is_first_pass s'.phase ≡ false
                → (i : ℕ) → i < m.chunk_count
                → contains skip i ≡ false
                → contains sent i ≡ true))
          r)
unfolding contains
run_sends codec m n f bar answer skip s ts e e' =
    let all : List ℕ = missing m.chunk_count 0 skip in
    let (r, out, p) =
      run-Sends m n f all ts s (Post-eq-ok (begin-Sends codec m n f bar answer skip e) e') in
    (
      r,
      out,
      Post-mono p λ s' (sent, o). (
        sent,
        o.written,
        λ over i below new. ground (
          arith,
          o.covered i (ground (arith, contains-missing m.chunk_count 0 i skip)),
          ap (λ is. contains is i) (o.through over),
        ),
      ),
    )
