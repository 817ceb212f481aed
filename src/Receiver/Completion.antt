-- ===== src/Receiver/Completion.antt =====
-- The receiver of transfer/receiver.rs on the stream of an honest sender.
use p2pfileshare.Base.{
  ℕ, zero, suc, ◌+◌, ◌*◌, ◌^◌, ◌≤◌, ◌<◌, ◌==◌, leb, ◌≡◌, refl, sym, ap, subst, ◌∙◌, true, false,
  List, [], ◌∷◌, ◌++◌, length, some, ok, arith, Bool-cases, Res-cases, Post-eq-ok, both-ok, inl,
  inr,
}
use p2pfileshare.Base.Bytes.{Bytes}
use p2pfileshare.Base.Sets.{contains, is_empty, contains-remove}
use p2pfileshare.Manifest.{FileManifest, ControlMessage, complete, actual_chunk_size}
use p2pfileshare.Files.{File, read_at, bytes_at, length-bytes_at}
use p2pfileshare.Session.Cipher.{Noise}
use p2pfileshare.Session.Cipher.RoundTrip.{IsPaired}
use p2pfileshare.Sender.{read_chunk}
use p2pfileshare.Sender.Frames.{frame_of, frames}
use p2pfileshare.Receiver.{Env, Recv, receive_frame, receive_loop, receive_chunks}
use p2pfileshare.Progress.{Progress}
use p2pfileshare.Receiver.View.{View, view, accepted}
use p2pfileshare.Receiver.Delivery.{finish_file}
use p2pfileshare.Receiver.Honest.{receive-encode_chunk_frame}
use p2pfileshare.Receiver.Calm.{IsCalm, accept_chunk_ok, finish_ok}

actual_chunk_size-le : (i cs total : ℕ) → actual_chunk_size i cs total ≤ cs
unfolding actual_chunk_size
actual_chunk_size-le i cs total = omega arith

pub none_left :
    (xs : List ℕ) → ((i : ℕ) → contains xs i ≡ true → contains [] i ≡ true) → is_empty xs ≡ true
unfolding contains is_empty
none_left [] h = refl
none_left (x ∷ xs) h = absurd (ground (arith, h x (ground arith)))

loop_over :
    (fuel : ℕ) (env : Env) (m : FileManifest) (r : Recv) (s : Bytes)
    → is_empty r.pending ≡ true
    → receive_loop (suc fuel) env m r s ≡ some (ok (r, s))
unfolding receive_loop
loop_over fuel env m r s h = ground arith

loop_on :
    (fuel : ℕ) (env : Env) (m : FileManifest) (r r' : Recv) (s s' : Bytes)
    → is_empty r.pending ≡ false
    → receive_frame env m r s ≡ ok (r', s')
    → receive_loop (suc fuel) env m r s ≡ receive_loop fuel env m r' s'
unfolding receive_loop
loop_on fuel env m r r' s s' h e = ground arith

module _ (env : Env) (calm : IsCalm env) (a b : Noise) (pair : IsPaired a b)
    (answers : IsPaired b a) (m : FileManifest) (f : File) (cs : m.chunk_size ≤ 2 ^ 23) where
  pub read_chunk_size :
      (i : ℕ) (p : Bytes)
      → read_chunk m f i ≡ ok p
      → (length p ≡ actual_chunk_size i m.chunk_size m.total_size) × (length p ≤ m.chunk_size)
  unfolding read_chunk read_at
  read_chunk_size i p e =
      elim (Bool-cases
        (leb (i * m.chunk_size + actual_chunk_size i m.chunk_size m.total_size) f.len)) [
          | inr far ↦ absurd (ground (arith, e, far))
          | inl near ↦
              let same : bytes_at f (i * m.chunk_size)
                    (actual_chunk_size i m.chunk_size m.total_size)
                  ≡ p =
                ground (arith, e, near) in
              let len : length p ≡ actual_chunk_size i m.chunk_size m.total_size =
                ap length (sym same)
                ∙ length-bytes_at f (i * m.chunk_size)
                    (actual_chunk_size i m.chunk_size m.total_size) in
              (len, omega (arith, len, actual_chunk_size-le i m.chunk_size m.total_size))
        ]

  -- What the acceptance of the sender's chunks keeps.
  pub record Kept (K : View → Type 0) : Type 0 where
    pub accepts :
        (v : View) (i : ℕ) (p : Bytes)
        → contains v.pending i ≡ true
        → read_chunk m f i ≡ ok p
        → K v
        → K (accepted m v i p)
    pub bars : (v : View) (bar : Progress) → K v → K (record v { bar = bar })

  -- One frame of the sender is taken off the stream, and its chunk is not wanted any more.
  frame_ok :
      (K : View → Type 0) (keeps : Kept K) (r : Recv) (i : ℕ) (frame rest : Bytes)
      → K (view r)
      → r.session.noise_state ≡ b
      → i < 2 ^ 32
      → frame_of a m f i ≡ ok frame
      → (r' : Recv) × (receive_frame env m r (frame ++ rest) ≡ ok (r', rest))
        × (r'.session.noise_state ≡ b)
        × ((j : ℕ)
            → contains r'.pending j ≡ true
            → (contains r.pending j ≡ true) × ((i == j) ≡ false))
        × K (view r')
  unfolding frame_of accepted
  frame_ok K keeps r i frame rest kept same index e = elim (Res-cases (read_chunk m f i)) [
    | inr (_, bad) ↦ absurd (ground (arith, e))
    | inl (p, read) ↦
        let (exact, short) = read_chunk_size i p read in
        let (frame', made, wanted, other) =
          receive-encode_chunk_frame a env m r i p (subst (IsPaired a) (sym same) pair) index cs
            short exact in
        let framed : frame' ≡ frame = ground (arith, e, read, made) in
        rw (← framed) (elim (Bool-cases (contains r.pending i)) [
          | inr miss ↦ (r, other rest miss, same, λ j h. (h, ground (arith, miss, h)), kept)
          | inl hit ↦
              let (bar, out, _, _) = wanted rest hit in
              let (r', accept, v) =
                accept_chunk_ok env calm a b answers m (record r { bar = bar }) i p same in
              (
                r',
                out ∙ rw accept refl,
                ap (λ v. v.noise) v ∙ same,
                λ j h.
                    ground
                      (arith, h, ap (λ v. contains v.pending j) v, contains-remove i j r.pending),
                subst K (sym v) (
                    keeps.accepts (view (record r { bar = bar })) i p hit read
                      (keeps.bars (view r) bar kept)),
              )
        ])
  ]

  pub split_frames :
      (i : ℕ) (is : List ℕ) (s : Bytes)
      → frames a m f (i ∷ is) ≡ ok s
      → (fr : Bytes) × (rest : Bytes) × (fr ++ rest ≡ s)
        × (frame_of a m f i ≡ ok fr)
        × (frames a m f is ≡ ok rest)
  unfolding frames
  split_frames i is s e =
      let (fr, rest, fe, re, cut) =
        both-ok (frame_of a m f i) (frames a m f is) (λ x y. x ++ y) e in
      (fr, rest, cut, fe, re)

  -- The loop gets to its end with the frames of the chunks that are wanted.
  loop_ok :
      (K : View → Type 0) (keeps : Kept K) (is : List ℕ) (fuel : ℕ) (r : Recv) (s : Bytes)
      → length is < fuel
      → K (view r)
      → r.session.noise_state ≡ b
      → ((i : ℕ) → contains is i ≡ true → i < 2 ^ 32)
      → ((i : ℕ) → contains r.pending i ≡ true → contains is i ≡ true)
      → frames a m f is ≡ ok s
      → (r' : Recv) × (s' : Bytes) × (receive_loop fuel env m r s ≡ some (ok (r', s')))
        × (r'.session.noise_state ≡ b)
        × (is_empty r'.pending ≡ true)
        × K (view r')
  unfolding frames contains
  loop_ok K keeps is zero r s h kept same index all e = absurd (omega arith)
  loop_ok K keeps [] (suc fuel) r s h kept same index all e =
      let over = none_left r.pending all in (r, s, loop_over fuel env m r s over, same, over, kept)
  loop_ok K keeps (i ∷ is) (suc fuel) r s h kept same index all e =
      elim (Bool-cases (is_empty r.pending)) [
        | inl over ↦ (r, s, loop_over fuel env m r s over, same, over, kept)
        | inr more ↦
            let (fr, rest, cut, fe, re) = split_frames i is s e in
            let (r₁, out, same₁, left, kept₁) =
              frame_ok K keeps r i fr rest kept same (index i (ground arith)) fe in
            let (r', s', ends, same', empty, kept') =
              loop_ok K keeps is fuel r₁ rest (omega arith) kept₁ same₁
                (λ j hit. index j (ground arith))
                (λ j hit. ground (arith, left j hit, all j (left j hit).0)) re in
            (
              r',
              s',
              loop_on fuel env m r r₁ s rest more
                    (subst (λ t. receive_frame env m r t ≡ ok (r₁, rest)) cut out)
                  ∙ ends,
              same',
              empty,
              kept',
            )
      ]

  -- A receiver that wants nothing but chunks whose frames are on the stream, in whatever order and
  -- however often they stand there, comes to its end: the loop and what stands behind it give a
  -- result, and the last message it sends is `Complete`. It is assumed that nothing fails at its
  -- own end (its disk, and that `Progress` and `Complete` each fit one Noise message), that the two ends of the Noise session belong together, that chunks have at most 8 MiB
  -- and indices 32 bits, and that the fuel is more than the number of the frames.
  pub receive_chunks-frames :
      (is : List ℕ) (fuel : ℕ) (r : Recv) (s : Bytes)
      → length is < fuel
      → r.session.noise_state ≡ b
      → ((i : ℕ) → contains is i ≡ true → i < 2 ^ 32)
      → ((i : ℕ) → contains r.pending i ≡ true → contains is i ≡ true)
      → frames a m f is ≡ ok s
      → (r' : Recv) × (receive_chunks fuel env m r s ≡ some (ok r'))
        × ((earlier : List ControlMessage) × (r'.sent ≡ earlier ++ (complete ∷ [])))
  unfolding receive_chunks
  receive_chunks-frames is fuel r s h same index all e =
      let nothing : Kept (λ _. Unit {0}) = record {
        accepts = λ v i p _ _ _. tt;
        bars = λ v bar _. tt;
      } in
      let (r₁, s₁, ends, same₁, _, _) =
        loop_ok (λ _. Unit {0}) nothing is fuel r s h tt same index all e in
      let (r', out, last) = finish_ok env calm a b answers r₁ same₁ in
      (r', rw (ends, receive_chunks) (ap some out), last)

  -- The same with a fact that is kept, at the end of the loop and of the file that is left.
  pub receive_chunks-Kept :
      (K : View → Type 0) (keeps : Kept K) (is : List ℕ) (fuel : ℕ) (r : Recv) (s : Bytes)
      → length is < fuel
      → K (view r)
      → r.session.noise_state ≡ b
      → ((i : ℕ) → contains is i ≡ true → i < 2 ^ 32)
      → ((i : ℕ) → contains r.pending i ≡ true → contains is i ≡ true)
      → frames a m f is ≡ ok s
      → (r' : Recv) × (receive_chunks fuel env m r s ≡ some (ok r'))
        × ((earlier : List ControlMessage) × (r'.sent ≡ earlier ++ (complete ∷ [])))
        × ((v : View) × (is_empty v.pending ≡ true) × K v × (r'.file ≡ v.landed))
  unfolding receive_chunks
  receive_chunks-Kept K keeps is fuel r s h kept same index all e =
      let (r₁, s₁, ends, same₁, empty, kept₁) =
        loop_ok K keeps is fuel r s h kept same index all e in
      let (r', out, last) = finish_ok env calm a b answers r₁ same₁ in
      (
        r',
        rw (ends, receive_chunks) (ap some out),
        last,
        (view r₁, empty, kept₁, Post-eq-ok (finish_file env r₁) out),
      )
