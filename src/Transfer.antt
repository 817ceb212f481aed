-- ===== src/Transfer.antt =====
-- transfer/sender.rs and transfer/receiver.rs of p2pshare-core/src together: the stream that the one
-- writes is the one that the other reads.
use native.Mathlib.Nat.{mul-le-mul_right}
use native.Mathlib.Decide.{dec_lt}
use p2pfileshare.Base.{
  ℕ, ◌*◌, ◌/◌, ◌^◌, ◌≤◌, ◌<◌, ltb, ◌==◌, ◌≡◌, ap, true, false, not, ◌&&◌, List, [], ◌∷◌, ◌++◌,
  length, length-append, some, ok, arith, Bool-cases, Res-cases, Post-eq-ok, inl, inr,
}
use p2pfileshare.Base.Bytes.{Bytes, to_be_bytes, length-to_be_bytes}
use p2pfileshare.Base.Sets.{contains, is_empty-contains, contains-remove, contains-insert}
use p2pfileshare.Manifest.{FileManifest, ControlMessage, complete, actual_chunk_size}
use p2pfileshare.Manifest.Chunks.{IsSound}
use p2pfileshare.Progress.{Progress}
use p2pfileshare.Files.{File, read_at, bytes_at}
use p2pfileshare.Session.Cipher.{Noise, encrypt_chunk}
use p2pfileshare.Session.Cipher.RoundTrip.{IsPaired}
use p2pfileshare.Session.Codec.{Codec}
use p2pfileshare.Sender.{Sender, Turn, chunks_to_skip, begin, run, read_chunk, encode_chunk_frame}
use p2pfileshare.Sender.Frames.{frame_of, frames}
use p2pfileshare.Sender.FirstPass.{is_first_pass, run_sends}
use p2pfileshare.Receiver.{Env, Recv, receive_chunks}
use p2pfileshare.Receiver.View.{View, view, accepted}
use p2pfileshare.Receiver.Calm.{IsCalm}
use p2pfileshare.Receiver.Integrity.{Holds, accepted-Holds, in_count}
use p2pfileshare.Receiver.Completion.{Kept, split_frames, receive_chunks-Kept}

module _ (env : Env) (calm : IsCalm env) (a b : Noise) (pair : IsPaired a b)
    (answers : IsPaired b a) (m : FileManifest) (f : File) (cs : m.chunk_size ≤ 2 ^ 23)
    (sound : IsSound m) (small : m.total_size < 2 ^ 63) where
  -- The receiver wants the chunks that are not done, and the file holds the sender's bytes in those
  -- that are.
  pub record IsPartial (v : View) : Type 0 where
    pub wanted : (i : ℕ) → contains v.pending i ≡ (ltb i m.chunk_count && not (contains v.done i))
    pub holds : Holds m sound small f v

  read_chunk_bytes :
      (i : ℕ) (p : Bytes)
      → read_chunk m f i ≡ ok p
      → p ≡ bytes_at f (i * m.chunk_size) (actual_chunk_size i m.chunk_size m.total_size)
  unfolding read_chunk read_at
  read_chunk_bytes i p e = ground arith

  IsPartial-Kept : Kept env calm a b pair answers m f cs IsPartial
  unfolding accepted
  IsPartial-Kept = record {
    accepts = λ v i p hit read h. record {
      wanted = λ j.
          ground (arith, h.wanted j, contains-remove i j v.pending, contains-insert i j v.done);
      holds =
          accepted-Holds m sound small f v i p (ground (arith, h.wanted i, hit))
            (read_chunk_bytes i p read) h.holds;
    };
    bars = λ v bar h. record {
      wanted = h.wanted;
      holds = record { bytes = h.holds.bytes; len = h.holds.len };
    };
  }

  index_lt :
      (i : ℕ) (p : Bytes) → f.len < 2 ^ 32 * m.chunk_size → read_chunk m f i ≡ ok p → i < 2 ^ 32
  unfolding read_chunk read_at
  index_lt i p h e = elim (dec_lt i (2 ^ 32)) [
    | yes lt ↦ lt
    | no ge ↦
        let le : 2 ^ 32 ≤ i = omega arith in
        let far : 2 ^ 32 * m.chunk_size ≤ i * m.chunk_size = mul-le-mul_right m.chunk_size le in
        let begins : i * m.chunk_size ≤ f.len = ground (arith, e) in absurd (omega arith)
  ]

  frame_of-lt :
      (i : ℕ) (fr : Bytes)
      → f.len < 2 ^ 32 * m.chunk_size
      → frame_of a m f i ≡ ok fr
      → (i < 2 ^ 32) × (0 < length fr)
  unfolding frame_of encode_chunk_frame read_chunk read_at
  frame_of-lt i fr h e = elim (Res-cases (read_chunk m f i)) [
    | inr (_, bad) ↦ absurd (ground (arith, e, bad))
    | inl (p, read) ↦ elim (Res-cases (encrypt_chunk a i p)) [
      | inr (_, bad) ↦ absurd (ground (arith, e, read, bad))
      | inl (c, sealed) ↦
          let framed : to_be_bytes 4 i ++ (to_be_bytes 4 (length c) ++ c) ≡ fr =
            ground (arith, e, read, sealed) in
          (
            index_lt i p h read,
            omega (
              arith,
              ap length framed,
              length-append (to_be_bytes 4 i) (to_be_bytes 4 (length c) ++ c),
              length-to_be_bytes 4 i,
            ),
          )
    ]
  ]

  frames-lt :
      (is : List ℕ) (s : Bytes)
      → f.len < 2 ^ 32 * m.chunk_size
      → frames a m f is ≡ ok s
      → ((i : ℕ) → contains is i ≡ true → i < 2 ^ 32) × (length is ≤ length s)
  unfolding contains
  frames-lt [] s h e = (λ i hit. cc, omega arith)
  frames-lt (i ∷ is) s h e =
      let (fr, rest, cut, fe, re) = split_frames env calm a b pair answers m f cs i is s e in
      let (below, some_bytes) = frame_of-lt i fr h fe in
      let (more, shorter) = frames-lt is rest h re in
      (
        λ j hit. elim (Bool-cases (i == j)) [
          | inl same ↦ ground (arith, same)
          | inr other ↦ more j (ground (arith, other))
        ],
        omega (arith, ap length cut, length-append fr rest),
      )

  -- A direct transfer from one end to the other. However the two loops of the sender take turns, once
  -- its first pass is over and no error has ended it, a receiver that wants nothing but chunks the
  -- sender did not skip reads the whole stream to its end: it gets a result, the last message it
  -- sends is `Complete`, and the file on its disk has the length and every byte of the sender's. It
  -- is assumed that nothing fails at the receiver's own end (its disk, and that `Progress` and
  -- `Complete` each fit one Noise message), that the two ends of the Noise session
  -- belong together, that the manifest is one that fits its fields, with chunks of at most 8 MiB, less
  -- than 2^63 bytes and no more than 2^32 chunks in the file, and that the chunks the receiver has
  -- already hold the sender's bytes.
  pub run-receive_chunks :
      (codec : Codec) (bar : Progress) (answer : ControlMessage) (skip : List ℕ) (s s' : Sender)
      (ts : List Turn) (r : Recv) (fuel : ℕ)
      → f.len < 2 ^ 32 * m.chunk_size
      → chunks_to_skip codec answer ≡ ok skip
      → begin codec m a f bar answer ≡ ok s
      → run m ts s ≡ some (ok s')
      → is_first_pass s'.phase ≡ false
      → r.session.noise_state ≡ b
      → IsPartial (view r)
      → ((i : ℕ) → contains r.pending i ≡ true → contains skip i ≡ false)
      → length s'.stream < fuel
      → (r' : Recv) × (receive_chunks fuel env m r s'.stream ≡ some (ok r'))
        × ((earlier : List ControlMessage) × (r'.sent ≡ earlier ++ (complete ∷ [])))
        × (r'.file.len ≡ m.total_size)
        × ((k : ℕ) → k < m.total_size → r'.file.byte k ≡ f.byte k)
  run-receive_chunks codec bar answer skip s s' ts r fuel few skipped begun ran over same part new
        enough =
      let (res, out, post) = run_sends codec m a f bar answer skip s ts skipped begun in
      let (sent, written, all) = Post-eq-ok {a = s'} post (ground (arith, out, ran)) in
      let (index, shorter) = frames-lt sent s'.stream few written in
      let (r', done, last, (v, empty, kept, file)) =
        receive_chunks-Kept env calm a b pair answers m f cs IsPartial IsPartial-Kept sent fuel r
          s'.stream (omega arith) part same index
          (λ i hit. all over i (ground (arith, part.wanted i, hit)) (new i hit)) written in
      (
        r',
        done,
        last,
        rw file kept.holds.len,
        λ k below. rw file (
            kept.holds.bytes k below (
              ground (
                arith,
                kept.wanted (k / m.chunk_size),
                is_empty-contains v.pending (k / m.chunk_size) empty,
                in_count m sound small f k below,
              ))),
      )
