-- ===== src/RelayReceiver/Honest.antt =====
-- The receiver of transfer/relay_receiver.rs on the stream of an honest sender.
use native.Mathlib.Nat.{mul-le-mul_right, suc-mul}
use native.Mathlib.Decide.{dec_lt}
use p2pfileshare.Base.{
  ℕ, zero, suc, ◌*◌, ◌+◌, ◌^◌, ◌≤◌, ◌<◌, leb, ◌==◌, ◌≡◌, refl, sym, ap, subst, ◌∙◌, true, false,
  ◌||◌, List, [], ◌∷◌, ◌++◌, length, length-append, append_assoc, some, ok, ◌>>=◌, arith,
  Bool-cases, Res-cases, both-ok, inl, inr,
}
use p2pfileshare.Errors.{Result}
use p2pfileshare.Base.Bytes.{Bytes}
use p2pfileshare.Base.Sets.{contains, is_empty, contains-remove}
use p2pfileshare.Manifest.{FileManifest, actual_chunk_size}
use p2pfileshare.Manifest.Chunks.{IsSound, actual_chunk_size-in_file, div_ceil_bounds}
use p2pfileshare.Progress.{advance}
use p2pfileshare.Files.{File, read_at, bytes_at}
use p2pfileshare.Session.Cipher.{Noise, max_plain, decrypt_chunk}
use p2pfileshare.Session.Cipher.RoundTrip.{IsPaired, decrypt-encrypt_chunk}
use p2pfileshare.Session.Cipher.Split.{length-chunks}
use p2pfileshare.Session.Relay.{chunk, recv_msg, send_chunk_raw}
use p2pfileshare.Session.Relay.RoundTrip.{recv_msg-send_chunk_raw}
use p2pfileshare.Sender.{read_chunk}
use p2pfileshare.RelaySender.FirstPass.{raw_frame, raw_frames}
use p2pfileshare.Receiver.{Env}
use p2pfileshare.Receiver.View.{accepted}
use p2pfileshare.Receiver.Calm.{IsCalm}
use p2pfileshare.Receiver.Completion.{none_left, read_chunk_size}
use p2pfileshare.RelayReceiver.{RelayRecv, relay_accept, relay_msg, relay_chunk, relay_loop}
use p2pfileshare.RelayReceiver.View.{view}
use p2pfileshare.RelayReceiver.Opened.{whole}
use p2pfileshare.RelayReceiver.Calm.{relay_accept_ok}
use p2pfileshare.RelayReceiver.Delivery.{Kept, accepted-Kept, barred}

-- The frames of a list of chunks, the first one first.
unfoldable pub raw_stream : Noise → FileManifest → File → List ℕ → Result Bytes
raw_stream n m f [] = ok []
raw_stream n m f (i ∷ is) = do
  frame ← raw_frame n m f i
  rest ← raw_stream n m f is
  ok (frame ++ rest)

-- The frames in the order in which they are read.
pub raw_stream-raw_frames :
    (n : Noise) (m : FileManifest) (f : File) (is js : List ℕ) (s t : Bytes)
    → raw_frames n m f is ≡ ok s
    → raw_stream n m f js ≡ ok t
    → (ks : List ℕ) × (raw_stream n m f ks ≡ ok (s ++ t))
      × ((i : ℕ) → (contains is i || contains js i) ≡ true → contains ks i ≡ true)
unfolding raw_frames raw_stream contains
raw_stream-raw_frames n m f [] js s t e g = (js, g ∙ ground (arith, e), λ i h. h)
raw_stream-raw_frames n m f (i ∷ is) js s t e g =
    let (before, frame, good, made, cut) =
      both-ok (raw_frames n m f is) (raw_frame n m f i) (λ x y. x ++ y) e in
    let (ks, out, all) =
      raw_stream-raw_frames n m f is (i ∷ js) before (frame ++ t) good (rw (made, g) refl) in
    (
      ks,
      out ∙ ap ok (sym (append_assoc before frame t) ∙ ap (λ b. b ++ t) cut),
      λ j h. all j (ground (arith, h)),
    )

relay_loop_over :
    (fuel : ℕ) (env : Env) (m : FileManifest) (r : RelayRecv) (s : Bytes)
    → is_empty r.pending ≡ true
    → relay_loop (suc fuel) env m r s ≡ some (ok (r, s))
unfolding relay_loop
relay_loop_over fuel env m r s h = ground arith

relay_loop_on :
    (fuel : ℕ) (env : Env) (m : FileManifest) (r r' : RelayRecv) (s s' : Bytes)
    → is_empty r.pending ≡ false
    → (recv_msg env.codec r.session s >>= relay_msg env m r) ≡ ok (r', s')
    → relay_loop (suc fuel) env m r s ≡ relay_loop fuel env m r' s'
unfolding relay_loop
relay_loop_on fuel env m r r' s s' h e = ground arith

relay_msg_accepts :
    (env : Env) (m : FileManifest) (r r' : RelayRecv) (i : ℕ) (c p rest : Bytes)
    → decrypt_chunk r.session.noise_state i c ≡ ok p
    → length p ≡ actual_chunk_size i m.chunk_size m.total_size
    → relay_accept env m r i p ≡ ok r'
    → relay_msg env m r (chunk i c, rest) ≡ ok (r', rest)
unfolding relay_msg relay_chunk
relay_msg_accepts env m r r' i c p rest e size out = ground arith

module _ (env : Env) (calm : IsCalm env) (a b : Noise) (pair : IsPaired a b)
    (answers : IsPaired b a) (m : FileManifest) (f : File) (cs : m.chunk_size ≤ 2 ^ 23)
    (sound : IsSound m) (small : m.total_size < 2 ^ 63) (exact : f.len ≡ m.total_size) where
  -- Behind the last chunk nothing begins in the file but its end.
  last_end :
      (i : ℕ)
      → m.chunk_count ≤ i
      → i * m.chunk_size ≤ m.total_size
      → (i ≡ m.chunk_count) × (i * m.chunk_size ≡ m.total_size)
  last_end i ge reach = elim (dec_lt m.chunk_count i) [
    | yes lt ↦ absurd (
        omega (
          arith,
          suc-mul m.chunk_count m.chunk_size,
          mul-le-mul_right m.chunk_size lt,
          covers,
          sound.chunk_pos,
        ))
    | no le ↦ (omega arith, omega (arith, mul-le-mul_right m.chunk_size ge, covers))
  ]
    where
      covers : m.total_size ≤ m.chunk_count * m.chunk_size
      covers = omega (
        arith,
        div_ceil_bounds m.total_size m.chunk_size sound.chunk_pos,
        ap (λ c. c * m.chunk_size) sound.count,
      )

  -- A chunk that the sender can read lies in the file, or it is empty and stands at its end.
  read_chunk_within :
      (i : ℕ) (p : Bytes)
      → read_chunk m f i ≡ ok p
      → (i < 2 ^ 32)
        × (i < m.chunk_count → p ≡ whole m sound small f i)
        × (m.chunk_count ≤ i → p ≡ [])
  unfolding read_chunk read_at bytes_at
  read_chunk_within i p e =
      elim (Bool-cases
        (leb (i * m.chunk_size + actual_chunk_size i m.chunk_size m.total_size) f.len)) [
          | inr far ↦ absurd (ground (arith, e, far))
          | inl near ↦
              let same : whole m sound small f i ≡ p = ground (arith, e, near) in
              elim (dec_lt i m.chunk_count) [
                | yes lt ↦
                    (omega (arith, sound.count_width), λ _. sym same, λ ge. absurd (omega arith))
                | no ge ↦
                    let reach : i * m.chunk_size ≤ m.total_size = ground (arith, near, exact) in
                    let at_end : (i ≡ m.chunk_count) × (i * m.chunk_size ≡ m.total_size) =
                      last_end i (omega arith) reach in
                    let empty : actual_chunk_size i m.chunk_size m.total_size ≡ 0 = omega (
                      arith,
                      at_end,
                      actual_chunk_size-in_file m.total_size m.chunk_size sound.total_width
                          sound.chunk_width i reach,
                    ) in
                    (
                      omega (arith, at_end, sound.count_width),
                      λ lt. absurd (omega arith),
                      λ _. sym same ∙ ap (bytes_at f (i * m.chunk_size)) empty,
                    )
              ]
        ]

  -- One frame of the sender is taken off the stream, and its chunk is not wanted any more.
  frame_ok :
      (r : RelayRecv) (i : ℕ) (frame rest : Bytes)
      → Kept m sound small f b (view r)
      → raw_frame a m f i ≡ ok frame
      → (r' : RelayRecv) × ((recv_msg env.codec r.session (frame ++ rest) >>= relay_msg env m r)
          ≡ ok (r', rest))
        × (0 < length frame)
        × Kept m sound small f b (view r')
        × ((j : ℕ)
            → contains r'.pending j ≡ true
            → (contains r.pending j ≡ true) × ((i == j) ≡ false))
  unfolding raw_frame send_chunk_raw accepted
  frame_ok r i frame rest k e = elim (Res-cases (read_chunk m f i)) [
    | inr (_, bad) ↦ absurd (ground (arith, e))
    | inl (p, read) ↦
        let (size, short) = read_chunk_size env calm a b pair answers m f cs i p read in
        let (index, inside, outside) = read_chunk_within i p read in
        let (c, sealed, opened, len) = decrypt-encrypt_chunk a b pair i p (omega arith) in
        let framed : send_chunk_raw i c ≡ frame = ground (arith, e, read, sealed) in
        let (r', accept, v) = relay_accept_ok env calm a b answers m r i p k.same size in
        let known : decrypt_chunk r.session.noise_state i c ≡ ok p =
          subst (λ n. decrypt_chunk n i c ≡ ok p) (sym k.same) opened in
        let taken = relay_msg_accepts env m r r' i c p rest known size accept in
        (
          r',
          rw (← framed) (
              rw
                (recv_msg-send_chunk_raw env.codec r.session i c rest index
                  (omega (arith, len, length-chunks max_plain p (omega arith))))
                taken),
          omega (arith, ap length framed),
          subst (Kept m sound small f b) (sym v) (
              accepted-Kept m sound small f b _ i p inside outside
                (barred m sound small f b (view r) (advance (length p) r.bar) k)),
          λ j h. ground (arith, h, ap (λ v. contains v.pending j) v, contains-remove i j r.pending),
        )
  ]

  split_stream :
      (i : ℕ) (is : List ℕ) (s : Bytes)
      → raw_stream a m f (i ∷ is) ≡ ok s
      → (frame : Bytes) × (rest : Bytes) × (frame ++ rest ≡ s)
        × (raw_frame a m f i ≡ ok frame)
        × (raw_stream a m f is ≡ ok rest)
  unfolding raw_stream
  split_stream i is s e =
      let (frame, rest, fe, re, cut) =
        both-ok (raw_frame a m f i) (raw_stream a m f is) (λ x y. x ++ y) e in
      (frame, rest, cut, fe, re)

  pub relay_loop_ok :
      (is : List ℕ) (fuel : ℕ) (r : RelayRecv) (s : Bytes)
      → length s < fuel
      → Kept m sound small f b (view r)
      → ((i : ℕ) → contains r.pending i ≡ true → contains is i ≡ true)
      → raw_stream a m f is ≡ ok s
      → (r' : RelayRecv) × (s' : Bytes) × (relay_loop fuel env m r s ≡ some (ok (r', s')))
        × (is_empty r'.pending ≡ true)
        × Kept m sound small f b (view r')
  unfolding raw_stream contains
  relay_loop_ok is zero r s h k all e = absurd (omega arith)
  relay_loop_ok [] (suc fuel) r s h k all e =
      let over = none_left r.pending all in (r, s, relay_loop_over fuel env m r s over, over, k)
  relay_loop_ok (i ∷ is) (suc fuel) r s h k all e = elim (Bool-cases (is_empty r.pending)) [
    | inl over ↦ (r, s, relay_loop_over fuel env m r s over, over, k)
    | inr more ↦
        let (frame, rest, cut, fe, re) = split_stream i is s e in
        let (r₁, out, some_bytes, k₁, left) = frame_ok r i frame rest k fe in
        let (r', s', ends, over, k') =
          relay_loop_ok is fuel r₁ rest (omega (arith, ap length cut, length-append frame rest)) k₁
            (λ j hit. ground (arith, left j hit, all j (left j hit).0)) re in
        (
          r',
          s',
          relay_loop_on fuel env m r r₁ s rest more (
                subst (λ t. (recv_msg env.codec r.session t >>= relay_msg env m r) ≡ ok (r₁, rest))
                  cut out)
              ∙ ends,
          over,
          k',
        )
  ]
