-- ===== src/Receiver/Honest.antt =====
-- A frame of `encode_chunk_frame` (transfer/sender.rs) in the loop of transfer/receiver.rs.
use p2pfileshare.Base.{
  ℕ, suc, ◌+◌, ◌*◌, ◌%◌, ◌^◌, ◌≤◌, ◌<◌, ltb, ◌≡◌, refl, sym, ap, subst, ◌∙◌, Bool, true, false,
  List, [], ◌∷◌, ◌++◌, length, length-append, append_assoc, append-nil, ok, ◌>>=◌, fail_if, arith,
}
use p2pfileshare.Base.Bytes.{
  Bytes, to_be_bytes, length-to_be_bytes, from-to_be_bytes, read_exact-append,
}
use p2pfileshare.Base.Sets.{contains}
use p2pfileshare.Manifest.{FileManifest, actual_chunk_size}
use p2pfileshare.Progress.{Progress, advance}
use p2pfileshare.Session.{chunk_nonce}
use p2pfileshare.Session.Cipher.{
  Noise, max_plain, encrypt_subs, encrypt_chunk, decrypt_sub_message, chunks, concat, AllShort,
  concat-chunks, chunks-AllShort, length-chunks,
}
use p2pfileshare.Session.Cipher.RoundTrip.{IsPaired}
use p2pfileshare.Session.Peer.{ended}
use p2pfileshare.Sender.{encode_chunk_frame}
use p2pfileshare.Receiver.{
  Env, Recv, Subs, sub_start, max_payload, take_sub, receive_subs, accept_chunk, judge_chunk,
  receive_frame,
}

-- The pieces are opened one after the other.
abbrev absorb : Subs → List Bytes → Subs
absorb acc [] = acc
absorb acc (p ∷ ps) =
    absorb
      (record {
        plaintext = acc.plaintext ++ p;
        decrypt_failed = false;
        advanced = acc.advanced + length p;
        sub_bar = advance (length p) acc.sub_bar;
      })
      ps

absorb_whole :
    (ps : List Bytes) (acc : Subs)
    → acc.decrypt_failed ≡ false
    → ((absorb acc ps).decrypt_failed ≡ false)
      × ((absorb acc ps).plaintext ≡ acc.plaintext ++ concat ps)
absorb_whole [] acc h = (h, sym (append-nil acc.plaintext))
absorb_whole (p ∷ ps) acc h =
    let (whole, text) = absorb_whole ps _ refl in
    (whole, text ∙ append_assoc acc.plaintext p (concat ps))

-- The bar moves on by the bytes of all pieces, and its total stays.
absorb_bar :
    (ps : List Bytes) (acc : Subs)
    → ((absorb acc ps).sub_bar.bytes_done % 2 ^ 64
        ≡ (acc.sub_bar.bytes_done + length (concat ps)) % 2 ^ 64)
      × ((absorb acc ps).sub_bar.bytes_total ≡ acc.sub_bar.bytes_total)
unfolding advance
absorb_bar [] acc = (omega arith, refl)
absorb_bar (p ∷ ps) acc =
    let (moved, total) = absorb_bar ps (record {
      plaintext = acc.plaintext ++ p;
      decrypt_failed = false;
      advanced = acc.advanced + length p;
      sub_bar = advance (length p) acc.sub_bar;
    }) in
    (omega (arith, moved, length-append p (concat ps)), total)

receive_subs-cons :
    (b : Noise) (i n j : ℕ) (is_pending : Bool) (acc : Subs) (c s : Bytes)
    → length c ≤ 65535
    → receive_subs b i is_pending (suc n) j acc (to_be_bytes 4 (length c) ++ (c ++ s))
      ≡ receive_subs b i is_pending n (suc j) (take_sub b i is_pending j c acc) s
unfolding receive_subs fail_if
receive_subs-cons b i n j is_pending acc c s h =
    let size : ℕ = length c in
    let fits : ltb 65535 size ≡ false = ground arith in
    rw (read_exact-append ended (to_be_bytes 4 size) (c ++ s) 4 (length-to_be_bytes 4 size)) (
      rw (from-to_be_bytes 4 size (omega arith))
        (rw fits (rw (read_exact-append ended c s size refl) refl)))

module _ (a b : Noise) (paired : IsPaired a b) (i : ℕ) where
  -- What the receiver makes of the sealed text of the pieces from piece `j` on.
  record Received (j : ℕ) (subs : List Bytes) (e : Bytes) : Type 0 where
    sealed : encrypt_subs a i j subs ≡ ok e
    size : length e ≡ 20 * length subs + length (concat subs)
    wanted :
        (acc : Subs) (rest : Bytes)
        → acc.decrypt_failed ≡ false
        → receive_subs b i true (length subs) j acc (e ++ rest) ≡ ok (absorb acc subs, rest)
    other :
        (acc : Subs) (rest : Bytes)
        → receive_subs b i false (length subs) j acc (e ++ rest) ≡ ok (acc, rest)

  take_sub_opened :
      (j : ℕ) (c p : Bytes) (acc : Subs)
      → b.read_message (chunk_nonce i j) c ≡ ok p
      → acc.decrypt_failed ≡ false
      → take_sub b i true j c acc ≡ absorb acc (p ∷ [])
  unfolding take_sub decrypt_sub_message
  take_sub_opened j c p acc e h = rw (h, e) refl

  receive-encrypt_subs :
      (j : ℕ) (subs : List Bytes)
      → AllShort max_plain subs
      → j + length subs ≤ 65536
      → (e : Bytes) × (Received j subs e)
  unfolding encrypt_subs receive_subs
  receive-encrypt_subs j [] short h = (
    [],
    record { sealed = refl; size = refl; wanted = λ acc rest _. refl; other = λ acc rest. refl },
  )
  receive-encrypt_subs j (p ∷ subs) (s, short) h =
      let (c, sealed, len) = paired.seals (chunk_nonce i (j % 2 ^ 32)) p s in
      let (e, more) = receive-encrypt_subs (suc j) subs short (omega arith) in
      let small : j % 2 ^ 32 ≡ j = omega arith in
      let opened : b.read_message (chunk_nonce i j) c ≡ ok p =
        subst (λ k. b.read_message (chunk_nonce i k) c ≡ ok p) small (paired.opens _ p c sealed) in
      (
        to_be_bytes 4 (length c) ++ (c ++ e),
        record {
          sealed = rw (sealed, more.sealed) refl;
          size = omega (
            arith,
            more.size,
            len,
            length-append (to_be_bytes 4 (length c)) (c ++ e),
            length-append c e,
            length-append p (concat subs),
            length-to_be_bytes 4 (length c),
          );
          wanted = λ acc rest whole.
              rw (append_assoc, append_assoc)
                (receive_subs-cons b i (length subs) j true acc c (e ++ rest) (omega arith)
                  ∙ rw (take_sub_opened j c p acc opened whole) (more.wanted _ rest refl));
          other = λ acc rest.
              rw (append_assoc, append_assoc)
                (receive_subs-cons b i (length subs) j false acc c (e ++ rest) (omega arith)
                  ∙ more.other acc rest);
        },
      )

-- The header of a frame is read, and its sub-messages come next.
receive_frame-header :
    (env : Env) (m : FileManifest) (r : Recv) (i count : ℕ) (e rest : Bytes)
    → i < 2 ^ 32
    → count < 2 ^ 16
    → length e + 2 ≤ max_payload m
    → length e + 2 < 2 ^ 32
    → receive_frame env m r (
        (to_be_bytes 4 i
          ++ (to_be_bytes 4 (length (to_be_bytes 2 count ++ e)) ++ (to_be_bytes 2 count ++ e)))
        ++ rest)
      ≡ (receive_subs r.session.noise_state i
            (contains r.pending i)
            count
            0
            (sub_start r.bar)
            (e ++ rest)
          >>= λ (acc, s). judge_chunk env m r i (contains r.pending i) acc >>= λ r'. ok (r', s))
unfolding receive_frame fail_if
receive_frame-header env m r i count e rest index counted fits width =
    let payload : Bytes = to_be_bytes 2 count ++ e in
    let len : length payload ≡ 2 + length e =
      omega (arith, length-append (to_be_bytes 2 count) e, length-to_be_bytes 2 count) in
    let below : ltb (max_payload m) (length payload) ≡ false = ground (arith, len, fits) in
    rw (append_assoc, append_assoc)
      (rw
        (read_exact-append ended (to_be_bytes 4 i)
          (to_be_bytes 4 (length payload) ++ (payload ++ rest)) 4 (length-to_be_bytes 4 i))
        (rw
          (read_exact-append ended (to_be_bytes 4 (length payload)) (payload ++ rest) 4
            (length-to_be_bytes 4 (length payload)))
          (rw (from-to_be_bytes 4 (length payload) (omega (arith, len))) (
            rw below (
              rw (append_assoc (to_be_bytes 2 count) e rest) (
                rw
                  (read_exact-append ended (to_be_bytes 2 count) (e ++ rest) 2
                    (length-to_be_bytes 2 count))
                  (rw (from-to_be_bytes 4 i (omega arith), from-to_be_bytes 2 count (omega arith))
                    refl)))))))

judge_chunk-wanted :
    (env : Env) (m : FileManifest) (r : Recv) (i : ℕ) (acc : Subs)
    → acc.decrypt_failed ≡ false
    → length acc.plaintext ≡ actual_chunk_size i m.chunk_size m.total_size
    → judge_chunk env m r i true acc
      ≡ accept_chunk env m (record r { bar = acc.sub_bar }) i acc.plaintext
unfolding judge_chunk
judge_chunk-wanted env m r i acc whole exact = ground (arith, whole, exact)

judge_chunk-other :
    (env : Env) (m : FileManifest) (r : Recv) (i : ℕ)
    → judge_chunk env m r i false (sub_start r.bar) ≡ ok r
unfolding judge_chunk
judge_chunk-other env m r i = refl

-- A frame is made of every chunk that is not larger than the chunk size, and the receiver reads it
-- and nothing more: a chunk that is wanted is accepted, with the progress bar moved on by its bytes
-- (in 64 bits) and the bar's total kept, and one that is not wanted changes nothing. It is assumed
-- that the two ends of the Noise session belong together and that chunks have at most 8 MiB.
pub receive-encode_chunk_frame :
    (a : Noise) (env : Env) (m : FileManifest) (r : Recv) (i : ℕ) (plaintext : Bytes)
    → IsPaired a r.session.noise_state
    → i < 2 ^ 32
    → m.chunk_size ≤ 2 ^ 23
    → length plaintext ≤ m.chunk_size
    → length plaintext ≡ actual_chunk_size i m.chunk_size m.total_size
    → (frame : Bytes) × (encode_chunk_frame a i plaintext ≡ ok frame)
      × ((rest : Bytes)
          → contains r.pending i ≡ true
          → (bar : Progress) × (receive_frame env m r (frame ++ rest)
              ≡ (accept_chunk env m (record r { bar = bar }) i plaintext >>= λ r'. ok (r', rest)))
            × (bar.bytes_done % 2 ^ 64 ≡ (r.bar.bytes_done + length plaintext) % 2 ^ 64)
            × (bar.bytes_total ≡ r.bar.bytes_total))
      × ((rest : Bytes)
          → contains r.pending i ≡ false
          → receive_frame env m r (frame ++ rest) ≡ ok (r, rest))
unfolding encode_chunk_frame encrypt_chunk max_payload
receive-encode_chunk_frame a env m r i plaintext paired fits cs short exact = (
  _,
  rw got.sealed refl,
  (λ rest hit. (
    opened.sub_bar,
    receive_frame-header env m r i (length subs) e rest fits (omega (arith, pieces)) room width
        ∙ rw (hit, got.wanted (sub_start r.bar) rest refl) (rw accept refl),
    moved.0 ∙ ap (λ text. (r.bar.bytes_done + length text) % 2 ^ 64) whole,
    moved.1,
  )),
  (λ rest miss.
      receive_frame-header env m r i (length subs) e rest fits (omega (arith, pieces)) room width
      ∙ rw (miss, got.other (sub_start r.bar) rest, judge_chunk-other env m r i) refl),
)
  where
    subs : List Bytes
    subs = chunks max_plain plaintext

    pieces : length subs * max_plain < length plaintext + max_plain
    pieces = length-chunks max_plain plaintext (omega arith)

    sealed : (e : Bytes) × (Received a r.session.noise_state paired i 0 subs e)
    sealed =
        receive-encrypt_subs a r.session.noise_state paired i 0 subs
          (chunks-AllShort max_plain plaintext) (omega (arith, pieces))

    e : Bytes
    e = sealed.0

    got : Received a r.session.noise_state paired i 0 subs e
    got = sealed.1

    whole : concat subs ≡ plaintext
    whole = concat-chunks max_plain plaintext (omega arith)

    room : length e + 2 ≤ max_payload m
    room = omega (arith, got.size, pieces, ap length whole)

    width : length e + 2 < 2 ^ 32
    width = omega (arith, got.size, pieces, ap length whole)

    opened : Subs
    opened = absorb (sub_start r.bar) subs

    moved :
        (opened.sub_bar.bytes_done % 2 ^ 64 ≡ (r.bar.bytes_done + length (concat subs)) % 2 ^ 64)
        × (opened.sub_bar.bytes_total ≡ r.bar.bytes_total)
    moved = absorb_bar subs (sub_start r.bar)

    text : opened.plaintext ≡ plaintext
    text = (absorb_whole subs (sub_start r.bar) refl).1 ∙ whole

    accept :
        judge_chunk env m r i true opened
        ≡ accept_chunk env m (record r { bar = opened.sub_bar }) i plaintext
    accept =
        judge_chunk-wanted env m r i opened (absorb_whole subs (sub_start r.bar) refl).0
          (ap length text ∙ exact)
        ∙ ap (accept_chunk env m (record r { bar = opened.sub_bar }) i) text
