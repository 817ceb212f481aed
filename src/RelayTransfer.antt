-- ===== src/RelayTransfer.antt =====
-- transfer/relay_sender.rs and transfer/relay_receiver.rs of p2pshare-core/src together: the stream
-- that the one writes is the one that the other reads.
use p2pfileshare.Base.{
  ℕ, ◌/◌, ◌^◌, ◌≤◌, ◌<◌, ◌≡◌, refl, ap, ◌∙◌, true, false, List, [], ◌∷◌, ◌++◌, length, append-nil,
  some, ok, arith, Post-eq-ok,
}
use p2pfileshare.Base.Sets.{contains, is_empty-contains}
use p2pfileshare.Manifest.{FileManifest, ControlMessage, complete}
use p2pfileshare.Manifest.Chunks.{IsSound}
use p2pfileshare.Progress.{Progress}
use p2pfileshare.Files.{File}
use p2pfileshare.Session.Cipher.{Noise}
use p2pfileshare.Session.Cipher.RoundTrip.{IsPaired}
use p2pfileshare.Session.Codec.{Codec}
use p2pfileshare.Sender.{Turn, chunks_to_skip}
use p2pfileshare.RelaySender.{RelaySender, relay_begin, relay_run}
use p2pfileshare.RelaySender.FirstPass.{relay_run_sends}
use p2pfileshare.Receiver.{Env}
use p2pfileshare.Receiver.Calm.{IsCalm}
use p2pfileshare.Receiver.Integrity.{in_count}
use p2pfileshare.RelayReceiver.{RelayRecv, relay_chunks}
use p2pfileshare.RelayReceiver.View.{view}
use p2pfileshare.RelayReceiver.Calm.{relay_finish_ok}
use p2pfileshare.RelayReceiver.Delivery.{Kept, relay_finish_file}
use p2pfileshare.RelayReceiver.Honest.{raw_stream, raw_stream-raw_frames, relay_loop_ok}

module _ (env : Env) (calm : IsCalm env) (a b : Noise) (pair : IsPaired a b)
    (answers : IsPaired b a) (m : FileManifest) (f : File) (cs : m.chunk_size ≤ 2 ^ 23)
    (sound : IsSound m) (small : m.total_size < 2 ^ 63) (exact : f.len ≡ m.total_size) where
  -- A transfer over a relay from one end to the other. However the two loops of the sender take
  -- turns, once its first pass is over and no error has ended it, a receiver that wants the chunks
  -- it has not done, none of which the sender skipped, reads the stream to its end: it gets a
  -- result, the last message it sends is `Complete`, and the file on its disk has the length and
  -- every byte of the sender's. It is assumed that nothing fails at the receiver's own end (its
  -- disk, and that `Progress` and `Complete` each fit one Noise message), that the
  -- two ends of the Noise session belong together, that the manifest fits its fields and has the
  -- size of the file, with chunks of at most 8 MiB and less than 2^63 bytes, and that the chunks
  -- the receiver has already hold the sender's bytes.
  pub relay_run-relay_chunks :
      (codec : Codec) (bar : Progress) (answer : ControlMessage) (skip : List ℕ)
      (s s' : RelaySender) (ts : List Turn) (r : RelayRecv) (fuel : ℕ)
      → chunks_to_skip codec answer ≡ ok skip
      → relay_begin codec m a f bar answer ≡ ok s
      → relay_run m ts s ≡ ok s'
      → s'.to_send ≡ []
      → Kept m sound small f b (view r)
      → ((i : ℕ) → contains r.pending i ≡ true → contains skip i ≡ false)
      → length s'.stream < fuel
      → (r' : RelayRecv) × (relay_chunks fuel env m r s'.stream ≡ some (ok r'))
        × ((earlier : List ControlMessage) × (r'.sent ≡ earlier ++ (complete ∷ [])))
        × (r'.file.len ≡ m.total_size)
        × ((k : ℕ) → k < m.total_size → r'.file.byte k ≡ f.byte k)
  unfolding relay_chunks contains raw_stream
  relay_run-relay_chunks codec bar answer skip s s' ts r fuel skipped begun ran over part new
        enough =
      let (sent, written, all) =
        relay_run_sends codec m a f bar answer skip s s' ts skipped begun ran in
      let (ks, stream, every) = raw_stream-raw_frames a m f sent [] s'.stream [] written refl in
      let (r₁, rest, ends, empty, kept) =
        relay_loop_ok env calm a b pair answers m f cs sound small exact ks fuel r s'.stream enough
          part
          (λ i hit. every i (
            ground (
              arith,
              part.wanted i,
              hit,
              all i (ground (arith, part.wanted i, hit)) (new i hit),
              ap (λ is. contains is i) over,
            )))
          (stream ∙ ap ok (append-nil s'.stream)) in
      let (r', out, last) = relay_finish_ok env calm a b answers r₁ kept.same in
      let file : r'.file ≡ r₁.file = Post-eq-ok (relay_finish_file m sound small f env r₁) out in
      (
        r',
        rw (ends, relay_chunks) (ap some out),
        last,
        rw file kept.holds.len,
        λ k below. rw file (
            kept.holds.bytes k below (
              ground (
                arith,
                kept.wanted (k / m.chunk_size),
                is_empty-contains r₁.pending (k / m.chunk_size) empty,
                in_count m sound small f k below,
              ))),
      )
