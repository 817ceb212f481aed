-- ===== src/Sender/Frames.antt =====
-- The data stream of transfer/sender.rs as the list of the chunks whose frames it holds.
use p2pfileshare.Base.{
  ℕ, arith, ◌≡◌, refl, List, [], ◌∷◌, ◌++◌, append_assoc, append-nil, ok, ◌>>=◌, Res-cases, inl,
  inr,
}
use p2pfileshare.Base.Bytes.{Bytes}
use p2pfileshare.Errors.{Result}
use p2pfileshare.Manifest.{FileManifest}
use p2pfileshare.Files.{File}
use p2pfileshare.Session.Cipher.{Noise}
use p2pfileshare.Sender.{read_chunk, encode_chunk_frame}

unfoldable pub frame_of : Noise → FileManifest → File → ℕ → Result Bytes
frame_of n m f i = do plaintext ← read_chunk m f i; encode_chunk_frame n i plaintext

unfoldable pub frames : Noise → FileManifest → File → List ℕ → Result Bytes
frames n m f [] = ok []
frames n m f (i ∷ is) = do frame ← frame_of n m f i; rest ← frames n m f is; ok (frame ++ rest)

-- One more frame at the end.
pub frames-snoc :
    (n : Noise) (m : FileManifest) (f : File) (is : List ℕ) (i : ℕ) (s frame : Bytes)
    → frames n m f is ≡ ok s
    → frame_of n m f i ≡ ok frame
    → frames n m f (is ++ (i ∷ [])) ≡ ok (s ++ frame)
unfolding frames
frames-snoc n m f [] i s frame e e' = rw (e', append-nil) (ground (arith, e))
frames-snoc n m f (j ∷ is) i s frame e e' = elim (Res-cases (frame_of n m f j)) [
  | inr (_, bad) ↦ absurd (ground (arith, e, bad))
  | inl (fr, good) ↦ elim (Res-cases (frames n m f is)) [
    | inr (_, bad) ↦ absurd (ground (arith, e, good, bad))
    | inl (rest, more) ↦
        let same : fr ++ rest ≡ s = ground (arith, e, good, more) in
        rw (good, frames-snoc n m f is i rest frame more e') (rw (← same, append_assoc) refl)
  ]
]
