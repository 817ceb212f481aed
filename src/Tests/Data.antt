-- ===== src/Tests/Data.antt =====
-- Concrete parameters: a transport, codecs, a manifest and a file.
use p2pfileshare.Base.{
  zero, suc, ◌+◌, ◌-◌, ◌^◌, ◌<◌, ltb, leb, Bool-cases, inl, inr, ◌==◌, if◌then◌else◌, ◌≡◌, refl,
  sym, ap, ◌∙◌, String, [], ◌∷◌, ◌++◌, length, take, length-append, length-take, none, Res, ok, err,
  arith,
}
use p2pfileshare.Base.Bytes.{
  Bytes, to_be_bytes, from_be_bytes, length-to_be_bytes, from-to_be_bytes, take-length_append,
}
use p2pfileshare.Manifest.{
  FileManifest, ControlMessage, manifest, manifest_ack, resume_request, chunk_nack, progress,
  complete, error, bulk, div_ceil, actual_chunk_size,
}
use p2pfileshare.Manifest.Chunks.{IsSound}
use p2pfileshare.Files.{File, bytes_at}
use p2pfileshare.Session.{chunk_nonce}
use p2pfileshare.Session.Cipher.{Noise, max_plain}
use p2pfileshare.Session.Cipher.RoundTrip.{IsPaired}
use p2pfileshare.Session.Codec.{Codec, IsCodec}
use p2pfileshare.Session.Peer.{PeerSession}
use p2pfileshare.Session.Relay.{RelaySession}
use p2pfileshare.Receiver.{Env}
use p2pfileshare.Receiver.SubMessages.{IsShort}
use p2pfileshare.Receiver.Integrity.{IsAuthentic}
use p2pfileshare.Receiver.Calm.{IsCalm}

abbrev pub tag : Bytes
tag = 1 ∷ 2 ∷ 3 ∷ 4 ∷ 5 ∷ 6 ∷ 7 ∷ 8 ∷ 9 ∷ 10 ∷ 11 ∷ 12 ∷ 13 ∷ 14 ∷ 15 ∷ 16 ∷ []

-- A tag of 16 bytes behind each message.
abbrev pub tagging : Noise
tagging = record {
  write_message = λ nonce p. if leb (length p) max_plain then ok (p ++ tag) else err "input";
  read_message =
      λ nonce c. if leb (length c) 65535 then ok (take (length c - 16) c) else err "decrypt";
}

pub tagging-IsPaired : IsPaired tagging tagging
tagging-IsPaired = record {
  seals = λ nonce p h. (p ++ tag, ground arith, length-append p tag);
  opens = λ nonce p c e.
      let c_eq : p ++ tag ≡ c = ground arith in
      let len : length p + 16 ≡ length c = sym (length-append p tag) ∙ ap length c_eq in
      let cut : take (length c - 16) c ≡ p = rw (← c_eq) (
        ap (λ k. take k (p ++ tag)) (omega (arith, length-append p tag))
        ∙ take-length_append p tag) in
      ground (arith, cut, len);
}

pub tagging-IsShort : IsShort tagging
tagging-IsShort nonce c p e = ground (arith, length-take (length c - 16) c)

-- A codec for three kinds of messages.
code : ControlMessage → Res String Bytes
code complete = ok (0 ∷ [])
code manifest_ack = ok (1 ∷ [])
code (progress n) = if ltb n (2 ^ 64) then ok (2 ∷ to_be_bytes 8 n) else err "overflow"
code (manifest _) = err "unsupported"
code (resume_request _) = err "unsupported"
code (chunk_nack _) = err "unsupported"
code (error _ _) = err "unsupported"

decode : Bytes → Res String ControlMessage
decode (zero ∷ []) = ok complete
decode (suc zero ∷ []) = ok manifest_ack
decode (suc (suc zero) ∷ n) = ok (progress (from_be_bytes n))
decode _ = err "syntax"

unfoldable pub small_codec : Codec
unfolding code decode
small_codec = record { to_vec = code; from_slice = decode; debug = λ msg. "message" }

decode-code : (m : ControlMessage) (p : Bytes) → code m ≡ ok p → decode p ≡ ok m
unfolding code decode
decode-code complete p e = ground arith
decode-code manifest_ack p e = ground arith
decode-code (progress n) p e = elim (Bool-cases (ltb n (2 ^ 64))) [
  | inl below ↦
      let coded : 2 ∷ to_be_bytes 8 n ≡ p = ground (arith, e, below) in
      rw (← coded) (rw (from-to_be_bytes 8 n (ground (arith, below))) refl)
  | inr above ↦ absurd (ground (arith, e, above))
]
decode-code (manifest _) p e = cc
decode-code (resume_request _) p e = cc
decode-code (chunk_nack _) p e = cc
decode-code (error _ _) p e = cc

pub small_codec-IsCodec : IsCodec small_codec
unfolding small_codec
small_codec-IsCodec = record { from_slice-to_vec = decode-code }

-- Three bytes in two chunks.
abbrev pub tiny : FileManifest
tiny = record {
  session_id = 7 ∷ [];
  filename = "f";
  mime_type = "text/plain";
  total_size = 3;
  chunk_size = 2;
  chunk_count = 2;
  transfer_mode = bulk;
  created_at = 0;
}

pub tiny-IsSound : IsSound tiny
unfolding div_ceil
tiny-IsSound = record {
  chunk_pos = omega arith;
  chunk_width = omega arith;
  count_width = omega arith;
  total_width = omega arith;
  count = refl;
}

abbrev pub abc : File
abc = record { len = 3; byte = λ k. k + 97 }

-- Under the nonces of the two chunks this transport opens nothing but their bytes, whatever the
-- sealed text is; nothing is opened under the nonces of further sub-messages.
abbrev pub honest : Noise
honest = record {
  write_message = λ nonce p. ok (p ++ tag);
  read_message = λ nonce c.
      if nonce == 0
      then ok []
      else if nonce == 4294967296
      then ok (97 ∷ 98 ∷ [])
      else if nonce == 4295032832
      then ok (99 ∷ [])
      else err "decrypt";
}

pub honest-IsShort : IsShort honest
honest-IsShort nonce c p e = ground arith

pub honest-IsAuthentic : (small : 3 < 2 ^ 63) → IsAuthentic tiny tiny-IsSound small abc honest
unfolding chunk_nonce bytes_at actual_chunk_size
honest-IsAuthentic small zero zero c p h hj e = ground arith
honest-IsAuthentic small zero (suc j) c p h hj e = ground arith
honest-IsAuthentic small (suc zero) zero c p h hj e = ground arith
honest-IsAuthentic small (suc zero) (suc j) c p h hj e = ground arith
honest-IsAuthentic small (suc (suc i)) j c p h hj e = absurd (omega arith)

-- A receiver's surroundings in which nothing fails, and in which what comes on the control stream is
-- the manifest.
abbrev pub calm_env : Env
calm_env = record {
  codec = record {
    to_vec = λ msg. ok (0 ∷ []);
    from_slice = λ p. ok (manifest tiny);
    debug = λ msg. "message";
  };
  json = record {
    to_string_pretty = λ s. ok "state";
    from_str = λ text. err "syntax";
    dir_made = ok tt;
    file_written = ok tt;
  };
  disk_error = λ offset. none;
}

-- The same with a codec that encodes no message of unbounded size.
abbrev pub honest_env : Env
honest_env = record calm_env { codec = small_codec }

pub honest_env-IsCalm : IsCalm honest_env
unfolding small_codec code
honest_env-IsCalm = record {
  disk = λ offset. refl;
  dir = refl;
  written = refl;
  json = λ s. ("state", refl);
  progress_fits =
      λ n below. (2 ∷ to_be_bytes 8 n, ground arith, omega (arith, length-to_be_bytes 8 n));
  complete_fits = (0 ∷ [], refl, omega arith);
}

abbrev pub peer : Noise → PeerSession
peer n = record { remote_pubkey = []; remote_fingerprint = ""; noise_state = n; send_nonce = 0 }

abbrev pub relayed : Noise → RelaySession
relayed n = record { remote_pubkey = []; remote_fingerprint = ""; noise_state = n; send_nonce = 0 }
