-- ===== src/Manifest.antt =====
-- p2pshare-core/src/transfer/manifest.rs: what a transfer announces, the control messages, and how
-- a file is cut into chunks. `u64` subtraction is written out as it wraps in a release build.
pub mod Chunks
pub mod Sums
use Prim.Native.Char.{code}
use text.Mathlib.Text.{◌==◌ as str_eq}
use p2pfileshare.Base.{
  ℕ, ◌+◌, ◌-◌, ◌*◌, ◌/◌, ◌%◌, ◌^◌, min, String, List, [], ◌∷◌, leb, ◌==◌, if◌then◌else◌, ◌||◌, ok,
  ◌>>=◌,
}
use p2pfileshare.Errors.{Result}

pub record StreamingConfig : Type 0 where
  pub buffer_chunks : ℕ
  pub local_port : ℕ

pub data TransferMode : Type 0 where
  bulk : TransferMode
  streaming : StreamingConfig → TransferMode

pub record FileManifest : Type 0 where
  pub session_id : List ℕ
  pub filename : String
  pub mime_type : String
  pub total_size : ℕ
  pub chunk_size : ℕ
  pub chunk_count : ℕ
  pub transfer_mode : TransferMode
  pub created_at : ℕ

pub data ControlMessage : Type 0 where
  manifest : FileManifest → ControlMessage
  manifest_ack : ControlMessage
  resume_request : List ℕ → ControlMessage
  chunk_nack : ℕ → ControlMessage
  progress : ℕ → ControlMessage
  complete : ControlMessage
  error : ℕ → String → ControlMessage

unfoldable pub chunk_size_for : ℕ → ℕ
chunk_size_for file_size = if leb file_size 5_000_000 then 524_288 else 8_388_608

-- The bytes of chunk `index`: the last one may be shorter.
unfoldable pub actual_chunk_size : ℕ → ℕ → ℕ → ℕ
actual_chunk_size chunk_index chunk_size total_size =
    let start = chunk_index * chunk_size in
    min ((total_size + 2 ^ 64 - start) % 2 ^ 64) chunk_size % 2 ^ 32

-- `u64::div_ceil`
unfoldable pub div_ceil : ℕ → ℕ → ℕ
div_ceil n d = n / d + (if n % d == 0 then 0 else 1)

-- The text behind the last dot, or all of it: `rsplit('.').next()`.
after_dot : String → String → String
after_dot seg String.[] = seg
after_dot seg (String.◌∷◌ c s) = after_dot (if code c == b'.' then s else seg) s

-- `to_lowercase` is the argument `lower`.
unfoldable pub guess_mime : (String → String) → String → String
unfolding after_dot
guess_mime lower name =
    let ext = lower (after_dot name name) in
    if str_eq ext "mp4" || str_eq ext "mov" || str_eq ext "m4v"
    then "video/mp4"
    else if str_eq ext "mkv"
    then "video/x-matroska"
    else if str_eq ext "jpg" || str_eq ext "jpeg"
    then "image/jpeg"
    else if str_eq ext "png"
    then "image/png"
    else if str_eq ext "gif"
    then "image/gif"
    else if str_eq ext "pdf"
    then "application/pdf"
    else if str_eq ext "txt"
    then "text/plain"
    else if str_eq ext "zip"
    then "application/zip"
    else if str_eq ext "tar"
    then "application/x-tar"
    else "application/octet-stream"

-- What `build_manifest` takes from the system: the file's metadata, a random id, the clock.
pub record FileInfo : Type 0 where
  pub metadata : Result ℕ
  pub file_name : String
  pub random_id : List ℕ
  pub now : ℕ

unfoldable pub build_manifest : (String → String) → FileInfo → Result FileManifest
unfolding chunk_size_for div_ceil guess_mime
build_manifest lower info = do
  total_size ← info.metadata
  let chunk_size = chunk_size_for total_size
  ok (record {
    session_id = info.random_id;
    filename = info.file_name;
    mime_type = guess_mime lower info.file_name;
    total_size = total_size;
    chunk_size = chunk_size;
    chunk_count = div_ceil total_size chunk_size % 2 ^ 32;
    transfer_mode = bulk;
    created_at = info.now;
  })

-- `chunks_done.iter().map(|&i| actual_chunk_size(..)).sum()`: the bytes of the chunks of a set.
-- For indices below the count the sum is at most `total_size`, so it fits in 64 bits.
unfoldable pub sum_chunks : FileManifest → List ℕ → ℕ
sum_chunks m [] = 0
sum_chunks m (i ∷ is) = actual_chunk_size i m.chunk_size m.total_size + sum_chunks m is
