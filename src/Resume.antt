-- ===== src/Resume.antt =====
-- p2pshare-core/src/transfer/resume.rs: which chunks a receiver has, and the state files from which
-- an interrupted transfer is taken up again. `serde_json` is a parameter; a state file is known by
-- the session id in its name.
pub mod Laws
use Prim.Native.String.{len, slice}
use text.Mathlib.Text.{starts_with, ◌==◌ as str_eq}
use p2pfileshare.Base.{
  ℕ, ◌-◌, String, ◌<>◌, Bool, ◌||◌, true, false, ◌&&◌, ◌==◌, if◌then◌else◌, List, [], ◌∷◌, length,
  Option, none, some, Res, ok, err, ◌>>=◌, map_err,
}
use p2pfileshare.Base.Bytes.{Bytes}
use p2pfileshare.Base.Sets.{missing}
use p2pfileshare.Errors.{Result, json}
use p2pfileshare.Manifest.{FileManifest}

pub record TransferState : Type 0 where
  pub session_id : Bytes
  pub manifest : FileManifest
  pub chunks_done : List ℕ
  pub output_path : String

-- `serde_json`, and what making the directory and writing a state file in it give.
pub record Json : Type 0 where
  pub to_string_pretty : TransferState → Res String String
  pub from_str : String → Res String TransferState
  pub dir_made : Result (Unit {0})
  pub file_written : Result (Unit {0})

-- The files of the directory `transfers`.
abbrev pub Store : Type 0
Store = List (Bytes × String)

unfoldable pub new : FileManifest → String → TransferState
new manifest output_path = record {
  session_id = manifest.session_id;
  manifest = manifest;
  chunks_done = [];
  output_path = output_path;
}

unfoldable pub missing_chunks : TransferState → List ℕ
missing_chunks s = missing s.manifest.chunk_count 0 s.chunks_done

unfoldable pub is_complete : TransferState → Bool
is_complete s = length s.chunks_done == s.manifest.chunk_count

-- Equality of two names.
unfoldable pub same_id : Bytes → Bytes → Bool
same_id [] [] = true
same_id [] (y ∷ ys) = false
same_id (x ∷ xs) [] = false
same_id (x ∷ xs) (y ∷ ys) = x == y && same_id xs ys

unfoldable pub read_file : Bytes → Store → Option String
unfolding same_id
read_file id [] = none
read_file id ((i, text) ∷ store) = if same_id i id then some text else read_file id store

unfoldable pub remove_file : Bytes → Store → Store
unfolding same_id
remove_file id [] = []
remove_file id ((i, text) ∷ store) =
    let rest = remove_file id store in if same_id i id then rest else (i, text) ∷ rest

-- `std::fs::write` replaces the file.
unfoldable pub save : Json → TransferState → Store → Result Store
unfolding remove_file
save j s store = do
  _ ← j.dir_made
  text ← map_err json (j.to_string_pretty s)
  _ ← j.file_written
  ok ((s.session_id, text) ∷ remove_file s.session_id store)

parse_state : Json → Option String → Result (Option TransferState)
parse_state j none = ok none
parse_state j (some text) = do s ← map_err json (j.from_str text); ok (some s)

unfoldable pub load : Json → Bytes → Store → Result (Option TransferState)
unfolding read_file parse_state
load j id store = parse_state j (read_file id store)

unfoldable pub delete : TransferState → Store → Store
unfolding remove_file
delete s store = remove_file s.session_id store

-- An empty directory, or one that ends with the separator.
abbrev needs_no_slash : String → Bool
needs_no_slash dir = str_eq dir "" || str_eq (slice dir (len dir - 1) (len dir)) "/"

-- `Path::join`: an absolute name replaces the directory.
unfoldable pub join : String → String → String
join dir name =
    if starts_with name "/"
    then name
    else if needs_no_slash dir
    then dir <> name
    else dir <> "/" <> name

-- A state file that cannot be read counts as none: `.ok().flatten()`.
unfoldable pub find_resumable :
    Json → FileManifest → String → (String → Bool) → Store → Option TransferState
unfolding load join
find_resumable j manifest output_dir exists store =
    if exists (join output_dir manifest.filename)
    then (elim (load j manifest.session_id store) [ ok found ↦ found | err _ ↦ none ])
    else none
