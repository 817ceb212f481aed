-- ===== src/Identity/Storage.antt =====
-- p2pshare-core/src/identity/storage.rs: the file of the identity and the directory it lies in.
-- `serde_json`, the file system and the fresh keys are parameters.
pub mod Laws
use p2pfileshare.Base.{
  ℕ, String, ◌<>◌, Bool, true, false, Option, none, some, Res, ok, err, ◌>>=◌, map_err,
}
use p2pfileshare.Base.Bytes.{Bytes}
use p2pfileshare.Errors.{Result, json}
use p2pfileshare.Identity.Fingerprint.{to_fingerprint}

pub record UserIdentity : Type 0 where
  pub public_key : String
  pub private_key : String
  pub display_name : String
  pub fingerprint : String
  pub created_at : ℕ

-- `DATA_DIR` is set once.
unfoldable pub set_data_dir : String → Option String → Option String
set_data_dir path (some dir) = some dir
set_data_dir path none = some path

unfoldable pub home_or_dot : Option String → String
home_or_dot none = "."
home_or_dot (some home) = home

-- `HOME` is a variable of the environment.
unfoldable pub config_dir : Option String → Option String → String
unfolding home_or_dot
config_dir (some dir) home = dir
config_dir none home = home_or_dot home <> "/.config/p2pshare"

-- The library of JSON, the results of the file system, and a fresh pair of keys with its time.
pub record Machine : Type 0 where
  pub to_string_pretty : UserIdentity → Res String String
  pub from_str : String → Res String UserIdentity
  pub read : Result (Unit {0})
  pub dir_made : Result (Unit {0})
  pub written : Result (Unit {0})
  pub removed : Result (Unit {0})
  pub hex_encode : Bytes → String
  pub words : ℕ → String
  pub public : Bytes
  pub secret : Bytes
  pub now : ℕ

-- The file is its text, if it exists.
abbrev pub IdentityFile : Type 0
IdentityFile = Option String

unfoldable pub load : Machine → IdentityFile → Result (Option UserIdentity)
load m none = ok none
load m (some content) = do
  _ ← m.read
  identity ← map_err json (m.from_str content)
  ok (some identity)

unfoldable pub save : Machine → UserIdentity → IdentityFile → Result IdentityFile
save m identity file = do
  _ ← m.dir_made
  content ← map_err json (m.to_string_pretty identity)
  _ ← m.written
  ok (some content)

unfoldable pub name_or_unnamed : Option String → String
name_or_unnamed none = "Unnamed"
name_or_unnamed (some name) = name

unfoldable pub fresh_identity : Machine → Option String → UserIdentity
unfolding name_or_unnamed
fresh_identity m display_name = record {
  public_key = m.hex_encode m.public;
  private_key = m.hex_encode m.secret;
  display_name = name_or_unnamed display_name;
  fingerprint = to_fingerprint m.words m.public;
  created_at = m.now;
}

-- What `load` has found, or else a fresh identity, which is saved.
unfoldable pub create_unless :
    Machine
    → Option String
    → IdentityFile
    → Option UserIdentity
    → Result (UserIdentity × IdentityFile)
unfolding fresh_identity save
create_unless m display_name file (some identity) = ok (identity, file)
create_unless m display_name file none = do
  let identity = fresh_identity m display_name
  file' ← save m identity file
  ok (identity, file')

unfoldable pub load_or_create :
    Machine → Option String → IdentityFile → Result (UserIdentity × IdentityFile)
unfolding load create_unless
load_or_create m display_name file = load m file >>= create_unless m display_name file

unfoldable pub reset : Machine → IdentityFile → Result (UserIdentity × IdentityFile)
unfolding load_or_create
reset m none = load_or_create m none none
reset m (some content) = do _ ← m.removed; load_or_create m none none
