-- ===== src/Identity/Storage/Laws.antt =====
-- An identity stays.
use p2pfileshare.Base.{◌≡◌, String, ok}
use p2pfileshare.Identity.Storage.{UserIdentity, Machine}

-- What is documented of `serde_json`, and that the file can be read.
pub record Reads (m : Machine) : Type 0 where
  pub from_str-to_string :
      (i : UserIdentity) (text : String) → m.to_string_pretty i ≡ ok text → m.from_str text ≡ ok i
  pub readable : m.read ≡ ok tt
