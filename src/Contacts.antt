-- ===== src/Contacts.antt =====
-- p2pshare-core/src/contacts/: the contacts of a user.
pub mod Store
use p2pfileshare.Base.{ℕ, String, Option, none}

-- The id is the text of its UUID.
pub record Contact : Type 0 where
  pub id : String
  pub display_name : String
  pub public_key : String
  pub fingerprint : String
  pub last_known_addr : Option String
  pub added_at : ℕ
  pub last_seen : Option ℕ

-- The random id and the time are given.
unfoldable pub new_contact : String → ℕ → String → String → String → Contact
new_contact id now display_name public_key fingerprint = record {
  id = id;
  display_name = display_name;
  public_key = public_key;
  fingerprint = fingerprint;
  last_known_addr = none;
  added_at = now;
  last_seen = none;
}
