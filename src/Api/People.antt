-- ===== src/Api/People.antt =====
-- The identity and the contacts as the app sees them.
pub mod Unkeyed
use text.Mathlib.Text.{◌==◌ as str_eq}
use p2pfileshare.Base.{
  ℕ, if◌then◌else◌, String, ◌<>◌, Bool, true, false, List, [], ◌∷◌, map, Option, none, some, Res,
  ok, err, ◌>>=◌, map_err, fail_if,
}
use p2pfileshare.Errors.{Error, Result}
use p2pfileshare.Contacts.{Contact, new_contact}
use p2pfileshare.Contacts.Store
use p2pfileshare.Contacts.Store.{Table, find_by_fingerprint}
use p2pfileshare.Identity.Storage
use p2pfileshare.Identity.Storage.{UserIdentity, Machine, IdentityFile}
use p2pfileshare.Coordinator.Attempt.{outcome_of}
use p2pfileshare.Coordinator.Contact.{ContactNet, connect_to_contact}
use p2pfileshare.Api.Registry.{Registry}
use p2pfileshare.Api.Sessions.{Host, Answer, answer, ok_or, get_dht, stored}

pub record ApiIdentity : Type 0 where
  pub display_name : String
  pub fingerprint : String
  pub public_key : String
  pub created_at : ℕ

pub record ApiContact : Type 0 where
  pub id : String
  pub display_name : String
  pub fingerprint : String
  pub public_key : String
  pub is_online : Bool
  pub last_known_addr : Option String
  pub last_seen : Option ℕ

unfoldable pub identity_to_api : UserIdentity → ApiIdentity
identity_to_api i = record {
  display_name = i.display_name;
  fingerprint = i.fingerprint;
  public_key = i.public_key;
  created_at = i.created_at;
}

unfoldable pub api_get_identity : Result (Option UserIdentity) → Option ApiIdentity
unfolding identity_to_api
api_get_identity (ok (some i)) = some (identity_to_api i)
api_get_identity (ok none) = none
api_get_identity (err e) = none

unfoldable pub api_reset_identity :
    (Error → String) → Machine → String → IdentityFile → Res String (ApiIdentity × IdentityFile)
unfolding identity_to_api Storage.reset Storage.save
api_reset_identity to_string m display_name file = do
  made ← map_err to_string (Storage.reset m file)
  let id = record (made.0) { display_name = display_name }
  file' ← map_err to_string (Storage.save m id made.1)
  ok (identity_to_api id, file')

unfoldable pub set_name :
    (Error → String)
    → Machine
    → String
    → IdentityFile
    → Option UserIdentity
    → Res String IdentityFile
unfolding Storage.save
set_name to_string m name file none = err "no identity found"
set_name to_string m name file (some id) =
    map_err to_string (Storage.save m (record id { display_name = name }) file)

unfoldable pub api_set_display_name :
    (Error → String) → Machine → String → IdentityFile → Res String IdentityFile
unfolding Storage.load set_name
api_set_display_name to_string m name file = do
  found ← map_err to_string (Storage.load m file)
  set_name to_string m name file found

unfoldable pub contact_to_api : Contact → ApiContact
contact_to_api c = record {
  id = c.id;
  display_name = c.display_name;
  fingerprint = c.fingerprint;
  public_key = c.public_key;
  is_online = false;
  last_known_addr = c.last_known_addr;
  last_seen = c.last_seen;
}

-- What the store of the contacts is given: how a UUID is read, one that replaces a text that is none,
-- and the order of the list.
pub record Rows : Type 0 where
  pub parse_uuid : String → Res String String
  pub other_id : String
  pub order : Table → Table

unfoldable pub api_list_contacts : Rows → Result Table → List ApiContact
unfolding contact_to_api Store.list
api_list_contacts w (err e) = []
api_list_contacts w (ok table) =
    map contact_to_api (Store.list w.parse_uuid w.other_id w.order table)

unfoldable pub is_some {ℓ} : {A : Type ℓ} → Option A → Bool
is_some none = false
is_some (some a) = true

-- The new id and the time are given.
unfoldable pub api_add_contact :
    (Error → String) → Rows → String → ℕ → String → String → Table → Res String (ApiContact × Table)
unfolding is_some find_by_fingerprint new_contact contact_to_api Store.add
api_add_contact to_string w id now fingerprint display_name table = do
  _ ←
      fail_if (is_some (find_by_fingerprint w.parse_uuid w.other_id fingerprint table))
        ("contact " <> (fingerprint <> " already exists"))
  let contact = new_contact id now display_name "" fingerprint
  table' ← map_err to_string (Store.add contact table)
  ok (contact_to_api contact, table')

unfoldable pub api_remove_contact : (Error → String) → Rows → String → Table → Res String Table
unfolding ok_or Store.remove
api_remove_contact to_string w id table = do
  uuid ← w.parse_uuid id
  map_err to_string (Store.remove uuid table)

-- `Iterator::find` by the id
unfoldable pub find_contact : String → List Contact → Option Contact
find_contact id [] = none
find_contact id (c ∷ contacts) = if str_eq c.id id then some c else find_contact id contacts

-- Who is to be connected, or the first thing that is missing.
unfoldable pub contact_to_call :
    {S : Type 0} → Host S → Rows → String → Result Table → Res String (UserIdentity × Contact)
unfolding ok_or get_dht find_contact Store.list
contact_to_call h w contact_id store = do
  found ← map_err h.to_string h.identity
  identity ← ok_or "no identity" found
  table ← map_err h.to_string store
  uuid ← w.parse_uuid contact_id
  contact ←
      ok_or "contact not found"
        (find_contact uuid (Store.list w.parse_uuid w.other_id w.order table))
  _ ← get_dht h true
  ok (identity, contact)

unfoldable pub api_connect_to_contact :
    {S : Type 0}
    → Host S
    → Rows
    → ContactNet
    → String
    → Result Table
    → Registry
    → Registry × Answer (ℕ × String)
unfolding contact_to_call stored
api_connect_to_contact h w n contact_id store r = elim (contact_to_call h w contact_id store) [
  | err why ↦ (r, answer (err why))
  | ok (identity, contact) ↦
      stored h (outcome_of (connect_to_contact (h.crates identity) contact n)) r
]
