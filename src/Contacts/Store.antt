-- ===== src/Contacts/Store.antt =====
-- p2pshare-core/src/contacts/store.rs: the statements of SQL on the table of the contacts, as a list
-- of its rows. Opening the file and the order of the sorted list are parameters.
use text.Mathlib.Text.{◌==◌ as str_eq}
use p2pfileshare.Base.{
  ℕ, ◌%◌, ◌^◌, if◌then◌else◌, String, Bool, false, ◌||◌, List, [], ◌∷◌, ◌++◌, map, Option, none,
  some, Res, ok, err,
}
use p2pfileshare.Errors.{Result, database, contact_not_found}
use p2pfileshare.Contacts.{Contact}

-- The columns; the integers are 64 bits wide with a sign, kept here as their bits.
pub record Row : Type 0 where
  pub id : String
  pub display_name : String
  pub public_key : String
  pub fingerprint : String
  pub last_known_addr : Option String
  pub added_at : ℕ
  pub last_seen : Option ℕ

abbrev pub Table : Type 0
Table = List Row

-- `as i64`, as bits
abbrev pub bits : ℕ → ℕ
bits n = n % 2 ^ 64

unfoldable pub some_bits : Option ℕ → Option ℕ
some_bits none = none
some_bits (some n) = some (bits n)

unfoldable pub row_of : Contact → Row
unfolding some_bits
row_of c = record {
  id = c.id;
  display_name = c.display_name;
  public_key = c.public_key;
  fingerprint = c.fingerprint;
  last_known_addr = c.last_known_addr;
  added_at = bits c.added_at;
  last_seen = some_bits c.last_seen;
}

-- `Uuid::parse_str`, and the id that replaces a text that is none.
unfoldable pub contact_of : (String → Res String String) → String → Row → Contact
contact_of parse_uuid other_id r = record {
  id = elim (parse_uuid r.id) [ ok id ↦ id | err e ↦ other_id ];
  display_name = r.display_name;
  public_key = r.public_key;
  fingerprint = r.fingerprint;
  last_known_addr = r.last_known_addr;
  added_at = r.added_at;
  last_seen = r.last_seen;
}

unfoldable pub has_id : Table → String → Bool
has_id [] id = false
has_id (r ∷ table) id = str_eq r.id id || has_id table id

-- `INSERT`: the primary key is unique.
unfoldable pub add : Contact → Table → Result Table
unfolding has_id row_of
add contact table =
    if has_id table contact.id
    then err (database "UNIQUE constraint failed: contacts.id")
    else ok (table ++ (row_of contact ∷ []))

-- `SELECT … ORDER BY display_name`
unfoldable pub list : (String → Res String String) → String → (Table → Table) → Table → List Contact
unfolding contact_of
list parse_uuid other_id order_by_display_name table =
    map (contact_of parse_uuid other_id) (order_by_display_name table)

-- `SELECT … WHERE fingerprint = ?1`, its first row.
unfoldable pub find_by_fingerprint :
    (String → Res String String) → String → String → Table → Option Contact
unfolding contact_of
find_by_fingerprint parse_uuid other_id fingerprint [] = none
find_by_fingerprint parse_uuid other_id fingerprint (r ∷ table) =
    if str_eq r.fingerprint fingerprint
    then some (contact_of parse_uuid other_id r)
    else find_by_fingerprint parse_uuid other_id fingerprint table

-- `UPDATE … WHERE id = ?3`
unfoldable pub update_last_seen : ℕ → String → Option String → Table → Table
update_last_seen now id addr [] = []
update_last_seen now id addr (r ∷ table) =
    let rest = update_last_seen now id addr table in
    (if str_eq r.id id then record r { last_seen = some (bits now); last_known_addr = addr } else r)
    ∷ rest

-- `DELETE … WHERE id = ?1`
unfoldable pub delete : String → Table → Table
delete id [] = []
delete id (r ∷ table) = let rest = delete id table in if str_eq r.id id then rest else r ∷ rest

-- No row has changed exactly if none has the id.
unfoldable pub remove : String → Table → Result Table
unfolding has_id delete
remove id table = if has_id table id then ok (delete id table) else err (contact_not_found id)
