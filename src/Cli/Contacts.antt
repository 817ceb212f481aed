-- ===== src/Cli/Contacts.antt =====
-- The commands `contacts list`, `add` and `remove`, on the table of a store that was opened. Reading
-- it does not fail.
pub mod Distinct
use p2pfileshare.Base.{ℕ, String, ◌<>◌, List, [], ◌∷◌, Option, none, some}
use p2pfileshare.Contacts.{Contact, new_contact}
use p2pfileshare.Contacts.Store
use p2pfileshare.Contacts.Store.{Table, find_by_fingerprint}
use p2pfileshare.Api.People.{Rows}
use p2pfileshare.Cli.Printed.{Line, stdout, columns, Printed, ◌>>=◌, give, say, try}
use p2pfileshare.Cli.Commands.{fmt_age}

pub data ContactsCommand : Type 0 where
  list : ContactsCommand
  add : (fingerprint name : String) → ContactsCommand
  remove : (fingerprint : String) → ContactsCommand

unfoldable pub seen : ℕ → Option ℕ → String
unfolding fmt_age
seen now none = "never"
seen now (some t) = fmt_age now t

unfoldable pub contact_lines : ℕ → List Contact → List Line
unfolding seen
contact_lines now [] = []
contact_lines now (c ∷ cs) =
    columns c.display_name c.fingerprint (seen now c.last_seen) ∷ contact_lines now cs

unfoldable pub list_lines : ℕ → List Contact → List Line
unfolding contact_lines
list_lines now [] = stdout "No contacts yet." ∷ []
list_lines now (c ∷ cs) =
    columns "Name" "Fingerprint" "Last seen"
    ∷ stdout "----------------------------------------------------------------------"
    ∷ contact_lines now (c ∷ cs)

unfoldable pub add_new : String → ℕ → String → String → Table → Option Contact → Printed Table
unfolding new_contact Store.add
add_new id now fingerprint name table (some c) = do
  _ ← say (stdout ("Contact " <> (fingerprint <> " already exists.")) ∷ [])
  give table
add_new id now fingerprint name table none = do
  table' ← try (Store.add (new_contact id now name "" fingerprint) table)
  _ ← say (
      stdout ("Added '" <> (name <> ("' (" <> (fingerprint <> ")."))))
      ∷ stdout "Public key verified on first connection."
      ∷ [])
  give table'

unfoldable pub remove_found : String → Table → Option Contact → Printed Table
unfolding Store.remove
remove_found fingerprint table (some c) = do
  table' ← try (Store.remove c.id table)
  _ ← say (stdout ("Removed '" <> (c.display_name <> "'.")) ∷ [])
  give table'
remove_found fingerprint table none = do
  _ ← say (stdout ("No contact with fingerprint " <> (fingerprint <> ".")) ∷ [])
  give table

-- `id` is the random id of a new contact.
unfoldable pub contacts :
    (String → String) → Rows → String → ℕ → ContactsCommand → Table → Printed Table
unfolding list_lines Store.list find_by_fingerprint add_new remove_found
contacts to_uppercase w id now list table = do
  _ ← say (list_lines now (Store.list w.parse_uuid w.other_id w.order table))
  give table
contacts to_uppercase w id now (add fingerprint name) table =
    let fingerprint = to_uppercase fingerprint in
    add_new id now fingerprint name table
      (find_by_fingerprint w.parse_uuid w.other_id fingerprint table)
contacts to_uppercase w id now (remove fingerprint) table =
    let fingerprint = to_uppercase fingerprint in
    remove_found fingerprint table (find_by_fingerprint w.parse_uuid w.other_id fingerprint table)
