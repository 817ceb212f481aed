-- ===== src/Cli/Contacts/Distinct.antt =====
-- One row for each fingerprint, whichever of the command line and the app changes the table.
use text.Mathlib.Text.{◌==◌ as str_eq}
use text.Mathlib.TextEquality.{eq_iff}
use p2pfileshare.Base.{
  ℕ, ◌+◌, ◌≤◌, ◌≡◌, refl, subst, if◌then◌else◌, arith, String, List, [], ◌∷◌, ◌++◌, Option, none,
  some, ok, err, Bool-cases, Res-cases, Option-cases, inl, inr, fail_if, Post, Post->>=, Post-self,
  Post-map_err, Post-eq-ok, returns, fails,
}
use p2pfileshare.Errors.{Error}
use p2pfileshare.Contacts.{Contact, new_contact}
use p2pfileshare.Contacts.Store
use p2pfileshare.Contacts.Store.{
  Row, Table, find_by_fingerprint, contact_of, row_of, has_id, delete,
}
use p2pfileshare.Api.People.{Rows, is_some, api_add_contact, api_remove_contact}
use p2pfileshare.Cli.Printed.{Printed, printed, gives, stops, exits, hangs, crashes, ◌>>=◌}
use p2pfileshare.Cli.Contacts.{ContactsCommand, list, add, remove, add_new, remove_found, contacts}

-- How many rows have the fingerprint.
unfoldable pub rows_of : String → Table → ℕ
rows_of fp [] = 0
rows_of fp (r ∷ table) = (if str_eq r.fingerprint fp then 1 else 0) + rows_of fp table

-- A change of the table by a command, or by a call of the app.
pub data Change : Type 0 where
  command : ContactsCommand → Change
  app_add : (fingerprint display_name : String) → Change
  app_remove : (id : String) → Change

-- What fails leaves the table as it was.
unfoldable kept_or : Table → Printed Table → Table
kept_or table (printed lines (gives table')) = table'
kept_or table (printed lines (stops e)) = table
kept_or table (printed lines exits) = table
kept_or table (printed lines hangs) = table
kept_or table (printed lines crashes) = table

abbrev IsDistinct : Table → Type 0
IsDistinct table = (fp : String) → rows_of fp table ≤ 1

rows_of-append :
    (fp : String) (table : Table) (r : Row)
    → rows_of fp (table ++ (r ∷ [])) ≡ rows_of fp table + rows_of fp (r ∷ [])
unfolding rows_of
rows_of-append fp [] r = omega arith
rows_of-append fp (q ∷ table) r = omega (arith, rows_of-append fp table r)

rows_of-delete : (fp id : String) (table : Table) → rows_of fp (delete id table) ≤ rows_of fp table
unfolding rows_of delete
rows_of-delete fp id [] = omega arith
rows_of-delete fp id (r ∷ table) = ground (arith, rows_of-delete fp id table)

module _ (w : Rows) where
  rows_of-unfound :
      (fp : String) (table : Table)
      → find_by_fingerprint w.parse_uuid w.other_id fp table ≡ none
      → rows_of fp table ≡ 0
  unfolding rows_of find_by_fingerprint
  rows_of-unfound fp [] e = refl
  rows_of-unfound fp (r ∷ table) e = elim (Bool-cases (str_eq r.fingerprint fp)) [
    | inl hit ↦ absurd (ground (arith, e, hit))
    | inr miss ↦ ground (arith, miss, rows_of-unfound fp table (ground (arith, e, miss)))
  ]

  store_add-IsDistinct :
      (c : Contact) (table : Table)
      → find_by_fingerprint w.parse_uuid w.other_id c.fingerprint table ≡ none
      → IsDistinct table
      → Post IsDistinct (Store.add c table)
  unfolding Store.add row_of rows_of
  store_add-IsDistinct c table none_found d = elim (Bool-cases (has_id table c.id)) [
    | inl e ↦ rw e fails
    | inr e ↦ rw e (
        returns λ fp. elim (Bool-cases (str_eq c.fingerprint fp)) [
          | inl same ↦
              let free : rows_of fp table ≡ 0 =
                subst (λ f. rows_of f table ≡ 0) ((eq_iff c.fingerprint fp).0 same)
                  (rows_of-unfound c.fingerprint table none_found) in
              ground (arith, free, same, rows_of-append fp table (row_of c))
          | inr other ↦ ground (arith, d fp, other, rows_of-append fp table (row_of c))
        ])
  ]

  store_remove-IsDistinct :
      (id : String) (table : Table) → IsDistinct table → Post IsDistinct (Store.remove id table)
  unfolding Store.remove
  store_remove-IsDistinct id table d = elim (Bool-cases (has_id table id)) [
    | inl e ↦ rw e (returns λ fp. omega (arith, rows_of-delete fp id table, d fp))
    | inr e ↦ rw e fails
  ]

  add_new-IsDistinct :
      (id : String) (now : ℕ) (fp name : String) (table : Table) (found : Option Contact)
      → find_by_fingerprint w.parse_uuid w.other_id fp table ≡ found
      → IsDistinct table
      → IsDistinct (kept_or table (add_new id now fp name table found))
  unfolding add_new kept_or ◌>>=◌ new_contact
  add_new-IsDistinct id now fp name table (some c) e d = d
  add_new-IsDistinct id now fp name table none e d =
      elim (Res-cases (Store.add (new_contact id now name "" fp) table)) [
        | inl (table', out) ↦
            rw out (Post-eq-ok (store_add-IsDistinct (new_contact id now name "" fp) table e d) out)
        | inr (_, out) ↦ rw out d
      ]

  remove_found-IsDistinct :
      (fp : String) (table : Table) (found : Option Contact)
      → IsDistinct table
      → IsDistinct (kept_or table (remove_found fp table found))
  unfolding remove_found kept_or ◌>>=◌
  remove_found-IsDistinct fp table none d = d
  remove_found-IsDistinct fp table (some c) d = elim (Res-cases (Store.remove c.id table)) [
    | inl (table', out) ↦ rw out (Post-eq-ok (store_remove-IsDistinct c.id table d) out)
    | inr (_, out) ↦ rw out d
  ]

  contacts-IsDistinct :
      (to_uppercase : String → String) (id : String) (now : ℕ) (c : ContactsCommand) (table : Table)
      → IsDistinct table
      → IsDistinct (kept_or table (contacts to_uppercase w id now c table))
  unfolding contacts kept_or ◌>>=◌
  contacts-IsDistinct to_uppercase id now list table d = d
  contacts-IsDistinct to_uppercase id now (add fp name) table d =
      add_new-IsDistinct id now (to_uppercase fp) name table _ refl d
  contacts-IsDistinct to_uppercase id now (remove fp) table d =
      remove_found-IsDistinct (to_uppercase fp) table _ d

  api_add_contact-IsDistinct :
      (to_string : Error → String) (id : String) (now : ℕ) (fp name : String) (table : Table)
      → IsDistinct table
      → Post (λ r. IsDistinct r.1) (api_add_contact to_string w id now fp name table)
  unfolding api_add_contact new_contact fail_if
  api_add_contact-IsDistinct to_string id now fp name table d =
      elim (Option-cases (find_by_fingerprint w.parse_uuid w.other_id fp table)) [
        | inr (_, hit) ↦ rw (hit, is_some) fails
        | inl miss ↦
            rw (miss, is_some)
              (Post->>= _
                (Post-map_err to_string
                  (store_add-IsDistinct (new_contact id now name "" fp) table miss d))
                λ table' h. returns h)
      ]

  api_remove_contact-IsDistinct :
      (to_string : Error → String) (id : String) (table : Table)
      → IsDistinct table
      → Post IsDistinct (api_remove_contact to_string w id table)
  unfolding api_remove_contact
  api_remove_contact-IsDistinct to_string id table d =
      Post->>= _ (Post-self (w.parse_uuid id))
        λ uuid _. Post-map_err to_string (store_remove-IsDistinct uuid table d)

  -- The new id and the time of a change are given with it.
  unfoldable change : (Error → String) → (String → String) → String → ℕ → Change → Table → Table
  unfolding kept_or contacts api_add_contact api_remove_contact
  change to_string to_uppercase id now (command c) table =
      kept_or table (contacts to_uppercase w id now c table)
  change to_string to_uppercase id now (app_add fp name) table =
      elim (api_add_contact to_string w id now fp name table) [
        | ok (shown, table') ↦ table'
        | err e ↦ table
      ]
  change to_string to_uppercase id now (app_remove i) table =
      elim (api_remove_contact to_string w i table) [ ok table' ↦ table' | err e ↦ table ]

  unfoldable pub changes :
      (Error → String) → (String → String) → List (String × ℕ × Change) → Table → Table
  unfolding change
  changes to_string to_uppercase [] table = table
  changes to_string to_uppercase ((id, now, c) ∷ cs) table =
      changes to_string to_uppercase cs (change to_string to_uppercase id now c table)

  change-IsDistinct :
      (to_string : Error → String) (to_uppercase : String → String) (id : String) (now : ℕ)
      (c : Change) (table : Table)
      → IsDistinct table
      → IsDistinct (change to_string to_uppercase id now c table)
  unfolding change
  change-IsDistinct to_string to_uppercase id now (command c) table d =
      contacts-IsDistinct to_uppercase id now c table d
  change-IsDistinct to_string to_uppercase id now (app_add fp name) table d =
      elim (Res-cases (api_add_contact to_string w id now fp name table)) [
        | inl (r, e) ↦
            rw (e, change)
              (Post-eq-ok (api_add_contact-IsDistinct to_string id now fp name table d) e)
        | inr (_, e) ↦ rw (e, change) d
      ]
  change-IsDistinct to_string to_uppercase id now (app_remove i) table d =
      elim (Res-cases (api_remove_contact to_string w i table)) [
        | inl (r, e) ↦
            rw (e, change) (Post-eq-ok (api_remove_contact-IsDistinct to_string i table d) e)
        | inr (_, e) ↦ rw (e, change) d
      ]

  -- Whatever the command line and the app do to the table of the contacts, in any order, those that
  -- fail included: if no fingerprint stood in more than one row before, none does afterwards.
  pub changes-IsDistinct :
      (to_string : Error → String) (to_uppercase : String → String)
      (cs : List (String × ℕ × Change)) (table : Table)
      → ((fp : String) → rows_of fp table ≤ 1)
      → (fp : String) → rows_of fp (changes to_string to_uppercase cs table) ≤ 1
  unfolding changes
  changes-IsDistinct to_string to_uppercase [] table d = d
  changes-IsDistinct to_string to_uppercase ((id, now, c) ∷ cs) table d =
      changes-IsDistinct to_string to_uppercase cs (change to_string to_uppercase id now c table)
        (change-IsDistinct to_string to_uppercase id now c table d)
