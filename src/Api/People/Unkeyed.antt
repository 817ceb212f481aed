-- ===== src/Api/People/Unkeyed.antt =====
-- The keys of the contacts.
use text.Mathlib.Text.{◌==◌ as str_eq}
use p2pfileshare.Base.{
  ℕ, ◌≡◌, refl, subst, String, true, [], ◌∷◌, ◌++◌, map, ok, err, Bool-cases, Res-cases, inl, inr,
  returns, fails, Post, Post->>=, Post-self, Post-eq-ok, Post-map_err, map_err, fail_if,
}
use p2pfileshare.Errors.{Error, connection_failed}
use p2pfileshare.Contacts.{Contact, new_contact}
use p2pfileshare.Contacts.Store
use p2pfileshare.Contacts.Store.{
  Row, Table, find_by_fingerprint, contact_of, row_of, delete, has_id, update_last_seen,
}
use p2pfileshare.Coordinator.Attempt.{returned, ◌>>=◌, outcome_of}
use p2pfileshare.Coordinator.Network.{Crates}
use p2pfileshare.Coordinator.Contact.{ContactNet, key_of_hex, connect_to_contact}
use p2pfileshare.Identity.Storage.{UserIdentity}
use p2pfileshare.Api.Registry.{Registry}
use p2pfileshare.Api.Sessions.{Host, answer, ok_or, get_dht, stored}
use p2pfileshare.Api.People.{
  Rows, ApiContact, is_some, api_add_contact, api_remove_contact, find_contact, contact_to_call,
  api_connect_to_contact,
}

-- Rows with no public key.
pub data Unkeyed : Table → Type 0 where
  no_rows : Unkeyed []
  no_key : {r : Row} {table : Table} → r.public_key ≡ "" → Unkeyed table → Unkeyed (r ∷ table)

-- The tables that the app's own calls lead to, from the empty one.
pub data Grown (to_string : Error → String) (w : Rows) : Table → Type 0 where
  grown_empty : Grown to_string w []
  grown_add :
      {table table' : Table} {shown : ApiContact} (id : String) (now : ℕ)
      (fingerprint display_name : String)
      → Grown to_string w table
      → api_add_contact to_string w id now fingerprint display_name table ≡ ok (shown, table')
      → Grown to_string w table'
  grown_remove :
      {table table' : Table} (id : String)
      → Grown to_string w table
      → api_remove_contact to_string w id table ≡ ok table'
      → Grown to_string w table'

append-Unkeyed :
    {table : Table} (r : Row) → Unkeyed table → r.public_key ≡ "" → Unkeyed (table ++ (r ∷ []))
append-Unkeyed r no_rows e = no_key e no_rows
append-Unkeyed r (no_key k u) e = no_key k (append-Unkeyed r u e)

delete-Unkeyed : (id : String) {table : Table} → Unkeyed table → Unkeyed (delete id table)
unfolding delete
delete-Unkeyed id no_rows = no_rows
delete-Unkeyed id (no_key {r} {table} k u) = elim (Bool-cases (str_eq r.id id)) [
  | inl e ↦ rw e (delete-Unkeyed id u)
  | inr e ↦ rw e (no_key k (delete-Unkeyed id u))
]

store_add-Unkeyed :
    (c : Contact) {table : Table}
    → c.public_key ≡ ""
    → Unkeyed table
    → Post Unkeyed (Store.add c table)
unfolding Store.add row_of
store_add-Unkeyed c {table} k u = elim (Bool-cases (has_id table c.id)) [
  | inl e ↦ rw e fails
  | inr e ↦ rw e (returns (append-Unkeyed _ u k))
]

store_remove-Unkeyed :
    (id : String) {table : Table} → Unkeyed table → Post Unkeyed (Store.remove id table)
unfolding Store.remove
store_remove-Unkeyed id {table} u = elim (Bool-cases (has_id table id)) [
  | inl e ↦ rw e (returns (delete-Unkeyed id u))
  | inr e ↦ rw e fails
]

module _ (to_string : Error → String) (w : Rows) where
  add-Unkeyed :
      (id : String) (now : ℕ) (fingerprint display_name : String) (table : Table)
      → Unkeyed table
      → Post (λ r. Unkeyed r.1) (api_add_contact to_string w id now fingerprint display_name table)
  unfolding api_add_contact new_contact
  add-Unkeyed id now fingerprint display_name table u =
      Post->>= _
        (Post-self
          (fail_if (is_some (find_by_fingerprint w.parse_uuid w.other_id fingerprint table)) _))
        λ _ _.
          Post->>= _
            (Post-map_err to_string
              (store_add-Unkeyed (new_contact id now display_name "" fingerprint) refl u))
            λ table' h. returns h

  remove-Unkeyed :
      (id : String) (table : Table)
      → Unkeyed table
      → Post Unkeyed (api_remove_contact to_string w id table)
  unfolding api_remove_contact
  remove-Unkeyed id table u =
      Post->>= _ (Post-self (w.parse_uuid id))
        λ uuid _. Post-map_err to_string (store_remove-Unkeyed uuid u)

  Grown-Unkeyed : {table : Table} → Grown to_string w table → Unkeyed table
  Grown-Unkeyed grown_empty = no_rows
  Grown-Unkeyed (grown_add id now f d g e) =
      Post-eq-ok (add-Unkeyed id now f d _ (Grown-Unkeyed g)) e
  Grown-Unkeyed (grown_remove id g e) = Post-eq-ok (remove-Unkeyed id _ (Grown-Unkeyed g)) e

found-Unkeyed :
    (w : Rows) (id : String) {table : Table}
    → Unkeyed table
    → Post
        (λ c. c.public_key ≡ "")
        (ok_or "contact not found"
          (find_contact id (map (contact_of w.parse_uuid w.other_id) table)))
unfolding ok_or find_contact contact_of
found-Unkeyed w id no_rows = fails
found-Unkeyed w id (no_key {r} {table} k u) =
    elim (Bool-cases (str_eq (contact_of w.parse_uuid w.other_id r).id id)) [
      | inl e ↦ rw (e, ok_or) (returns k)
      | inr e ↦ rw (e, ok_or) (found-Unkeyed w id u)
    ]

wrong_length :
    {S : Type 0} (c : Crates S) (contact : Contact) (n : ContactNet)
    → c.hex_decode "" ≡ ok []
    → contact.public_key ≡ ""
    → outcome_of (connect_to_contact c contact n)
      ≡ returned (err (connection_failed "public key wrong length"))
unfolding connect_to_contact key_of_hex ◌>>=◌
wrong_length c contact n e k = rw (k, e, key_of_hex) refl

-- A row of a table.
pub data Among (r : Row) : Table → Type 0 where
  first : {q : Row} {table : Table} → q ≡ r → Among r (q ∷ table)
  later : {q : Row} {table : Table} → Among r table → Among r (q ∷ table)

-- What is documented of `ORDER BY`: it makes up no rows.
abbrev pub OnlyRows : Rows → Type 0
OnlyRows w = (table : Table) (r : Row) → Among r (w.order table) → Among r table

Among-Unkeyed : {r : Row} {table : Table} → Unkeyed table → Among r table → r.public_key ≡ ""
Among-Unkeyed no_rows m = elim m [ ]
Among-Unkeyed (no_key k u) (first e) = subst (λ (q : Row). q.public_key ≡ "") e k
Among-Unkeyed (no_key k u) (later m) = Among-Unkeyed u m

Unkeyed-of : (table : Table) → ((r : Row) → Among r table → r.public_key ≡ "") → Unkeyed table
Unkeyed-of [] h = no_rows
Unkeyed-of (r ∷ table) h = no_key (h r (first refl)) (Unkeyed-of table λ q m. h q (later m))

module _ {S : Type 0} (h : Host S) (w : Rows) where
  call-Unkeyed :
      (contact_id : String) (table : Table)
      → OnlyRows w
      → Unkeyed table
      → Post (λ x. x.1.public_key ≡ "") (contact_to_call h w contact_id (ok table))
  unfolding contact_to_call Store.list
  call-Unkeyed contact_id table only u =
      let ordered = Unkeyed-of (w.order table) λ r m. Among-Unkeyed u (only table r m) in
      Post->>= _ (Post-self (map_err h.to_string h.identity)) λ found _.
        Post->>= _ (Post-self (ok_or "no identity" found)) λ identity _.
          Post->>= _ (Post-self (w.parse_uuid contact_id)) λ uuid _.
            Post->>= _ (found-Unkeyed w uuid ordered)
              λ contact k. Post->>= _ (Post-self (get_dht h true)) λ _ _. returns k

  -- No contact that was added through the app can ever be connected to: a contact is added without
  -- its public key and nothing fills it in later, so that for every sequence of additions and removals
  -- the call ends with an error and stores no session, whatever the network is like.
  pub added_contacts_refused :
      (n : ContactNet) (contact_id : String) {table : Table} (r : Registry)
      → ((i : UserIdentity) → (h.crates i).hex_decode "" ≡ ok [])
      → OnlyRows w
      → Grown h.to_string w table
      → (why : String) × (api_connect_to_contact h w n contact_id (ok table) r
          ≡ (r, answer (err why)))
  unfolding api_connect_to_contact
  added_contacts_refused n contact_id {table} r empty only g =
      elim (Res-cases (contact_to_call h w contact_id (ok table))) [
        | inr (why, e) ↦ (why, rw (e, api_connect_to_contact) refl)
        | inl ((identity, contact), e) ↦
            let k =
              Post-eq-ok (call-Unkeyed contact_id table only (Grown-Unkeyed h.to_string w g)) e in
            let refused = wrong_length (h.crates identity) contact n (empty identity) k in
            (
              h.to_string (connection_failed "public key wrong length"),
              rw (e, api_connect_to_contact) (rw (refused, stored) refl),
            )
      ]
