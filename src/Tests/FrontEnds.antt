-- ===== src/Tests/FrontEnds.antt =====
-- The calls of the app and the commands of the command line in a small network.
use text.Mathlib.Text.{◌==◌ as str_eq}
use p2pfileshare.Base.{
  ℕ, ◌≤◌, ◌&&◌, fail_if, ◌==◌, ◌≡◌, ◌↔◌, refl, if◌then◌else◌, String, Bool, true, false, List, [],
  ◌∷◌, none, some, ok, err, arith,
}
use p2pfileshare.Base.Bytes.{Bytes}
use p2pfileshare.Errors.{Result}
use p2pfileshare.Contacts.{new_contact}
use p2pfileshare.Contacts.Store.{Row}
use p2pfileshare.Identity.Storage.{UserIdentity, Machine}
use p2pfileshare.Session.Either.{Session}
use p2pfileshare.Api.Registry.{start, store_session}
use p2pfileshare.Api.Handles.{
  Call, stores, store, drive, close, drives, calls_on, call, drives_once, drive-store,
}
use p2pfileshare.Api.Sessions.{Host, answer}
use p2pfileshare.Api.People.{Rows, contact_to_api, api_add_contact, api_connect_to_contact}
use p2pfileshare.Api.People.Unkeyed.{Grown, grown_empty, grown_add, added_contacts_refused}
use p2pfileshare.Cli.Printed.{gives, code}
use p2pfileshare.Cli.Commands.{announced, send}
use p2pfileshare.Cli.Contacts.{add, remove}
use p2pfileshare.Cli.Contacts.Distinct.{
  Change, command, app_add, rows_of, changes, changes-IsDistinct,
}
use p2pfileshare.Cli.Sent.{exit_of, ending, send-code}
use p2pfileshare.Tests.Network.{friend_session, key, crates, sender, schedule, friend_net, saved}

abbrev calls : List Call
calls = store friend_session ∷ drive 1 ∷ drive 1 ∷ close 1 ∷ []

drives_once_example : drives 1 calls start ≤ 1
drives_once_example = drives_once 1 calls (unfold stores in omega arith)

drive-store_example :
    (call
      (drive (store_session friend_session start).1)
      (calls_on (store friend_session ∷ close 2 ∷ []) (store_session friend_session start).0)).1
    ≡ ((store_session friend_session start).1, friend_session) ∷ []
drive-store_example =
    drive-store friend_session (store friend_session ∷ close 2 ∷ []) start
      (λ e. unfold store_session start in omega (arith, e), tt) (unfold start stores in omega arith)

is_saved : UserIdentity → Bool
is_saved i =
    str_eq i.public_key "07"
    && str_eq i.private_key "07"
    && str_eq i.display_name "Unnamed"
    && str_eq i.fingerprint "ABOUT-1799-ABOUT-1799"
    && i.created_at == 100

abbrev machine : Machine
unfolding is_saved
machine = record {
  to_string_pretty = λ i. if is_saved i then ok "{}" else err "unsupported";
  from_str = λ s. ok saved;
  read = ok tt;
  dir_made = ok tt;
  written = ok tt;
  removed = ok tt;
  hex_encode = λ b. "07";
  words = λ n. "ABOUT";
  public = key;
  secret = key;
  now = 100;
}

abbrev host : Host ℕ
host = record {
  identity = ok (some saved);
  dht = ok tt;
  crates = λ i. crates;
  to_string = λ e. "error";
}

abbrev rows : Rows
rows = record { parse_uuid = λ s. ok s; other_id = "other"; order = λ t. t }

abbrev ann : Row
ann = record {
  id = "id";
  display_name = "Ann";
  public_key = "";
  fingerprint = "ABOUT-0001-ABOUT-0001";
  last_known_addr = none;
  added_at = 100;
  last_seen = none;
}

added :
    api_add_contact host.to_string rows "id" 100 "ABOUT-0001-ABOUT-0001" "Ann" []
    ≡ ok (contact_to_api (new_contact "id" 100 "Ann" "" "ABOUT-0001-ABOUT-0001"), ann ∷ [])
unfolding api_add_contact fail_if host contact_to_api new_contact
added = refl

ann-Grown : Grown host.to_string rows (ann ∷ [])
unfolding host
ann-Grown = grown_add "id" 100 "ABOUT-0001-ABOUT-0001" "Ann" grown_empty added

added_contacts_refused_example :
    (why : String) × (api_connect_to_contact host rows friend_net "id" (ok (ann ∷ [])) start
      ≡ (start, answer (err why)))
added_contacts_refused_example =
    added_contacts_refused host rows friend_net "id" start (λ i. refl) (λ t r m. m) ann-Grown

-- The same fingerprint twice, once on the command line and once in the app, and a removal that fails.
abbrev front_ends : List (String × ℕ × Change)
front_ends =
    ("1", 100, command (add "A" "Ann"))
    ∷ ("2", 101, app_add "A" "Anna")
    ∷ ("3", 102, command (remove "B"))
    ∷ []

changes-IsDistinct_example :
    rows_of "A" (changes rows host.to_string crates.to_uppercase front_ends []) ≤ 1
unfolding rows_of
changes-IsDistinct_example =
    changes-IsDistinct rows host.to_string crates.to_uppercase front_ends [] (λ fp. omega arith) "A"

abbrev words : Bytes → String
words _ = "hex"

abbrev sent : Session → Result (Unit {0})
sent s = ok tt

send-code_example :
    (exit_of host.to_string (send host crates words sender 0 0 schedule sent "f" true false)
      ≡ code 0)
    ↔ ((true ≡ true)
        × ((id : UserIdentity) × (host.identity ≡ ok (some id))
            × ((made : String × Session) × (ending
                    (announced host crates words sender 0 0 schedule false (host.crates id))
                  ≡ gives made)
                × (sent made.1 ≡ ok tt))))
send-code_example = send-code host crates words sender 0 0 schedule sent "f" true false
