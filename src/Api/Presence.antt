-- ===== src/Api/Presence.antt =====
-- `api_check_presence`. The addresses are shown by `Display`.
use p2pfileshare.Base.{String, Bool, true, false, List, [], map, Option, none, some, Res, ok, err}
use p2pfileshare.Base.Bytes.{Bytes}
use p2pfileshare.Errors.{Result}
use p2pfileshare.Contacts.{Contact}
use p2pfileshare.Contacts.Store
use p2pfileshare.Contacts.Store.{Table}
use p2pfileshare.Discovery.Presence.{PresenceStatus, online, offline, status_at, check_presence}
use p2pfileshare.Stun.{SocketAddr}
use p2pfileshare.Api.People.{ApiContact, contact_to_api, Rows}

unfoldable pub online_now : Option PresenceStatus → Bool
online_now (some (online addr)) = true
online_now (some offline) = false
online_now none = false

unfoldable pub last_addr :
    (SocketAddr → String) → Option PresenceStatus → Option String → Option String
last_addr show_addr (some (online addr)) last_known = some (show_addr addr)
last_addr show_addr (some offline) last_known = last_known
last_addr show_addr none last_known = last_known

unfoldable pub with_status : (SocketAddr → String) → Option PresenceStatus → Contact → ApiContact
unfolding online_now last_addr
with_status show_addr status c = record {
  id = c.id;
  display_name = c.display_name;
  fingerprint = c.fingerprint;
  public_key = c.public_key;
  is_online = online_now status;
  last_known_addr = last_addr show_addr status c.last_known_addr;
  last_seen = c.last_seen;
}

-- Without the DHT the contacts are shown as they are stored.
unfoldable pub shown_with :
    (SocketAddr → String)
    → Result (Bytes → List SocketAddr)
    → (String → Res String Bytes)
    → (Bytes → Bytes)
    → List Contact
    → List ApiContact
unfolding with_status contact_to_api check_presence status_at
shown_with show_addr dht hex_decode sha1 contacts = elim dht [
  | err e ↦ map contact_to_api contacts
  | ok lookup ↦
      let statuses = check_presence hex_decode sha1 lookup contacts [] in
      map (λ c. with_status show_addr (status_at c.id statuses) c) contacts
]

unfoldable pub api_check_presence :
    (SocketAddr → String)
    → Rows
    → Result (Bytes → List SocketAddr)
    → (String → Res String Bytes)
    → (Bytes → Bytes)
    → Result Table
    → List ApiContact
unfolding shown_with Store.list
api_check_presence show_addr w dht hex_decode sha1 (err e) = []
api_check_presence show_addr w dht hex_decode sha1 (ok table) =
    shown_with show_addr dht hex_decode sha1 (Store.list w.parse_uuid w.other_id w.order table)
