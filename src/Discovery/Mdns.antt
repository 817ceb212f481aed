-- ===== src/Discovery/Mdns.antt =====
-- p2pshare-core/src/discovery/mdns.rs: the loop over the events of `mdns_sd`. The text of a property
-- is read by the library.
use p2pfileshare.Base.{
  ℕ, if◌then◌else◌, Bool, not, ◌&&◌, List, [], ◌∷◌, Option, none, some, ok, err,
}
use p2pfileshare.Errors.{Result, connection_failed}
use p2pfileshare.Resume.{same_id}
use p2pfileshare.Stun.{SocketAddr}
use p2pfileshare.Discovery.Packets.{Chars, Unicode}

pub record Address : Type 0 where
  pub ip : ℕ
  pub is_ipv4 : Bool
  pub is_loopback : Bool

-- What is resolved: the property `code`, the addresses and the port.
pub record ServiceInfo : Type 0 where
  pub code : Option Chars
  pub addresses : List Address
  pub port : ℕ

pub data ServiceEvent : Type 0 where
  resolved : ServiceInfo → ServiceEvent
  other : ServiceEvent
  channel_closed : ServiceEvent

unfoldable pub code_or_empty : Option Chars → Chars
code_or_empty none = []
code_or_empty (some code) = code

unfoldable pub first_ipv4 : List Address → Option ℕ
first_ipv4 [] = none
first_ipv4 (a ∷ addresses) =
    if a.is_ipv4 && not a.is_loopback then some a.ip else first_ipv4 addresses

unfoldable pub first_of : List Address → Option ℕ
first_of [] = none
first_of (a ∷ addresses) = some a.ip

-- An IPv4 address that is not the loopback is preferred.
unfoldable pub choose_ip : List Address → Result ℕ
unfolding first_ipv4 first_of
choose_ip addresses = elim (first_ipv4 addresses) [
  | some ip ↦ ok ip
  | none ↦ elim (first_of addresses) [
    | some ip ↦ ok ip
    | none ↦ err (connection_failed "mDNS: resolved service has no addresses")
  ]
]

unfoldable pub addr_of : ServiceInfo → Result SocketAddr
unfolding choose_ip
addr_of info = elim (choose_ip info.addresses) [
  | ok ip ↦ ok (record { ip = ip; port = info.port })
  | err e ↦ err e
]

-- `none` means that it is still browsing after the last event.
unfoldable pub browse_events : Unicode → Chars → List ServiceEvent → Option (Result SocketAddr)
unfolding code_or_empty addr_of
browse_events u code_upper [] = none
browse_events u code_upper (channel_closed ∷ events) =
    some (err (connection_failed "mDNS browse channel closed"))
browse_events u code_upper (other ∷ events) = browse_events u code_upper events
browse_events u code_upper (resolved info ∷ events) =
    let rest = browse_events u code_upper events in
    if not (same_id (u.to_uppercase (code_or_empty info.code)) code_upper)
    then rest
    else some (addr_of info)

unfoldable pub browse_for_code : Unicode → Chars → List ServiceEvent → Option (Result SocketAddr)
unfolding browse_events
browse_for_code u code events = browse_events u (u.to_uppercase code) events
