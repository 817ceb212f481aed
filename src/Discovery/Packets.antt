-- ===== src/Discovery/Packets.antt =====
-- p2pshare-core/src/discovery/lan_broadcast.rs and lan_multicast.rs: the packets that announce a code
-- on the LAN, and the loop that listens for them. A text is the list of its characters; the tables of
-- Unicode are parameters.
pub mod Decimal
pub mod Announced
use p2pfileshare.Base.{
  ℕ, zero, suc, ◌+◌, ◌-◌, ◌*◌, ◌/◌, ◌%◌, leb, ltb, ◌==◌, if◌then◌else◌, String, ◌<>◌, Bool, true,
  false, not, ◌&&◌, ◌||◌, List, [], ◌∷◌, ◌++◌, drop, Option, none, some, Res, ok, err,
}
use p2pfileshare.Base.Bytes.{Bytes}
use p2pfileshare.Base.Sets.{is_empty}
use p2pfileshare.Errors.{Error, Result, connection_failed}
use p2pfileshare.Resume.{same_id}
use p2pfileshare.Stun.{SocketAddr}

abbrev pub Chars : Type 0
Chars = List ℕ

pub record Unicode : Type 0 where
  pub to_uppercase : Chars → Chars
  pub is_whitespace : ℕ → Bool
  pub from_utf8 : Bytes → Option Chars

-- "XEND1:"
abbrev pub prefix : Chars
prefix = 88 ∷ 69 ∷ 78 ∷ 68 ∷ 49 ∷ 58 ∷ []

abbrev pub separator : Chars
separator = 58 ∷ 32 ∷ []

-- `{}` of a number. Each round drops a digit, so the number itself is fuel enough.
unfoldable pub decimal_on : ℕ → ℕ → Chars
decimal_on zero n = (48 + n % 10) ∷ []
decimal_on (suc fuel) n =
    let rest = decimal_on fuel (n / 10) in
    if n / 10 == 0 then (48 + n % 10) ∷ [] else rest ++ ((48 + n % 10) ∷ [])

unfoldable pub decimal : ℕ → Chars
unfolding decimal_on
decimal n = decimal_on n n

-- `format!("{}{}: {}", PREFIX, code.to_uppercase(), quic_port)`
unfoldable pub announcement : Unicode → Chars → ℕ → Chars
unfolding decimal
announcement u code quic_port = prefix ++ (u.to_uppercase code ++ (separator ++ decimal quic_port))

-- What stands behind a text at the start of another.
unfoldable pub strip : Chars → Chars → Option Chars
strip [] text = some text
strip (c ∷ cs) [] = none
strip (c ∷ cs) (d ∷ text) = let rest = strip cs text in if c == d then rest else none

unfoldable pub has_start : Option Chars → Bool
has_start none = false
has_start (some rest) = true

-- `splitn(2, ": ")`
unfoldable pub split_once : Chars → Chars × Option Chars
unfolding strip has_start
split_once [] = ([], none)
split_once (c ∷ cs) =
    let (before, after) = split_once cs in
    if has_start (strip separator (c ∷ cs)) then ([], some (drop 1 cs)) else (c ∷ before, after)

unfoldable pub trim_start : Unicode → Chars → Chars
trim_start u [] = []
trim_start u (c ∷ cs) = let rest = trim_start u cs in if u.is_whitespace c then rest else c ∷ cs

unfoldable pub trim_end : Unicode → Chars → Chars
unfolding is_empty
trim_end u [] = []
trim_end u (c ∷ cs) =
    let rest = trim_end u cs in if is_empty rest && u.is_whitespace c then [] else c ∷ rest

unfoldable pub trim : Unicode → Chars → Chars
unfolding trim_start trim_end
trim u text = trim_end u (trim_start u text)

unfoldable pub is_digit : ℕ → Bool
is_digit c = leb 48 c && leb c 57

-- The digits of a u16; a value that does not fit is refused.
unfoldable pub digits_on : ℕ → Chars → Option ℕ
unfolding is_digit
digits_on value [] = some value
digits_on value (c ∷ cs) =
    let value' = value * 10 + (c - 48) in
    let rest = digits_on value' cs in if is_digit c && leb value' 65535 then rest else none

-- At least one digit.
unfoldable pub digits_of : Chars → Option ℕ
unfolding digits_on
digits_of [] = none
digits_of (c ∷ cs) = digits_on 0 (c ∷ cs)

-- `str::parse::<u16>`, with its optional `+`.
unfoldable pub parse_u16 : Chars → Option ℕ
unfolding digits_of
parse_u16 [] = none
parse_u16 (c ∷ cs) = if c == 43 then digits_of cs else digits_of (c ∷ cs)

-- The guard on the port.
unfoldable pub usable : Option ℕ → Option ℕ
usable none = none
usable (some port) = if ltb 0 port then some port else none

unfoldable pub port_of : Unicode → Option Chars → Option ℕ
unfolding usable trim parse_u16
port_of u none = none
port_of u (some text) = usable (parse_u16 (trim u text))

-- The two parts of the payload.
unfoldable pub parts_match : Unicode → Chars → Chars × Option Chars → ℕ → Option SocketAddr
unfolding port_of
parts_match u code_upper (found, port_text) peer_ip =
    if not (same_id (u.to_uppercase (trim u found)) code_upper)
    then none
    else (elim (port_of u port_text) [
      | some quic_port ↦ some (record { ip = peer_ip; port = quic_port })
      | none ↦ none
    ])

unfoldable pub payload_match : Unicode → Chars → Option Chars → ℕ → Option SocketAddr
unfolding split_once parts_match
payload_match u code_upper none peer_ip = none
payload_match u code_upper (some payload) peer_ip =
    parts_match u code_upper (split_once payload) peer_ip

unfoldable pub text_match : Unicode → Chars → Option Chars → ℕ → Option SocketAddr
unfolding payload_match
text_match u code_upper none peer_ip = none
text_match u code_upper (some msg) peer_ip = payload_match u code_upper (strip prefix msg) peer_ip

-- The loop over the packets. `what` names the listener in its error; `none` means that it is still
-- listening after the last packet.
unfoldable pub listen_for :
    Unicode → String → Chars → List (Res String (Bytes × SocketAddr)) → Option (Result SocketAddr)
unfolding text_match
listen_for u what code_upper [] = none
listen_for u what code_upper (err e ∷ packets) =
    some (err (connection_failed ("recv " <> what <> ": " <> e)))
listen_for u what code_upper (ok (buf, peer) ∷ packets) =
    let rest = listen_for u what code_upper packets in
    elim (text_match u code_upper (u.from_utf8 buf) peer.ip) [
      | some addr ↦ some (ok addr)
      | none ↦ rest
    ]

-- The socket is opened first. On iOS the multicast listener gives an error at once.
unfoldable pub listen_for_broadcast :
    Unicode
    → Result (Unit {0})
    → Chars
    → List (Res String (Bytes × SocketAddr))
    → Option (Result SocketAddr)
unfolding listen_for
listen_for_broadcast u (err e) code packets = some (err e)
listen_for_broadcast u (ok _) code packets = listen_for u "broadcast" (u.to_uppercase code) packets

unfoldable pub listen_for_multicast :
    Unicode
    → Result (Unit {0})
    → Chars
    → List (Res String (Bytes × SocketAddr))
    → Option (Result SocketAddr)
unfolding listen_for
listen_for_multicast u (err e) code packets = some (err e)
listen_for_multicast u (ok _) code packets = listen_for u "multicast" (u.to_uppercase code) packets

-- An IPv4 address is its 32 bits.
unfoldable pub subnet_broadcast : Option ℕ → Option ℕ
subnet_broadcast none = none
subnet_broadcast (some ip) = some (ip / 256 * 256 + 255)

abbrev pub broadcast_port : ℕ
broadcast_port = 47474

-- 255.255.255.255, and the subnet where our own address is known.
unfoldable pub broadcast_targets : Option ℕ → List SocketAddr
unfolding subnet_broadcast
broadcast_targets local_wifi_ip =
    record { ip = 4294967295; port = broadcast_port } ∷ (elim (subnet_broadcast local_wifi_ip) [
      | none ↦ []
      | some ip ↦ record { ip = ip; port = broadcast_port } ∷ []
    ])
