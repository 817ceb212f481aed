-- ===== src/Stun.antt =====
-- p2pshare-core/src/nat/stun.rs: the request and the response of a STUN server, which of the packets
-- that arrive is taken, and the kind of the NAT. The datagrams that arrive are a list.
mod Xor
pub mod Attributes
pub mod Response
use p2pfileshare.Base.{
  ℕ, zero, suc, ◌+◌, ◌*◌, ◌/◌, ◌%◌, ◌^◌, ltb, leb, ◌==◌, if◌then◌else◌, Bool, true, false, not,
  ◌&&◌, List, [], ◌∷◌, ◌++◌, length, take, drop, get_or, Option, none, some,
}
use p2pfileshare.Base.Bytes.{Bytes, to_be_bytes, from_be_bytes}
use p2pfileshare.Resume.{same_id}

-- `SocketAddr::V4`
pub record SocketAddr : Type 0 where
  pub ip : ℕ
  pub port : ℕ

abbrev pub magic_cookie : ℕ
magic_cookie = 0x2112A442

-- `^` on `w` bits
unfoldable pub xor : ℕ → ℕ → ℕ → ℕ
xor zero a b = 0
xor (suc w) a b = (a % 2 + b % 2) % 2 + 2 * xor w (a / 2) (b / 2)

unfoldable pub build_request : Bytes → Bytes
build_request txn_id =
    to_be_bytes 2 0x0001 ++ (to_be_bytes 2 0x0000 ++ (to_be_bytes 4 magic_cookie ++ txn_id))

-- The address in the value of an attribute, if the attribute has one.
unfoldable pub attr_addr : ℕ → Bytes → Option SocketAddr
attr_addr attr_type val =
    let port = from_be_bytes (take 2 (drop 2 val)) in
    let ip = from_be_bytes (take 4 (drop 4 val)) in
    let v4 = leb 8 (length val) && get_or val 1 0 == 0x01 in
    if attr_type == 0x0020 && v4
    then some (record { ip = xor 32 ip magic_cookie; port = xor 16 port 0x2112 })
    else if attr_type == 0x0001 && v4
    then some (record { ip = ip; port = port })
    else none

-- Attributes are aligned to 4 bytes.
unfoldable pub aligned : ℕ → ℕ
aligned n = (n + 3) / 4 * 4

-- The loop over the attributes, on those from `i` on. Each round takes at least 4 bytes.
unfoldable pub parse_attrs : ℕ → Bytes → Option SocketAddr
parse_attrs zero s = none
parse_attrs (suc fuel) s =
    let attr_type = from_be_bytes (take 2 s) in
    let attr_len = from_be_bytes (take 2 (drop 2 s)) in
    let rest = parse_attrs fuel (drop (4 + aligned attr_len) s) in
    if ltb (length s) 4
    then none
    else if ltb (length s) (4 + attr_len)
    then none
    else elim (attr_addr attr_type (take attr_len (drop 4 s))) [
      | some addr ↦ some addr
      | none ↦ rest
    ]

unfoldable pub parse_response : Bytes → Bytes → Option SocketAddr
unfolding parse_attrs
parse_response buf txn_id =
    let msg_len = from_be_bytes (take 2 (drop 2 buf)) in
    if ltb (length buf) 20
    then none
    else if not (from_be_bytes (take 2 buf) == 0x0101)
    then none
    else if not (same_id (take 12 (drop 8 buf)) txn_id)
    then none
    else if ltb (length buf) (20 + msg_len)
    then none
    else parse_attrs msg_len (take msg_len (drop 20 buf))

-- Whether two addresses are the same.
unfoldable pub same_addr : SocketAddr → SocketAddr → Bool
same_addr a b = a.ip == b.ip && a.port == b.port

-- The loop over the queries that are pending, for one packet.
unfoldable pub match_pending : List (Bytes × SocketAddr) → Bytes → SocketAddr → Option SocketAddr
unfolding same_addr
match_pending [] buf sender = none
match_pending ((txn_id, server_addr) ∷ pending) buf sender =
    let rest = match_pending pending buf sender in
    if same_addr sender server_addr
    then (elim (parse_response buf txn_id) [ some addr ↦ some addr | none ↦ rest ])
    else rest

-- The packets that arrive before the deadline, in order. With no query sent there is no answer.
unfoldable pub query_all : List (Bytes × SocketAddr) → List (Bytes × SocketAddr) → Option SocketAddr
unfolding match_pending
query_all [] packets = none
query_all (q ∷ pending) [] = none
query_all (q ∷ pending) ((buf, sender) ∷ packets) = elim (match_pending (q ∷ pending) buf sender) [
  | some addr ↦ some addr
  | none ↦ query_all (q ∷ pending) packets
]

-- `stun_attempts` tries; of each, the queries that were sent and the packets that arrive.
unfoldable pub external_addr :
    ℕ → (ℕ → List (Bytes × SocketAddr) × List (Bytes × SocketAddr)) → Option SocketAddr
unfolding query_all
external_addr zero tries = none
external_addr (suc attempts) tries = elim (query_all (tries 0).0 (tries 0).1) [
  | some addr ↦ some addr
  | none ↦ external_addr attempts (λ k. tries (suc k))
]

abbrev pub stun_attempts : ℕ
stun_attempts = 2

pub data NatMapping : Type 0 where
  endpoint_independent : NatMapping
  address_dependent : NatMapping
  unknown : NatMapping

-- The verdict on the ports that the servers saw.
unfoldable pub nat_mapping : List ℕ → NatMapping
nat_mapping (a ∷ b ∷ []) = if a == b then endpoint_independent else address_dependent
nat_mapping _ = unknown
