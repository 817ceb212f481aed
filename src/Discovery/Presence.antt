-- ===== src/Discovery/Presence.antt =====
-- p2pshare-core/src/discovery/presence.rs: which contacts are online. The peers at an infohash are a
-- function.
use text.Mathlib.Text.{◌==◌ as str_eq}
use p2pfileshare.Base.{if◌then◌else◌, String, List, [], ◌∷◌, Option, none, some, Res, ok, err}
use p2pfileshare.Base.Bytes.{Bytes}
use p2pfileshare.Contacts.{Contact}
use p2pfileshare.Stun.{SocketAddr}

pub data PresenceStatus : Type 0 where
  online : SocketAddr → PresenceStatus
  offline : PresenceStatus

-- `hex::decode(..).unwrap_or_default()`
unfoldable pub key_or_empty : Res String Bytes → Bytes
key_or_empty (ok key) = key
key_or_empty (err e) = []

unfoldable pub status_of : List SocketAddr → PresenceStatus
status_of [] = offline
status_of (addr ∷ peers) = online addr

-- The map from ids; a later contact of the same id replaces an earlier one.
unfoldable pub status_at : String → List (String × PresenceStatus) → Option PresenceStatus
status_at id [] = none
status_at id ((i, s) ∷ statuses) = if str_eq i id then some s else status_at id statuses

module _ (hex_decode : String → Res String Bytes) (sha1 : Bytes → Bytes)
    (lookup : Bytes → List SocketAddr) where
  unfoldable pub check_presence :
      List Contact → List (String × PresenceStatus) → List (String × PresenceStatus)
  unfolding key_or_empty status_of
  check_presence [] statuses = statuses
  check_presence (c ∷ contacts) statuses =
      let infohash = sha1 (key_or_empty (hex_decode c.public_key)) in
      check_presence contacts ((c.id, status_of (lookup infohash)) ∷ statuses)
