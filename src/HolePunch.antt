-- ===== src/HolePunch.antt =====
-- p2pshare-core/src/nat/hole_punch.rs: the hole punch, on what arrives at the socket before the time
-- is over. The packets that it sends are not modelled.
pub mod Laws
use p2pfileshare.Base.{
  ℕ, String, Bool, true, false, ◌&&◌, if◌then◌else◌, List, [], ◌∷◌, Res, ok, err,
}
use p2pfileshare.Base.Bytes.{Bytes}
use p2pfileshare.Errors.{Error, Result, io, hole_punch_timeout}
use p2pfileshare.Resume.{same_id}
use p2pfileshare.Stun.{SocketAddr, same_addr}

-- "p2pshare-punch"
abbrev pub punch_magic : Bytes
punch_magic = 112 ∷ 50 ∷ 112 ∷ 115 ∷ 104 ∷ 97 ∷ 114 ∷ 101 ∷ 45 ∷ 112 ∷ 117 ∷ 110 ∷ 99 ∷ 104 ∷ []

-- The guard of the loop.
unfoldable pub is_punch : SocketAddr → Bytes × SocketAddr → Bool
is_punch peer_addr (buf, addr) = same_addr addr peer_addr && same_id buf punch_magic

-- After the last of the packets the time is over.
unfoldable pub hole_punch : SocketAddr → List (Res String (Bytes × SocketAddr)) → Result (Unit {0})
unfolding is_punch
hole_punch peer_addr [] = err hole_punch_timeout
hole_punch peer_addr (err e ∷ packets) = err (io e)
hole_punch peer_addr (ok packet ∷ packets) =
    let rest = hole_punch peer_addr packets in if is_punch peer_addr packet then ok tt else rest
