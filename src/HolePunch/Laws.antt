-- ===== src/HolePunch/Laws.antt =====
-- When the hole punch succeeds.
use p2pfileshare.Base.{
  ◌≡◌, ◌≢◌, ◌↔◌, ◌⊎◌, ◌∙◌, ap, arith, inl, inr, refl, true, false, Bool-cases, String, List, [],
  ◌∷◌, ◌++◌, map, Res, ok, err,
}
use p2pfileshare.Base.Bytes.{Bytes}
use p2pfileshare.Errors.{io, hole_punch_timeout}
use p2pfileshare.Resume.{same_id}
use p2pfileshare.Resume.Laws.{same_id_iff}
use p2pfileshare.Stun.{SocketAddr, same_addr}
use p2pfileshare.HolePunch.{punch_magic, is_punch, hole_punch}

-- Packets of which none is a punch: each has another sender than the peer, or another text.
pub data Strays (peer_addr : SocketAddr) : List (Bytes × SocketAddr) → Type 0 where
  none_yet : Strays peer_addr []
  stray :
      {buf : Bytes} {addr : SocketAddr} {packets : List (Bytes × SocketAddr)}
      → ((addr ≢ peer_addr) ⊎ (buf ≢ punch_magic))
      → Strays peer_addr packets
      → Strays peer_addr ((buf, addr) ∷ packets)

-- The packets that arrive, split at the first one that counts: only strays until the time is over, a
-- punch of the peer behind strays, or an error of the socket behind strays.
pub data Arrivals (peer_addr : SocketAddr) (packets : List (Res String (Bytes × SocketAddr)))
    : Type 0 where
  only_strays :
      (strays : List (Bytes × SocketAddr))
      → Strays peer_addr strays
      → packets ≡ map ok strays
      → hole_punch peer_addr packets ≡ err hole_punch_timeout
      → Arrivals peer_addr packets
  punched :
      (strays : List (Bytes × SocketAddr)) (rest : List (Res String (Bytes × SocketAddr)))
      → Strays peer_addr strays
      → packets ≡ map ok strays ++ (ok (punch_magic, peer_addr) ∷ rest)
      → hole_punch peer_addr packets ≡ ok tt
      → Arrivals peer_addr packets
  broken :
      (strays : List (Bytes × SocketAddr)) (e : String)
      (rest : List (Res String (Bytes × SocketAddr)))
      → Strays peer_addr strays
      → packets ≡ map ok strays ++ (err e ∷ rest)
      → hole_punch peer_addr packets ≡ err (io e)
      → Arrivals peer_addr packets

same_addr_iff : (a b : SocketAddr) → (same_addr a b ≡ true) ↔ (a ≡ b)
unfolding same_addr
same_addr_iff a b = ((λ e. ground (arith, e)), (λ e. rw e (ground arith)))

-- The guard of the loop tells the punches of the peer from all other packets.
is_punch_cases :
    (peer_addr : SocketAddr) (buf : Bytes) (addr : SocketAddr)
    → ((is_punch peer_addr (buf, addr) ≡ true) × (buf ≡ punch_magic) × (addr ≡ peer_addr))
      ⊎ ((is_punch peer_addr (buf, addr) ≡ false) × ((addr ≢ peer_addr) ⊎ (buf ≢ punch_magic)))
unfolding is_punch
is_punch_cases peer_addr buf addr = elim (Bool-cases (same_addr addr peer_addr)) [
  | inr elsewhere ↦ inr (
    ground (arith, elsewhere),
    inl (λ e. ground (arith, elsewhere, (same_addr_iff addr peer_addr).1 e)),
  )
  | inl there ↦ elim (Bool-cases (same_id buf punch_magic)) [
    | inr other ↦ inr (
      ground (arith, there, other),
      inr (λ e. ground (arith, other, (same_id_iff buf punch_magic).1 e)),
    )
    | inl text ↦ inl (
      ground (arith, there, text),
      (same_id_iff buf punch_magic).0 text,
      (same_addr_iff addr peer_addr).0 there,
    )
  ]
]

after_stray :
    (peer_addr : SocketAddr) (buf : Bytes) (addr : SocketAddr)
    (packets : List (Res String (Bytes × SocketAddr)))
    → is_punch peer_addr (buf, addr) ≡ false
    → ((addr ≢ peer_addr) ⊎ (buf ≢ punch_magic))
    → Arrivals peer_addr packets
    → Arrivals peer_addr (ok (buf, addr) ∷ packets)
unfolding hole_punch
after_stray peer_addr buf addr packets h o (only_strays strays s e r) =
    only_strays ((buf, addr) ∷ strays) (stray o s) (rw e refl) (rw h r)
after_stray peer_addr buf addr packets h o (punched strays rest s e r) =
    punched ((buf, addr) ∷ strays) rest (stray o s) (rw e refl) (rw h r)
after_stray peer_addr buf addr packets h o (broken strays x rest s e r) =
    broken ((buf, addr) ∷ strays) x rest (stray o s) (rw e refl) (rw h r)

-- The hole punch has one of three ends. Packets that do not come from the peer's address, or whose
-- text is not exactly `p2pshare-punch`, are passed over; the first packet that is both ends it with
-- success; an error of the socket before that is passed on; and with nothing but other packets
-- until the time is over it times out.
pub hole_punch-Arrivals :
    (peer_addr : SocketAddr) (packets : List (Res String (Bytes × SocketAddr)))
    → Arrivals peer_addr packets
unfolding hole_punch
hole_punch-Arrivals peer_addr [] = only_strays [] none_yet refl refl
hole_punch-Arrivals peer_addr (err e ∷ packets) = broken [] e packets none_yet refl refl
hole_punch-Arrivals peer_addr (ok (buf, addr) ∷ packets) =
    let ih = hole_punch-Arrivals peer_addr packets in
    elim (is_punch_cases peer_addr buf addr) [
      | inl (h, text, there) ↦
          punched [] packets none_yet
            (ap (λ p. ok p ∷ packets) (ap (λ b. (b, addr)) text ∙ ap (λ a. (punch_magic, a)) there))
            (rw h refl)
      | inr (h, other) ↦ after_stray peer_addr buf addr packets h other ih
    ]
