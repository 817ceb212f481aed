-- ===== src/Stun/Attributes.antt =====
-- The attributes of a STUN message, as a server writes them and as nat/stun.rs reads them.
use p2pfileshare.Base.{
  ℕ, zero, suc, ◌+◌, ◌-◌, ◌^◌, ◌≤◌, ◌<◌, ltb, leb, ◌==◌, ◌&&◌, ◌||◌, get_or, true, false, ◌≡◌, refl,
  ap, ◌∙◌, List, [], ◌∷◌, ◌++◌, length, length-append, append_assoc, length-take, length-drop,
  take_all, take, drop, none, some, arith,
}
use p2pfileshare.Base.Bytes.{
  Bytes, to_be_bytes, from_be_bytes, length-to_be_bytes, from-to_be_bytes, take-append, drop-append,
}
use p2pfileshare.Stun.{SocketAddr, magic_cookie, xor, attr_addr, aligned, parse_attrs}
use p2pfileshare.Stun.Xor.{xor-xor, xor-lt}

-- More fuel than there are bytes makes no difference.
parse_attrs_fuel :
    (fuel fuel' : ℕ) (s : Bytes)
    → length s ≤ fuel
    → length s ≤ fuel'
    → parse_attrs fuel s ≡ parse_attrs fuel' s
unfolding parse_attrs
parse_attrs_fuel zero zero s h h' = refl
parse_attrs_fuel zero (suc fuel') s h h' = ground arith
parse_attrs_fuel (suc fuel) zero s h h' = ground arith
parse_attrs_fuel (suc fuel) (suc fuel') s h h' =
    let at : ℕ = 4 + aligned (from_be_bytes (take 2 (drop 2 s))) in
    ground (arith, parse_attrs_fuel fuel fuel' (drop at s), length-drop at s)

aligned_le : (n : ℕ) → n ≤ aligned n
unfolding aligned
aligned_le n = omega arith

-- What a server writes: an attribute with its type, its length and its padding.
abbrev pub zeros : ℕ → Bytes
zeros zero = []
zeros (suc n) = 0 ∷ zeros n

length-zeros : (n : ℕ) → length (zeros n) ≡ n
length-zeros zero = refl
length-zeros (suc n) = ap suc (length-zeros n)

unfoldable pub attribute : ℕ → Bytes → Bytes
attribute t v =
    (to_be_bytes 2 t ++ to_be_bytes 2 (length v)) ++ (v ++ zeros (aligned (length v) - length v))

-- The values of the two attributes for an IPv4 address, the first with the address hidden.
unfoldable pub xor_value : SocketAddr → Bytes
xor_value a =
    0 ∷ 1 ∷ (to_be_bytes 2 (xor 16 a.port 0x2112) ++ to_be_bytes 4 (xor 32 a.ip magic_cookie))

unfoldable pub plain_value : SocketAddr → Bytes
plain_value a = 0 ∷ 1 ∷ (to_be_bytes 2 a.port ++ to_be_bytes 4 a.ip)

unfoldable pub attributes : List (ℕ × Bytes) → Bytes
unfolding attribute
attributes [] = []
attributes ((t, v) ∷ rest) = attribute t v ++ attributes rest

parse_step :
    (fuel t : ℕ) (v s block : Bytes)
    → from_be_bytes (take 2 block) ≡ t
    → from_be_bytes (take 2 (drop 2 block)) ≡ length v
    → take (length v) (drop 4 block) ≡ v
    → drop (4 + aligned (length v)) block ≡ s
    → 4 + length v ≤ length block
    → parse_attrs (suc fuel) block
      ≡ elim (attr_addr t v) [ some addr ↦ some addr | none ↦ parse_attrs fuel s ]
unfolding parse_attrs
parse_step fuel t v s block e₁ e₂ e₃ e₄ h =
    let long : ltb (length block) 4 ≡ false = ground arith in
    let whole : ltb (length block) (4 + length v) ≡ false = ground arith in
    let next : drop (4 + aligned (from_be_bytes (take 2 (drop 2 block)))) block ≡ s =
      ap (λ k. drop (4 + aligned k) block) e₂ ∙ e₄ in
    rw (e₁, e₂, long, whole, e₃)
      (ap (λ x. elim (attr_addr t v) [ some addr ↦ some addr | none ↦ parse_attrs fuel x ]) next)

-- An attribute that stands at the front of others.
pub parse_attrs-attribute :
    (fuel t : ℕ) (v s : Bytes)
    → t < 2 ^ 16
    → length v < 2 ^ 16
    → parse_attrs (suc fuel) (attribute t v ++ s)
      ≡ elim (attr_addr t v) [ some addr ↦ some addr | none ↦ parse_attrs fuel s ]
unfolding attribute
parse_attrs-attribute fuel t v s ht hv =
    parse_step fuel t v s (attribute t v ++ s)
      (ap from_be_bytes type_read ∙ from-to_be_bytes 2 t (omega arith))
      (ap from_be_bytes len_read ∙ from-to_be_bytes 2 (length v) (omega arith)) value_read behind
      (omega (arith, length-append (attribute t v) s, all, aligned_le (length v)))
  where
    pad : Bytes
    pad = zeros (aligned (length v) - length v)

    head : Bytes
    head = to_be_bytes 2 t ++ to_be_bytes 2 (length v)

    four : length head ≡ 4
    four = omega (
      arith,
      length-append (to_be_bytes 2 t) (to_be_bytes 2 (length v)),
      length-to_be_bytes 2 t,
      length-to_be_bytes 2 (length v),
    )

    body : length (v ++ pad) ≡ aligned (length v)
    body = omega (
      arith,
      length-append v pad,
      length-zeros (aligned (length v) - length v),
      aligned_le (length v),
    )

    all : length (attribute t v) ≡ 4 + aligned (length v)
    all = omega (arith, length-append head (v ++ pad), four, body)

    type_read : take 2 (attribute t v ++ s) ≡ to_be_bytes 2 t
    type_read =
        rw (append_assoc, append_assoc)
          (take-append 2 (to_be_bytes 2 t) (to_be_bytes 2 (length v) ++ ((v ++ pad) ++ s))
            (length-to_be_bytes 2 t))

    len_read : take 2 (drop 2 (attribute t v ++ s)) ≡ to_be_bytes 2 (length v)
    len_read =
        rw (append_assoc, append_assoc)
          (rw
            (drop-append 2 (to_be_bytes 2 t) (to_be_bytes 2 (length v) ++ ((v ++ pad) ++ s))
              (length-to_be_bytes 2 t))
            (take-append 2 (to_be_bytes 2 (length v)) ((v ++ pad) ++ s)
              (length-to_be_bytes 2 (length v))))

    value_read : take (length v) (drop 4 (attribute t v ++ s)) ≡ v
    value_read =
        rw
          (
            append_assoc head (v ++ pad) s,
            drop-append 4 head ((v ++ pad) ++ s) four,
            append_assoc v pad s,
          )
          (take-append (length v) v (pad ++ s) refl)

    behind : drop (4 + aligned (length v)) (attribute t v ++ s) ≡ s
    behind = drop-append (4 + aligned (length v)) (attribute t v) s all

-- Attributes that carry no IPv4 address: they have another type than XOR-MAPPED-ADDRESS and
-- MAPPED-ADDRESS, or another family than 1, or are too short.
abbrev pub AllOther : List (ℕ × Bytes) → Type 0
AllOther [] = Unit {0}
AllOther ((t, v) ∷ rest) =
    (t < 2 ^ 16)
    × (length v < 2 ^ 16)
    × (((t == 0x0020 || t == 0x0001) && (leb 8 (length v) && get_or v 1 0 == 1)) ≡ false)
    × AllOther rest

attr_addr_other :
    (t : ℕ) (v : Bytes)
    → ((t == 0x0020 || t == 0x0001) && (leb 8 (length v) && get_or v 1 0 == 1)) ≡ false
    → attr_addr t v ≡ none
unfolding attr_addr
attr_addr_other t v e = ground (arith, e)

pub parse_attrs-attributes :
    (fuel : ℕ) (others : List (ℕ × Bytes)) (s : Bytes)
    → AllOther others
    → length others < fuel
    → (fuel' : ℕ) × (parse_attrs fuel (attributes others ++ s) ≡ parse_attrs (suc fuel') s)
unfolding attributes
parse_attrs-attributes zero others s o h = absurd (omega arith)
parse_attrs-attributes (suc fuel) [] s o h = (fuel, refl)
parse_attrs-attributes (suc fuel) ((t, v) ∷ rest) s (ht, hv, other, o) h =
    let (fuel', more) = parse_attrs-attributes fuel rest s o (omega arith) in
    (
      fuel',
      rw (append_assoc (attribute t v) (attributes rest) s) (
          parse_attrs-attribute fuel t v (attributes rest ++ s) ht hv
          ∙ rw (attr_addr_other t v other, more) refl),
    )

-- A port and an address behind the two bytes of the family.
value_read :
    (p i : ℕ)
    → p < 2 ^ 16
    → i < 2 ^ 32
    → (from_be_bytes (take 2 (to_be_bytes 2 p ++ to_be_bytes 4 i)) ≡ p)
      × (from_be_bytes (take 4 (drop 2 (to_be_bytes 2 p ++ to_be_bytes 4 i))) ≡ i)
      × (length (to_be_bytes 2 p ++ to_be_bytes 4 i) ≡ 6)
value_read p i hp hi = (
  ap from_be_bytes (take-append 2 (to_be_bytes 2 p) (to_be_bytes 4 i) (length-to_be_bytes 2 p))
      ∙ from-to_be_bytes 2 p (omega arith),
  ap (λ x. from_be_bytes (take 4 x))
        (drop-append 2 (to_be_bytes 2 p) (to_be_bytes 4 i) (length-to_be_bytes 2 p))
      ∙ (ap from_be_bytes (
            take_all 4 (to_be_bytes 4 i)
              (omega (arith, length-take 4 (to_be_bytes 4 i), length-to_be_bytes 4 i)))
          ∙ from-to_be_bytes 4 i (omega arith)),
  omega (
    arith,
    length-append (to_be_bytes 2 p) (to_be_bytes 4 i),
    length-to_be_bytes 2 p,
    length-to_be_bytes 4 i,
  ),
)

pub attr_addr-xor_value :
    (a : SocketAddr) → a.ip < 2 ^ 32 → a.port < 2 ^ 16 → attr_addr 0x0020 (xor_value a) ≡ some a
unfolding attr_addr xor_value
attr_addr-xor_value a hi hp =
    let p : ℕ = xor 16 a.port 0x2112 in
    let i : ℕ = xor 32 a.ip magic_cookie in
    let (port_read, ip_read, six) =
      value_read p i (xor-lt 16 a.port 0x2112) (xor-lt 32 a.ip magic_cookie) in
    let long : leb 8 (suc (suc (length (to_be_bytes 2 p ++ to_be_bytes 4 i)))) ≡ true =
      ground (arith, six) in
    rw (long, port_read, ip_read, xor-xor 16 a.port 0x2112 hp, xor-xor 32 a.ip magic_cookie hi) refl

pub attr_addr-plain_value :
    (a : SocketAddr) → a.ip < 2 ^ 32 → a.port < 2 ^ 16 → attr_addr 0x0001 (plain_value a) ≡ some a
unfolding attr_addr plain_value
attr_addr-plain_value a hi hp =
    let (port_read, ip_read, six) = value_read a.port a.ip hp hi in
    let long : leb 8 (suc (suc (length (to_be_bytes 2 a.port ++ to_be_bytes 4 a.ip)))) ≡ true =
      ground (arith, six) in
    rw (long, port_read, ip_read) refl

pub length-xor_value : (a : SocketAddr) → length (xor_value a) ≡ 8
unfolding xor_value
length-xor_value a =
    let (_, _, six) =
      value_read (xor 16 a.port 0x2112) (xor 32 a.ip magic_cookie) (xor-lt 16 a.port 0x2112)
        (xor-lt 32 a.ip magic_cookie) in
    omega (arith, six)

pub length-plain_value :
    (a : SocketAddr) → a.ip < 2 ^ 32 → a.port < 2 ^ 16 → length (plain_value a) ≡ 8
unfolding plain_value
length-plain_value a hi hp = let (_, _, six) = value_read a.port a.ip hp hi in omega (arith, six)

-- Every attribute has at least four bytes.
pub length-attribute : (t : ℕ) (v : Bytes) → 4 ≤ length (attribute t v)
unfolding attribute
length-attribute t v = omega (
  arith,
  length-append (to_be_bytes 2 t ++ to_be_bytes 2 (length v))
      (v ++ zeros (aligned (length v) - length v)),
  length-append (to_be_bytes 2 t) (to_be_bytes 2 (length v)),
  length-to_be_bytes 2 t,
  length-to_be_bytes 2 (length v),
)

pub length-attributes : (others : List (ℕ × Bytes)) → length others ≤ length (attributes others)
unfolding attributes
length-attributes [] = omega arith
length-attributes ((t, v) ∷ rest) = omega (
  arith,
  length-append (attribute t v) (attributes rest),
  length-attribute t v,
  length-attributes rest,
)
