-- ===== src/Discovery/Packets/Announced.antt =====
-- What is announced is found.
use p2pfileshare.Base.{
  ℕ, ◌≤◌, ◌<◌, ◌≡◌, refl, ap, ◌∙◌, String, true, false, List, [], ◌∷◌, ◌++◌, some, Res, ok, arith,
}
use p2pfileshare.Base.Bytes.{Bytes}
use p2pfileshare.Base.Sets.{is_empty}
use p2pfileshare.Resume.Laws.{same_id_refl}
use p2pfileshare.Stun.{SocketAddr}
use p2pfileshare.Discovery.Packets.{
  Chars, Unicode, prefix, separator, decimal, announcement, strip, has_start, split_once,
  trim_start, trim_end, trim, usable, port_of, parts_match, payload_match, text_match, listen_for,
  listen_for_broadcast, listen_for_multicast,
}
use p2pfileshare.Discovery.Packets.Decimal.{
  Digits, one_digit, more_digits, decimal_on-Digits, parse_u16-decimal,
}

-- What is documented of Unicode: a blank is white space and digits are not.
pub record IsUnicode (u : Unicode) : Type 0 where
  pub blank : u.is_whitespace 32 ≡ true
  pub digit : (c : ℕ) → 48 ≤ c → c ≤ 57 → u.is_whitespace c ≡ false

-- No white space.
pub data Solid (u : Unicode) : Chars → Type 0 where
  solid_nil : Solid u []
  solid_cons : {c : ℕ} {cs : Chars} → u.is_whitespace c ≡ false → Solid u cs → Solid u (c ∷ cs)

module _ (u : Unicode) (laws : IsUnicode u) where
  Digits-Solid : {cs : Chars} → Digits cs → Solid u cs
  Digits-Solid (one_digit {c} h k) = solid_cons (laws.digit c h k) solid_nil
  Digits-Solid (more_digits {c} h k ds) = solid_cons (laws.digit c h k) (Digits-Solid ds)

  trim_end-Solid : {cs : Chars} → Solid u cs → trim_end u cs ≡ cs
  unfolding trim_end is_empty
  trim_end-Solid solid_nil = refl
  trim_end-Solid (solid_cons h s) = ground (arith, h, trim_end-Solid s)

  trim-Solid : {cs : Chars} → Solid u cs → trim u cs ≡ cs
  unfolding trim trim_start
  trim-Solid solid_nil = unfold trim_end in refl
  trim-Solid (solid_cons h s) = rw h (trim_end-Solid (solid_cons h s))

  no_separator :
      (c : ℕ) (cs text : Chars)
      → Solid u cs
      → has_start (strip separator (c ∷ (cs ++ (separator ++ text)))) ≡ false
  unfolding strip has_start
  no_separator c [] text s = ground arith
  no_separator c (d ∷ cs) text (solid_cons h s) = ground (arith, h, laws.blank)

  split_once-Solid :
      (cs text : Chars) → Solid u cs → split_once (cs ++ (separator ++ text)) ≡ (cs, some text)
  unfolding split_once
  split_once-Solid [] text s = unfold strip has_start in ground arith
  split_once-Solid (c ∷ cs) text (solid_cons h s) =
      rw (no_separator c cs text s, split_once-Solid cs text s) refl

  strip-append : (cs text : Chars) → strip cs (cs ++ text) ≡ some text
  unfolding strip
  strip-append [] text = refl
  strip-append (c ∷ cs) text = ground (arith, strip-append cs text)

  port_of-decimal :
      (port : ℕ) → 0 < port → port ≤ 65535 → port_of u (some (decimal port)) ≡ some port
  unfolding port_of usable
  port_of-decimal port h k =
      let solid : Solid u (decimal port) =
        unfold decimal in Digits-Solid (decimal_on-Digits port port) in
      rw (trim-Solid solid) (rw (parse_u16-decimal port k) (ground (arith, h)))

  text_match-announcement :
      (code : Chars) (port ip : ℕ)
      → Solid u (u.to_uppercase code)
      → u.to_uppercase (u.to_uppercase code) ≡ u.to_uppercase code
      → 0 < port
      → port ≤ 65535
      → text_match u (u.to_uppercase code) (some (announcement u code port)) ip
        ≡ some (record { ip = ip; port = port })
  unfolding text_match announcement payload_match parts_match
  text_match-announcement code port ip s upper h k =
      let code_upper : Chars = u.to_uppercase code in
      ap (λ o. payload_match u code_upper o ip)
        (strip-append prefix (code_upper ++ (separator ++ decimal port)))
      ∙ (ap (λ parts. parts_match u code_upper parts ip)
            (split_once-Solid code_upper (decimal port) s)
          ∙ rw (trim-Solid s, upper, same_id_refl (u.to_uppercase code), port_of-decimal port h k)
              refl)

  listen_hit :
      (what : String) (code_upper : Chars) (buf : Bytes) (peer addr : SocketAddr)
      (packets : List (Res String (Bytes × SocketAddr)))
      → text_match u code_upper (u.from_utf8 buf) peer.ip ≡ some addr
      → listen_for u what code_upper (ok (buf, peer) ∷ packets) ≡ some (ok addr)
  unfolding listen_for
  listen_hit what code_upper buf peer addr packets e = rw (e, listen_for) refl

  -- A receiver on the LAN finds the sender: the packet that `start_broadcast` and `start_multicast`
  -- send for a code is recognised by either listener for that code, in whatever case the code was
  -- typed, and gives the IP the packet came from with the port that was announced. It is assumed that
  -- the code in upper case has no white space and stays as it is in upper case, and that the port is
  -- not 0.
  pub listen-announcement :
      (code typed : Chars) (port : ℕ) (buf : Bytes) (peer : SocketAddr)
      (packets : List (Res String (Bytes × SocketAddr)))
      → u.from_utf8 buf ≡ some (announcement u code port)
      → u.to_uppercase typed ≡ u.to_uppercase code
      → Solid u (u.to_uppercase code)
      → u.to_uppercase (u.to_uppercase code) ≡ u.to_uppercase code
      → 0 < port
      → port ≤ 65535
      → (listen_for_broadcast u (ok tt) typed (ok (buf, peer) ∷ packets)
          ≡ some (ok (record { ip = peer.ip; port = port })))
        × (listen_for_multicast u (ok tt) typed (ok (buf, peer) ∷ packets)
            ≡ some (ok (record { ip = peer.ip; port = port })))
  unfolding listen_for_broadcast listen_for_multicast
  listen-announcement code typed port buf peer packets text same s upper h k =
      let hit : text_match u (u.to_uppercase typed) (u.from_utf8 buf) peer.ip
          ≡ some (record { ip = peer.ip; port = port }) =
        rw (same, text) (text_match-announcement code port peer.ip s upper h k) in
      (
        listen_hit "broadcast" (u.to_uppercase typed) buf peer _ packets hit,
        listen_hit "multicast" (u.to_uppercase typed) buf peer _ packets hit,
      )
