-- ===== src/Tests/Announcements.antt =====
-- A code announced on the LAN.
use p2pfileshare.Base.{◌==◌, ◌≡◌, refl, [], ◌∷◌, some, ok, arith}
use p2pfileshare.Stun.{SocketAddr}
use p2pfileshare.Discovery.Packets.{
  Chars, Unicode, announcement, listen_for_broadcast, listen_for_multicast,
}
use p2pfileshare.Discovery.Packets.Announced.{
  IsUnicode, Solid, solid_nil, solid_cons, listen-announcement,
}

abbrev ascii : Unicode
ascii = record { to_uppercase = λ cs. cs; is_whitespace = λ c. c == 32; from_utf8 = λ bs. some bs }

ascii-IsUnicode : IsUnicode ascii
ascii-IsUnicode = record { blank = refl; digit = λ c h k. ground arith }

-- "A-7"
abbrev code : Chars
code = 65 ∷ 45 ∷ 55 ∷ []

code-Solid : Solid ascii code
code-Solid = solid_cons refl (solid_cons refl (solid_cons refl solid_nil))

abbrev sender : SocketAddr
sender = record { ip = 7; port = 40000 }

listen-announcement_example :
    (listen_for_broadcast ascii (ok tt) code (ok (announcement ascii code 5000, sender) ∷ [])
      ≡ some (ok (record { ip = 7; port = 5000 })))
    × (listen_for_multicast ascii (ok tt) code (ok (announcement ascii code 5000, sender) ∷ [])
        ≡ some (ok (record { ip = 7; port = 5000 })))
listen-announcement_example =
    listen-announcement ascii ascii-IsUnicode code code 5000 (announcement ascii code 5000) sender
      [] refl refl code-Solid refl (omega arith) (omega arith)
