-- ===== src/Identity/Fingerprint.antt =====
-- p2pshare-core/src/identity/fingerprint.rs: a public key as two words and two numbers. The words of
-- BIP-0039, already in upper case, are a parameter.
use p2pfileshare.Base.{ℕ, String, ◌<>◌, ◌+◌, ◌*◌, ◌%◌, get_or}
use p2pfileshare.Base.Bytes.{Bytes}
use p2pfileshare.Base.Text.{show_04}

-- `u16::from_be_bytes([bytes[i], bytes[i + 1]])`
unfoldable pub u16_at : Bytes → ℕ → ℕ
u16_at bytes i = get_or bytes i 0 * 256 + get_or bytes (i + 1) 0

unfoldable pub to_fingerprint : (ℕ → String) → Bytes → String
unfolding u16_at
to_fingerprint words pubkey =
    let w1 = u16_at pubkey 0 % 2048 in
    let n1 = u16_at pubkey 2 % 10000 in
    let w2 = u16_at pubkey 4 % 2048 in
    let n2 = u16_at pubkey 6 % 10000 in
    words w1 <> ("-" <> (show_04 n1 <> ("-" <> (words w2 <> ("-" <> show_04 n2)))))
