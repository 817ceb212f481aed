-- ===== src/Discovery/ShareCode.antt =====
-- p2pshare-core/src/discovery/share_code.rs: a share code and the infohashes under which the peers
-- announce themselves. SHA-1, the words and the random numbers are parameters; `now` is the time in
-- seconds.
use p2pfileshare.Base.{ℕ, String, ◌<>◌, ◌+◌, ◌-◌, ◌*◌, ◌/◌, ◌%◌}
use p2pfileshare.Base.Bytes.{Bytes}
use p2pfileshare.Base.Text.{show, show_04}

unfoldable pub generate_share_code : (ℕ → String) → ℕ → ℕ → String
generate_share_code words r s =
    let word = words (r % 2048) in let num = s % 65536 % 10000 in word <> ("-" <> show_04 num)

unfoldable pub current_hour : ℕ → ℕ
current_hour now = now / 3600

unfoldable pub to_infohash : (String → Bytes) → ℕ → String → Bytes
unfolding current_hour
to_infohash sha1 now code = sha1 (code <> (":" <> show (current_hour now)))

unfoldable pub to_recv_infohash : (String → Bytes) → ℕ → String → Bytes
unfolding current_hour
to_recv_infohash sha1 now code = sha1 (code <> (":recv:" <> show (current_hour now)))

-- `saturating_sub`; the time is read again for the hour.
unfoldable pub secs_until_expiry : ℕ → ℕ → ℕ
unfolding current_hour
secs_until_expiry now again = (current_hour again + 1) * 3600 - now
