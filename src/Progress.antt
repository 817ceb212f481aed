-- ===== src/Progress.antt =====
-- p2pshare-core/src/transfer/progress.rs: the two byte counters behind the progress bar. Each
-- operation is one on the pair; `u64` additions wrap.
use p2pfileshare.Base.{ℕ, ◌+◌, ◌-◌, ◌%◌, ◌^◌}

pub record Progress : Type 0 where
  pub bytes_done : ℕ
  pub bytes_total : ℕ

unfoldable pub reset : ℕ → Progress → Progress
reset total p = record { bytes_done = 0; bytes_total = total }

unfoldable pub advance : ℕ → Progress → Progress
advance bytes p = record p { bytes_done = (p.bytes_done + bytes) % 2 ^ 64 }

unfoldable pub set_done : ℕ → Progress → Progress
set_done bytes p = record p { bytes_done = bytes }

-- `saturating_sub`
unfoldable pub retract : ℕ → Progress → Progress
retract bytes p = record p { bytes_done = p.bytes_done - bytes }

unfoldable pub get : Progress → ℕ × ℕ
get p = (p.bytes_done, p.bytes_total)
