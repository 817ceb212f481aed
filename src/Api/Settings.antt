-- ===== src/Api/Settings.antt =====
-- The functions that set or read what the rest of the library shares.
use p2pfileshare.Coordinator.Attempt.{Action, phase_after}
use p2pfileshare.Coordinator.Phase.{idle}
use p2pfileshare.Base.{List, ℕ, ◌>>=◌, String, true, Option, Res}
use p2pfileshare.Discovery.ShareCode.{generate_share_code}
use p2pfileshare.Identity.Storage.{set_data_dir}
use p2pfileshare.Progress
use p2pfileshare.Progress.{Progress}
use p2pfileshare.RelayClient.{RelayConfig, set_relay_proxy_override, clear_relay_proxy_override}
use p2pfileshare.Api.Sessions.{Host, get_dht}

unfoldable pub api_set_relay_proxy : String → RelayConfig → RelayConfig
unfolding set_relay_proxy_override
api_set_relay_proxy addr c = set_relay_proxy_override addr c

unfoldable pub api_clear_relay_proxy : RelayConfig → RelayConfig
unfolding clear_relay_proxy_override
api_clear_relay_proxy c = clear_relay_proxy_override c

unfoldable pub api_set_data_dir : String → Option String → Option String
unfolding set_data_dir
api_set_data_dir path dir = set_data_dir path dir

-- An error of the task itself is shown in the same way.
unfoldable pub api_init_dht : {S : Type 0} → Host S → Res String (Unit {0}) → Res String (Unit {0})
unfolding get_dht
api_init_dht h joined = do _ ← joined; get_dht h true

unfoldable pub api_transfer_progress : Progress → ℕ × ℕ
unfolding Progress.get
api_transfer_progress p = Progress.get p

unfoldable pub api_generate_share_code : (ℕ → String) → ℕ → ℕ → String
unfolding generate_share_code
api_generate_share_code words r s = generate_share_code words r s

-- All that attempts have done since the start of the library.
unfoldable pub api_connection_phase : List Action → ℕ
unfolding phase_after
api_connection_phase done = phase_after idle done
