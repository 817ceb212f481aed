-- ===== src/RelayClient/Addresses.antt =====
-- Which relay is used.
use p2pfileshare.Base.{◌≡◌, refl, Option, none, String}
use p2pfileshare.RelayClient.{
  RelayConfig, set_relay_proxy_override, clear_relay_proxy_override, default_relay, relay_addr,
}

-- A proxy that was set is used until it is cleared. Then the address is again the one that would have
-- been used without it, and it stays the same when it is asked for later, whatever the environment
-- has become in the meantime.
pub relay_addr_override :
    (trim : String → String) (env env' : Option String) (addr : String) (c : RelayConfig)
    → c.proxy_override ≡ none
    → let first =
        relay_addr trim env (clear_relay_proxy_override (set_relay_proxy_override addr c)) in
      ((relay_addr trim env' (set_relay_proxy_override addr c)).0 ≡ addr)
      × (first.0 ≡ (relay_addr trim env c).0)
      × ((relay_addr trim env' first.1).0 ≡ first.0)
unfolding relay_addr set_relay_proxy_override clear_relay_proxy_override default_relay
relay_addr_override trim env env' addr c h = (refl, rw (h, relay_addr) refl, refl)
