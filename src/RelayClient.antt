-- ===== src/RelayClient.antt =====
-- p2pshare-core/src/nat/relay.rs: the address of the relay, the pairing token, and the start of a
-- connection through the relay. SHA-256, upper case and the bytes of a text are parameters.
pub mod Addresses
use text.Mathlib.Text.{◌==◌ as str_eq}
use p2pfileshare.Base.{
  ℕ, ◌==◌, if◌then◌else◌, Bool, true, false, not, String, ◌<>◌, List, [], ◌∷◌, take, Option, none,
  some, ok, err, ◌>>=◌, fail_if,
}
use p2pfileshare.Base.Bytes.{Bytes, read_exact}
use p2pfileshare.Base.Text.{show_hex}
use p2pfileshare.Errors.{Error, Result, io, connection_failed}

-- `RELAY_PROXY_OVERRIDE` and the cache of the default address.
pub record RelayConfig : Type 0 where
  pub proxy_override : Option String
  pub default_addr : Option String

unfoldable pub set_relay_proxy_override : String → RelayConfig → RelayConfig
set_relay_proxy_override addr c = record c { proxy_override = some addr }

unfoldable pub clear_relay_proxy_override : RelayConfig → RelayConfig
clear_relay_proxy_override c = record c { proxy_override = none }

-- The environment's RELAY_ADDR, if it is set and not blank.
unfoldable pub addr_of_env : (String → String) → Option String → String
addr_of_env trim (some val) = if str_eq (trim val) "" then "xend-relay.fly.dev:8443" else val
addr_of_env trim none = "xend-relay.fly.dev:8443"

-- `get_or_init`: the environment is asked once.
unfoldable pub default_relay : (String → String) → Option String → Option String → String
unfolding addr_of_env
default_relay trim env (some addr) = addr
default_relay trim env none = addr_of_env trim env

-- The address, and the configuration with the cache filled if it was asked.
unfoldable pub relay_addr : (String → String) → Option String → RelayConfig → String × RelayConfig
unfolding default_relay
relay_addr trim env c = elim c.proxy_override [
  | some addr ↦ (addr, c)
  | none ↦
      let addr = default_relay trim env c.default_addr in
      (addr, record c { default_addr = some addr })
]

unfoldable pub relay_token_for : (String → Bytes) → (String → String) → String → Bytes
relay_token_for sha256 to_uppercase code = take 16 (sha256 (to_uppercase code <> ":relay"))

-- What the relay sends until the time is over: nothing, or the bytes of the stream.
pub data Reply : Type 0 where
  refused : String → Reply
  silent : Reply
  bytes : Bytes → Reply

expect_paired : Bytes × Bytes → Result Bytes
expect_paired ([], s) = err (io "early eof")
expect_paired (sig ∷ _, s) = do
  _ ←
      fail_if (not (sig == 0x01))
        (connection_failed ("relay: unexpected pairing byte " <> show_hex sig))
  ok s

-- The stream behind the signal. The token was written before.
unfoldable pub connect_via_relay_at : Reply → Result Bytes
unfolding expect_paired
connect_via_relay_at (refused e) = err (connection_failed ("relay connect: " <> e))
connect_via_relay_at silent = err (connection_failed "relay: timed out waiting for peer")
connect_via_relay_at (bytes s) = read_exact (io "early eof") 1 s >>= expect_paired
