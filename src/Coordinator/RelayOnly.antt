-- ===== src/Coordinator/RelayOnly.antt =====
-- The relay alone, directly or through a local proxy.
use p2pfileshare.Base.{ok, ℕ, String, ◌<>◌}
use p2pfileshare.Base.Text.{show}
use p2pfileshare.Discovery.ShareCode.{generate_share_code}
use p2pfileshare.RelayClient.{Reply, connect_via_relay_at}
use p2pfileshare.Session.Either.{Session}
use p2pfileshare.Coordinator.Attempt.{relay_connect_at, Attempt, ◌>>=◌, result, act}
use p2pfileshare.Coordinator.Network.{
  Crates, HandshakeRole, initiator, responder, relay_handshake, via_relay,
}

unfoldable pub announce_via_relay_only_with_code :
    {S : Type 0} → Crates S → String → Reply → Attempt Session
unfolding via_relay
announce_via_relay_only_with_code c code reply = via_relay c responder code reply

unfoldable pub connect_via_relay_only : {S : Type 0} → Crates S → String → Reply → Attempt Session
unfolding via_relay
connect_via_relay_only c code reply = via_relay c initiator (c.to_uppercase code) reply

unfoldable pub via_proxy :
    {S : Type 0} → Crates S → HandshakeRole → String → ℕ → Reply → Attempt Session
unfolding relay_handshake
via_proxy c role code proxy_port reply = do
  _ ← act (relay_connect_at ("127.0.0.1:" <> show proxy_port) code)
  tcp ← result (connect_via_relay_at reply)
  relay_handshake c role tcp

unfoldable pub announce_via_relay_only_with_code_via_proxy :
    {S : Type 0} → Crates S → String → ℕ → Reply → Attempt Session
unfolding via_proxy
announce_via_relay_only_with_code_via_proxy c code proxy_port reply =
    via_proxy c responder code proxy_port reply

unfoldable pub connect_via_relay_only_via_proxy :
    {S : Type 0} → Crates S → String → ℕ → Reply → Attempt Session
unfolding via_proxy
connect_via_relay_only_via_proxy c code proxy_port reply =
    via_proxy c initiator (c.to_uppercase code) proxy_port reply

-- `r` and `s` are random.
unfoldable pub announce_via_relay_only :
    {S : Type 0} → Crates S → ℕ → ℕ → Reply → Attempt (String × Session)
unfolding announce_via_relay_only_with_code
announce_via_relay_only c r s reply = do
  let code = generate_share_code c.words r s
  session ← announce_via_relay_only_with_code c code reply
  result (ok (code, session))
