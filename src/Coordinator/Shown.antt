-- ===== src/Coordinator/Shown.antt =====
-- The phase that the arms of either side show when they return.
use p2pfileshare.Base.{ℕ, ◌≡◌, ◌≢◌, refl, Bool, true, false, List, String, Option, arith, returns}
use p2pfileshare.Errors.{peer_not_found}
use p2pfileshare.Discovery.Dht.{lookup_with_retry}
use p2pfileshare.HolePunch.Laws.{hole_punch-Arrivals, only_strays, punched, broken}
use p2pfileshare.RelayClient.{Reply, connect_via_relay_at}
use p2pfileshare.Session.Either.{direct}
use p2pfileshare.Session.Peer.{PeerSession}
use p2pfileshare.Stun.{SocketAddr}
use p2pfileshare.Coordinator.Phase.{connected}
use p2pfileshare.Coordinator.Attempt.{set, act}
use p2pfileshare.Coordinator.Network.{
  Crates, Quic, HandshakeRole, initiator, responder, make_peer_session, relay_handshake, via_relay,
  same_nat,
}
use p2pfileshare.Coordinator.Announce.{
  SenderNet, lan_arm, incoming_of, serve, fall_back, after_punch, choose_path, reach_receiver,
  internet_arm,
}
use p2pfileshare.Coordinator.Lookup.{
  ReceiverNet, dial_on_lan, lan_lookup_arm, dial_punched, relay_after_timeout, after_lookup_punch,
  relay_same_nat, reach_sender, internet_lookup_arm,
}
use p2pfileshare.Coordinator.Ensures.{Ensures, all_nil, bind-Ensures, act-Ensures, result-Ensures}
use p2pfileshare.Coordinator.Steps.{
  Any, plain-Ensures, shake-Ensures, establish-Ensures, open_stream-Ensures,
}
use p2pfileshare.Coordinator.Connected.{
  Unset, Marks, unmarked_error, unmarked_relay, bind-Marks, connected-Marks, ShowsDirect,
  Marks-ShowsDirect,
}
use p2pfileshare.Coordinator.Loops.{accept_peer-Ensures, poll-Ensures}
use p2pfileshare.Coordinator.LookupPaths.{first_peer-Ensures, sender_on_lan-Ensures}

-- A phase that is not `CONNECTED`.
step_to : (phase : ℕ) → phase ≢ connected → Ensures Unset Any (act (set phase))
step_to phase h = act-Ensures h

module _ {S : Type 0} (c : Crates S) where
  via_relay-Marks :
      (role : HandshakeRole) (code : String) (reply : Reply) → Marks (via_relay c role code reply)
  unfolding via_relay relay_handshake
  via_relay-Marks role code reply = bind-Marks _ (act-Ensures tt) λ _ _.
      bind-Marks _ (plain-Ensures (connect_via_relay_at reply))
        λ tcp _. bind-Marks _ (shake-Ensures c role tcp) λ hs _. unmarked_relay all_nil

  lan_arm-Marks : (incoming : List (Option Quic)) → Marks (lan_arm c incoming)
  unfolding lan_arm
  lan_arm-Marks incoming =
      bind-Marks _ (accept_peer-Ensures c Unset incoming)
        λ hs _. connected-Marks (make_peer_session c hs)

  serve-Marks : (n : SenderNet) → Marks (serve c n)
  unfolding serve
  serve-Marks n = bind-Marks _ (step_to _ (omega arith)) λ _ _.
      bind-Marks _ (plain-Ensures n.internet.unwrapped) λ _ _.
        bind-Marks _ (plain-Ensures n.internet.endpoint) λ _ _.
          bind-Marks _ (plain-Ensures (incoming_of n.accepted)) λ q _.
            bind-Marks _ (establish-Ensures q) λ _ _. bind-Marks _ (step_to _ (omega arith)) λ _ _.
              bind-Marks _ (open_stream-Ensures q) λ s _.
                bind-Marks _ (shake-Ensures c responder s)
                  λ hs _. connected-Marks (make_peer_session c hs)

  fall_back-Marks :
      (allow_relay : Bool) (why code : String) (reply : Reply)
      → Marks (fall_back c allow_relay why code reply)
  unfolding fall_back
  fall_back-Marks false why code reply = unmarked_error all_nil
  fall_back-Marks true why code reply =
      bind-Marks _ (step_to _ (omega arith)) λ _ _. via_relay-Marks responder code reply

  choose_path-Marks :
      (n : SenderNet) (allow_relay : Bool) (code : String) (same : Bool) (addr : SocketAddr)
      → Marks (choose_path c n allow_relay code same addr)
  unfolding choose_path
  choose_path-Marks n allow_relay code true addr = fall_back-Marks allow_relay _ code n.reply
  choose_path-Marks n allow_relay code false addr = bind-Marks _ (step_to _ (omega arith)) λ _ _.
      bind-Marks _ (act-Ensures tt) λ _ _. (elim (hole_punch-Arrivals addr n.internet.packets) [
        | only_strays _ _ _ r ↦ rw (r, after_punch) (fall_back-Marks allow_relay _ code n.reply)
        | punched _ _ _ _ r ↦ rw (r, after_punch) (serve-Marks n)
        | broken _ _ _ _ _ r ↦ rw (r, after_punch) (unmarked_error all_nil)
      ])

  internet_arm-Marks :
      (n : SenderNet) (allow_relay : Bool) (code : String) (own_ext : Option SocketAddr) (port : ℕ)
      → Marks (internet_arm c n allow_relay code own_ext port)
  unfolding internet_arm reach_receiver
  internet_arm-Marks n allow_relay code own_ext port =
      bind-Marks _ (poll-Ensures Unset (λ _ _. tt) _ port _ 0 n.rounds) λ addr _.
        bind-Marks _ (step_to _ (omega arith))
          λ _ _. choose_path-Marks n allow_relay code (same_nat own_ext addr) addr

  dial_on_lan-direct :
      (n : ReceiverNet)
      → Ensures Unset (λ session. (s : PeerSession) × (session ≡ direct s)) (dial_on_lan c n)
  unfolding dial_on_lan
  dial_on_lan-direct n = bind-Ensures _ (plain-Ensures n.lan.bound) λ _ _.
      bind-Ensures _ (plain-Ensures n.lan.endpoint) λ _ _.
        bind-Ensures _ (plain-Ensures n.lan.config) λ _ _.
          bind-Ensures _ (establish-Ensures n.lan_quic) λ _ _.
            bind-Ensures _ (open_stream-Ensures n.lan_quic) λ s _.
              bind-Ensures _ (shake-Ensures c initiator s)
                λ hs _. result-Ensures (returns (make_peer_session c hs, refl))

  lan_lookup_arm-Marks : (n : ReceiverNet) → Marks (lan_lookup_arm c n)
  unfolding lan_lookup_arm
  lan_lookup_arm-Marks n =
      bind-Marks _ (sender_on_lan-Ensures peer_not_found n.sighting)
        λ _ _. bind-Marks _ (dial_on_lan-direct n) λ session (s, e). rw e (connected-Marks s)

  dial_punched-Marks : (n : ReceiverNet) (addr : SocketAddr) → Marks (dial_punched c n addr)
  unfolding dial_punched
  dial_punched-Marks n addr = bind-Marks _ (act-Ensures tt) λ _ _.
      bind-Marks _ (step_to _ (omega arith)) λ _ _.
        bind-Marks _ (plain-Ensures n.internet.unwrapped) λ _ _.
          bind-Marks _ (plain-Ensures n.internet.endpoint) λ _ _.
            bind-Marks _ (plain-Ensures n.internet.config) λ _ _.
              bind-Marks _ (establish-Ensures n.internet_quic) λ _ _.
                bind-Marks _ (step_to _ (omega arith)) λ _ _.
                  bind-Marks _ (open_stream-Ensures n.internet_quic) λ s _.
                    bind-Marks _ (shake-Ensures c initiator s)
                      λ hs _. connected-Marks (make_peer_session c hs)

  relay_after_timeout-Marks :
      (allow_relay : Bool) (code : String) (reply : Reply)
      → Marks (relay_after_timeout c allow_relay code reply)
  unfolding relay_after_timeout
  relay_after_timeout-Marks false code reply = unmarked_error all_nil
  relay_after_timeout-Marks true code reply =
      bind-Marks _ (step_to _ (omega arith)) λ _ _. via_relay-Marks initiator code reply

  relay_same_nat-Marks :
      (allow_relay : Bool) (code : String) (reply : Reply)
      → Marks (relay_same_nat c allow_relay code reply)
  unfolding relay_same_nat
  relay_same_nat-Marks false code reply = unmarked_error all_nil
  relay_same_nat-Marks true code reply = via_relay-Marks initiator code reply

  reach_sender-Marks :
      (n : ReceiverNet) (allow_relay : Bool) (code : String) (same : Bool) (addr : SocketAddr)
      → Marks (reach_sender c n allow_relay code same addr)
  unfolding reach_sender
  reach_sender-Marks n allow_relay code true addr = relay_same_nat-Marks allow_relay code n.reply
  reach_sender-Marks n allow_relay code false addr = bind-Marks _ (step_to _ (omega arith)) λ _ _.
      bind-Marks _ (act-Ensures tt) λ _ _. (elim (hole_punch-Arrivals addr n.internet.packets) [
        | only_strays _ _ _ r ↦
            rw (r, after_lookup_punch) (relay_after_timeout-Marks allow_relay code n.reply)
        | punched _ _ _ _ r ↦ rw (r, after_lookup_punch) (dial_punched-Marks n addr)
        | broken _ _ _ _ _ r ↦ rw (r, after_lookup_punch) (unmarked_error all_nil)
      ])

  internet_lookup_arm-Marks :
      (n : ReceiverNet) (allow_relay : Bool) (code : String)
      → Marks (internet_lookup_arm c n allow_relay code)
  unfolding internet_lookup_arm
  internet_lookup_arm-Marks n allow_relay code = bind-Marks _ (step_to _ (omega arith)) λ _ _.
      bind-Marks _ (first_peer-Ensures (lookup_with_retry 30000 n.rounds)) λ addr _.
        bind-Marks _ (step_to _ (omega arith)) λ _ _.
          bind-Marks _ (plain-Ensures n.internet.bound) λ local_port _.
            bind-Marks _ (act-Ensures tt)
              λ _ _. reach_sender-Marks n allow_relay code (same_nat _ addr) addr

  -- If the phase before is not `CONNECTED`, then for each of the four arms, those of the sender and
  -- those of the receiver, `CONNECTED` is shown after it exactly if the arm has returned a direct
  -- session. So neither a session through the relay nor an error shows it.
  pub arms-ShowsDirect :
      (n : SenderNet) (m : ReceiverNet) (allow_relay : Bool) (code : String)
      (own_ext : Option SocketAddr) (port phase : ℕ)
      → phase ≢ connected
      → ShowsDirect phase (lan_arm c n.incoming)
        × ShowsDirect phase (internet_arm c n allow_relay code own_ext port)
        × ShowsDirect phase (lan_lookup_arm c m)
        × ShowsDirect phase (internet_lookup_arm c m allow_relay code)
  arms-ShowsDirect n m allow_relay code own_ext port phase h = (
    Marks-ShowsDirect phase h (lan_arm-Marks n.incoming),
    Marks-ShowsDirect phase h (internet_arm-Marks n allow_relay code own_ext port),
    Marks-ShowsDirect phase h (lan_lookup_arm-Marks m),
    Marks-ShowsDirect phase h (internet_lookup_arm-Marks m allow_relay code),
  )
