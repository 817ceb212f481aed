-- ===== src/Coordinator/LookupPaths.antt =====
-- The paths of the receiver, and those on the LAN alone.
use p2pfileshare.Base.{
  Bool, true, false, List, [], ◌∷◌, String, Option, none, some, Res, returns, Bool-cases, inl, inr,
}
use p2pfileshare.Base.Bytes.{Bytes}
use p2pfileshare.Errors.{Error, peer_not_found}
use p2pfileshare.Discovery.Dht.{lookup_with_retry}
use p2pfileshare.HolePunch.{hole_punch}
use p2pfileshare.HolePunch.Laws.{hole_punch-Arrivals, only_strays, punched, broken}
use p2pfileshare.RelayClient.{Reply}
use p2pfileshare.Session.Either.{Session}
use p2pfileshare.Stun.{SocketAddr}
use p2pfileshare.Coordinator.Attempt.{Action}
use p2pfileshare.Coordinator.Network.{Crates, Quic, Socket, initiator, same_nat}
use p2pfileshare.Coordinator.Ensures.{
  Ensures, all_nil, gives, gives_up, waits, panics, bind-Ensures, result-Ensures, race-Ensures,
  act-Ensures,
}
use p2pfileshare.Coordinator.Steps.{
  Any, plain-Ensures, shake-Ensures, establish-Ensures, open_stream-Ensures,
}
use p2pfileshare.Coordinator.Rules.{Rules, via_relay-Ensures}
use p2pfileshare.Coordinator.Lookup.{
  Sighting, sighted, unseen, all_failed, ReceiverNet, sender_on_lan, dial_on_lan, lan_lookup_arm,
  first_peer, dial_punched, relay_after_timeout, after_lookup_punch, relay_same_nat, reach_sender,
  internet_lookup_arm, lookup_and_connect,
}
use p2pfileshare.Coordinator.LocalOnly.{announce_mdns_only_with_code, lookup_mdns_only}
use p2pfileshare.Coordinator.Loops.{accept_peer-Ensures}

pub first_peer-Ensures :
    {P : Action → Type 0} (peers : Option (List SocketAddr)) → Ensures P Any (first_peer peers)
unfolding first_peer
first_peer-Ensures none = waits all_nil
first_peer-Ensures (some []) = gives_up all_nil
first_peer-Ensures (some (addr ∷ peers)) = gives all_nil tt

pub sender_on_lan-Ensures :
    {P : Action → Type 0} (e : Error) (s : Sighting) → Ensures P Any (sender_on_lan e s)
unfolding sender_on_lan
sender_on_lan-Ensures e (sighted addr) = gives all_nil tt
sender_on_lan-Ensures e unseen = gives_up all_nil
sender_on_lan-Ensures e all_failed = panics all_nil

module _ {S : Type 0} (c : Crates S) (relayed : Bool) (P : Action → Type 0) (Q : Session → Type 0)
    (rules : Rules c relayed P Q) where
  open rules use {sets, announces, punches, sends, relays, directs, relayeds}

  dial_on_lan-Ensures : (n : ReceiverNet) → Ensures P Q (dial_on_lan c n)
  unfolding dial_on_lan
  dial_on_lan-Ensures n = bind-Ensures _ (plain-Ensures n.lan.bound) λ _ _.
      bind-Ensures _ (plain-Ensures n.lan.endpoint) λ _ _.
        bind-Ensures _ (plain-Ensures n.lan.config) λ _ _.
          bind-Ensures _ (establish-Ensures n.lan_quic) λ _ _.
            bind-Ensures _ (open_stream-Ensures n.lan_quic) λ s _.
              bind-Ensures _ (shake-Ensures c initiator s)
                λ hs k. result-Ensures (returns (directs hs k))

  lan_lookup_arm-Ensures : (n : ReceiverNet) → Ensures P Q (lan_lookup_arm c n)
  unfolding lan_lookup_arm
  lan_lookup_arm-Ensures n = bind-Ensures _ (sender_on_lan-Ensures peer_not_found n.sighting) λ _ _.
      bind-Ensures _ (dial_on_lan-Ensures n)
        λ session h. bind-Ensures _ (act-Ensures (sets _)) λ _ _. result-Ensures (returns h)

  dial_punched-Ensures : (n : ReceiverNet) (addr : SocketAddr) → Ensures P Q (dial_punched c n addr)
  unfolding dial_punched
  dial_punched-Ensures n addr = bind-Ensures _ (act-Ensures (sends 10 addr)) λ _ _.
      bind-Ensures _ (act-Ensures (sets _)) λ _ _.
        bind-Ensures _ (plain-Ensures n.internet.unwrapped) λ _ _.
          bind-Ensures _ (plain-Ensures n.internet.endpoint) λ _ _.
            bind-Ensures _ (plain-Ensures n.internet.config) λ _ _.
              bind-Ensures _ (establish-Ensures n.internet_quic) λ _ _.
                bind-Ensures _ (act-Ensures (sets _)) λ _ _.
                  bind-Ensures _ (open_stream-Ensures n.internet_quic) λ s _.
                    bind-Ensures _ (shake-Ensures c initiator s) λ hs k.
                      bind-Ensures _ (act-Ensures (sets _))
                        λ _ _. result-Ensures (returns (directs hs k))

  relay_after_timeout-Ensures :
      (code : String) (reply : Reply) → Ensures P Q (relay_after_timeout c relayed code reply)
  unfolding relay_after_timeout
  relay_after_timeout-Ensures code reply = elim (Bool-cases relayed) [
    | inl h ↦
        rw (h, relay_after_timeout)
          (bind-Ensures _ (act-Ensures (sets _))
            λ _ _. via_relay-Ensures c relayed P Q rules initiator code reply h)
    | inr h ↦ rw (h, relay_after_timeout) (gives_up all_nil)
  ]

  relay_same_nat-Ensures :
      (code : String) (reply : Reply) → Ensures P Q (relay_same_nat c relayed code reply)
  unfolding relay_same_nat
  relay_same_nat-Ensures code reply = elim (Bool-cases relayed) [
    | inl h ↦ rw (h, relay_same_nat) (via_relay-Ensures c relayed P Q rules initiator code reply h)
    | inr h ↦ rw (h, relay_same_nat) (gives_up all_nil)
  ]

  after_lookup_punch-Ensures :
      (n : ReceiverNet) (code : String) (addr : SocketAddr)
      (packets : List (Res String (Bytes × SocketAddr)))
      → Ensures P Q (after_lookup_punch c n relayed code addr (hole_punch addr packets))
  unfolding after_lookup_punch
  after_lookup_punch-Ensures n code addr packets = elim (hole_punch-Arrivals addr packets) [
    | only_strays _ _ _ r ↦ rw (r, after_lookup_punch) (relay_after_timeout-Ensures code n.reply)
    | punched _ _ _ _ r ↦ rw (r, after_lookup_punch) (dial_punched-Ensures n addr)
    | broken _ _ _ _ _ r ↦ rw (r, after_lookup_punch) (gives_up all_nil)
  ]

  reach_sender-Ensures :
      (n : ReceiverNet) (code : String) (same : Bool) (addr : SocketAddr)
      → Ensures P Q (reach_sender c n relayed code same addr)
  unfolding reach_sender
  reach_sender-Ensures n code true addr = relay_same_nat-Ensures code n.reply
  reach_sender-Ensures n code false addr = bind-Ensures _ (act-Ensures (sets _)) λ _ _.
      bind-Ensures _ (act-Ensures (punches addr))
        λ _ _. after_lookup_punch-Ensures n code addr n.internet.packets

  internet_lookup_arm-Ensures :
      (n : ReceiverNet) (code : String) → Ensures P Q (internet_lookup_arm c n relayed code)
  unfolding internet_lookup_arm
  internet_lookup_arm-Ensures n code = bind-Ensures _ (act-Ensures (sets _)) λ _ _.
      bind-Ensures _ (first_peer-Ensures (lookup_with_retry 30000 n.rounds)) λ addr _.
        bind-Ensures _ (act-Ensures (sets _)) λ _ _.
          bind-Ensures _ (plain-Ensures n.internet.bound) λ local_port _.
            bind-Ensures _ (act-Ensures (announces _ _))
              λ _ _. reach_sender-Ensures n code (same_nat _ addr) addr

  -- Everything that the receiver does, in every order of the arms.
  pub lookup-Ensures :
      (n : ReceiverNet) (code : String) (turns : List Bool)
      → Ensures P Q (lookup_and_connect c n code relayed turns)
  unfolding lookup_and_connect
  lookup-Ensures n code turns = bind-Ensures _ (act-Ensures (sets _)) λ _ _.
      race-Ensures false peer_not_found turns _ _ (lan_lookup_arm-Ensures n)
        (internet_lookup_arm-Ensures n (c.to_uppercase code))

  pub lookup_mdns-Ensures : (n : ReceiverNet) → Ensures P Q (lookup_mdns_only c n)
  unfolding lookup_mdns_only
  lookup_mdns-Ensures n =
      bind-Ensures _ (sender_on_lan-Ensures _ n.sighting) λ _ _. dial_on_lan-Ensures n

  pub announce_mdns-Ensures :
      (socket : Socket) (incoming : List (Option Quic))
      → Ensures P Q (announce_mdns_only_with_code c socket incoming)
  unfolding announce_mdns_only_with_code
  announce_mdns-Ensures socket incoming = bind-Ensures _ (plain-Ensures socket.config) λ _ _.
      bind-Ensures _ (plain-Ensures socket.bound) λ _ _.
        bind-Ensures _ (plain-Ensures socket.endpoint) λ _ _.
          bind-Ensures _ (accept_peer-Ensures c P incoming)
            λ hs k. result-Ensures (returns (directs hs k))
