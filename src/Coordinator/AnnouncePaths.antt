-- ===== src/Coordinator/AnnouncePaths.antt =====
-- The paths of the sender.
use p2pfileshare.Base.{
  ℕ, Bool, true, false, List, String, Option, Res, returns, Bool-cases, inl, inr,
}
use p2pfileshare.Base.Bytes.{Bytes}
use p2pfileshare.Errors.{peer_not_found}
use p2pfileshare.HolePunch.{hole_punch}
use p2pfileshare.HolePunch.Laws.{hole_punch-Arrivals, only_strays, punched, broken}
use p2pfileshare.RelayClient.{Reply}
use p2pfileshare.Session.Either.{Session}
use p2pfileshare.Stun.{SocketAddr}
use p2pfileshare.Coordinator.Attempt.{Action}
use p2pfileshare.Coordinator.Network.{Crates, Quic, responder, same_nat}
use p2pfileshare.Coordinator.Announce.{
  SenderNet, lan_arm, incoming_of, serve, fall_back, after_punch, choose_path, reach_receiver,
  internet_arm, announce_and_connect_with_code,
}
use p2pfileshare.Coordinator.Ensures.{
  Ensures, all_nil, gives_up, bind-Ensures, result-Ensures, race-Ensures, act-Ensures,
}
use p2pfileshare.Coordinator.Steps.{
  plain-Ensures, shake-Ensures, establish-Ensures, open_stream-Ensures,
}
use p2pfileshare.Coordinator.Loops.{accept_peer-Ensures, poll-Ensures}
use p2pfileshare.Coordinator.Rules.{Rules, via_relay-Ensures}

module _ {S : Type 0} (c : Crates S) (relayed : Bool) (P : Action → Type 0) (Q : Session → Type 0)
    (rules : Rules c relayed P Q) where
  open rules use {sets, announces, punches, sends, relays, directs, relayeds}

  pub lan_arm-Ensures : (incoming : List (Option Quic)) → Ensures P Q (lan_arm c incoming)
  unfolding lan_arm
  lan_arm-Ensures incoming =
      bind-Ensures _ (accept_peer-Ensures c P incoming)
        λ hs k. bind-Ensures _ (act-Ensures (sets _)) λ _ _. result-Ensures (returns (directs hs k))

  serve-Ensures : (n : SenderNet) → Ensures P Q (serve c n)
  unfolding serve
  serve-Ensures n = bind-Ensures _ (act-Ensures (sets _)) λ _ _.
      bind-Ensures _ (plain-Ensures n.internet.unwrapped) λ _ _.
        bind-Ensures _ (plain-Ensures n.internet.endpoint) λ _ _.
          bind-Ensures _ (plain-Ensures (incoming_of n.accepted)) λ q _.
            bind-Ensures _ (establish-Ensures q) λ _ _. bind-Ensures _ (act-Ensures (sets _)) λ _ _.
              bind-Ensures _ (open_stream-Ensures q) λ s _.
                bind-Ensures _ (shake-Ensures c responder s) λ hs k.
                  bind-Ensures _ (act-Ensures (sets _))
                    λ _ _. result-Ensures (returns (directs hs k))

  fall_back-Ensures :
      (why code : String) (reply : Reply) → Ensures P Q (fall_back c relayed why code reply)
  unfolding fall_back
  fall_back-Ensures why code reply = elim (Bool-cases relayed) [
    | inl h ↦
        rw (h, fall_back)
          (bind-Ensures _ (act-Ensures (sets _))
            λ _ _. via_relay-Ensures c relayed P Q rules responder code reply h)
    | inr h ↦ rw (h, fall_back) (gives_up all_nil)
  ]

  after_punch-Ensures :
      (n : SenderNet) (code : String) (addr : SocketAddr)
      (packets : List (Res String (Bytes × SocketAddr)))
      → Ensures P Q (after_punch c n relayed code (hole_punch addr packets))
  unfolding after_punch
  after_punch-Ensures n code addr packets = elim (hole_punch-Arrivals addr packets) [
    | only_strays _ _ _ r ↦ rw (r, after_punch) (fall_back-Ensures _ code n.reply)
    | punched _ _ _ _ r ↦ rw (r, after_punch) (serve-Ensures n)
    | broken _ _ _ _ _ r ↦ rw (r, after_punch) (gives_up all_nil)
  ]

  choose_path-Ensures :
      (n : SenderNet) (code : String) (same : Bool) (addr : SocketAddr)
      → Ensures P Q (choose_path c n relayed code same addr)
  unfolding choose_path
  choose_path-Ensures n code true addr = fall_back-Ensures _ code n.reply
  choose_path-Ensures n code false addr = bind-Ensures _ (act-Ensures (sets _)) λ _ _.
      bind-Ensures _ (act-Ensures (punches addr))
        λ _ _. after_punch-Ensures n code addr n.internet.packets

  internet_arm-Ensures :
      (n : SenderNet) (code : String) (own_ext : Option SocketAddr) (port : ℕ)
      → Ensures P Q (internet_arm c n relayed code own_ext port)
  unfolding internet_arm reach_receiver
  internet_arm-Ensures n code own_ext port =
      bind-Ensures _ (poll-Ensures P announces _ port _ 0 n.rounds) λ addr _.
        bind-Ensures _ (act-Ensures (sets _))
          λ _ _. choose_path-Ensures n code (same_nat own_ext addr) addr

  -- Everything that the sender does, in every order of the arms.
  pub announce-Ensures :
      (n : SenderNet) (code : String) (turns : List Bool)
      → Ensures P Q (announce_and_connect_with_code c n code relayed turns)
  unfolding announce_and_connect_with_code
  announce-Ensures n code turns = bind-Ensures _ (plain-Ensures n.lan.config) λ _ _.
      bind-Ensures _ (plain-Ensures n.lan.bound) λ _ _.
        bind-Ensures _ (plain-Ensures n.lan.endpoint) λ _ _.
          bind-Ensures _ (plain-Ensures n.internet.config) λ _ _.
            bind-Ensures _ (plain-Ensures n.internet.bound) λ local_port _.
              bind-Ensures _ (act-Ensures (sets _)) λ _ _.
                bind-Ensures _ (act-Ensures (announces _ _)) λ _ _.
                  bind-Ensures _ (act-Ensures (sets _)) λ _ _.
                    race-Ensures true peer_not_found turns _ _ (lan_arm-Ensures n.incoming)
                      (internet_arm-Ensures n code _ _)
