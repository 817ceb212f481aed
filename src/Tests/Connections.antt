-- ===== src/Tests/Connections.antt =====
-- Sessions that are established in a small network.
use p2pfileshare.Base.{
  ◌++◌, ◌+◌, ◌≤◌, err, List, ◌∷◌, fail_if, ◌≡◌, refl, true, false, [], none, ok, arith,
}
use p2pfileshare.Errors.{Result, peer_not_found}
use p2pfileshare.Contacts.{new_contact}
use p2pfileshare.Discovery.Dht.{Round, lookup_with_retry}
use p2pfileshare.Handshake.{perform_handshake}
use p2pfileshare.HolePunch.{hole_punch}
use p2pfileshare.HolePunch.Laws.{Arrivals, hole_punch-Arrivals}
use p2pfileshare.Session.Either.{remote_pubkey}
use p2pfileshare.Stun.{SocketAddr, same_addr}
use p2pfileshare.Resume.{same_id}
use p2pfileshare.Coordinator.Attempt.{◌>>=◌, waiting, returned, outcome_of}
use p2pfileshare.Coordinator.Network.{make_peer_session}
use p2pfileshare.Coordinator.Announce.{
  lan_arm, internet_arm, announce_and_connect_with_code, poll_for_receiver,
}
use p2pfileshare.Coordinator.Announce.Poll.{
  poll_for_receiver-first_peer, poll_for_receiver-returned,
}
use p2pfileshare.Coordinator.Lookup.{
  lan_lookup_arm, internet_lookup_arm, lookup_and_connect, first_peer,
}
use p2pfileshare.Coordinator.LocalOnly.{announce_mdns_only_with_code, lookup_mdns_only}
use p2pfileshare.Coordinator.RelayOnly.{
  announce_via_relay_only_with_code, connect_via_relay_only,
  announce_via_relay_only_with_code_via_proxy, connect_via_relay_only_via_proxy,
}
use p2pfileshare.Coordinator.Contact.{connect_to_contact}
use p2pfileshare.Coordinator.Ensures.{Ensures}
use p2pfileshare.Coordinator.Sessions.{NotRelay, IsDirect, IsFresh, without_relay, sessions-IsFresh}
use p2pfileshare.Coordinator.Connected.{ShowsDirect}
use p2pfileshare.Coordinator.Shown.{arms-ShowsDirect}
use p2pfileshare.Coordinator.Verified.{connect_to_contact_verified}
use p2pfileshare.Tests.Network.{
  friend_session, crates, peer, socket, rounds, found, sender, receiver, schedule, friend,
  friend_net,
}

without_relay_example :
    Ensures NotRelay IsDirect
      (announce_and_connect_with_code crates sender "ABOUT-0001" false schedule)
    × Ensures NotRelay IsDirect (lookup_and_connect crates receiver "ABOUT-0001" false schedule)
without_relay_example = without_relay crates sender receiver "ABOUT-0001" schedule

sessions-IsFresh_example :
    Ensures
      (λ _. Unit {0})
      (IsFresh crates)
      (announce_and_connect_with_code crates sender "ABOUT-0001" true schedule)
    × Ensures
        (λ _. Unit {0})
        (IsFresh crates)
        (lookup_and_connect crates receiver "ABOUT-0001" true schedule)
    × Ensures
        (λ _. Unit {0})
        (IsFresh crates)
        (announce_mdns_only_with_code crates socket sender.incoming)
    × Ensures (λ _. Unit {0}) (IsFresh crates) (lookup_mdns_only crates receiver)
    × Ensures
        (λ _. Unit {0})
        (IsFresh crates)
        (announce_via_relay_only_with_code crates "ABOUT-0001" sender.reply)
    × Ensures
        (λ _. Unit {0})
        (IsFresh crates)
        (connect_via_relay_only crates "ABOUT-0001" sender.reply)
    × Ensures
        (λ _. Unit {0})
        (IsFresh crates)
        (announce_via_relay_only_with_code_via_proxy crates "ABOUT-0001" 6000 sender.reply)
    × Ensures
        (λ _. Unit {0})
        (IsFresh crates)
        (connect_via_relay_only_via_proxy crates "ABOUT-0001" 6000 sender.reply)
sessions-IsFresh_example =
    sessions-IsFresh crates sender receiver socket sender.incoming sender.reply "ABOUT-0001" true
      6000 schedule

arms-ShowsDirect_example :
    ShowsDirect 3 (lan_arm crates sender.incoming)
    × ShowsDirect 3 (internet_arm crates sender true "ABOUT-0001" none 5000)
    × ShowsDirect 3 (lan_lookup_arm crates receiver)
    × ShowsDirect 3 (internet_lookup_arm crates receiver true "ABOUT-0001")
arms-ShowsDirect_example =
    arms-ShowsDirect crates sender receiver true "ABOUT-0001" none 5000 3 (omega arith)

hole_punch-Arrivals_example : Arrivals peer socket.packets
hole_punch-Arrivals_example = hole_punch-Arrivals peer socket.packets

poll_for_receiver-first_peer_example :
    outcome_of (poll_for_receiver [] 5000 120000 0 found)
    ≡ outcome_of (first_peer (lookup_with_retry 120000 found))
poll_for_receiver-first_peer_example = poll_for_receiver-first_peer [] 5000 120000 0 found

poll_for_receiver-returned_example :
    (before : List Round) × (final : Round) × (rest : List Round) × (r : Result SocketAddr)
    × (before ++ (final ∷ rest) ≡ rounds)
    × (outcome_of (poll_for_receiver [] 5000 3000 0 before) ≡ waiting)
    × (outcome_of (poll_for_receiver [] 5000 3000 0 (before ++ (final ∷ []))) ≡ returned r)
    × (outcome_of (poll_for_receiver [] 5000 3000 0 rounds) ≡ returned r)
    × (final.now ≤ 3000 + 1600)
    × (r ≡ err peer_not_found → 3000 ≤ final.now)
poll_for_receiver-returned_example =
    poll_for_receiver-returned [] 5000 3000 0 1600 rounds (omega arith) (omega arith) (omega arith)

friend_connected :
    outcome_of (connect_to_contact crates friend friend_net) ≡ returned (ok friend_session)
unfolding connect_to_contact make_peer_session ◌>>=◌ new_contact lookup_with_retry hole_punch
    same_addr same_id perform_handshake fail_if friend_session
friend_connected = refl

connect_to_contact_verified_example :
    crates.hex_decode friend.public_key ≡ ok (remote_pubkey friend_session)
connect_to_contact_verified_example =
    connect_to_contact_verified crates friend friend_net friend_session friend_connected
