-- ===== src/Coordinator/Verified.antt =====
-- The identity of a contact.
use p2pfileshare.Base.{
  ◌≡◌, not, List, String, ok, arith, returns, Post, Post-of, Post-mono, Post-fail_if, fail_if,
  map_err, Res, Option-cases, inl, inr,
}
use p2pfileshare.Base.Bytes.{Bytes}
use p2pfileshare.Errors.{Error, connection_failed}
use p2pfileshare.Contacts.{Contact}
use p2pfileshare.Discovery.Dht.{Round, lookup_with_retry}
use p2pfileshare.HolePunch.{hole_punch}
use p2pfileshare.HolePunch.Laws.{hole_punch-Arrivals, only_strays, punched, broken}
use p2pfileshare.RelayClient.{connect_via_relay_at}
use p2pfileshare.Resume.{same_id}
use p2pfileshare.Resume.Laws.{same_id_iff}
use p2pfileshare.Session.Either.{Session, remote_pubkey}
use p2pfileshare.Stun.{SocketAddr}
use p2pfileshare.Coordinator.Attempt.{Action, returned, outcome_of}
use p2pfileshare.Coordinator.Network.{Crates, initiator, make_peer_session, from_split}
use p2pfileshare.Coordinator.Contact.{
  ContactNet, key_of_hex, lookup_contact_on_dht, resolve, dial_contact, relay_to_contact,
  after_contact_punch, connect_to_contact,
}
use p2pfileshare.Coordinator.Ensures.{
  Ensures, all_nil, gives, gives_up, bind-Ensures, result-Ensures, act-Ensures, outcome-Ensures,
  mono-Ensures,
}
use p2pfileshare.Coordinator.Steps.{
  Any, plain-Ensures, shake-Ensures, establish-Ensures, open_stream-Ensures,
}
use p2pfileshare.Coordinator.LookupPaths.{first_peer-Ensures}

abbrev Every : Action → Type 0
Every a = Unit {0}

same_key : (e : Error) (got key : Bytes) → Post (λ _. got ≡ key) (fail_if (not (same_id got key)) e)
same_key e got key =
    Post-mono (Post-fail_if (not (same_id got key)) e)
      λ _ h. (same_id_iff got key).0 (ground (arith, h))

module _ {S : Type 0} (c : Crates S) (contact : Contact) (n : ContactNet) where
  abbrev KeyIs : Bytes → Session → Type 0
  KeyIs key s = remote_pubkey s ≡ key

  dial_contact-Ensures :
      (key : Bytes) (addr : SocketAddr)
      → Ensures Every (KeyIs key) (dial_contact c contact n key addr)
  unfolding dial_contact make_peer_session remote_pubkey
  dial_contact-Ensures key addr = bind-Ensures _ (act-Ensures tt) λ _ _.
      bind-Ensures _ (plain-Ensures n.socket.unwrapped) λ _ _.
        bind-Ensures _ (plain-Ensures n.socket.endpoint) λ _ _.
          bind-Ensures _ (plain-Ensures n.socket.config) λ _ _.
            bind-Ensures _ (establish-Ensures n.dialled) λ _ _.
              bind-Ensures _ (open_stream-Ensures n.dialled) λ s _.
                bind-Ensures _ (shake-Ensures c initiator s) λ hs _.
                  bind-Ensures _ (result-Ensures (same_key _ hs.remote_pubkey key))
                    λ _ h. result-Ensures (returns h)

  relay_to_contact-Ensures :
      (key : Bytes) → Ensures Every (KeyIs key) (relay_to_contact c contact n key)
  unfolding relay_to_contact from_split remote_pubkey
  relay_to_contact-Ensures key = bind-Ensures _ (act-Ensures tt) λ _ _.
      bind-Ensures _ (plain-Ensures (connect_via_relay_at n.reply)) λ tcp _.
        bind-Ensures _ (shake-Ensures c initiator tcp) λ hs _.
          bind-Ensures _ (result-Ensures (same_key _ hs.remote_pubkey key))
            λ _ h. result-Ensures (returns h)

  after_contact_punch-Ensures :
      (key : Bytes) (addr : SocketAddr) (packets : List (Res String (Bytes × SocketAddr)))
      → Ensures Every
          (KeyIs key)
          (after_contact_punch c contact n key addr (hole_punch addr packets))
  unfolding after_contact_punch
  after_contact_punch-Ensures key addr packets = elim (hole_punch-Arrivals addr packets) [
    | only_strays _ _ _ r ↦ rw (r, after_contact_punch) (relay_to_contact-Ensures key)
    | punched _ _ _ _ r ↦ rw (r, after_contact_punch) (dial_contact-Ensures key addr)
    | broken _ _ _ _ _ r ↦ rw (r, after_contact_punch) (gives_up all_nil)
  ]

  on_dht-Ensures :
      (text : String) (rounds : List Round)
      → Ensures Every Any (lookup_contact_on_dht c text rounds)
  unfolding lookup_contact_on_dht
  on_dht-Ensures text rounds =
      bind-Ensures _
        (plain-Ensures (map_err (λ e. connection_failed "bad public key hex") (c.hex_decode text)))
        λ _ _. first_peer-Ensures (lookup_with_retry 20000 rounds)

  resolve-Ensures : (rounds : List Round) → Ensures Every Any (resolve c contact rounds)
  unfolding resolve
  resolve-Ensures rounds = elim (Option-cases contact.last_known_addr) [
    | inl e ↦ rw (e, resolve) (on_dht-Ensures contact.public_key rounds)
    | inr (text, e) ↦ elim (Option-cases (c.parse_addr text)) [
      | inl f ↦ rw (e, f, resolve) (on_dht-Ensures contact.public_key rounds)
      | inr (addr, f) ↦ rw (e, f, resolve) (gives all_nil tt)
    ]
  ]

  abbrev IsVerified : Session → Type 0
  IsVerified s = c.hex_decode contact.public_key ≡ ok (remote_pubkey s)

  key_of_hex-Post : (text : String) → Post (λ key. c.hex_decode text ≡ ok key) (key_of_hex c text)
  unfolding key_of_hex
  key_of_hex-Post text = Post-of (key_of_hex c text) λ key e. ground (arith, e)

  connect_to_contact-Ensures : Ensures Every IsVerified (connect_to_contact c contact n)
  unfolding connect_to_contact
  connect_to_contact-Ensures =
      bind-Ensures _ (result-Ensures (key_of_hex-Post contact.public_key)) λ key e.
        bind-Ensures _ (resolve-Ensures n.rounds) λ addr _.
          bind-Ensures _ (plain-Ensures n.socket.bound) λ port _.
            bind-Ensures _ (act-Ensures tt) λ _ _. bind-Ensures _ (act-Ensures tt) λ _ _.
              mono-Ensures (after_contact_punch-Ensures key addr n.socket.packets) λ s h. rw h e

  -- A session with a contact, directly or through the relay, has the very key that is stored for the
  -- contact: a peer with another key is refused, whatever the network answers.
  pub connect_to_contact_verified :
      (s : Session)
      → outcome_of (connect_to_contact c contact n) ≡ returned (ok s)
      → c.hex_decode contact.public_key ≡ ok (remote_pubkey s)
  connect_to_contact_verified s e = outcome-Ensures connect_to_contact-Ensures e
