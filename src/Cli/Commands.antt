-- ===== src/Cli/Commands.antt =====
-- The commands `identity`, `lookup`, `send`, `receive`, `announce` and `connect`.
use p2pfileshare.Base.{
  ℕ, ◌-◌, ◌/◌, ltb, if◌then◌else◌, String, ◌<>◌, Bool, true, false, List, [], ◌∷◌, length, map,
  Option, none, some, ok, err,
}
use p2pfileshare.Base.Bytes.{Bytes}
use p2pfileshare.Base.Text.{show}
use p2pfileshare.Errors.{Error, Result}
use p2pfileshare.Session.Either.{Session, remote_fingerprint, remote_pubkey}
use p2pfileshare.Stun.{SocketAddr}
use p2pfileshare.Discovery.ShareCode.{to_infohash}
use p2pfileshare.Discovery.Dht.{Round, lookup_with_retry}
use p2pfileshare.Identity.Storage.{UserIdentity, Machine, IdentityFile, load, save, reset}
use p2pfileshare.Coordinator.Attempt.{outcome_of}
use p2pfileshare.Coordinator.Network.{Crates}
use p2pfileshare.Coordinator.Announce.{SenderNet, announce_and_connect}
use p2pfileshare.Coordinator.Lookup.{ReceiverNet, lookup_and_connect}
use p2pfileshare.Coordinator.RelayOnly.{announce_via_relay_only, connect_via_relay_only}
use p2pfileshare.Api.Sessions.{Host}
use p2pfileshare.Cli.Printed.{
  Line, stdout, stderr, Printed, printed, hangs, ◌>>=◌, give, say, exit_after, try, await,
}

-- The age of a time in the past, in whole units that are rounded down.
unfoldable pub fmt_age : ℕ → ℕ → String
unfolding show
fmt_age now secs =
    if ltb now secs
    then show secs <> "s"
    else let d = now - secs in
      if ltb d 60
      then show d <> "s ago"
      else if ltb d 3600
      then show (d / 60) <> "m ago"
      else if ltb d 86400
      then show (d / 3600) <> "h ago"
      else show (d / 86400) <> "d ago"

unfoldable pub load_identity_or_exit :
    (Error → String) → Result (Option UserIdentity) → Printed UserIdentity
load_identity_or_exit to_string (ok (some id)) = give id
load_identity_or_exit to_string (ok none) = exit_after (stdout "key not found")
load_identity_or_exit to_string (err e) =
    exit_after (stderr ("error loading identity: " <> to_string e))

-- The identity that is loaded, or a fresh one.
unfoldable pub chosen :
    (Error → String) → Machine → Bool → IdentityFile → Printed (UserIdentity × IdentityFile)
unfolding load_identity_or_exit load reset
chosen to_string m true file = do
  _ ← say (stderr "Regenerating identity..." ∷ [])
  try (reset m file)
chosen to_string m false file = do
  id ← load_identity_or_exit to_string (load m file)
  give (id, file)

unfoldable pub renamed :
    Machine → Option String → UserIdentity × IdentityFile → Printed (UserIdentity × IdentityFile)
unfolding save
renamed m none (id, file) = give (id, file)
renamed m (some name) (id, file) =
    let id = record id { display_name = name } in do file' ← try (save m id file); give (id, file')

unfoldable pub identity :
    (Error → String)
    → Machine
    → ℕ
    → Option String
    → Bool
    → IdentityFile
    → Printed (UserIdentity × IdentityFile)
unfolding chosen renamed fmt_age
identity to_string m now name do_reset file = do
  found ← chosen to_string m do_reset file
  (id, file') ← renamed m name found
  _ ← say (
      stdout ("Name:        " <> id.display_name)
      ∷ stdout ("Fingerprint: " <> id.fingerprint)
      ∷ stdout ("Public key:  " <> id.public_key)
      ∷ stdout ("Created:     " <> fmt_age now id.created_at)
      ∷ [])
  give (id, file')

unfoldable pub peer_lines : (SocketAddr → String) → List SocketAddr → List Line
peer_lines show_addr [] =
    stdout "No peers found after 30s."
    ∷ stdout "Check that the sender's `announce` is still running and that"
    ∷ stdout "UDP traffic is not blocked by a firewall."
    ∷ []
peer_lines show_addr (addr ∷ peers) =
    stdout ("Found " <> (show (length (addr ∷ peers)) <> " peer(s):"))
    ∷ map (λ a. stdout ("  " <> show_addr a)) (addr ∷ peers)

-- `none` of the polling is a lookup that still runs.
unfoldable pub found_peers : (SocketAddr → String) → Option (List SocketAddr) → Printed (Unit {0})
unfolding peer_lines
found_peers show_addr none = printed [] hangs
found_peers show_addr (some peers) = say (peer_lines show_addr peers)

unfoldable pub own_line : UserIdentity → Line
own_line id = stdout ("Your fingerprint: " <> id.fingerprint)

module _ {S : Type 0} (h : Host S) (c : Crates S) (hex_encode : Bytes → String) where
  unfoldable pub lookup : (SocketAddr → String) → ℕ → List Round → String → Printed (Unit {0})
  unfolding to_infohash lookup_with_retry found_peers
  lookup show_addr now rounds code =
      let code = c.to_uppercase code in
      let infohash = to_infohash (λ text. c.sha1 (c.as_bytes text)) now code in
      do
        _ ← try h.dht
        _ ← say (
            stdout ("Looking up " <> (code <> " on DHT..."))
            ∷ stdout ("Infohash: " <> hex_encode infohash)
            ∷ stdout "(retrying for up to 30s — DHT may need time to propagate)"
            ∷ [])
        found_peers show_addr (lookup_with_retry 30000 rounds)

  -- The two random numbers are those of the share code.
  unfoldable pub announced :
      SenderNet → ℕ → ℕ → List Bool → Bool → Crates S → Printed (String × Session)
  unfolding announce_via_relay_only announce_and_connect
  announced n x y turns true c = await (outcome_of (announce_via_relay_only c x y n.reply))
  announced n x y turns false c = do
    _ ← try h.dht
    await (outcome_of (announce_and_connect c n x y turns))

  unfoldable pub connected_to : ReceiverNet → List Bool → Bool → Crates S → String → Printed Session
  unfolding connect_via_relay_only lookup_and_connect
  connected_to n turns true c code = await (outcome_of (connect_via_relay_only c code n.reply))
  connected_to n turns false c code = do
    _ ← try h.dht
    await (outcome_of (lookup_and_connect c n code true turns))

  -- `run` is the transfer on a session.
  unfoldable pub send :
      SenderNet
      → ℕ
      → ℕ
      → List Bool
      → (Session → Result (Unit {0}))
      → String
      → Bool
      → Bool
      → Printed (Unit {0})
  unfolding load_identity_or_exit own_line announced remote_fingerprint
  send n x y turns run file false via_relay =
      exit_after (stderr ("error: file not found: " <> file))
  send n x y turns run file true via_relay = do
    id ← load_identity_or_exit h.to_string h.identity
    _ ← say (own_line id ∷ [])
    (code, session) ← announced n x y turns via_relay (h.crates id)
    _ ← say (
        stdout ""
        ∷ stdout ("Share code  : " <> code)
        ∷ stdout ("Connected to: " <> remote_fingerprint session)
        ∷ stdout ("Sending " <> (file <> "..."))
        ∷ [])
    _ ← try (run session)
    say (stdout "Done." ∷ [])

  unfoldable pub receive :
      ReceiverNet → List Bool → (Session → Result String) → Bool → String → Printed (Unit {0})
  unfolding load_identity_or_exit own_line connected_to remote_fingerprint
  receive n turns run via_relay code = do
    id ← load_identity_or_exit h.to_string h.identity
    _ ← say (own_line id ∷ stdout ("Connecting via code: " <> c.to_uppercase code) ∷ [])
    session ← connected_to n turns via_relay (h.crates id) code
    _ ← say (
        stdout ""
        ∷ stdout ("Connected to: " <> remote_fingerprint session)
        ∷ stdout "Receiving..."
        ∷ [])
    saved_to ← try (run session)
    say (stdout ("Saved to: " <> saved_to) ∷ [])

  unfoldable pub announce : SenderNet → ℕ → ℕ → List Bool → Printed (Unit {0})
  unfolding load_identity_or_exit own_line announce_and_connect remote_fingerprint remote_pubkey
  announce n x y turns = do
    id ← load_identity_or_exit h.to_string h.identity
    _ ← try h.dht
    _ ← say (own_line id ∷ [])
    (code, session) ← await (outcome_of (announce_and_connect (h.crates id) n x y turns))
    say (
        stdout ""
        ∷ stdout ("Share code used : " <> code)
        ∷ stdout ("Remote peer     : " <> remote_fingerprint session)
        ∷ stdout ("Remote pubkey   : " <> hex_encode (remote_pubkey session))
        ∷ [])

  unfoldable pub connect : ReceiverNet → List Bool → String → Printed (Unit {0})
  unfolding load_identity_or_exit own_line lookup_and_connect remote_fingerprint remote_pubkey
  connect n turns code = do
    id ← load_identity_or_exit h.to_string h.identity
    _ ← try h.dht
    _ ← say (own_line id ∷ stdout ("Connecting via: " <> c.to_uppercase code) ∷ [])
    session ← await (outcome_of (lookup_and_connect (h.crates id) n code true turns))
    say (
        stdout ""
        ∷ stdout ("Remote peer   : " <> remote_fingerprint session)
        ∷ stdout ("Remote pubkey : " <> hex_encode (remote_pubkey session))
        ∷ [])
