-- ===== src/Receiver/Delivery.antt =====
-- A transfer of transfer/receiver.rs from the manifest to the end: what it leaves on the disk.
use p2pfileshare.Base.{
  ℕ, ◌^◌, ◌/◌, ◌≤◌, ◌<◌, ◌≡◌, refl, sym, ap, subst, true, String, some, ok, err, arith, Post,
  returns, Post->>=, Post-eq-ok, Post-mono, Post-of, Post-both, Post-self, Option-cases, Res-cases,
  inl, inr,
}
use p2pfileshare.Base.Bytes.{Bytes}
use p2pfileshare.Base.Sets.{contains, is_empty, Ascending, contains-missing, is_empty-contains}
use p2pfileshare.Manifest.{
  FileManifest, ControlMessage, manifest, manifest_ack, resume_request, complete, error,
  TransferMode, bulk, streaming, sum_chunks,
}
use p2pfileshare.Manifest.Chunks.{IsSound}
use p2pfileshare.Manifest.Sums.{sum_chunks-le_total}
use p2pfileshare.Progress.{Progress, reset, advance}
use p2pfileshare.Files.{File, create}
use p2pfileshare.Resume.{TransferState, find_resumable, missing_chunks, new, save}
use p2pfileshare.Session.Cipher.{Noise}
use p2pfileshare.Session.Peer.{PeerSession, recv_ctrl, send_ctrl}
use p2pfileshare.Receiver.{Env, Recv, send, finish, receive_loop, receive_chunks}
use p2pfileshare.Receiver.SubMessages.{IsShort}
use p2pfileshare.Receiver.Frames.{receive_loop_rule}
use p2pfileshare.Receiver.View.{View, view, land, flush-view}
use p2pfileshare.Receiver.Invariant.{Inv, Kept, receive_frame-Kept}
use p2pfileshare.Receiver.Integrity.{IsAuthentic, Holds, receive_frame-Holds, in_count}
use p2pfileshare.Receiver.Start.{
  Disk, output_path, waiting, begin, prepare, receive_manifest, receive_first, receive_file_direct,
}

-- What the last steps keep: the landed file is the file.
send_file :
    (env : Env) (r : Recv) (msg : ControlMessage)
    → Post (λ r'. (r'.file ≡ r.file) × (r'.state ≡ r.state) × (view r' ≡ view r)) (send env r msg)
unfolding send send_ctrl
send_file env r msg = Post-of _ λ r' e. ground (arith, e)

pub finish_file : (env : Env) (r : Recv) → Post (λ r'. r'.file ≡ (view r).landed) (finish env r)
unfolding finish
finish_file env r = Post->>= _ (Post-of _ (λ r₁. flush-view env r)) λ r₁ (same, idle).
    Post->>= _ (Post-self (save env.json r₁.state r₁.store)) λ store _.
      Post->>= _ (send_file env (record r₁ { store = store }) complete) λ r₂ h.
        returns (ground (arith, h.0, ap (λ v. v.landed) same, ap (λ w. land w r₁.file) idle))

module _ (m : FileManifest) (sound : IsSound m) (small : m.total_size < 2 ^ 63) (src : File) where
  -- A saved state that tells the truth: it is of this manifest's chunks, and the file on the disk
  -- has the sender's bytes in the chunks it lists.
  pub record IsGenuine (x : TransferState) (f : File) : Type 0 where
    pub count : x.manifest.chunk_count ≡ m.chunk_count
    pub ordered : Ascending 0 m.chunk_count x.chunks_done
    pub len : f.len ≡ m.total_size
    pub bytes :
        (k : ℕ)
        → k < m.total_size
        → contains x.chunks_done (k / m.chunk_size) ≡ true
        → f.byte k ≡ src.byte k

  new-IsGenuine : (path : String) → IsGenuine (new m path) (create m.total_size)
  unfolding new create contains
  new-IsGenuine path = record { count = refl; ordered = tt; len = refl; bytes = λ k _ e. cc }

  abbrev Started : Noise → View → Type 0
  Started n v = Kept m sound small n v × Holds m sound small src v

  prepare-Started :
      (r : Recv)
      → IsGenuine r.state (view r).landed
      → Started r.session.noise_state (view (prepare m r))
  unfolding prepare missing_chunks reset advance
  prepare-Started r g = ((inv, refl), record { bytes = g.bytes; len = g.len })
    where
      below : sum_chunks m r.state.chunks_done ≤ m.total_size
      below = sum_chunks-le_total m r.state.chunks_done sound g.ordered

      inv : Inv m (view (prepare m r))
      inv = record {
        wanted = λ i.
            ground (
              arith,
              contains-missing r.state.manifest.chunk_count 0 i r.state.chunks_done,
              g.count,
            );
        ordered = g.ordered;
        counted = refl;
        shown = ground (arith, below, small);
      }

  receive_loop-Started :
      (fuel : ℕ) (env : Env) (n : Noise) (r r' : Recv) (s s' : Bytes)
      → IsShort n
      → IsAuthentic m sound small src n
      → Started n (view r)
      → receive_loop fuel env m r s ≡ some (ok (r', s'))
      → Started n (view r') × (is_empty r'.pending ≡ true)
  receive_loop-Started fuel env n r r' s s' short auth start e =
      receive_loop_rule env m (Started n)
        (λ r₁ s₁ (kept, holds).
          Post-both (receive_frame-Kept m sound small env n r₁ s₁ short kept)
            (receive_frame-Holds m sound small src env n r₁ s₁ auth kept holds))
        fuel r s r' s' start e

  -- The file is the sender's.
  abbrev pub IsDelivered : File → Type 0
  IsDelivered f = (f.len ≡ m.total_size) × ((k : ℕ) → k < m.total_size → f.byte k ≡ src.byte k)

  receive_chunks-IsDelivered :
      (fuel : ℕ) (env : Env) (n : Noise) (r r' : Recv) (s : Bytes)
      → IsShort n
      → IsAuthentic m sound small src n
      → Started n (view r)
      → receive_chunks fuel env m r s ≡ some (ok r')
      → IsDelivered r'.file
  unfolding receive_chunks
  receive_chunks-IsDelivered fuel env n r r' s short auth start e =
      elim (Option-cases (receive_loop fuel env m r s)) [
        | inl out ↦ absurd (ground arith)
        | inr (err x, out) ↦ absurd (ground arith)
        | inr (ok (r₁, s₁), out) ↦
            let (((inv, _), holds), empty) =
              receive_loop-Started fuel env n r r₁ s s₁ short auth start out in
            let same : r'.file ≡ (view r₁).landed =
              Post-eq-ok {a = r'} (finish_file env r₁) (ground arith) in
            rw same (holds.len, λ k below. holds.bytes k below (chunk_done r₁ inv empty k below))
      ]
    where
      chunk_done :
          (r₁ : Recv)
          → Inv m (view r₁)
          → is_empty r₁.pending ≡ true
          → (k : ℕ) → k < m.total_size
          → contains r₁.state.chunks_done (k / m.chunk_size) ≡ true
      chunk_done r₁ inv empty k below = ground (
        arith,
        inv.wanted (k / m.chunk_size),
        is_empty-contains r₁.pending (k / m.chunk_size) empty,
        in_count m sound small src k below,
      )

  carried :
      (env : Env) (r : Recv) (msg : ControlMessage)
      → IsGenuine r.state (view r).landed
      → Post
          (λ r'.
            IsGenuine r'.state (view r').landed × (r'.session.noise_state ≡ r.session.noise_state))
          (send env r msg)
  carried env r msg g =
      Post-mono (send_file env r msg)
        λ r' (_, same, looks). (rw (same, ap (λ v. v.landed) looks) g, ap (λ v. v.noise) looks)

  begin-IsGenuine :
      (env : Env) (d : Disk) (session : PeerSession) (bar : Progress)
      → ((x : TransferState)
          → find_resumable env.json m d.output_dir d.exists d.states ≡ some x
          → IsGenuine x (d.content (output_path m d)))
      → Post
          (λ r. IsGenuine r.state (view r).landed × (r.session.noise_state ≡ session.noise_state))
          (begin env d session m bar)
  unfolding begin
  begin-IsGenuine env d session bar genuine =
      elim (Option-cases (find_resumable env.json m d.output_dir d.exists d.states)) [
        | inl fresh ↦
            rw (fresh, begin)
              (Post->>= _ (Post-self d.created) λ _ _.
                carried env
                  (waiting session (new m (output_path m d)) (create m.total_size) bar d.states)
                  manifest_ack (new-IsGenuine (output_path m d)))
        | inr (x, found) ↦
            rw (found, begin)
              (carried env (waiting session x (d.content (output_path m d)) bar d.states)
                (resume_request x.chunks_done) (genuine x found))
      ]

  bulk_delivers :
      (fuel : ℕ) (env : Env) (d : Disk) (session : PeerSession) (bar : Progress) (s : Bytes)
      (r' : Recv) (mode : TransferMode)
      → IsShort session.noise_state
      → IsAuthentic m sound small src session.noise_state
      → ((x : TransferState)
          → find_resumable env.json m d.output_dir d.exists d.states ≡ some x
          → IsGenuine x (d.content (output_path m d)))
      → receive_manifest fuel env d session bar m s mode ≡ some (ok r')
      → IsDelivered r'.file
  unfolding receive_manifest
  bulk_delivers fuel env d session bar s r' (streaming _) short auth genuine e =
      elim (Res-cases (
        send env (waiting session (new m "") (create 0) bar d.states)
          (error 1 "Streaming mode not implemented"))) [
            | inl (_, out) ↦ absurd (ground arith)
            | inr (_, out) ↦ absurd (ground arith)
          ]
  bulk_delivers fuel env d session bar s r' bulk short auth genuine e =
      elim (Res-cases (begin env d session m bar)) [
        | inr (_, out) ↦ absurd (ground arith)
        | inl (r, out) ↦ elim (Res-cases d.opened) [
          | inr (_, shut) ↦ absurd (ground arith)
          | inl (_, opened) ↦
              let (g, same) = Post-eq-ok (begin-IsGenuine env d session bar genuine) out in
              receive_chunks-IsDelivered fuel env r.session.noise_state (prepare m r) r' s
                (subst IsShort (sym same) short)
                (subst (IsAuthentic m sound small src) (sym same) auth) (prepare-Started r g)
                (ground arith)
        ]
      ]

  -- A transfer that ends with a result has left the sender's file on the disk: the length, and every
  -- byte of it, whatever bytes arrived on the data stream and in whatever order. It is assumed that
  -- the manifest is one that fits its fields and announces less than 2^63 bytes, that under each
  -- nonce of a chunk the Noise transport opens nothing but that piece of the sender's file and at
  -- most a buffer of it, and that a saved state under this session id, if there is one, lists only
  -- chunks whose bytes are in the file.
  pub receive_file_direct_delivers :
      (fuel : ℕ) (env : Env) (d : Disk) (session : PeerSession) (bar : Progress)
      (ctrl s rest : Bytes) (r' : Recv)
      → IsShort session.noise_state
      → IsAuthentic m sound small src session.noise_state
      → ((x : TransferState)
          → find_resumable env.json m d.output_dir d.exists d.states ≡ some x
          → IsGenuine x (d.content (output_path m d)))
      → recv_ctrl env.codec session ctrl ≡ ok (manifest m, rest)
      → receive_file_direct fuel env d session bar ctrl s ≡ some (ok r')
      → (r'.file.len ≡ m.total_size) × ((k : ℕ) → k < m.total_size → r'.file.byte k ≡ src.byte k)
  unfolding receive_file_direct receive_first
  receive_file_direct_delivers fuel env d session bar ctrl s rest r' short auth genuine first e =
      bulk_delivers fuel env d session bar s r' m.transfer_mode short auth genuine
        (ground (arith, first))
