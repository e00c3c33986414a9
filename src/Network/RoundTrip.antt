-- ===== src/Network/RoundTrip.antt =====
-- A file that was uploaded is downloaded again, through the bootstrap server and the nodes.
use kairos_p2p_engine.Base.{
  subst, ◌*◌, ℕ, suc, ◌+◌, ◌<◌, ◌≡◌, refl, sym, ap, ◌∙◌, Bool, true, false, Option, none, some,
  List, [], Bytes, IsDistinct, ok, length, ltb, nat_eq, arith, eq_refl, Bool-cases, inl, inr,
  if◌then◌else◌,
}
use kairos_p2p_engine.Models.{FileBlock, FileManifest}
use kairos_p2p_engine.Badger.{BadgerLaws, IsReliable}
use kairos_p2p_engine.Crypto.Library.{Aead, AeadLaws}
use kairos_p2p_engine.Process.{Process, Response, Method, Trusts, Post, post_of}
use kairos_p2p_engine.Process.Json.{Json}
use kairos_p2p_engine.Database.{put_data}
use kairos_p2p_engine.Database.Laws.{stored, stored-put, put_data_ok}
use kairos_p2p_engine.Sync.{manifests}
use kairos_p2p_engine.Sync.Align.{manifests-IsPlain}
use kairos_p2p_engine.Client.{
  request_nodes_for_file_upload, get_file_manifest_from_server, get_round_for_time,
}
use kairos_p2p_engine.Client.Served.{upload_file_manifest_lem, get_file_manifest_lem}
use kairos_p2p_engine.Files.Blocks.{
  readable, read_blocks-contents, IsNumbered, CryptoJob, read_blocks, total_blocks,
}
use kairos_p2p_engine.Files.Coding.{Coding, CodingLaws}
use kairos_p2p_engine.Files.Encrypt.{Upload, UploadJob, encrypt_blocks}
use kairos_p2p_engine.Files.Sending.{Sent, upload_jobs, finish_upload}
use kairos_p2p_engine.Files.StreamAndUpload.{
  drand_network_error, header_of, reading_failed, LocalFile, Chances, StreamError, FileHeader,
  new_manifest, ended, publish, pipeline, upload_sized, stream_and_upload_file,
}
use kairos_p2p_engine.Files.Reconstruct.{unlock_failed, stream_reconstruct}
use kairos_p2p_engine.Files.Reconstruct.WholeFile.{stream_reconstruct-encrypt_blocks}
use kairos_p2p_engine.Network.{Net, net_send, net_save, net_delete, net_fetch}
use kairos_p2p_engine.Network.Chunks.{job_ids, AllFresh, AllStored, upload_jobs-AllStored}
use kairos_p2p_engine.Cleanup.{chunks}
use kairos_p2p_engine.Network.Identifiers.{
  job_ids-encrypt_blocks, all_ids, all_ids-IsDistinct, IsNew, IsNew-AllFresh, all_ids-IsNew,
}
use kairos_p2p_engine.Network.Jobs.{encrypt_blocks-AllOwn}
use kairos_p2p_engine.Network.Blocks.{AllStored-IsHonest, encrypt_blocks-reachable}

-- An upload that ends without an error has published its manifest, with no failure before.
finish_upload-none :
    {W : Type 0} (delete : W → Bytes → Bytes → W) (put : W → W × Bool) (crypto_failed : Bool)
    (s : Sent W)
    → (ended (finish_upload delete put crypto_failed s)).1 ≡ none
    → (crypto_failed ≡ false)
      × (s.failed ≡ false)
      × ((ended (finish_upload delete put crypto_failed s)).0 ≡ (put s.world).0)
unfolding finish_upload
finish_upload-none delete put true s h = absurd (ground arith)
finish_upload-none delete put false s h = elim (Bool-cases s.failed) [
  | inl e ↦ absurd (ground (arith, rw (e, finish_upload) at h))
  | inr e ↦ elim (Bool-cases (put s.world).1) [
    | inl p ↦ (refl, e, rw (e, finish_upload) (rw p refl))
    | inr p ↦ absurd (ground arith)
  ]
]

module _ {coding : Coding} (codes : CodingLaws coding) {aead : Aead} (cipher : AeadLaws aead)
    {D E F G H K M N : Type 0} (server : Process D F) (nodes : Process E G) (self : Process H K)
    (reader : Process M N) (json : Json) (sha256 : Bytes → Bytes) (metrics : D → Method → Response)
    (now : ℕ) (is_up : Bytes → Bool) {server_laws : BadgerLaws server.badger}
    (server_reliable : IsReliable server_laws) {node_laws : BadgerLaws nodes.badger}
    (node_reliable : IsReliable node_laws) (server_trusts : Trusts server self)
    (server_trusts_reader : Trusts server reader) (nodes_trust : Trusts nodes self)
    (configured : nat_eq (length self.config.bootstrap_servers) 0 ≡ false)
    (reader_configured : nat_eq (length reader.config.bootstrap_servers) 0 ≡ false)
    (total : self.config.total_shards ≡ self.config.data_shards + self.config.parity_shards)
    (chances : Chances) (nonces : ℕ → Bytes) (fits : (k : ℕ) → length (nonces k) ≡ aead.nonce_size)
    (drawn : (k : ℕ) → (chances.draws k).nonce ≡ some (nonces k)) where
  abbrev post : Post (Net D E)
  post = post_of (net_send server json sha256 metrics now)

  module _ (file : LocalFile) (header : FileHeader) (block_size : ℕ) (targets : List Bytes)
      (round : ℕ) (w : Net D E) where
    abbrev upload : Upload
    upload = record {
      nodes = targets;
      round = round;
      file_id = header.id;
      release_date = header.release_time;
    }

    abbrev reading : List CryptoJob × Bool
    reading =
        read_blocks (suc (length file.contents)) block_size 0
          (record { rest = file.contents; broken = file.broken })

    abbrev result : List (ℕ × FileBlock) × (List UploadJob × Bool)
    result = encrypt_blocks coding aead self.config upload chances.draws reading.0 []

    abbrev made : List UploadJob
    made = result.1.0

    abbrev workers_end : Sent (Net D E)
    workers_end =
        upload_jobs (net_save nodes json is_up) self json
          (record { world = w; placed = []; failed = false }) result.1.0

    abbrev manifest : FileManifest
    manifest =
        new_manifest self.config header (length file.contents)
          (total_blocks (length file.contents) block_size) result.0

    abbrev put : Net D E → Net D E × Bool
    put =
        publish coding aead self json sha256 post (net_save nodes json is_up)
          (net_delete nodes json is_up) chances.manifest_draw manifest

    abbrev run : Net D E × Option StreamError
    run =
        pipeline coding aead self json sha256 post (net_save nodes json is_up)
          (net_delete nodes json is_up) chances file header block_size (length file.contents)
          targets round w

    -- A run without an error got through all of its steps.
    pipeline-none :
        run.1 ≡ none
        → (coding.rs_new self.config.data_shards self.config.parity_shards ≡ true)
          × (result.1.1 ≡ false)
          × (workers_end.failed ≡ false)
          × (run.0 ≡ (put workers_end.world).0)
    unfolding pipeline finish_upload
    pipeline-none h =
        elim (Bool-cases (coding.rs_new self.config.data_shards self.config.parity_shards)) [
          | inl new ↦
              let finished =
                ended (finish_upload (net_delete nodes json is_up) put result.1.1 workers_end) in
              let run_is : run
                  ≡ (if reading.1 then finished else (workers_end.world, some reading_failed)) =
                rw (pipeline, new) refl in
              let read : reading.1 ≡ true = ground (arith, ap (λ t. t.1) run_is) in
              let run_finished : run ≡ finished = run_is ∙ rw read refl in
              let (a, b, c) =
                finish_upload-none (net_delete nodes json is_up) put result.1.1 workers_end
                  (ap (λ t. t.1) (sym run_finished) ∙ h) in
              (new, a, b, ap (λ t. t.0) run_finished ∙ c)
          | inr old ↦ absurd (ground (arith, rw (pipeline, old, finish_upload) at h))
        ]

    abbrev after : Net D E
    after = record workers_end.world {
      bootstrap =
          (put_data server.badger workers_end.world.bootstrap manifests header.id
            (json.file_manifest.marshal manifest)).0;
    }

    published : (put workers_end.world).0 ≡ after
    unfolding publish new_manifest
    published =
        rw
          (upload_file_manifest_lem server self json sha256 metrics now (λ v. v.bootstrap)
            (λ v d. record v { bootstrap = d }) server_reliable server_trusts configured
            chances.manifest_draw workers_end.world manifest)
          refl

    manifest_got :
        (draw : ℕ)
        → (get_file_manifest_from_server reader json post draw after header.id).1
          ≡ ok (some manifest)
    unfolding new_manifest
    manifest_got draw =
        get_file_manifest_lem server reader json sha256 metrics now (λ (v : Net D E). v.bootstrap)
          (λ v d. record v { bootstrap = d }) server_reliable server_trusts_reader reader_configured
          draw after header.id
        ∙ rw
            (
              stored-put server_laws workers_end.world.bootstrap manifests manifests header.id
                  header.id (json.file_manifest.marshal manifest) manifests-IsPlain
                  manifests-IsPlain,
              put_data_ok server_laws server_reliable workers_end.world.bootstrap manifests
                  header.id (json.file_manifest.marshal manifest),
              eq_refl header.id,
            )
            (ap ok (json.file_manifest_pointer-marshal manifest))

    made_ids :
        file.broken ≡ false
        → 0 < block_size
        → result.1.1 ≡ false
        → job_ids made ≡ all_ids chances.draws self.config.total_shards 0 (length reading.0)
    made_ids intact positive fine =
        let whole : (read_blocks (suc (length file.contents)) block_size 0
              (readable file.contents)).0
            ≡ reading.0 =
          ap
            (λ b.
              (read_blocks (suc (length file.contents)) block_size 0
                (record { rest = file.contents; broken = b })).0)
            (sym intact) in
        let (done, all, numbered, count) =
          read_blocks-contents (suc (length file.contents)) block_size 0 file.contents positive
            (omega arith) in
        job_ids-encrypt_blocks coding aead self.config upload chances.draws 0 reading.0 [] result.0
          made (subst (IsNumbered 0) whole numbered) (ap (λ b. (result.0, (made, b))) fine)

    read_back :
        (later : ℕ) (writes : ℕ → Bool)
        → file.broken ≡ false
        → 0 < length file.contents
        → 0 < block_size
        → IsDistinct (job_ids made)
        → AllFresh nodes json is_up node_laws w made
        → ((k : ℕ) → writes k ≡ true)
        → run.1 ≡ none
        → stream_reconstruct coding aead
            (net_fetch nodes json is_up run.0)
            manifest
            later
            writes
            true
          ≡ (if ltb later round then ([], some unlock_failed) else (file.contents, none))
    unfolding new_manifest
    read_back later writes intact filled positive distinct fresh written h =
        let (new, fine, sent_all, end) = pipeline-none h in
        let e : encrypt_blocks coding aead self.config upload chances.draws reading.0 []
            ≡ (result.0, (made, false)) =
          ap (λ b. (result.0, (made, b))) fine in
        let own =
          encrypt_blocks-AllOwn self coding aead upload chances.draws reading.0 [] result.0 made
            e in
        let placed : AllStored nodes json is_up node_laws after made =
          upload_jobs-AllStored nodes json is_up node_laws self node_reliable nodes_trust
            (record { world = w; placed = []; failed = false }) made own distinct fresh sent_all in
        let reachable =
          encrypt_blocks-reachable nodes json is_up node_laws after node_reliable self nodes_trust
            upload coding aead chances.draws reading.0 [] result.0 made e distinct placed
            (λ k b l. absurd (ground (arith, l))) in
        rw (end ∙ published) (
          stream_reconstruct-encrypt_blocks codes cipher self.config upload chances.draws nonces
            total fits drawn (net_fetch nodes json is_up after) manifest refl
            (λ k b l. let (d, a) = reachable k b l in (d, omega (arith, a, total))) later writes
            written (suc (length file.contents)) block_size file.contents made positive
            (omega arith) filled new refl
            (ap
                (λ b.
                  encrypt_blocks coding aead self.config upload chances.draws
                    (read_blocks (suc (length file.contents)) block_size 0
                      (record { rest = file.contents; broken = b })).0
                    [])
                (sym intact)
              ∙ e)
            (AllStored-IsHonest nodes json is_up node_laws after node_reliable self nodes_trust
              upload made placed))

  module _ (hex : Bytes → Bytes) (file : LocalFile) (name release_time file_id : Bytes)
      (block_size : ℕ) (w : Net D E) where
    abbrev header : FileHeader
    header = header_of hex sha256 file name release_time file_id

    -- The upload of a file.
    abbrev streamed : Net D E × Option StreamError
    streamed =
        stream_and_upload_file coding aead self json sha256 post (net_save nodes json is_up)
          (net_delete nodes json is_up) hex chances file name block_size release_time file_id w

    streamed_lem :
        (targets : List Bytes) (round : ℕ) (w' : Net D E)
        → file.size ≡ some (length file.contents)
        → request_nodes_for_file_upload self json post chances.node_draw w
            (total_blocks (length file.contents) block_size * self.config.total_shards)
          ≡ (w', ok targets)
        → get_round_for_time chances.parse_rfc3339 chances.round_network chances.current_round
            release_time
          ≡ ok round
        → streamed.1 ≡ none
        → streamed ≡ run file header block_size targets round w'
    unfolding stream_and_upload_file upload_sized
    streamed_lem targets round w' sized asked timed h =
        let sized_run =
          upload_sized coding aead self json sha256 post (net_save nodes json is_up)
            (net_delete nodes json is_up) chances file header block_size (length file.contents) w in
        let reached : streamed ≡ sized_run = elim (Bool-cases file.copies) [
          | inl c ↦ elim (Bool-cases file.seeks) [
            | inl k ↦ ground arith
            | inr k ↦ absurd (ground arith)
          ]
          | inr c ↦ absurd (ground arith)
        ] in
        let began : sized_run ≡ (
            if chances.upload_network
            then run file header block_size targets round w'
            else (w', some drand_network_error)) =
          rw (upload_sized, ap (λ t. t.1) asked) (rw timed (rw (ap (λ t. t.0) asked) refl)) in
        let network : chances.upload_network ≡ true =
          ground (arith, ap (λ t. t.1) (sym (reached ∙ began)) ∙ h) in
        reached ∙ (began ∙ rw network refl)

    -- A file that is not empty, can be read and has the size that `Stat` gives is uploaded, and the
    -- upload ends without an error. The server and the nodes accept the signatures and their stores do
    -- not fail; the uploader and the reader have a server configured; the shards in total are the data
    -- and the parity shards; the identifiers drawn for the chunks are different and on no node when the
    -- upload starts to send; the nonces have the right length. Then a reader whom the server trusts
    -- gets a manifest for the file's identifier. With it, and the nodes that were up for the upload,
    -- a download to a client that takes every write gives the whole file from the release round on,
    -- and before that round nothing and the failure to unlock the key.
    pub stream_reconstruct-stream_and_upload_file :
        (targets : List Bytes) (round : ℕ) (w' : Net D E) (draw later : ℕ) (writes : ℕ → Bool)
        → file.size ≡ some (length file.contents)
        → file.broken ≡ false
        → 0 < length file.contents
        → 0 < block_size
        → request_nodes_for_file_upload self json post chances.node_draw w
            (total_blocks (length file.contents) block_size * self.config.total_shards)
          ≡ (w', ok targets)
        → get_round_for_time chances.parse_rfc3339 chances.round_network chances.current_round
            release_time
          ≡ ok round
        → ((k j k' j' : ℕ)
            → j < self.config.total_shards
            → j' < self.config.total_shards
            → (chances.draws k).chunk_ids j ≡ (chances.draws k').chunk_ids j'
            → (k ≡ k') × (j ≡ j'))
        → ((k j : ℕ) (node : Bytes)
            → stored node_laws (w'.nodes node) chunks ((chances.draws k).chunk_ids j) ≡ none)
        → ((k : ℕ) → writes k ≡ true)
        → streamed.1 ≡ none
        → (manifest : FileManifest) × ((get_file_manifest_from_server reader json post draw
              streamed.0 file_id).1
            ≡ ok (some manifest))
          × (stream_reconstruct coding aead
                (net_fetch nodes json is_up streamed.0)
                manifest
                later
                writes
                true
              ≡ (if ltb later round then ([], some unlock_failed) else (file.contents, none)))
    stream_reconstruct-stream_and_upload_file targets round w' draw later writes sized intact filled
          positive asked timed differ new written h =
        let same = streamed_lem targets round w' sized asked timed h in
        let through : (run file header block_size targets round w').1 ≡ none =
          ap (λ t. t.1) (sym same) ∙ h in
        let (a, b, c, end) = pipeline-none file header block_size targets round w' through in
        let drawn_ids : job_ids (made file header block_size targets round w')
            ≡ all_ids chances.draws self.config.total_shards 0
                (length (reading file header block_size targets round w').0) =
          made_ids file header block_size targets round w' intact positive b in
        let distinct : IsDistinct (job_ids (made file header block_size targets round w')) =
          subst IsDistinct (sym drawn_ids) (
            all_ids-IsDistinct chances.draws self.config.total_shards differ 0
              (length (reading file header block_size targets round w').0)) in
        let fresh : AllFresh nodes json is_up node_laws w'
            (made file header block_size targets round w') =
          IsNew-AllFresh nodes json is_up node_laws w'
            (made file header block_size targets round w')
            (subst (IsNew nodes json is_up node_laws w') (sym drawn_ids) (
              all_ids-IsNew nodes json is_up node_laws w' chances.draws new self.config.total_shards
                0 (length (reading file header block_size targets round w').0))) in
        rw same (
          manifest file header block_size targets round w',
          rw (end ∙ published file header block_size targets round w')
              (manifest_got file header block_size targets round w' draw),
          read_back file header block_size targets round w' later writes intact filled positive
              distinct fresh written through,
        )
