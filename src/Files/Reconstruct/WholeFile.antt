-- ===== src/Files/Reconstruct/WholeFile.antt =====
-- A file that was cut into blocks and uploaded comes back as a whole.
use kairos_p2p_engine.Base.{
  false, ℕ, ◌+◌, ◌≤◌, ◌<◌, ◌≡◌, ap, ◌∙◌, Bool, true, ◌&&◌, Option, none, some, List, [], ◌∷◌, ◌++◌,
  Bytes, ok, err, IsDistinct, length, ltb, nat_eq_iff, lookup_at, insert_at, lookup_at-insert_at,
  arith, if◌then◌else◌, Result-cases, inl, inr,
}
use kairos_p2p_engine.Models.{FileBlock, FileManifest, ChunkRequest}
use kairos_p2p_engine.Config.{Config}
use kairos_p2p_engine.Crypto.Library.{Aead, AeadLaws}
use kairos_p2p_engine.Files.Blocks.{
  CryptoJob, contents, IsNumbered, readable, read_blocks, read_blocks-contents, total_blocks,
  total_blocks-read_blocks,
}
use kairos_p2p_engine.Files.Coding.{Coding, CodingLaws}
use kairos_p2p_engine.Files.Encrypt.{Upload, Draws, UploadJob, encrypt_block, encrypt_blocks}
use kairos_p2p_engine.Files.Reconstruct.{
  or_zero, zero_block, unlock_failed, reconstruct_block, reconstruct_blocks, stream_reconstruct,
}
use kairos_p2p_engine.Files.Reconstruct.Loop.{ids, available, IsHonest}
use kairos_p2p_engine.Files.Reconstruct.RoundTrip.{rs_config, reconstruct_block-encrypt_block}

total_blocks-positive : (size block_size : ℕ) → ltb 0 (total_blocks size block_size) ≡ true
unfolding total_blocks
total_blocks-positive size block_size = ground arith

IsHonest-append :
    (fetch : Bytes → Bytes → Option ChunkRequest) (jobs jobs' : List UploadJob)
    → IsHonest fetch (jobs ++ jobs')
    → IsHonest fetch jobs × IsHonest fetch jobs'
IsHonest-append fetch [] jobs' h = (tt, h)
IsHonest-append fetch (job ∷ jobs) jobs' h =
    let rest = IsHonest-append fetch jobs jobs' h.1 in ((h.0, rest.0), rest.1)

module _ (coding : Coding) (aead : Aead) (config : Config) (upload : Upload)
    (draws : ℕ → Draws) where
  -- Inversion of one step.
  pub step_made :
      (job : CryptoJob) (jobs : List CryptoJob) (before split : List (ℕ × FileBlock))
      (made : List UploadJob)
      → encrypt_blocks coding aead config upload draws (job ∷ jobs) before ≡ (split, (made, false))
      → (block : FileBlock) × (own : List UploadJob) × (rest : List UploadJob) × (encrypt_block
            coding aead config upload
            (draws job.block_id)
            job.block
          ≡ ok (block, own))
        × (encrypt_blocks coding aead config upload draws jobs (insert_at job.block_id block before)
            ≡ (split, (rest, false)))
        × (own ++ rest ≡ made)
  unfolding encrypt_blocks
  step_made job jobs before split made h =
      elim (Result-cases (encrypt_block coding aead config upload (draws job.block_id) job.block)) [
        | inl (x, e) ↦ absurd (ground (arith, rw (e, encrypt_blocks) at h))
        | inr ((block, own), e) ↦
            let r =
              encrypt_blocks coding aead config upload draws jobs
                (insert_at job.block_id block before) in
            let done : (r.0, (own ++ r.1.0, r.1.1)) ≡ (split, (made, false)) =
              rw (e, encrypt_blocks) at h in
            (block, own, r.1.0, e, ap (λ t. (t.0, (r.1.0, t.1.1))) done, ap (λ t. t.1.0) done)
      ]

module _ (coding : Coding) (aead : Aead) (config : Config) (upload : Upload) (draws : ℕ → Draws)
    (fetch : Bytes → Bytes → Option ChunkRequest) where
  -- Each job's block stands in the map as a worker made it, and its chunks are answered honestly.
  abbrev IsUploaded : List (ℕ × FileBlock) → List CryptoJob → Type 0
  IsUploaded split [] = Unit {0}
  IsUploaded split (job ∷ jobs) =
      ((block : FileBlock) × (made : List UploadJob) × (encrypt_block coding aead config upload
            (draws job.block_id) job.block
          ≡ ok (block, made))
        × (lookup_at job.block_id split ≡ some block)
        × IsHonest fetch made)
      × IsUploaded split jobs

  encrypt_blocks-IsUploaded :
      (i : ℕ) (jobs : List CryptoJob) (before split : List (ℕ × FileBlock)) (made : List UploadJob)
      → IsNumbered i jobs
      → encrypt_blocks coding aead config upload draws jobs before ≡ (split, (made, false))
      → IsHonest fetch made
      → ((k : ℕ) → k < i → lookup_at k split ≡ lookup_at k before) × IsUploaded split jobs
  unfolding encrypt_blocks
  encrypt_blocks-IsUploaded i [] before split made numbered h honest = (λ k l. ground arith, tt)
  encrypt_blocks-IsUploaded i (job ∷ jobs) before split made numbered h honest =
      let (block, own, rest, e, e', all_made) =
        step_made coding aead config upload draws job jobs before split made h in
      let both = IsHonest-append fetch own rest (rw all_made honest) in
      let (kept, uploaded) =
        encrypt_blocks-IsUploaded (i + 1) jobs (insert_at job.block_id block before) split rest
          numbered.1 e' both.1 in
      (
        λ k l. ground (
          arith,
          kept k (omega arith),
          lookup_at-insert_at job.block_id k block before,
          nat_eq_iff job.block_id k,
          numbered.0,
        ),
        (
          (
            block,
            own,
            e,
            ground (
              arith,
              kept job.block_id (omega (arith, numbered.0)),
              lookup_at-insert_at job.block_id job.block_id block before,
              nat_eq_iff job.block_id job.block_id,
            ),
            both.0,
          ),
          uploaded,
        ),
      )

module _ {coding : Coding} (codes : CodingLaws coding) {aead : Aead} (cipher : AeadLaws aead)
    (config : Config) (upload : Upload) (draws : ℕ → Draws) (nonces : ℕ → Bytes)
    (total : config.total_shards ≡ config.data_shards + config.parity_shards)
    (fits : (k : ℕ) → length (nonces k) ≡ aead.nonce_size)
    (drawn : (k : ℕ) → (draws k).nonce ≡ some (nonces k))
    (fetch : Bytes → Bytes → Option ChunkRequest) (manifest : FileManifest)
    (rs : manifest.reed_solomon_config ≡ rs_config config)
    (reachable : (k : ℕ) (block : FileBlock)
      → lookup_at k manifest.split ≡ some block
      → IsDistinct (ids block.chunks) × (config.data_shards ≤ available fetch block.chunks))
    (now : ℕ) (writes : ℕ → Bool) (written : (k : ℕ) → writes k ≡ true) where
  block_back :
      (job : CryptoJob) (block : FileBlock) (made : List UploadJob)
      → encrypt_block coding aead config upload (draws job.block_id) job.block ≡ ok (block, made)
      → lookup_at job.block_id manifest.split ≡ some block
      → IsHonest fetch made
      → reconstruct_block coding aead fetch (rs_config config) now block
        ≡ (if ltb now upload.round then err unlock_failed else ok job.block)
  block_back job block made e l honest =
      let (distinct, many) = reachable job.block_id block l in
      reconstruct_block-encrypt_block codes cipher config upload (draws job.block_id) total fetch
        job.block (nonces job.block_id) block made now (fits job.block_id) (drawn job.block_id) e
        distinct honest
      ∙ ground arith

  reconstruct_uploaded :
      (i : ℕ) (jobs : List CryptoJob)
      → IsNumbered i jobs
      → IsUploaded coding aead config upload draws fetch manifest.split jobs
      → reconstruct_blocks coding aead fetch manifest now writes (length jobs) i ≡ (
          if ltb now upload.round && ltb 0 (length jobs)
          then ([], some unlock_failed)
          else (contents jobs, none))
  unfolding reconstruct_blocks
  reconstruct_uploaded i [] numbered u = ground arith
  reconstruct_uploaded i (job ∷ jobs) numbered ((block, made, e, l, honest), rest) =
      let here : lookup_at i manifest.split ≡ some block = rw numbered.0 at l in
      let back =
        ap
          (λ c.
            reconstruct_block coding aead fetch c now
              (or_zero zero_block (lookup_at i manifest.split)))
          rs
        ∙ ap
            (λ o. reconstruct_block coding aead fetch (rs_config config) now (or_zero zero_block o))
            here
        ∙ block_back job block made e l honest in
      ground (arith, back, written i, reconstruct_uploaded (i + 1) jobs numbered.1 rest)

  -- A file that is not empty is read in blocks, which are encrypted and put into the manifest
  -- without an error; the nodes that answer, answer with what was uploaded, and for every block at
  -- least as many chunks as data shards can be had; no write to the client fails. Then, before the
  -- release round, the download writes nothing and fails to unlock the key; from that round on it
  -- writes the file.
  pub stream_reconstruct-encrypt_blocks :
      (fuel block_size : ℕ) (bytes : Bytes) (made : List UploadJob)
      → 0 < block_size
      → length bytes < fuel
      → 0 < length bytes
      → coding.rs_new config.data_shards config.parity_shards ≡ true
      → manifest.blocks ≡ total_blocks (length bytes) block_size
      → encrypt_blocks coding aead config upload draws
          (read_blocks fuel block_size 0 (readable bytes)).0
          []
        ≡ (manifest.split, (made, false))
      → IsHonest fetch made
      → stream_reconstruct coding aead fetch manifest now writes true
        ≡ (if ltb now upload.round then ([], some unlock_failed) else (bytes, none))
  unfolding stream_reconstruct
  stream_reconstruct-encrypt_blocks fuel block_size bytes made hs hf filled new blocks h honest =
      let jobs = (read_blocks fuel block_size 0 (readable bytes)).0 in
      let (done, all, numbered, count) = read_blocks-contents fuel block_size 0 bytes hs hf in
      let number = total_blocks-read_blocks fuel block_size bytes hs hf filled in
      let uploaded =
        (encrypt_blocks-IsUploaded coding aead config upload draws fetch 0 jobs [] manifest.split
          made numbered h honest).1 in
      let some_block : ltb 0 (length jobs) ≡ true =
        rw (← number) (total_blocks-positive (length bytes) block_size) in
      let accepted = ap (λ c. coding.rs_new c.data_shards c.parity_shards) rs ∙ new in
      rw accepted (
        ap (λ n. reconstruct_blocks coding aead fetch manifest now writes n 0) (blocks ∙ number)
        ∙ reconstruct_uploaded 0 jobs numbered uploaded
        ∙ ground (arith, some_block, all))
