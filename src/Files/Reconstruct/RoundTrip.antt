-- ===== src/Files/Reconstruct/RoundTrip.antt =====
-- A block that was encrypted and shared out comes back, once its release round is reached and
-- enough of its chunks can be had.
use Prim.Native.Nat.{min}
use kairos_p2p_engine.Base.{
  ℕ, ◌+◌, ◌<◌, ◌≡◌, refl, sym, ◌∙◌, true, false, Option, none, some, List, [], Bytes, ok, err,
  ◌>>=◌, or_fail, IsDistinct, length, replicate, ltb, arith, if◌then◌else◌, Bool-cases, inl, inr,
}
use kairos_p2p_engine.Models.{FileBlock, ReedSolomonConfig, ChunkRequest}
use kairos_p2p_engine.Config.{Config}
use kairos_p2p_engine.Crypto.Library.{Aead, AeadLaws}
use kairos_p2p_engine.Crypto.{generate_random_aes_key, decrypt_gcm}
use kairos_p2p_engine.Crypto.Gcm.{decrypt_gcm_of}
use kairos_p2p_engine.Files.Coding.{Coding, CodingLaws}
use kairos_p2p_engine.Files.Slots.{IsSubmap-refl}
use kairos_p2p_engine.Files.Encrypt.{Upload, Draws, UploadJob, encrypt_block, chunks_of, jobs_of}
use kairos_p2p_engine.Files.Encrypt.Made.{make_chunks-IsMade}
use kairos_p2p_engine.Files.Encrypt.Inversion.{IsEncrypted, encrypt_block-IsEncrypted}
use kairos_p2p_engine.Files.Reconstruct.{
  Gather, insufficient_data, unlock_failed, reconstruction_failed, join_failed, combine_failed,
  chunk_infos, gather_chunks, opened, reconstruct_block,
}
use kairos_p2p_engine.Files.Reconstruct.Loop.{ids, available, IsHonest, chunk_infos-IsKnown}
use kairos_p2p_engine.Files.Reconstruct.Invariant.{IsGathered, Inv, gather_chunks-IsGathered}

abbrev pub start : ℕ → Gather
start total = record { shards = replicate total none; key_parts = []; shards_received = 0 }

-- The code that the manifest of an upload names.
abbrev pub rs_config : Config → ReedSolomonConfig
rs_config config = record { data_shards = config.data_shards; parity_shards = config.parity_shards }

start-Inv : (n : ℕ) (parts : List (ℕ × Bytes)) → Inv [] n parts parts (start n)
start-Inv n parts = record {
  front = [];
  shape = refl;
  place = refl;
  matches = tt;
  submap = tt;
  fresh = λ k h. refl;
  count = refl;
  parts_count = refl;
}

module _ {coding : Coding} (codes : CodingLaws coding) {aead : Aead} (cipher : AeadLaws aead)
    (config : Config) (upload : Upload) (draws : Draws)
    (total : config.total_shards ≡ config.data_shards + config.parity_shards)
    (fetch : Bytes → Bytes → Option ChunkRequest) where
  module _ (plain nonce : Bytes) (block : FileBlock) (jobs : List UploadJob)
      (fits : length nonce ≡ aead.nonce_size) (drawn : draws.nonce ≡ some nonce)
      (e : IsEncrypted coding aead config upload draws plain block jobs) where
    opens :
        (0 < length e.encrypted_block)
        × (decrypt_gcm aead e.encrypted_block (generate_random_aes_key draws.key) ≡ ok plain)
    opens =
        decrypt_gcm_of cipher plain draws.key nonce e.encrypted_block fits (rw drawn at e.sealed)

    gathers :
        IsDistinct (ids (chunks_of e.made))
        → IsHonest fetch (jobs_of e.made)
        → (g : Gather) × (gather_chunks fetch
              (chunk_infos (chunks_of e.made) [])
              config.data_shards
              (start config.total_shards)
              (chunks_of e.made)
            ≡ ok g)
          × IsGathered
              (min config.data_shards (0 + available fetch (chunks_of e.made)))
              e.data_chunks
              e.key_parts
              g
    gathers distinct honest =
        let (count, full) =
          codes.rs_shards config.data_shards config.parity_shards e.raw e.data_chunks
            e.encrypted_block e.split e.encoded opens.0 in
        let (parts, keys) =
          codes.shamir_parts draws.shamir_seed config.total_shards config.data_shards
            e.encrypted_key e.key_parts e.shared in
        let n : length e.data_chunks ≡ config.total_shards = count ∙ sym total in
        gather_chunks-IsGathered fetch (chunk_infos (chunks_of e.made) []) config.data_shards e.made
          [] e.data_chunks e.key_parts e.key_parts (start config.total_shards)
          (chunk_infos-IsKnown (chunks_of e.made) [] distinct) honest
          (make_chunks-IsMade config upload draws e.data_chunks e.key_parts config.total_shards 0
            e.made (omega (arith, n)) (omega (arith, parts)) e.chunks_made)
          full (IsSubmap-refl e.key_parts keys) (rw n (start-Inv config.total_shards e.key_parts))
          (omega arith)

    -- The steps after the loop, with enough shards.
    recovers :
        (now : ℕ) (g : Gather)
        → IsGathered config.data_shards e.data_chunks e.key_parts g
        → (or_fail
              (coding.rs_reconstruct config.data_shards config.parity_shards g.shards)
              reconstruction_failed
            >>= λ shards.
                or_fail
                  (coding.rs_join config.data_shards config.parity_shards shards
                    (length e.encrypted_block))
                  join_failed
                >>= λ encrypted_block.
                    or_fail (coding.shamir_combine g.key_parts) combine_failed >>= λ encrypted_key.
                    or_fail (coding.tlock_decrypt now encrypted_key) unlock_failed >>= λ key.
                    opened (decrypt_gcm aead encrypted_block key))
          ≡ (if ltb now upload.round then err unlock_failed else ok plain)
    recovers now g gathered =
        let (all, r₁, r₂) =
          codes.rs_recovers config.data_shards config.parity_shards e.raw e.data_chunks
            e.encrypted_block g.shards e.split e.encoded gathered.0 (omega (arith, gathered.2)) in
        let r₃ =
          codes.shamir_recovers draws.shamir_seed config.total_shards config.data_shards
            e.encrypted_key e.key_parts g.key_parts e.shared gathered.1
            (omega (arith, gathered.3)) in
        let key = generate_random_aes_key draws.key in
        rw r₁ (
          rw r₂ (
            rw r₃ (elim (Bool-cases (ltb now upload.round)) [
              | inl early ↦
                  rw
                    (
                      early,
                      codes.tlock_locked draws.tlock_seed upload.round now key e.encrypted_key
                          e.locked (ground arith),
                    )
                    refl
              | inr open_ ↦
                  rw
                    (
                      open_,
                      codes.tlock_opens draws.tlock_seed upload.round now key e.encrypted_key
                          e.locked (ground arith),
                    )
                    (rw opens.1 refl)
            ])))

    reconstruct_made :
        (now : ℕ)
        → IsDistinct (ids (chunks_of e.made))
        → IsHonest fetch (jobs_of e.made)
        → reconstruct_block coding aead fetch
            (rs_config config)
            now
            (record { encrypted_block_size = length e.encrypted_block; chunks = chunks_of e.made })
          ≡ (if ltb (available fetch (chunks_of e.made)) config.data_shards
              then err insufficient_data
              else if ltb now upload.round
              then err unlock_failed
              else ok plain)
    unfolding reconstruct_block
    reconstruct_made now distinct honest =
        let (g, r, gathered) = gathers distinct honest in
        rw (← total) (
          rw r (elim (Bool-cases (ltb (available fetch (chunks_of e.made)) config.data_shards)) [
            | inl few ↦
                let short : ltb g.shards_received config.data_shards ≡ true =
                  ground (arith, gathered.4) in
                rw few (rw short refl)
            | inr many ↦
                let all : min config.data_shards (0 + available fetch (chunks_of e.made))
                    ≡ config.data_shards =
                  ground arith in
                let here : IsGathered config.data_shards e.data_chunks e.key_parts g =
                  rw all at gathered in
                let reached : ltb g.shards_received config.data_shards ≡ false =
                  ground (arith, here.4) in
                rw many (rw reached (recovers now g here))
          ]))

  -- For a block that a crypto worker has encrypted, with different chunk identifiers, and nodes
  -- that answer with what was uploaded: with fewer reachable chunks than data shards the download
  -- fails for lack of data; with enough of them it fails to unlock the key before the release
  -- round, and gives the block back from then on.
  pub reconstruct_block-encrypt_block :
      (plain nonce : Bytes) (block : FileBlock) (jobs : List UploadJob) (now : ℕ)
      → length nonce ≡ aead.nonce_size
      → draws.nonce ≡ some nonce
      → encrypt_block coding aead config upload draws plain ≡ ok (block, jobs)
      → IsDistinct (ids block.chunks)
      → IsHonest fetch jobs
      → reconstruct_block coding aead fetch (rs_config config) now block ≡ (
          if ltb (available fetch block.chunks) config.data_shards
          then err insufficient_data
          else if ltb now upload.round
          then err unlock_failed
          else ok plain)
  reconstruct_block-encrypt_block plain nonce block jobs now fits drawn h distinct honest =
      let e = encrypt_block-IsEncrypted coding aead config upload draws plain block jobs h in
      rw e.block_made (
        reconstruct_made plain nonce block jobs fits drawn e now (rw e.block_made at distinct)
          (rw e.jobs_made at honest))
