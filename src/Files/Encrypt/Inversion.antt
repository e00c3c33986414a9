-- ===== src/Files/Encrypt/Inversion.antt =====
-- A pass of a crypto worker that succeeds, taken apart.
use kairos_p2p_engine.Base.{
  ℕ, ◌≡◌, sym, ap, some, List, Bytes, Result, ok, err, >>=-eq-ok, or_fail-eq-ok, ok-injective,
  length,
}
use kairos_p2p_engine.Models.{Chunk, FileBlock}
use kairos_p2p_engine.Config.{Config}
use kairos_p2p_engine.Crypto.Library.{Aead}
use kairos_p2p_engine.Crypto.{generate_random_aes_key, encrypt_gcm}
use kairos_p2p_engine.Files.Coding.{Coding}
use kairos_p2p_engine.Files.Encrypt.{
  UploadJob, Draws, Upload, make_chunks, chunks_of, jobs_of, sealed_block, encrypt_block,
  tlock_error, split_error, encode_error, shamir_error,
}

pub record IsEncrypted (coding : Coding) (aead : Aead) (config : Config) (upload : Upload)
    (draws : Draws) (plain : Bytes) (block : FileBlock) (jobs : List UploadJob) : Type 0 where
  pub encrypted_key : Bytes
  pub encrypted_block : Bytes
  pub raw : List Bytes
  pub data_chunks : List Bytes
  pub key_parts : List (ℕ × Bytes)
  pub made : List (Chunk × UploadJob)
  pub locked :
      coding.tlock_encrypt draws.tlock_seed (generate_random_aes_key draws.key) upload.round
      ≡ some encrypted_key
  pub sealed :
      encrypt_gcm aead plain (generate_random_aes_key draws.key) draws.nonce ≡ ok encrypted_block
  pub split : coding.rs_split config.data_shards config.parity_shards encrypted_block ≡ some raw
  pub encoded : coding.rs_encode config.data_shards config.parity_shards raw ≡ some data_chunks
  pub shared :
      coding.shamir_split draws.shamir_seed encrypted_key config.total_shards config.data_shards
      ≡ some key_parts
  pub chunks_made :
      make_chunks config upload draws data_chunks key_parts config.total_shards 0 ≡ ok made
  pub block_made :
      block ≡ record { encrypted_block_size = length encrypted_block; chunks = chunks_of made }
  pub jobs_made : jobs ≡ jobs_of made

sealed_block-ok : {E : Type 0} (r : Result E Bytes) {b : Bytes} → sealed_block r ≡ ok b → r ≡ ok b
sealed_block-ok (ok a) h = ap ok (ok-injective h)
sealed_block-ok (err e) h = cc

pub encrypt_block-IsEncrypted :
    (coding : Coding) (aead : Aead) (config : Config) (upload : Upload) (draws : Draws)
    (plain : Bytes) (block : FileBlock) (jobs : List UploadJob)
    → encrypt_block coding aead config upload draws plain ≡ ok (block, jobs)
    → IsEncrypted coding aead config upload draws plain block jobs
unfolding encrypt_block
encrypt_block-IsEncrypted coding aead config upload draws plain block jobs h =
    let (ek, e₁, h₁) = or_fail-eq-ok _ tlock_error _ h in
    let (eb, e₂, h₂) = >>=-eq-ok _ _ h₁ in
    let (raw, e₃, h₃) = or_fail-eq-ok _ split_error _ h₂ in
    let (chunks, e₄, h₄) = or_fail-eq-ok _ encode_error _ h₃ in
    let (parts, e₅, h₅) = or_fail-eq-ok _ shamir_error _ h₄ in
    let (made, e₆, h₆) = >>=-eq-ok _ _ h₅ in
    let same = ok-injective h₆ in
    record {
      encrypted_key = ek;
      encrypted_block = eb;
      raw = raw;
      data_chunks = chunks;
      key_parts = parts;
      made = made;
      locked = e₁;
      sealed = sealed_block-ok _ e₂;
      split = e₃;
      encoded = e₄;
      shared = e₅;
      chunks_made = e₆;
      block_made = sym (ap (λ p. p.0) same);
      jobs_made = sym (ap (λ p. p.1) same);
    }
