-- ===== src/Files/Encrypt.antt =====
-- One pass of a crypto worker of `StreamAndUploadFile`: a block becomes the entry of the manifest
-- and the upload jobs of its chunks.
pub mod Made
pub mod Inversion
use kairos_p2p_engine.Base.{
  true, false, ℕ, zero, suc, ◌+◌, Bool, Option, none, some, List, [], ◌∷◌, ◌++◌, Bytes, Result, ok,
  err, ◌>>=◌, or_fail, length, get_elem?, lookup_at, insert_at,
}
use kairos_p2p_engine.Models.{Chunk, FileBlock, ChunkRequest}
use kairos_p2p_engine.Config.{Config, self_address}
use kairos_p2p_engine.Crypto.Library.{Aead}
use kairos_p2p_engine.Crypto.{generate_random_aes_key, encrypt_gcm}
use kairos_p2p_engine.Files.Coding.{Coding}
use kairos_p2p_engine.Files.Blocks.{CryptoJob}
use kairos_p2p_engine.Files.Pick.{pick_random_items}

-- What a worker reports on the error channel, and the panic of an index out of range.
pub data BlockError : Type 0 where
  rs_error tlock_error gcm_error split_error encode_error shamir_error : BlockError
  index_out_of_range : BlockError

pub record UploadJob : Type 0 where
  pub chunk_req : ChunkRequest
  pub target_nodes : List Bytes

-- The random values and the time that the pass draws: the AES key, the nonce, the seeds of tlock
-- and of Shamir's sharing, for each chunk the choice of nodes and the identifier, and the clock.
pub record Draws : Type 0 where
  pub key : ℕ → ℕ
  pub nonce : Option Bytes
  pub tlock_seed : ℕ
  pub shamir_seed : ℕ
  pub choices : ℕ → ℕ → ℕ
  pub chunk_ids : ℕ → Bytes
  pub created_at : ℕ

-- What all blocks of an upload share.
pub record Upload : Type 0 where
  pub nodes : List Bytes
  pub round : ℕ
  pub file_id : Bytes
  pub release_date : Bytes

-- The `j`-th chunk, from the shards and the parts of the key.
unfoldable pub make_chunk :
    Config
    → Upload
    → Draws
    → List Bytes
    → List (ℕ × Bytes)
    → ℕ
    → Result BlockError (Chunk × UploadJob)
make_chunk config upload draws data_chunks key_parts j = do
  payload ← or_fail (get_elem? data_chunks j) index_out_of_range
  (index, part) ← or_fail (get_elem? key_parts j) index_out_of_range
  let selected = pick_random_items upload.nodes config.chunks_tolerance (draws.choices j)
  let chunk_id = draws.chunk_ids j
  ok (
    record {
      chunk_id = chunk_id;
      key_index_part = index;
      key_part = part;
      shard_index = j;
      nodes = selected;
    },
    record {
      chunk_req = record {
        address = self_address config;
        public_key = config.public_key;
        signature = [];
        chunk_id = chunk_id;
        file_id = upload.file_id;
        created_at = draws.created_at;
        shard = payload;
        release_date = upload.release_date;
      };
      target_nodes = selected;
    },
  )

-- `n` chunks from the `j`-th on.
unfoldable pub make_chunks :
    Config
    → Upload
    → Draws
    → List Bytes
    → List (ℕ × Bytes)
    → ℕ
    → ℕ
    → Result BlockError (List (Chunk × UploadJob))
make_chunks config upload draws data_chunks key_parts zero j = ok []
make_chunks config upload draws data_chunks key_parts (suc n) j = do
  chunk ← make_chunk config upload draws data_chunks key_parts j
  chunks ← make_chunks config upload draws data_chunks key_parts n (j + 1)
  ok (chunk ∷ chunks)

abbrev pub chunks_of : List (Chunk × UploadJob) → List Chunk
chunks_of [] = []
chunks_of ((c, job) ∷ rest) = c ∷ chunks_of rest

abbrev pub jobs_of : List (Chunk × UploadJob) → List UploadJob
jobs_of [] = []
jobs_of ((c, job) ∷ rest) = job ∷ jobs_of rest

-- The errors of EncryptGCM are passed on.
abbrev pub sealed_block : {E : Type 0} → Result E Bytes → Result BlockError Bytes
sealed_block (ok b) = ok b
sealed_block (err e) = err gcm_error

unfoldable pub encrypt_block :
    Coding → Aead → Config → Upload → Draws → Bytes → Result BlockError (FileBlock × List UploadJob)
encrypt_block coding aead config upload draws plain = do
  let key = generate_random_aes_key draws.key
  encrypted_key ← or_fail (coding.tlock_encrypt draws.tlock_seed key upload.round) tlock_error
  encrypted_block ← sealed_block (encrypt_gcm aead plain key draws.nonce)
  raw ←
      or_fail (coding.rs_split config.data_shards config.parity_shards encrypted_block) split_error
  data_chunks ← or_fail (coding.rs_encode config.data_shards config.parity_shards raw) encode_error
  key_parts ←
      or_fail
        (coding.shamir_split draws.shamir_seed encrypted_key config.total_shards config.data_shards)
        shamir_error
  made ← make_chunks config upload draws data_chunks key_parts config.total_shards 0
  ok (
    record { encrypted_block_size = length encrypted_block; chunks = chunks_of made },
    jobs_of made,
  )

-- What the crypto workers make of the jobs together: the map of the manifest, the upload jobs, and
-- whether a worker reported an error; the other jobs are worked on all the same. An index out of
-- range, which would end the process, counts as an error too; it cannot come about with as many
-- shards and parts of the key as chunks, which is what the libraries are asked for. Each block has a
-- number of its own, so the map holds the same blocks whichever of them is put into it first.
-- `draws` are those of the block with the given number.
unfoldable pub encrypt_blocks :
    Coding
    → Aead
    → Config
    → Upload
    → (ℕ → Draws)
    → List CryptoJob
    → List (ℕ × FileBlock)
    → List (ℕ × FileBlock) × (List UploadJob × Bool)
encrypt_blocks coding aead config upload draws [] split = (split, ([], false))
encrypt_blocks coding aead config upload draws (job ∷ rest) split =
    elim (encrypt_block coding aead config upload (draws job.block_id) job.block) [
      | err _ ↦
          let (split', (jobs', _)) = encrypt_blocks coding aead config upload draws rest split in
          (split', (jobs', true))
      | ok (block, jobs) ↦
          let (split', (jobs', failed)) =
            encrypt_blocks coding aead config upload draws rest
              (insert_at job.block_id block split) in
          (split', (jobs ++ jobs', failed))
    ]
