-- ===== src/Examples/WholeFile.antt =====
-- A file of two blocks on its way to the nodes and back.
use kairos_p2p_engine.Base.{
  false, ℕ, suc, ◌+◌, ◌*◌, ◌≤◌, ◌≡◌, refl, true, Option, none, some, List, [], ◌∷◌, ◌++◌, Bytes,
  codes, ◌==◌, IsDistinct, lookup_at, nat_eq, arith, if◌then◌else◌, Bool-cases, inl, inr,
}
use kairos_p2p_engine.Models.{Chunk, FileBlock, FileManifest, ChunkRequest}
use kairos_p2p_engine.Config.{self_address}
use kairos_p2p_engine.Crypto.{generate_random_aes_key, random_bytes, encrypt_gcm}
use kairos_p2p_engine.Process.{rand_intn}
use kairos_p2p_engine.Files.Pick.{remove_at, pick_loop, pick_random_items}
use kairos_p2p_engine.Files.Blocks.{readable, read_full, read_blocks, total_blocks}
use kairos_p2p_engine.Files.Encrypt.{
  Draws, UploadJob, make_chunk, make_chunks, encrypt_block, encrypt_blocks,
}
use kairos_p2p_engine.Files.Reconstruct.{stream_reconstruct}
use kairos_p2p_engine.Files.Reconstruct.Loop.{ids, available, IsHonest}
use kairos_p2p_engine.Files.Reconstruct.RoundTrip.{rs_config}
use kairos_p2p_engine.Files.Reconstruct.WholeFile.{stream_reconstruct-encrypt_blocks}
use kairos_p2p_engine.Examples.World.{aead, aead_laws}
use kairos_p2p_engine.Examples.Codes.{coding, coding_laws}
use kairos_p2p_engine.Examples.Blocks.{text, small, upload}

abbrev pub draws_of : ℕ → Draws
draws_of k = record {
  key = λ i. i;
  nonce = some (codes "no");
  tlock_seed = 0;
  shamir_seed = 0;
  choices = λ j i. j;
  chunk_ids = λ j. (10 * k + j) ∷ [];
  created_at = 1;
}

abbrev chunk_of : ℕ → ℕ → Bytes → Chunk
chunk_of k j node = record {
  chunk_id = (10 * k + j) ∷ [];
  key_index_part = suc j;
  key_part = 5 ∷ random_bytes 32 (λ i. i);
  shard_index = j;
  nodes = node ∷ [];
}

abbrev pub request_of : ℕ → ℕ → Bytes → ChunkRequest
request_of k j part = record {
  address = self_address small;
  public_key = [];
  signature = [];
  chunk_id = (10 * k + j) ∷ [];
  file_id = codes "f";
  created_at = 1;
  shard = codes "no" ++ part;
  release_date = codes "d";
}

abbrev pub block_of : ℕ → ℕ → FileBlock
block_of k size = record {
  encrypted_block_size = size;
  chunks = chunk_of k 0 (codes "a") ∷ chunk_of k 1 (codes "b") ∷ [];
}

abbrev jobs_for : ℕ → Bytes → List UploadJob
jobs_for k part =
    record { chunk_req = request_of k 0 part; target_nodes = codes "a" ∷ [] }
    ∷ record { chunk_req = request_of k 1 part; target_nodes = codes "b" ∷ [] }
    ∷ []

abbrev pub two_blocks : FileManifest
two_blocks = record {
  file_name = codes "n";
  file_id = codes "f";
  file_size = 7;
  release_date = codes "d";
  hash_file = [];
  hash_algorithm = codes "SHA256";
  blocks = 2;
  chunks_per_blocks = 2;
  reed_solomon_config = rs_config small;
  split = (0, block_of 0 6) ∷ (1, block_of 1 5) ∷ [];
}

-- The second node has its chunk of each block; the first one is gone.
abbrev pub fetch_b : Bytes → Bytes → Option ChunkRequest
fetch_b node id =
    if node == codes "b"
    then if id == 1 ∷ []
      then some (request_of 0 1 (codes "kair"))
      else if id == 11 ∷ []
      then some (request_of 1 1 (codes "os!"))
      else none
    else none

all_encrypted :
    encrypt_blocks coding aead small upload draws_of (read_blocks 8 4 0 (readable text)).0 []
    ≡ (two_blocks.split, (jobs_for 0 (codes "kair") ++ jobs_for 1 (codes "os!"), false))
unfolding encrypt_blocks encrypt_block make_chunks make_chunk pick_random_items pick_loop remove_at
    rand_intn encrypt_gcm generate_random_aes_key read_blocks read_full
all_encrypted = refl

all-IsHonest : IsHonest fetch_b (jobs_for 0 (codes "kair") ++ jobs_for 1 (codes "os!"))
all-IsHonest = (
  λ node reply h. absurd (ground arith),
  (
    λ node reply h. ground arith,
    (λ node reply h. absurd (ground arith), (λ node reply h. ground arith, tt)),
  ),
)

all_reachable :
    (k : ℕ) (block : FileBlock)
    → lookup_at k two_blocks.split ≡ some block
    → IsDistinct (ids block.chunks) × (1 ≤ available fetch_b block.chunks)
all_reachable k block h = elim (Bool-cases (nat_eq 0 k)) [
  | inl e ↦
      let same : block_of 0 6 ≡ block = ground arith in
      rw (← same) ((refl, (refl, tt)), omega arith)
  | inr e ↦
      let same : block_of 1 5 ≡ block = ground arith in
      rw (← same) ((refl, (refl, tt)), omega arith)
]

blocks_of_two : 2 ≡ total_blocks 7 4
unfolding total_blocks
blocks_of_two = refl

stream_reconstruct-encrypt_blocks_example :
    stream_reconstruct coding aead fetch_b two_blocks 6 (λ k. true) true ≡ (text, none)
stream_reconstruct-encrypt_blocks_example =
    stream_reconstruct-encrypt_blocks coding_laws aead_laws small upload draws_of (λ k. codes "no")
      refl (λ k. refl) (λ k. refl) fetch_b two_blocks refl all_reachable 6 (λ k. true) (λ k. refl) 8
      4 text (jobs_for 0 (codes "kair") ++ jobs_for 1 (codes "os!")) (omega arith) (omega arith)
      (omega arith) refl blocks_of_two all_encrypted all-IsHonest
