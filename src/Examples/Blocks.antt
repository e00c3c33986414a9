-- ===== src/Examples/Blocks.antt =====
-- A file in blocks, and a block on its way to the nodes and back.
use mathlib.Core.List.{Perm}
use kairos_p2p_engine.Base.{
  ℕ, suc, ◌≡◌, refl, true, ◌&&◌, Option, none, some, List, [], ◌∷◌, ◌++◌, Bytes, codes, ◌==◌, ok,
  length, arith, if◌then◌else◌,
}
use kairos_p2p_engine.Models.{Chunk, FileBlock, ChunkRequest}
use kairos_p2p_engine.Config.{Config, default_config, self_address}
use kairos_p2p_engine.Crypto.{generate_random_aes_key, random_bytes, encrypt_gcm, decrypt_gcm}
use kairos_p2p_engine.Crypto.Gcm.{decrypt_gcm-encrypt_gcm}
use kairos_p2p_engine.Process.{rand_intn}
use kairos_p2p_engine.Files.Pick.{remove_at, pick_loop, pick_random_items, pick_random_items-perm}
use kairos_p2p_engine.Files.Blocks.{
  readable, contents, IsNumbered, read_blocks, total_blocks, read_blocks-contents,
  total_blocks-read_blocks, total_blocks_of_empty,
}
use kairos_p2p_engine.Files.Encrypt.{
  Upload, Draws, UploadJob, make_chunk, make_chunks, encrypt_block,
}
use kairos_p2p_engine.Files.Reconstruct.{reconstruct_block}
use kairos_p2p_engine.Files.Reconstruct.Loop.{IsHonest}
use kairos_p2p_engine.Files.Reconstruct.RoundTrip.{rs_config, reconstruct_block-encrypt_block}
use kairos_p2p_engine.Examples.World.{aead, aead_laws}
use kairos_p2p_engine.Examples.Codes.{coding, coding_laws}

abbrev pub text : Bytes
text = codes "kairos!"

read_blocks-contents_example :
    ((read_blocks 8 3 0 (readable text)).1 ≡ true)
    × (contents (read_blocks 8 3 0 (readable text)).0 ≡ text)
    × IsNumbered 0 (read_blocks 8 3 0 (readable text)).0
    × (length (read_blocks 8 3 0 (readable text)).0 ≡ 3)
read_blocks-contents_example = read_blocks-contents 8 3 0 text (omega arith) (omega arith)

total_blocks-read_blocks_example : total_blocks 7 3 ≡ length (read_blocks 8 3 0 (readable text)).0
total_blocks-read_blocks_example =
    total_blocks-read_blocks 8 3 text (omega arith) (omega arith) (omega arith)

total_blocks_of_empty_example :
    (total_blocks 0 3 ≡ 1) × (read_blocks 1 3 0 (readable []) ≡ ([], true))
total_blocks_of_empty_example = total_blocks_of_empty 0 3 (omega arith)

abbrev three_nodes : List Bytes
three_nodes = codes "a" ∷ codes "b" ∷ codes "c" ∷ []

pick_random_items-perm_example :
    (left : List Bytes) × Perm (pick_random_items three_nodes 2 (λ i. 5) ++ left) three_nodes
    × (length (pick_random_items three_nodes 2 (λ i. 5)) ≡ 2)
pick_random_items-perm_example = pick_random_items-perm three_nodes 2 (λ i. 5)

decrypt_gcm-encrypt_gcm_example :
    (sealed : Bytes) × (encrypt_gcm aead text (generate_random_aes_key (λ i. i)) (some (codes "no"))
      ≡ ok sealed)
    × (decrypt_gcm aead sealed (generate_random_aes_key (λ i. i)) ≡ ok text)
decrypt_gcm-encrypt_gcm_example = decrypt_gcm-encrypt_gcm aead_laws text (λ i. i) (codes "no") refl

-- One data shard and one parity shard, for one node each.
abbrev pub small : Config
small = record default_config {
  data_shards = 1;
  parity_shards = 1;
  total_shards = 2;
  chunks_tolerance = 1;
}

abbrev pub upload : Upload
upload = record {
  nodes = codes "a" ∷ codes "b" ∷ [];
  round = 5;
  file_id = codes "f";
  release_date = codes "d";
}

abbrev draws : Draws
draws = record {
  key = λ i. i;
  nonce = some (codes "no");
  tlock_seed = 0;
  shamir_seed = 0;
  choices = λ j i. j;
  chunk_ids = λ j. j ∷ [];
  created_at = 1;
}

abbrev chunk : ℕ → Bytes → Chunk
chunk j node = record {
  chunk_id = j ∷ [];
  key_index_part = suc j;
  key_part = 5 ∷ random_bytes 32 (λ i. i);
  shard_index = j;
  nodes = node ∷ [];
}

abbrev request : ℕ → ChunkRequest
request j = record {
  address = self_address small;
  public_key = [];
  signature = [];
  chunk_id = j ∷ [];
  file_id = codes "f";
  created_at = 1;
  shard = codes "no" ++ text;
  release_date = codes "d";
}

abbrev block : FileBlock
block = record { encrypted_block_size = 9; chunks = chunk 0 (codes "a") ∷ chunk 1 (codes "b") ∷ [] }

abbrev pub jobs : List UploadJob
jobs =
    record { chunk_req = request 0; target_nodes = codes "a" ∷ [] }
    ∷ record { chunk_req = request 1; target_nodes = codes "b" ∷ [] }
    ∷ []

encrypted : encrypt_block coding aead small upload draws text ≡ ok (block, jobs)
unfolding encrypt_block make_chunks make_chunk pick_random_items pick_loop remove_at rand_intn
    encrypt_gcm generate_random_aes_key
encrypted = refl

-- Only the second node answers, with what it was sent.
abbrev fetch : Bytes → Bytes → Option ChunkRequest
fetch node id = if (id == 1 ∷ []) && (node == codes "b") then some (request 1) else none

jobs-IsHonest : IsHonest fetch jobs
jobs-IsHonest = (λ node reply h. absurd (ground arith), (λ node reply h. ground arith, tt))

-- From round 5 on the block comes back, although one of its two nodes is gone.
reconstruct_block-encrypt_block_example :
    reconstruct_block coding aead fetch (rs_config small) 6 block ≡ ok text
reconstruct_block-encrypt_block_example =
    reconstruct_block-encrypt_block coding_laws aead_laws small upload draws refl fetch text
      (codes "no") block jobs 6 refl refl encrypted (refl, (refl, tt)) jobs-IsHonest
