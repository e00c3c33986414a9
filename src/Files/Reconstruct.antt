-- ===== src/Files/Reconstruct.antt =====
-- `StreamReconstruct`: the file out of its manifest and the chunks of the nodes. `fetch` is
-- `RequestChunk`, which asks one node for one chunk; it gives nothing when the call fails.
pub mod Loop
pub mod Invariant
pub mod RoundTrip
pub mod WholeFile
use kairos_p2p_engine.Base.{
  ℕ, zero, suc, ◌+◌, Bool, true, false, Option, none, some, List, [], ◌∷◌, ◌++◌, Bytes, Result, ok,
  err, ◌>>=◌, or_fail, get_elem?, set, replicate, insert, lookup, insert_at, lookup_at, leb, ltb,
  if◌then◌else◌,
}
use kairos_p2p_engine.Models.{Chunk, FileBlock, FileManifest, ReedSolomonConfig, ChunkRequest}
use kairos_p2p_engine.Crypto.Library.{Aead}
use kairos_p2p_engine.Crypto.{decrypt_gcm}
use kairos_p2p_engine.Files.Coding.{Coding}

pub data GetError : Type 0 where
  drand_network rs_creation insufficient_data reconstruction_failed join_failed : GetError
  combine_failed unlock_failed decrypt_failed connection_lost index_out_of_range : GetError

-- The zero values of a missing map entry.
abbrev pub zero_chunk : Chunk
zero_chunk = record {
  chunk_id = [];
  key_index_part = 0;
  key_part = [];
  shard_index = 0;
  nodes = [];
}

abbrev pub zero_block : FileBlock
zero_block = record { encrypted_block_size = 0; chunks = [] }

abbrev pub or_zero {ℓ} : {A : Type ℓ} → A → Option A → A
or_zero z none = z
or_zero z (some a) = a

-- `originalChunkInfo`
unfoldable pub chunk_infos : List Chunk → List (Bytes × Chunk) → List (Bytes × Chunk)
chunk_infos [] m = m
chunk_infos (c ∷ cs) m = chunk_infos cs (insert c.chunk_id c m)

-- A nil shard in a reply leaves the slot nil.
abbrev pub nil_or : Bytes → Option Bytes
nil_or [] = none
nil_or (b ∷ bs) = some (b ∷ bs)

-- The variables of the loop over a block's chunks.
pub record Gather : Type 0 where
  pub shards : List (Option Bytes)
  pub key_parts : List (ℕ × Bytes)
  pub shards_received : ℕ

-- A reply for a slot that is still nil.
unfoldable pub accept_shard : Gather → Chunk → Bytes → Gather
accept_shard g info shard = record {
  shards = set g.shards info.shard_index (nil_or shard);
  key_parts = insert_at info.key_index_part info.key_part g.key_parts;
  shards_received = g.shards_received + 1;
}

-- What becomes of a reply about the chunk `info`: a filled slot stays, and the loop goes on to the
-- next node, `rest`.
unfoldable pub place_shard :
    Gather → Chunk → Bytes → Result GetError Gather → Result GetError Gather
place_shard g info shard rest = elim (get_elem? g.shards info.shard_index) [
  | none ↦ err index_out_of_range
  | some (some _) ↦ rest
  | some none ↦ ok (accept_shard g info shard)
]

module _ (fetch : Bytes → Bytes → Option ChunkRequest) (infos : List (Bytes × Chunk)) where
  -- `for _, nodeAddr := range chunkMeta.Nodes`
  unfoldable pub try_nodes : Gather → Bytes → List Bytes → Result GetError Gather
  try_nodes g chunk_id [] = ok g
  try_nodes g chunk_id (node ∷ nodes) =
      let rest = try_nodes g chunk_id nodes in
      elim (fetch node chunk_id) [
        | none ↦ rest
        | some reply ↦
            place_shard g (or_zero zero_chunk (lookup reply.chunk_id infos)) reply.shard rest
      ]

  -- `for _, chunkMeta := range blockData.Chunks`
  unfoldable pub gather_chunks : ℕ → Gather → List Chunk → Result GetError Gather
  gather_chunks required g [] = ok g
  gather_chunks required g (c ∷ cs) =
      if leb required g.shards_received
      then ok g
      else try_nodes g c.chunk_id c.nodes >>= λ g'. gather_chunks required g' cs

-- Errors of DecryptGCM are wrapped.
abbrev pub opened : {E : Type 0} → Result E Bytes → Result GetError Bytes
opened (ok b) = ok b
opened (err e) = err decrypt_failed

abbrev enough : ℕ → Gather → Result GetError Gather
enough required g = if ltb g.shards_received required then err insufficient_data else ok g

-- One round of the loop over the blocks; `now` is the newest round of the beacon.
unfoldable pub reconstruct_block :
    Coding
    → Aead
    → (Bytes → Bytes → Option ChunkRequest)
    → ReedSolomonConfig
    → ℕ
    → FileBlock
    → Result GetError Bytes
reconstruct_block coding aead fetch rs now block = do
  let total = rs.data_shards + rs.parity_shards
  let start : Gather = record { shards = replicate total none; key_parts = []; shards_received = 0 }
  gathered ← gather_chunks fetch (chunk_infos block.chunks []) rs.data_shards start block.chunks
  g ← enough rs.data_shards gathered
  shards ←
      or_fail (coding.rs_reconstruct rs.data_shards rs.parity_shards g.shards) reconstruction_failed
  encrypted_block ←
      or_fail (coding.rs_join rs.data_shards rs.parity_shards shards block.encrypted_block_size)
        join_failed
  encrypted_key ← or_fail (coding.shamir_combine g.key_parts) combine_failed
  key ← or_fail (coding.tlock_decrypt now encrypted_key) unlock_failed
  opened (decrypt_gcm aead encrypted_block key)

module _ (coding : Coding) (aead : Aead) (fetch : Bytes → Bytes → Option ChunkRequest)
    (manifest : FileManifest) (now : ℕ) (writes : ℕ → Bool) where
  -- `n` blocks from the `i`-th on: what was written to the client, and the error that ended the
  -- loop. `writes i` says whether the write of block `i` succeeds.
  unfoldable pub reconstruct_blocks : ℕ → ℕ → Bytes × Option GetError
  reconstruct_blocks zero i = ([], none)
  reconstruct_blocks (suc n) i =
      let (written, e) = reconstruct_blocks n (i + 1) in
      elim (reconstruct_block coding aead fetch manifest.reed_solomon_config now
        (or_zero zero_block (lookup_at i manifest.split))) [
          | err e' ↦ ([], some e')
          | ok block ↦ if writes i then (block ++ written, e) else ([], some connection_lost)
        ]

  -- `network` says whether the drand client could be made.
  unfoldable pub stream_reconstruct : Bool → Bytes × Option GetError
  stream_reconstruct network =
      let rs = manifest.reed_solomon_config in
      if network
      then if coding.rs_new rs.data_shards rs.parity_shards
        then reconstruct_blocks manifest.blocks 0
        else ([], some rs_creation)
      else ([], some drand_network)
