-- ===== src/Models.antt =====
-- internal/models/model.go: the messages between the processes and the records that they store.
-- An `int64` is its 64-bit pattern (see Base/Words.antt); an `int` that counts shards, blocks or
-- bytes is a natural number; a nil and an empty slice are both the empty list.
use kairos_p2p_engine.Base.{ℕ, List, Bytes}

pub record SubscriptionRequest : Type 0 where
  pub address : Bytes
  pub public_key : Bytes
  pub signature : Bytes

pub record SyncDigest : Type 0 where
  pub address : Bytes
  pub public_key : Bytes
  pub signature : Bytes
  pub node_keys : List Bytes
  pub manifest_keys : List Bytes

pub record SyncPayload : Type 0 where
  pub address : Bytes
  pub public_key : Bytes
  pub signature : Bytes
  pub active_nodes : List (Bytes × Bytes)
  pub file_manifests : List (Bytes × Bytes)
  pub requested_nodes : List Bytes
  pub requested_manifests : List Bytes

pub record NodesForFileUploadRequest : Type 0 where
  pub address : Bytes
  pub public_key : Bytes
  pub signature : Bytes
  pub total_chunks : ℕ
  pub nodes_per_chunk : ℕ

pub record ActiveNodeRecord : Type 0 where
  pub public_key : Bytes
  pub timestamp : ℕ

pub record ReedSolomonConfig : Type 0 where
  pub data_shards : ℕ
  pub parity_shards : ℕ

pub record Chunk : Type 0 where
  pub chunk_id : Bytes
  pub key_index_part : ℕ
  pub key_part : Bytes
  pub shard_index : ℕ
  pub nodes : List Bytes

pub record FileBlock : Type 0 where
  pub encrypted_block_size : ℕ
  pub chunks : List Chunk

pub record FileManifest : Type 0 where
  pub file_name : Bytes
  pub file_id : Bytes
  pub file_size : ℕ
  pub release_date : Bytes
  pub hash_file : Bytes
  pub hash_algorithm : Bytes
  pub blocks : ℕ
  pub chunks_per_blocks : ℕ
  pub reed_solomon_config : ReedSolomonConfig
  pub split : List (ℕ × FileBlock)

pub record FileManifestRequest : Type 0 where
  pub address : Bytes
  pub public_key : Bytes
  pub signature : Bytes
  pub manifest : FileManifest

pub record GetFileManifestRequest : Type 0 where
  pub address : Bytes
  pub public_key : Bytes
  pub signature : Bytes
  pub file_id : Bytes

pub record ChunkRequest : Type 0 where
  pub address : Bytes
  pub public_key : Bytes
  pub signature : Bytes
  pub chunk_id : Bytes
  pub file_id : Bytes
  pub created_at : ℕ
  pub shard : Bytes
  pub release_date : Bytes
