-- ===== src/Examples/Cleaning.antt =====
-- Ticks of the cleaners on small stores.
use kairos_p2p_engine.Base.{
  int64_mod, ◌<◌, ◌*◌, ◌≡◌, refl, none, some, [], ◌∷◌, Bytes, codes, eq_iff, lookup, arith,
}
use kairos_p2p_engine.Models.{ChunkRequest, FileManifest}
use kairos_p2p_engine.Badger.Memory.{Memory, memory, memory_laws, memory-IsReliable}
use kairos_p2p_engine.Database.{make_key}
use kairos_p2p_engine.Database.Keys.{IsPlain, make_key-eq}
use kairos_p2p_engine.Database.Laws.{stored}
use kairos_p2p_engine.Sync.{active_nodes, manifests}
use kairos_p2p_engine.Cleanup.{Clock, second, chunks, clean_node_database, clean_bootstrap_database}
use kairos_p2p_engine.Cleanup.Retention.{
  stored-clean_node_database, stored-clean_bootstrap_database,
}
use kairos_p2p_engine.Examples.Codecs.{plain_json}

-- Ten days after the only date there is.
abbrev pub late : Clock
late = record {
  parse_rfc3339 = λ text. some 0;
  now = 10 * 24 * 3600 * second;
  unix = 10 * 24 * 3600;
  unix_nano = 10 * 24 * 3600 * second;
}

-- A clock that can read no date.
abbrev undated : Clock
undated = record late { parse_rfc3339 = λ text. none }

abbrev pub chunk_a : ChunkRequest
chunk_a = record {
  address = [];
  public_key = [];
  signature = [];
  chunk_id = codes "a";
  file_id = codes "f";
  created_at = 1;
  shard = codes "x";
  release_date = codes "d";
}

abbrev pub manifest_f : FileManifest
manifest_f = record {
  file_name = codes "n";
  file_id = codes "f";
  file_size = 1;
  release_date = codes "d";
  hash_file = [];
  hash_algorithm = [];
  blocks = 1;
  chunks_per_blocks = 2;
  reed_solomon_config = record { data_shards = 1; parity_shards = 1 };
  split = [];
}

abbrev pub chunk_text : Bytes
chunk_text = plain_json.chunk_request.marshal chunk_a

abbrev pub manifest_text : Bytes
manifest_text = plain_json.file_manifest.marshal manifest_f

abbrev node_text : Bytes
node_text = plain_json.active_node_record.marshal (record { public_key = []; timestamp = 1 })

abbrev pub one_chunk : Memory
one_chunk = (make_key chunks (codes "a"), chunk_text) ∷ []

abbrev pub one_manifest : Memory
one_manifest = (make_key manifests (codes "f"), manifest_text) ∷ []

abbrev one_node : Memory
one_node = (make_key active_nodes (codes "n"), node_text) ∷ []

only_entry :
    (p k j v w : Bytes)
    → IsPlain p
    → lookup (make_key p j) ((make_key p k, v) ∷ []) ≡ some w
    → (k ≡ j) × (v ≡ w)
only_entry p k j v w h e = ground (arith, make_key-eq p p k j h h, eq_iff k j)

pub chunks_are_keyed :
    (id value : Bytes)
    → stored memory_laws one_chunk chunks id ≡ some value
    → (plain_json.chunk_request.decode value).0.chunk_id ≡ id
chunks_are_keyed id value h =
    let (same, text) = only_entry chunks (codes "a") id chunk_text value refl h in rw (← text) same

pub manifests_are_keyed :
    (id value : Bytes)
    → stored memory_laws one_manifest manifests id ≡ some value
    → (plain_json.file_manifest.decode value).0.file_id ≡ id
manifests_are_keyed id value h =
    let (same, text) = only_entry manifests (codes "f") id manifest_text value refl h in
    rw (← text) same

chunk_is_dated :
    (value : Bytes)
    → stored memory_laws one_chunk chunks (codes "a") ≡ some value
    → (plain_json.chunk_request.decode value).0.created_at < int64_mod
chunk_is_dated value h =
    let (same, text) = only_entry chunks (codes "a") (codes "a") chunk_text value refl h in
    rw (← text) (omega arith)

-- Its release date cannot be read, and its file has no manifest.
stored-clean_node_database_example :
    stored memory_laws
      (clean_node_database memory plain_json undated (λ id. none) 3 one_chunk)
      chunks
      (codes "a")
    ≡ none
unfolding make_key
stored-clean_node_database_example =
    stored-clean_node_database memory_laws memory-IsReliable plain_json undated (λ id. none) 3
      one_chunk chunks (codes "a") (omega arith) chunk_is_dated refl chunks_are_keyed

stored-clean_bootstrap_database_example :
    stored memory_laws
      (clean_bootstrap_database memory plain_json late 3 one_manifest)
      manifests
      (codes "f")
    ≡ none
unfolding make_key
stored-clean_bootstrap_database_example =
    stored-clean_bootstrap_database memory_laws memory-IsReliable plain_json late 3 one_manifest
      manifests (codes "f") refl manifests_are_keyed
