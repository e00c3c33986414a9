-- ===== src/Examples/Codecs.antt =====
-- The messages and records of the program in that format.
use kairos_p2p_engine.Base.{◌≡◌, refl, ap, Option, none, some, [], ◌∷◌, Bytes}
use kairos_p2p_engine.Models.{
  SubscriptionRequest, SyncDigest, SyncPayload, NodesForFileUploadRequest, ActiveNodeRecord,
  ReedSolomonConfig, Chunk, FileBlock, FileManifest, FileManifestRequest, GetFileManifestRequest,
  ChunkRequest,
}
use kairos_p2p_engine.Process.Json.{Json}
use kairos_p2p_engine.Examples.Wire.{
  Wire, number_wire, bytes_wire, pair_wire, list_wire, record_wire, codec,
}

abbrev pub reed_solomon_config_wire : Wire ReedSolomonConfig
reed_solomon_config_wire =
    record_wire (λ (a : ReedSolomonConfig). (a.data_shards, a.parity_shards))
      (λ p. record { data_shards = p.0; parity_shards = p.1 }) (λ a. refl)
      (pair_wire number_wire number_wire)

abbrev pub chunk_wire : Wire Chunk
chunk_wire =
    record_wire
      (λ (a : Chunk). (a.chunk_id, (a.key_index_part, (a.key_part, (a.shard_index, a.nodes)))))
      (λ p. record {
        chunk_id = p.0;
        key_index_part = p.1.0;
        key_part = p.1.1.0;
        shard_index = p.1.1.1.0;
        nodes = p.1.1.1.1;
      })
      (λ a. refl)
      (pair_wire bytes_wire (
        pair_wire number_wire
          (pair_wire bytes_wire (pair_wire number_wire (list_wire bytes_wire)))))

abbrev pub file_block_wire : Wire FileBlock
file_block_wire =
    record_wire (λ (a : FileBlock). (a.encrypted_block_size, a.chunks))
      (λ p. record { encrypted_block_size = p.0; chunks = p.1 }) (λ a. refl)
      (pair_wire number_wire (list_wire chunk_wire))

abbrev pub file_manifest_wire : Wire FileManifest
file_manifest_wire =
    record_wire
      (λ (a : FileManifest). (
        a.file_name,
        (
          a.file_id,
          (
            a.file_size,
            (
              a.release_date,
              (
                a.hash_file,
                (
                  a.hash_algorithm,
                  (a.blocks, (a.chunks_per_blocks, (a.reed_solomon_config, a.split))),
                ),
              ),
            ),
          ),
        ),
      ))
      (λ p. record {
        file_name = p.0;
        file_id = p.1.0;
        file_size = p.1.1.0;
        release_date = p.1.1.1.0;
        hash_file = p.1.1.1.1.0;
        hash_algorithm = p.1.1.1.1.1.0;
        blocks = p.1.1.1.1.1.1.0;
        chunks_per_blocks = p.1.1.1.1.1.1.1.0;
        reed_solomon_config = p.1.1.1.1.1.1.1.1.0;
        split = p.1.1.1.1.1.1.1.1.1;
      })
      (λ a. refl)
      (pair_wire bytes_wire (
        pair_wire bytes_wire (
          pair_wire number_wire (
            pair_wire bytes_wire (
              pair_wire bytes_wire (
                pair_wire bytes_wire (
                  pair_wire number_wire (
                    pair_wire number_wire (
                      pair_wire reed_solomon_config_wire
                        (list_wire (pair_wire number_wire file_block_wire)))))))))))

abbrev pub subscription_request_wire : Wire SubscriptionRequest
subscription_request_wire =
    record_wire (λ (a : SubscriptionRequest). (a.address, (a.public_key, a.signature)))
      (λ p. record { address = p.0; public_key = p.1.0; signature = p.1.1 }) (λ a. refl)
      (pair_wire bytes_wire (pair_wire bytes_wire bytes_wire))

abbrev pub sync_digest_wire : Wire SyncDigest
sync_digest_wire =
    record_wire
      (λ (a : SyncDigest).
        (a.address, (a.public_key, (a.signature, (a.node_keys, a.manifest_keys)))))
      (λ p. record {
        address = p.0;
        public_key = p.1.0;
        signature = p.1.1.0;
        node_keys = p.1.1.1.0;
        manifest_keys = p.1.1.1.1;
      })
      (λ a. refl)
      (pair_wire bytes_wire (
        pair_wire bytes_wire
          (pair_wire bytes_wire (pair_wire (list_wire bytes_wire) (list_wire bytes_wire)))))

abbrev pub sync_payload_wire : Wire SyncPayload
sync_payload_wire =
    record_wire
      (λ (a : SyncPayload). (
        a.address,
        (
          a.public_key,
          (
            a.signature,
            (a.active_nodes, (a.file_manifests, (a.requested_nodes, a.requested_manifests))),
          ),
        ),
      ))
      (λ p. record {
        address = p.0;
        public_key = p.1.0;
        signature = p.1.1.0;
        active_nodes = p.1.1.1.0;
        file_manifests = p.1.1.1.1.0;
        requested_nodes = p.1.1.1.1.1.0;
        requested_manifests = p.1.1.1.1.1.1;
      })
      (λ a. refl)
      (pair_wire bytes_wire (
        pair_wire bytes_wire (
          pair_wire bytes_wire (
            pair_wire (list_wire (pair_wire bytes_wire bytes_wire)) (
              pair_wire (list_wire (pair_wire bytes_wire bytes_wire))
                (pair_wire (list_wire bytes_wire) (list_wire bytes_wire)))))))

abbrev pub nodes_for_file_upload_request_wire : Wire NodesForFileUploadRequest
nodes_for_file_upload_request_wire =
    record_wire
      (λ (a : NodesForFileUploadRequest).
        (a.address, (a.public_key, (a.signature, (a.total_chunks, a.nodes_per_chunk)))))
      (λ p. record {
        address = p.0;
        public_key = p.1.0;
        signature = p.1.1.0;
        total_chunks = p.1.1.1.0;
        nodes_per_chunk = p.1.1.1.1;
      })
      (λ a. refl)
      (pair_wire bytes_wire
        (pair_wire bytes_wire (pair_wire bytes_wire (pair_wire number_wire number_wire))))

abbrev pub active_node_record_wire : Wire ActiveNodeRecord
active_node_record_wire =
    record_wire (λ (a : ActiveNodeRecord). (a.public_key, a.timestamp))
      (λ p. record { public_key = p.0; timestamp = p.1 }) (λ a. refl)
      (pair_wire bytes_wire number_wire)

abbrev pub file_manifest_request_wire : Wire FileManifestRequest
file_manifest_request_wire =
    record_wire
      (λ (a : FileManifestRequest). (a.address, (a.public_key, (a.signature, a.manifest))))
      (λ p. record { address = p.0; public_key = p.1.0; signature = p.1.1.0; manifest = p.1.1.1 })
      (λ a. refl)
      (pair_wire bytes_wire (pair_wire bytes_wire (pair_wire bytes_wire file_manifest_wire)))

abbrev pub get_file_manifest_request_wire : Wire GetFileManifestRequest
get_file_manifest_request_wire =
    record_wire
      (λ (a : GetFileManifestRequest). (a.address, (a.public_key, (a.signature, a.file_id))))
      (λ p. record { address = p.0; public_key = p.1.0; signature = p.1.1.0; file_id = p.1.1.1 })
      (λ a. refl) (pair_wire bytes_wire (pair_wire bytes_wire (pair_wire bytes_wire bytes_wire)))

abbrev pub chunk_request_wire : Wire ChunkRequest
chunk_request_wire =
    record_wire
      (λ (a : ChunkRequest). (
        a.address,
        (
          a.public_key,
          (a.signature, (a.chunk_id, (a.file_id, (a.created_at, (a.shard, a.release_date))))),
        ),
      ))
      (λ p. record {
        address = p.0;
        public_key = p.1.0;
        signature = p.1.1.0;
        chunk_id = p.1.1.1.0;
        file_id = p.1.1.1.1.0;
        created_at = p.1.1.1.1.1.0;
        shard = p.1.1.1.1.1.1.0;
        release_date = p.1.1.1.1.1.1.1;
      })
      (λ a. refl)
      (pair_wire bytes_wire (
        pair_wire bytes_wire (
          pair_wire bytes_wire (
            pair_wire bytes_wire
              (pair_wire bytes_wire (pair_wire number_wire (pair_wire bytes_wire bytes_wire)))))))

abbrev pub manifest_pointer : Bytes → Option FileManifest
manifest_pointer [] = none
manifest_pointer (n ∷ text) = some ((codec file_manifest_wire).decode (n ∷ text)).0

pub manifest_pointer-marshal :
    (m : FileManifest) → manifest_pointer ((codec file_manifest_wire).marshal m) ≡ some m
manifest_pointer-marshal m = ap (λ r. some r.0) ((codec file_manifest_wire).decode-marshal m)

abbrev pub plain_json : Json
plain_json = record {
  subscription_request = codec subscription_request_wire;
  sync_digest = codec sync_digest_wire;
  sync_payload = codec sync_payload_wire;
  nodes_for_file_upload_request = codec nodes_for_file_upload_request_wire;
  active_node_record = codec active_node_record_wire;
  file_manifest = codec file_manifest_wire;
  file_manifest_request = codec file_manifest_request_wire;
  get_file_manifest_request = codec get_file_manifest_request_wire;
  chunk_request = codec chunk_request_wire;
  addresses = codec (list_wire bytes_wire);
  file_manifest_pointer = manifest_pointer;
  file_manifest_pointer-marshal = manifest_pointer-marshal;
  file_manifest_pointer-empty = refl;
}
