-- ===== src/Process/Json.antt =====
-- encoding/json for the message types: text out of a value, and what decoding leaves in the
-- variable together with whether it reported no error. What was marshalled is decoded
-- again; the text fields of a value are valid UTF-8, which encoding/json keeps as it is.
use kairos_p2p_engine.Base.{◌≡◌, Bool, true, Option, none, some, [], Bytes, List}
use kairos_p2p_engine.Models.{
  SubscriptionRequest, SyncDigest, SyncPayload, NodesForFileUploadRequest, ActiveNodeRecord,
  FileManifest, FileManifestRequest, GetFileManifestRequest, ChunkRequest,
}

pub record Codec (A : Type 0) : Type 0 where
  pub marshal : A → Bytes
  pub decode : Bytes → A × Bool
  pub decode-marshal : (a : A) → decode (marshal a) ≡ (a, true)

pub record Json : Type 0 where
  pub subscription_request : Codec SubscriptionRequest
  pub sync_digest : Codec SyncDigest
  pub sync_payload : Codec SyncPayload
  pub nodes_for_file_upload_request : Codec NodesForFileUploadRequest
  pub active_node_record : Codec ActiveNodeRecord
  pub file_manifest : Codec FileManifest
  pub file_manifest_request : Codec FileManifestRequest
  pub get_file_manifest_request : Codec GetFileManifestRequest
  pub chunk_request : Codec ChunkRequest
  pub addresses : Codec (List Bytes)
  -- decoding into a nil pointer: an empty text leaves it nil
  pub file_manifest_pointer : Bytes → Option FileManifest
  pub file_manifest_pointer-marshal :
      (m : FileManifest) → file_manifest_pointer (file_manifest.marshal m) ≡ some m
  pub file_manifest_pointer-empty : file_manifest_pointer [] ≡ none
