-- ===== src/NodeServer.antt =====
-- The node's gRPC service, internal/grpc/server/node_server.go, and `RequestChunk` of
-- internal/service/file_management.go, which asks it for a chunk. Marshalling a request does not
-- fail in the model, so the two branches for its error are left out; a reply comes with the error
-- of the call, if any.
pub mod Chunks
use kairos_p2p_engine.Base.{
  Bool, true, false, Option, none, some, [], Bytes, codes, Result, ok, err, if◌then◌else◌,
}
use kairos_p2p_engine.Models.{ChunkRequest}
use kairos_p2p_engine.Badger.{DbError}
use kairos_p2p_engine.Database.{get_data, put_data, delete_key}
use kairos_p2p_engine.Process.{Process, check}
use kairos_p2p_engine.Process.Json.{Codec, Json}
use kairos_p2p_engine.Cleanup.{chunks}

-- `pb.ChunkResponse`
pub record ChunkResponse : Type 0 where
  pub success : Bool
  pub message : Bytes

pub data CallError : Type 0 where
  signature_verification_failed chunk_not_found : CallError
  database_error : DbError → CallError

abbrev pub replied : Bool → Bytes → ChunkResponse
replied success message = record { success = success; message = message }

module _ {D F : Type 0} (self : Process D F) where
  -- A `pb.ChunkRequest` has the fields of the model's request. What is signed and what is stored
  -- are the same text, the request without its signature.
  unfoldable pub save_chunk : Json → D → ChunkRequest → D × (ChunkResponse × Option CallError)
  save_chunk json db request =
      let message = json.chunk_request.marshal (record request { signature = [] }) in
      if check self message request.signature request.public_key
      then (let (db', e) = put_data self.badger db chunks request.chunk_id message in
          elim e [
            | some x ↦ (db', (replied false (codes "database error"), some (database_error x)))
            | none ↦ (db', (replied true (codes "chunk saved"), none))
          ])
      else (db, (replied false (codes "unauthorized"), some signature_verification_failed))

  unfoldable pub get_chunk : D → Bytes → Result CallError Bytes
  get_chunk db id = elim (get_data self.badger db chunks id) [
    | ok text ↦ ok text
    | err _ ↦ err chunk_not_found
  ]

  unfoldable pub delete_chunk : D → Bytes → D × (ChunkResponse × Option CallError)
  delete_chunk db id =
      let (db', e) = delete_key self.badger db chunks id in
      elim e [
        | some x ↦ (db', (replied false (codes "failed to delete chunk"), some (database_error x)))
        | none ↦ (db', (replied true (codes "chunk deleted"), none))
      ]

-- `call node id` is the answer of the node's `GetChunk`; an error also stands for a node that
-- cannot be reached.
unfoldable pub request_chunk :
    Json → (Bytes → Bytes → Result CallError Bytes) → Bytes → Bytes → Option ChunkRequest
request_chunk json call node id = elim (call node id) [
  | err _ ↦ none
  | ok text ↦
      let (request, decoded) = json.chunk_request.decode text in
      if decoded then some request else none
]
