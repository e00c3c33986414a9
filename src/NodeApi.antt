-- ===== src/NodeApi.antt =====
-- The node's HTTP handlers, internal/api/node_api.go, with `SaveChunk` and `GetChunk` of
-- internal/service/file_management.go. A handler works in a world `W` that holds the node's own
-- database (`view` reads it and `update` replaces it), the bootstrap servers and the other nodes;
-- `send`, `save`, `delete` and `fetch` are the calls it makes there. `http.Error` puts a newline
-- behind its message.
pub mod Statuses
pub mod Files
pub mod Dropped
pub mod Deletion
pub mod Life
pub mod Elsewhere
pub mod Kept
use kairos_p2p_engine.Base.{
  ℕ, ◌*◌, Bool, true, false, Option, none, some, List, [], ◌∷◌, ◌++◌, Bytes, codes, ◌==◌, nat_eq,
  length, lookup, Result, ok, err, if◌then◌else◌,
}
use kairos_p2p_engine.Models.{Chunk, FileBlock, FileManifest, ChunkRequest}
use kairos_p2p_engine.Config.{Config}
use kairos_p2p_engine.Crypto.Library.{Aead}
use kairos_p2p_engine.Database.{get_data, put_data, delete_key}
use kairos_p2p_engine.Process.{
  Process, check, Response, Method, method_get, method_post, method_delete, other_method, status_ok,
  bad_request, not_found, method_not_allowed, internal_server_error, ok_response, Send, post_of,
}
use kairos_p2p_engine.Process.Json.{Codec, Json}
use kairos_p2p_engine.Cleanup.{chunks}
use kairos_p2p_engine.Client.{get_file_manifest_from_server, delete_manifest_on_bootstrap}
use kairos_p2p_engine.Files.Coding.{Coding}
use kairos_p2p_engine.Files.StreamAndUpload.{
  LocalFile, Chances, StreamError, blocked, stream_and_upload_file,
}
use kairos_p2p_engine.Files.Reconstruct.{GetError, stream_reconstruct, or_zero}

pub record UploadStatus : Type 0 where
  pub status : Bytes

-- The method and the query of a request; `r.URL.Query().Get` gives "" for a missing parameter.
pub record Request : Type 0 where
  pub method : Method
  pub query : List (Bytes × Bytes)
  pub body : Bytes

abbrev pub query_get : Request → Bytes → Bytes
query_get r name = or_zero [] (lookup name r.query)

abbrev pub is_empty : Bytes → Bool
is_empty text = nat_eq (length text) 0

abbrev pub http_error : ℕ → Bytes → Response
http_error status message = record { status = status; body = message ++ (10 ∷ []) }

abbrev pub is_method : Method → Method → Bool
is_method method_get method_get = true
is_method method_post method_post = true
is_method method_delete method_delete = true
is_method _ _ = false

abbrev pub upload_status : Bytes
upload_status = codes "upload_status"

-- The file of a multipart form, and whether its copy in the temporary directory can be created,
-- written and reopened again.
pub record Form : Type 0 where
  pub name : Bytes
  pub release_time : Bytes
  pub created : Bool
  pub copied : Bool
  pub reopened : Option LocalFile

module _ {D F : Type 0} (self : Process D F) (statuses : Codec UploadStatus) where
  -- A failed write is logged only.
  unfoldable pub save_status : D → Bytes → Bytes → D
  save_status db id status =
      (put_data self.badger db upload_status id (statuses.marshal (record { status = status }))).0

  -- `PutFile` up to the start of its worker; `id` is the new identifier of the file.
  unfoldable pub put_file : D → Request → Option Form → Bytes → D × Response
  put_file db r form id =
      if is_method r.method method_post
      then elim form [
        | none ↦ (db, http_error bad_request (codes "Error retrieving file"))
        | some f ↦
            if f.created
            then if f.copied
              then (save_status db id (codes "processing"), ok_response (id ++ (10 ∷ [])))
              else (db, http_error internal_server_error (codes "Upload Error"))
            else (db, http_error internal_server_error (codes "Server Error"))
      ]
      else (db, http_error method_not_allowed (codes "Only POST method allowed!"))

  unfoldable pub check_status : D → Request → Response
  check_status db r =
      let id = query_get r (codes "id") in
      if is_method r.method method_get
      then if is_empty id
        then http_error bad_request (codes "Missing id parameter")
        else elim (get_data self.badger db upload_status id) [
          | err _ ↦ http_error not_found (codes "Status not found")
          | ok text ↦ ok_response text
        ]
      else http_error method_not_allowed (codes "Only GET method allowed!")

  -- The status that the worker ends with; a worker that is blocked writes none.
  unfoldable pub end_status : D → Bytes → Option StreamError → D
  end_status db id none = save_status db id (codes "completed")
  end_status db id (some blocked) = db
  end_status db id (some _) = save_status db id (codes "error")

  module _ (json : Json) where
    -- `SaveChunk`; an error stands for a body, a signature or a database that does not do.
    unfoldable pub save_chunk_http : D → Bytes → D × Bool
    save_chunk_http db body =
        let (request, decoded) = json.chunk_request.decode body in
        let message = json.chunk_request.marshal (record request { signature = [] }) in
        if decoded
        then if check self message request.signature request.public_key
          then (let (db', e) = put_data self.badger db chunks request.chunk_id message in
              (db', elim e [ none ↦ true | some _ ↦ false ]))
          else (db, false)
        else (db, false)

    -- `GetChunk`
    unfoldable pub get_chunk_http : D → Request → Option Bytes
    get_chunk_http db r =
        let id = query_get r (codes "chunkId") in
        if is_empty id
        then none
        else elim (get_data self.badger db chunks id) [ err _ ↦ none | ok text ↦ some text ]

    -- `Chunk`
    unfoldable pub chunk : D → Request → D × Response
    chunk db r =
        if is_method r.method method_post
        then (let (db', saved) = save_chunk_http db r.body in
            (
              db',
              if saved
                  then ok_response []
                  else http_error internal_server_error (codes "Error saving chunk"),
            ))
        else if is_method r.method method_get
        then (
          db,
          elim (get_chunk_http db r) [
            | none ↦ http_error internal_server_error (codes "Error getting chunk")
            | some text ↦ ok_response text
          ],
        )
        else if is_method r.method method_delete
        then ((delete_key self.badger db chunks (query_get r (codes "id"))).0, ok_response [])
        else (db, http_error method_not_allowed (codes "Method not allowed"))
