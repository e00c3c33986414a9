-- ===== src/NodeApi/Files.antt =====
-- `GetFile`, `DeleteFile` and the worker of `PutFile`, of internal/api/node_api.go.
use kairos_p2p_engine.Base.{
  ℕ, ◌*◌, Bool, Option, none, some, List, [], ◌∷◌, ◌++◌, Bytes, codes, ◌==◌, ok, err, if◌then◌else◌,
}
use kairos_p2p_engine.Models.{Chunk, FileBlock, FileManifest, ChunkRequest}
use kairos_p2p_engine.Crypto.Library.{Aead}
use kairos_p2p_engine.NodeApi.{
  UploadStatus, Request, Form, query_get, is_empty, http_error, is_method, save_status, end_status,
}
use kairos_p2p_engine.Process.{
  Process, Response, method_get, method_delete, bad_request, not_found, method_not_allowed,
  internal_server_error, ok_response, Send, post_of,
}
use kairos_p2p_engine.Process.Json.{Codec, Json}
use kairos_p2p_engine.Client.{
  no_servers, get_file_manifest_from_server, delete_manifest_on_bootstrap,
}
use kairos_p2p_engine.Files.Coding.{Coding}
use kairos_p2p_engine.Files.StreamAndUpload.{Chances, stream_and_upload_file}
use kairos_p2p_engine.Files.Reconstruct.{GetError, stream_reconstruct}

-- What comes of a download: an error response; with the header Content-Disposition, the bytes that
-- were streamed until an error, or the whole stream and whether its hash is that of the manifest; or
-- the panic of a nil manifest, or of the choice of a bootstrap server when none is configured.
pub data Download : Type 0 where
  answered : Response → Download
  interrupted : (disposition written : Bytes) → GetError → Download
  completed : (disposition written : Bytes) → (same_hash : Bool) → Download
  panicked : Download

-- `fmt.Sprintf("attachment; filename=\"%s\"", name)`
abbrev pub disposition : Bytes → Bytes
disposition name = codes "attachment; filename=" ++ (34 ∷ (name ++ (34 ∷ [])))

-- A nil manifest has no blocks.
abbrev pub split_of : Option FileManifest → List (ℕ × FileBlock)
split_of none = []
split_of (some manifest) = manifest.split

module _ {W : Type 0} (delete : W → Bytes → Bytes → W) where
  abbrev pub delete_at : W → Bytes → List Bytes → W
  delete_at w id [] = w
  delete_at w id (node ∷ nodes) = delete_at (delete w node id) id nodes

  abbrev pub delete_chunks : W → List Chunk → W
  delete_chunks w [] = w
  delete_chunks w (c ∷ cs) = delete_chunks (delete_at w c.chunk_id c.nodes) cs

  -- The deletions that `DeleteFile` sets off, one after the other.
  abbrev pub delete_blocks : W → List (ℕ × FileBlock) → W
  delete_blocks w [] = w
  delete_blocks w ((k, block) ∷ split) = delete_blocks (delete_chunks w block.chunks) split

module _ {D F : Type 0} (self : Process D F) (json : Json) {W : Type 0} (send : Send W) where
  -- What is known of the manifest's chunks is deleted, then the manifest. There is no response when
  -- the handler panics, as the choice of a bootstrap server does when none is configured.
  unfoldable pub delete_file : (W → Bytes → Bytes → W) → ℕ → ℕ → W → Request → W × Option Response
  delete_file delete draw second_draw w r =
      let id = query_get r (codes "id") in
      let (w₁, found) = get_file_manifest_from_server self json (post_of send) draw w id in
      if is_method r.method method_delete
      then if is_empty id
        then (w, some (http_error bad_request (codes "Missing fileId")))
        else elim found [
          | err no_servers ↦ (w₁, none)
          | err _ ↦ (w₁, some (http_error not_found (codes "File not found")))
          | ok manifest ↦
              let (w₂, e) =
                delete_manifest_on_bootstrap self json send second_draw
                  (delete_blocks delete w₁ (split_of manifest)) id in
              (
                w₂,
                elim e [
                  | some no_servers ↦ none
                  | some _ ↦
                      some (http_error internal_server_error (codes "Error deleting manifest"))
                  | none ↦ some (ok_response [])
                ],
              )
        ]
      else (w, some (http_error method_not_allowed (codes "Only DELETE allowed")))

  module _ (coding : Coding) (aead : Aead) (sha256 hex : Bytes → Bytes) where
    unfoldable pub get_file :
        (W → Bytes → Bytes → Option ChunkRequest)
        → ℕ
        → ℕ
        → (ℕ → Bool)
        → Bool
        → W
        → Request
        → W × Download
    get_file fetch draw now writes network w r =
        let id = query_get r (codes "id") in
        let (w', found) = get_file_manifest_from_server self json (post_of send) draw w id in
        if is_method r.method method_get
        then if is_empty id
          then (w, answered (http_error bad_request (codes "Missing fileId")))
          else elim found [
            | err no_servers ↦ (w', panicked)
            | err _ ↦ (
              w',
              answered (http_error internal_server_error (codes "Error retrieving manifest")),
            )
            | ok none ↦ (w', panicked)
            | ok (some manifest) ↦
                let (written, e) =
                  stream_reconstruct coding aead (fetch w') manifest now writes network in
                (
                  w',
                  elim e [
                    | some x ↦ interrupted (disposition manifest.file_name) written x
                    | none ↦
                        completed (disposition manifest.file_name) written
                          (hex (sha256 written) == manifest.hash_file)
                  ],
                )
          ]
        else (w, answered (http_error method_not_allowed (codes "Only GET method allowed!")))

    -- The worker of `PutFile`; a panic ends as an error does.
    unfoldable pub put_file_worker :
        Codec UploadStatus
        → (W → D)
        → (W → D → W)
        → (W → Bytes → ChunkRequest → W × Bool)
        → (W → Bytes → Bytes → W)
        → Chances
        → W
        → Form
        → Bytes
        → W
    put_file_worker statuses view update save delete chances w form id = elim form.reopened [
      | none ↦ update w (save_status self statuses (view w) id (codes "error"))
      | some file ↦
          let (w', e) =
            stream_and_upload_file coding aead self json sha256 (post_of send) save delete hex
              chances file form.name (self.config.target_chunk_size * self.config.data_shards)
              form.release_time id w in
          update w' (end_status self statuses (view w') id e)
    ]
