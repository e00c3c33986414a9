-- ===== src/Bootstrap.antt =====
-- The handlers of internal/api/bootstrap_api.go beside the synchronisation (Sync.antt): the
-- registry of active nodes and the store of file manifests. A handler takes the database and the
-- request's body; what `json.Decode` leaves in the variable is used whether it failed or not, as in
-- the source. Errors of the database are ignored, as in the source.
pub mod Registry
pub mod Manifests
pub mod Life
pub mod Aligned
pub mod Kept
use kairos_p2p_engine.Base.{
  ◌||◌, ℕ, zero, suc, ◌+◌, ◌-◌, ◌/◌, Bool, Option, none, some, List, [], Bytes, codes, ◌==◌, Result,
  ok, err, length, take, leb, nat_eq, if◌then◌else◌,
}
use kairos_p2p_engine.Models.{
  SubscriptionRequest, NodesForFileUploadRequest, ActiveNodeRecord, FileManifest,
  FileManifestRequest, GetFileManifestRequest,
}
use kairos_p2p_engine.Database.{get_data, put_data, delete_key, get_all_keys}
use kairos_p2p_engine.Process.{
  Process, check, Response, Method, method_get, method_post, method_delete, other_method, Send,
  not_found, ok_response, unauthorized_response,
}
use kairos_p2p_engine.Process.Json.{Json}
use kairos_p2p_engine.Sync.{active_nodes, manifests, sync_routes}

-- From 2 ^ 53 on, `float64` does not hold every integer.
abbrev pub inexact_from : ℕ
inexact_from = 9_007_199_254_740_992

-- `int(math.Ceil(float64(totalChunks) / float64(nodesPerChunk)))`, for counts that are not negative:
-- below 2 ^ 53 the rounding of the quotient does not change its ceiling. Nothing stands for what is
-- not modelled: larger counts, and a zero divisor, where the conversion of the infinite quotient is
-- not defined.
unfoldable pub nodes_to_pickup : ℕ → ℕ → Option ℕ
nodes_to_pickup total_chunks nodes_per_chunk =
    if nat_eq nodes_per_chunk 0
      || (leb inexact_from total_chunks || leb inexact_from nodes_per_chunk)
    then none
    else some ((total_chunks + nodes_per_chunk - 1) / nodes_per_chunk)

-- All the nodes, or the first ones of them.
unfoldable pub allocate : List Bytes → ℕ → List Bytes
allocate nodes count = if leb (length nodes) count then nodes else take count nodes

module _ {D F : Type 0} (self : Process D F) (json : Json) where
  -- `now` is `time.Now().UnixNano()`.
  unfoldable pub subscribe_node : ℕ → D → Bytes → D × Response
  subscribe_node now db request =
      let subscription : SubscriptionRequest = (json.subscription_request.decode request).0 in
      let message = json.subscription_request.marshal (record subscription { signature = [] }) in
      if check self message subscription.signature subscription.public_key
      then (
        (put_data self.badger db active_nodes subscription.address (
            json.active_node_record.marshal
              (record { public_key = subscription.public_key; timestamp = now }))).0,
        ok_response [],
      )
      else (db, unauthorized_response)

  -- No response stands for a number of nodes that is not modelled.
  unfoldable pub request_nodes_for_file_upload_api : D → Bytes → Option Response
  request_nodes_for_file_upload_api db body =
      let request : NodesForFileUploadRequest =
        (json.nodes_for_file_upload_request.decode body).0 in
      let message =
        json.nodes_for_file_upload_request.marshal (record request { signature = [] }) in
      if check self message request.signature request.public_key
      then elim (nodes_to_pickup request.total_chunks request.nodes_per_chunk) [
        | none ↦ none
        | some count ↦ some (
            ok_response (
              json.addresses.marshal (allocate (get_all_keys self.badger db active_nodes).0 count)))
      ]
      else some unauthorized_response

  -- `sha256` is crypto/sha256's Sum256.
  unfoldable pub insert_file_manifest : (Bytes → Bytes) → D → Bytes → D × Response
  insert_file_manifest sha256 db body =
      let request : FileManifestRequest = (json.file_manifest_request.decode body).0 in
      let manifest_bytes = json.file_manifest.marshal request.manifest in
      if check self (sha256 manifest_bytes) request.signature request.public_key
      then (
        (put_data self.badger db manifests request.manifest.file_id manifest_bytes).0,
        ok_response [],
      )
      else (db, unauthorized_response)

  -- The body is empty when the manifest cannot be read.
  unfoldable pub download_file_manifest : D → Bytes → Response
  download_file_manifest db body =
      let request : GetFileManifestRequest = (json.get_file_manifest_request.decode body).0 in
      let message = json.get_file_manifest_request.marshal (record request { signature = [] }) in
      if check self message request.signature request.public_key
      then ok_response
          (elim (get_data self.badger db manifests request.file_id) [ ok v ↦ v | err e ↦ [] ])
      else unauthorized_response

  unfoldable pub delete_file_manifest : D → Bytes → D × Response
  delete_file_manifest db body =
      let request : GetFileManifestRequest = (json.get_file_manifest_request.decode body).0 in
      let message = json.get_file_manifest_request.marshal (record request { signature = [] }) in
      if check self message request.signature request.public_key
      then ((delete_key self.badger db manifests request.file_id).0, ok_response [])
      else (db, unauthorized_response)

  -- `/manifests`: other methods are answered with an empty response.
  unfoldable pub manifests_route : D → Method → Bytes → D × Option Response
  manifests_route db method_post body = (db, some (download_file_manifest db body))
  manifests_route db method_delete body =
      let (db', response) = delete_file_manifest db body in (db', some response)
  manifests_route db method_get body = (db, some (ok_response []))
  manifests_route db other_method body = (db, some (ok_response []))

  -- The server's multiplexer; `metrics` is `/metrics`, `now` the time of the request.
  unfoldable pub bootstrap_routes : (Bytes → Bytes) → (D → Method → Response) → ℕ → Send D
  bootstrap_routes sha256 metrics now db server method path body =
      if path == codes "/subscribe"
      then (let (db', response) = subscribe_node now db body in (db', some response))
      else if path == codes "/file/nodes"
      then (db, request_nodes_for_file_upload_api db body)
      else if path == codes "/file/manifest"
      then (let (db', response) = insert_file_manifest sha256 db body in (db', some response))
      else if path == codes "/manifests"
      then manifests_route db method body
      else if path == codes "/metrics"
      then (db, some (metrics db method))
      else (let (db', response) = sync_routes self json db server path body in
          elim response [
            | some r ↦ (db', some r)
            | none ↦ (db', some (record { status = not_found; body = [] }))
          ])
