-- ===== src/NodeApi/Life.antt =====
-- A node's own database from its start to the signal that ends it, cmd/k-node/main.go: the node
-- answers HTTP requests and gRPC calls, uploads end, and the ticker of its cleaner goes off, one event
-- after the other. `GetFile`, `DeleteFile` and the metrics write nothing there: `get`, `delete` and
-- `metrics` are their responses, none when the handler panics. The stop changes no data.
use kairos_p2p_engine.Base.{ℕ, Option, some, List, [], ◌∷◌, Bytes, codes, ◌==◌, if◌then◌else◌}
use kairos_p2p_engine.Models.{FileManifest, ChunkRequest}
use kairos_p2p_engine.Cleanup.{Clock, clean_node_database}
use kairos_p2p_engine.Process.{Process, Response, not_found}
use kairos_p2p_engine.Process.Json.{Codec, Json}
use kairos_p2p_engine.Files.StreamAndUpload.{StreamError}
use kairos_p2p_engine.NodeApi.{
  UploadStatus, Request, Form, http_error, put_file, check_status, end_status, chunk,
}
use kairos_p2p_engine.NodeServer.{save_chunk, delete_chunk}

pub data Event : Type 0 where
  -- An HTTP request, with its form and the identifier that is new for it.
  request : (path : Bytes) (r : Request) (form : Option Form) (id : Bytes) → Event
  -- The worker of a `PutFile` comes to its end.
  upload_end : (id : Bytes) (e : Option StreamError) → Event
  -- The calls `SaveChunk` and `DeleteChunk`.
  save_call : (r : ChunkRequest) → Event
  delete_call : (id : Bytes) → Event
  -- A tick of `CleanNodeDatabase`, and what the bootstrap server answers about a file.
  clean_tick : (clock : Clock) (find : Bytes → Option FileManifest) (gc_fuel : ℕ) → Event

module _ {D F : Type 0} (self : Process D F) (json : Json) (statuses : Codec UploadStatus)
    (get delete metrics : D → Request → Option Response) where
  -- The node's multiplexer.
  unfoldable pub node_routes : D → Bytes → Request → Option Form → Bytes → D × Option Response
  node_routes db path r form id =
      if path == codes "/put"
      then (let (db', response) = put_file self statuses db r form id in (db', some response))
      else if path == codes "/get"
      then (db, get db r)
      else if path == codes "/delete"
      then (db, delete db r)
      else if path == codes "/chunk"
      then (let (db', response) = chunk self statuses json db r in (db', some response))
      else if path == codes "/upload/status"
      then (db, some (check_status self statuses db r))
      else if path == codes "/metrics"
      then (db, metrics db r)
      else (db, some (http_error not_found (codes "404 page not found")))

  unfoldable pub handle : D → Event → D
  handle db (request path r form id) = (node_routes db path r form id).0
  handle db (upload_end id e) = end_status self statuses db id e
  handle db (save_call r) = (save_chunk self json db r).0
  handle db (delete_call id) = (delete_chunk self db id).0
  handle db (clean_tick clock find gc_fuel) =
      clean_node_database self.badger json clock find gc_fuel db

  unfoldable pub life : D → List Event → D
  life db [] = db
  life db (event ∷ events) = life (handle db event) events
