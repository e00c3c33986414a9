-- ===== src/Network.antt =====
-- The network as one store for the bootstrap server and one for each node, and what a process sees
-- of it: its calls of the bootstrap server (cmd/k-bootstrap/main.go has the routes) and of the nodes'
-- gRPC service. A call is answered before anything else happens; a node that is down answers none.
use kairos_p2p_engine.Base.{
  ℕ, Bool, true, false, ◌&&◌, Option, none, some, List, [], Bytes, ◌==◌, Result, ok, err,
  if◌then◌else◌,
}
use kairos_p2p_engine.Models.{ChunkRequest, FileManifest}
use kairos_p2p_engine.Process.{Process, Response, Method, Send}
use kairos_p2p_engine.Process.Json.{Json}
use kairos_p2p_engine.NodeServer.{
  CallError, chunk_not_found, save_chunk, get_chunk, delete_chunk, request_chunk,
}
use kairos_p2p_engine.Client.Served.{served}
pub mod Chunks
pub mod Jobs
pub mod Identifiers
pub mod Blocks
pub mod Order
pub mod Pending
pub mod Moves
pub mod Steps
pub mod Interleaving
pub mod AnyOrder
pub mod SideBySide
pub mod Notes
pub mod RolledBack
pub mod RoundTrip

pub record Net (D E : Type 0) : Type 0 where
  pub bootstrap : D
  pub nodes : Bytes → E

abbrev pub set_node : {D E : Type 0} → Net D E → Bytes → E → Net D E
set_node w node db = record w { nodes = λ a. if node == a then db else w.nodes a }

module _ {D E F : Type 0} (bootstrap : Process D F) (json : Json) (sha256 : Bytes → Bytes)
    (metrics : D → Method → Response) (now : ℕ) where
  abbrev pub net_send : Send (Net D E)
  net_send =
      served bootstrap json sha256 metrics now (λ w. w.bootstrap)
        (λ w d. record w { bootstrap = d })

module _ {D E G : Type 0} (nodes : Process E G) (json : Json) (is_up : Bytes → Bool) where
  -- `err == nil && res.Success`
  unfoldable pub net_save : Net D E → Bytes → ChunkRequest → Net D E × Bool
  net_save w node request =
      if is_up node
      then (let (db, (reply, e)) = save_chunk nodes json (w.nodes node) request in
          (set_node w node db, reply.success && elim e [ none ↦ true | some _ ↦ false ]))
      else (w, false)

  -- `RequestChunkDeletion`
  unfoldable pub net_delete : Net D E → Bytes → Bytes → Net D E
  net_delete w node id =
      if is_up node then set_node w node (delete_chunk nodes (w.nodes node) id).0 else w

  -- `RequestChunk`
  unfoldable pub net_fetch : Net D E → Bytes → Bytes → Option ChunkRequest
  net_fetch w node id =
      request_chunk json
        (λ n i. if is_up n then get_chunk nodes (w.nodes n) i else err chunk_not_found) node id
