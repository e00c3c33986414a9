-- ===== src/Explorer.antt =====
-- The explorer, cmd/k-explorer/main.go. `get` is the answer of `GET http://<address>/metrics`, if
-- there is one; `perm` is what `rand.Perm` gives; `boot_data` and `node_data` decode the bodies.
-- The metrics of the nodes are added in the order in which the answers come.
use kairos_p2p_engine.Base.{
  ℕ, ◌+◌, ◌%◌, ◌≡◌, refl, ap, ◌∙◌, Bool, true, false, Option, none, some, List, [], ◌∷◌, ◌++◌,
  Bytes, codes, nat_eq, get_or, length, arith, if◌then◌else◌,
}
use kairos_p2p_engine.Process.{
  Response, Method, method_get, method_post, method_delete, other_method, status_ok,
  method_not_allowed, internal_server_error,
}
use kairos_p2p_engine.Metrics.{StorageMetrics, NodeMetrics, BootstrapMetrics, add64}
pub mod Totals

pub record NodeDetail : Type 0 where
  pub address : Bytes
  pub status : Bytes
  pub total_chunks : ℕ
  pub storage : StorageMetrics

pub record BootstrapDetail : Type 0 where
  pub address : Bytes
  pub status : Bytes
  pub storage : StorageMetrics

pub record NetworkOverview : Type 0 where
  pub total_files : ℕ
  pub active_nodes_count : ℕ
  pub total_chunks_distributed : ℕ
  pub aggregated_node_storage : StorageMetrics
  pub bootstrap : BootstrapDetail
  pub nodes : List NodeDetail

-- What the handler answers with before it asks a node.
pub data OverviewError : Type 0 where
  only_get_allowed no_bootstrap_servers bootstrap_unavailable : OverviewError

abbrev pub no_storage : StorageMetrics
no_storage = record {
  database_used_bytes = 0;
  disk_total_bytes = 0;
  disk_used_bytes = 0;
  disk_free_bytes = 0;
}

abbrev pub add_storage : StorageMetrics → StorageMetrics → StorageMetrics
add_storage s t = record {
  database_used_bytes = add64 s.database_used_bytes t.database_used_bytes;
  disk_total_bytes = add64 s.disk_total_bytes t.disk_total_bytes;
  disk_used_bytes = add64 s.disk_used_bytes t.disk_used_bytes;
  disk_free_bytes = add64 s.disk_free_bytes t.disk_free_bytes;
}

-- One goroutine's turn with the mutex.
abbrev pub add_detail : NetworkOverview → NodeDetail → NetworkOverview
add_detail o d = record o {
  nodes = o.nodes ++ (d ∷ []);
  total_chunks_distributed = add64 o.total_chunks_distributed d.total_chunks;
  aggregated_node_storage = add_storage o.aggregated_node_storage d.storage;
}

abbrev pub add_details : NetworkOverview → List NodeDetail → NetworkOverview
add_details o [] = o
add_details o (d ∷ details) = add_details (add_detail o d) details

module _ (get : Bytes → Option Response) (boot_data : Bytes → BootstrapMetrics)
    (node_data : Bytes → Option NodeMetrics) where
  -- The first bootstrap server, in the order of the permutation, that answers with status 200.
  unfoldable pub first_available : List Bytes → List ℕ → Option (Bytes × Bytes)
  first_available servers [] = none
  first_available servers (i ∷ perm) =
      let server = get_or servers i [] in
      let rest = first_available servers perm in
      elim (get server) [
        | none ↦ rest
        | some response ↦
            if nat_eq response.status status_ok then some (server, response.body) else rest
      ]

  -- A node that does not answer, or not with metrics, is offline.
  unfoldable pub node_detail : Bytes → NodeDetail
  node_detail address =
      let offline : NodeDetail = record {
        address = address;
        status = codes "offline";
        total_chunks = 0;
        storage = no_storage;
      } in
      elim (get address) [
        | none ↦ offline
        | some response ↦ elim (node_data response.body) [
          | none ↦ offline
          | some m ↦ record {
            address = address;
            status = m.status;
            total_chunks = m.total_chunks;
            storage = m.storage;
          }
        ]
      ]

  abbrev pub node_details : List Bytes → List NodeDetail
  node_details [] = []
  node_details (a ∷ addresses) = node_detail a ∷ node_details addresses

  abbrev pub initial_overview : Bytes → BootstrapMetrics → NetworkOverview
  initial_overview target m = record {
    total_files = m.total_files;
    active_nodes_count = m.active_nodes_count;
    total_chunks_distributed = 0;
    aggregated_node_storage = no_storage;
    bootstrap = record { address = target; status = m.status; storage = m.storage };
    nodes = [];
  }

  -- `order` rearranges the node addresses as the answers come.
  unfoldable pub get_network_overview :
      List Bytes
      → List ℕ
      → (List Bytes → List Bytes)
      → Method
      → Option OverviewError × Option NetworkOverview
  get_network_overview servers perm order method_get =
      if nat_eq (length servers) 0
      then (some no_bootstrap_servers, none)
      else elim (first_available servers perm) [
        | none ↦ (some bootstrap_unavailable, none)
        | some (target, body) ↦
            let m = boot_data body in
            (
              none,
              some
                  (add_details (initial_overview target m) (node_details (order m.node_addresses))),
            )
      ]
  get_network_overview servers perm order method_post = (some only_get_allowed, none)
  get_network_overview servers perm order method_delete = (some only_get_allowed, none)
  get_network_overview servers perm order other_method = (some only_get_allowed, none)
