-- ===== src/Metrics.antt =====
-- What a node and a bootstrap server say of themselves: `GetNodeMetrics` of internal/api/node_api.go
-- and `GetBootstrapMetrics` of internal/api/bootstrap_api.go. `size` is badger's `Size`, the two
-- `int64` sizes of its files; `stat` is `syscall.Statfs` of the database's directory, if it succeeds.
use kairos_p2p_engine.Base.{
  ◌++◌, ℕ, ◌+◌, ◌*◌, Option, none, some, List, [], ◌∷◌, Bytes, codes, starts_with, drop, length,
  sub64, int64_mod, ◌%◌, if◌then◌else◌, succeeded,
}
use kairos_p2p_engine.Badger.{Badger}
use kairos_p2p_engine.Database.{get_all_keys}
use kairos_p2p_engine.Process.{
  Response, Method, method_get, method_post, method_delete, other_method, status_ok,
  method_not_allowed,
}
use kairos_p2p_engine.Sync.{active_nodes, manifests}
use kairos_p2p_engine.Cleanup.{chunks}

-- The 64-bit fields of cmd/k-explorer's `StorageMetrics`, as the two handlers name them.
pub record StorageMetrics : Type 0 where
  pub database_used_bytes : ℕ
  pub disk_total_bytes : ℕ
  pub disk_used_bytes : ℕ
  pub disk_free_bytes : ℕ

pub record Statfs : Type 0 where
  pub blocks : ℕ
  pub bavail : ℕ
  pub bsize : ℕ

abbrev pub add64 : ℕ → ℕ → ℕ
add64 a b = (a + b) % int64_mod

-- All zero when the call fails.
unfoldable pub storage_of : ℕ × ℕ → Option Statfs → StorageMetrics
storage_of (lsm, vlog) none = record {
  database_used_bytes = add64 lsm vlog;
  disk_total_bytes = 0;
  disk_used_bytes = 0;
  disk_free_bytes = 0;
}
storage_of (lsm, vlog) (some stat) =
    let total_space = (stat.blocks * stat.bsize) % int64_mod in
    let available_space = (stat.bavail * stat.bsize) % int64_mod in
    record {
      database_used_bytes = add64 lsm vlog;
      disk_total_bytes = total_space;
      disk_used_bytes = sub64 total_space available_space;
      disk_free_bytes = available_space;
    }

pub record NodeMetrics : Type 0 where
  pub status : Bytes
  pub storage : StorageMetrics
  pub total_chunks : ℕ

pub record BootstrapMetrics : Type 0 where
  pub status : Bytes
  pub storage : StorageMetrics
  pub active_nodes_count : ℕ
  pub total_files : ℕ
  pub node_addresses : List Bytes

-- `strings.TrimPrefix`
abbrev pub trim_prefix : Bytes → Bytes → Bytes
trim_prefix prefix text = if starts_with prefix text then drop (length prefix) text else text

abbrev pub trim_all : Bytes → List Bytes → List Bytes
trim_all prefix [] = []
trim_all prefix (key ∷ keys) = trim_prefix prefix key ∷ trim_all prefix keys

module _ {D : Type 0} (b : Badger D) (size : D → ℕ × ℕ) (stat : Option Statfs) where
  -- The keys under a prefix; none when they cannot be listed.
  unfoldable pub listed : D → Bytes → List Bytes
  listed db prefix = let (keys, e) = get_all_keys b db prefix in if succeeded e then keys else []

  unfoldable pub node_metrics : D → NodeMetrics
  node_metrics db = record {
    status = codes "online";
    storage = storage_of (size db) stat;
    total_chunks = length (listed db chunks);
  }

  unfoldable pub bootstrap_metrics : D → BootstrapMetrics
  bootstrap_metrics db = record {
    status = codes "online";
    storage = storage_of (size db) stat;
    active_nodes_count = length (listed db active_nodes);
    total_files = length (listed db manifests);
    node_addresses = trim_all (codes "active_nodes_") (listed db active_nodes);
  }

  abbrev pub only_get : Response
  only_get = record {
    status = method_not_allowed;
    body = codes "Only GET method allowed!" ++ (10 ∷ []);
  }

  -- `json.Marshal` of these values does not fail.
  unfoldable pub get_node_metrics : (NodeMetrics → Bytes) → D → Method → Response
  get_node_metrics marshal db method_get = record {
    status = status_ok;
    body = marshal (node_metrics db);
  }
  get_node_metrics marshal db method_post = only_get
  get_node_metrics marshal db method_delete = only_get
  get_node_metrics marshal db other_method = only_get

  unfoldable pub get_bootstrap_metrics : (BootstrapMetrics → Bytes) → D → Method → Response
  get_bootstrap_metrics marshal db method_get = record {
    status = status_ok;
    body = marshal (bootstrap_metrics db);
  }
  get_bootstrap_metrics marshal db method_post = only_get
  get_bootstrap_metrics marshal db method_delete = only_get
  get_bootstrap_metrics marshal db other_method = only_get
