-- ===== src/Cleanup.antt =====
-- The workers of internal/service/clean_database.go. Each definition is what one tick of the
-- worker's ticker does; time and the answers of the bootstrap server are parameters of the tick.
pub mod Sweep
pub mod Retention
use kairos_p2p_engine.Base.{
  ℕ, ◌+◌, ◌*◌, Bool, true, false, ◌&&◌, Option, none, some, List, [], ◌∷◌, ◌++◌, Bytes, codes, lt64,
  sub64, ltb, is_some, if◌then◌else◌,
}
use kairos_p2p_engine.Models.{ChunkRequest, FileManifest, ActiveNodeRecord}
use kairos_p2p_engine.Badger.{DbError, Badger}
use kairos_p2p_engine.Database.{delete_key, get_all_data, iterate_and_process, run_value_log_gc}
use kairos_p2p_engine.Process.Json.{Codec, Json}
use kairos_p2p_engine.Sync.{active_nodes, manifests}

abbrev pub chunks : Bytes
chunks = codes "chunks"

-- `time.Parse(time.RFC3339, …)` and the readings of `time.Now()`: as a time in nanoseconds, which
-- can be compared with a parsed one, and as the `int64` of `Unix()` and of `UnixNano()`.
pub record Clock : Type 0 where
  pub parse_rfc3339 : Bytes → Option ℕ
  pub now : ℕ
  pub unix : ℕ
  pub unix_nano : ℕ

abbrev pub second : ℕ
second = 1_000_000_000

abbrev pub retention : ℕ
retention = 7 * 24 * 3600 * second

abbrev pub orphan_age : ℕ
orphan_age = 7200

abbrev pub heartbeat_timeout : ℕ
heartbeat_timeout = 2 * 60 * second

-- Seven days after the release date, if that can be read.
unfoldable pub is_expired : Clock → Bytes → Bool
is_expired clock release_date = elim (clock.parse_rfc3339 release_date) [
  | none ↦ false
  | some t ↦ ltb (t + retention) clock.now
]

-- A chunk that is older than two hours, as far as its uploader says when it was made.
unfoldable pub is_old : Clock → ℕ → Bool
is_old clock created_at = lt64 0 created_at && lt64 orphan_age (sub64 clock.unix created_at)

module _ (json : Json) (clock : Clock) where
  -- The key that `CleanNodeDatabase` notes for a stored chunk, if any. `find` asks the bootstrap
  -- server for a manifest; it gives nothing when the call fails and when there is none.
  unfoldable pub condemned_chunk : (Bytes → Option FileManifest) → Bytes → Option Bytes
  condemned_chunk find value =
      let (chunk, decoded) = json.chunk_request.decode value in
      if decoded
      then if is_expired clock chunk.release_date
        then some chunk.chunk_id
        else if is_old clock chunk.created_at
        then if is_some (find chunk.file_id) then none else some chunk.chunk_id
        else none
      else none

  -- The key that `CleanBootstrapDatabase` notes for a stored manifest, if any.
  unfoldable pub condemned_manifest : Bytes → Option Bytes
  condemned_manifest value =
      let (manifest, decoded) = json.file_manifest.decode value in
      if decoded && is_expired clock manifest.release_date then some manifest.file_id else none

  -- Whether `CleanInactiveNodes` removes the record.
  unfoldable pub is_unresponsive : Bytes → Bool
  is_unresponsive value =
      let (entry, decoded) = json.active_node_record.decode value in
      decoded && lt64 heartbeat_timeout (sub64 clock.unix_nano entry.timestamp)

-- The callback: it appends to `keysToDelete`.
unfoldable pub note_key : (Bytes → Option Bytes) → List Bytes → Bytes → Bytes → List Bytes
note_key condemned noted key value = elim (condemned value) [
  | none ↦ noted
  | some id ↦ noted ++ (id ∷ [])
]

module _ {D : Type 0} (b : Badger D) where
  unfoldable pub delete_keys : D → Bytes → List Bytes → D
  delete_keys db prefix [] = db
  delete_keys db prefix (k ∷ ks) = delete_keys (delete_key b db prefix k).0 prefix ks

  -- `gc_fuel` bounds the rounds of the value-log collection.
  unfoldable pub sweep : ℕ → Bytes → (Bytes → Option Bytes) → D → D
  sweep gc_fuel prefix condemned db =
      let noted = (iterate_and_process b db prefix (note_key condemned) []).0 in
      (run_value_log_gc b gc_fuel (delete_keys db prefix noted)).0

  unfoldable pub clean_node_database : Json → Clock → (Bytes → Option FileManifest) → ℕ → D → D
  clean_node_database json clock find gc_fuel db =
      sweep gc_fuel chunks (condemned_chunk json clock find) db

  unfoldable pub clean_bootstrap_database : Json → Clock → ℕ → D → D
  clean_bootstrap_database json clock gc_fuel db =
      sweep gc_fuel manifests (condemned_manifest json clock) db

  -- The loop over the map of all nodes.
  unfoldable pub remove_unresponsive : Json → Clock → D → List (Bytes × Bytes) → D
  remove_unresponsive json clock db [] = db
  remove_unresponsive json clock db ((addr, value) ∷ nodes) =
      remove_unresponsive json clock
        (if is_unresponsive json clock value then (delete_key b db active_nodes addr).0 else db)
        nodes

  unfoldable pub clean_inactive_nodes : Json → Clock → D → D
  clean_inactive_nodes json clock db =
      let (nodes, e) = get_all_data b db active_nodes in
      elim e [ some _ ↦ db | none ↦ remove_unresponsive json clock db nodes ]
