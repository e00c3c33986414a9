-- ===== src/Sync.antt =====
-- The delta synchronisation of two bootstrap servers: internal/service/synchronization.go, and
-- `SyncDigestHandler` and `SyncPushHandler` of internal/api/bootstrap_api.go.
pub mod Compare
pub mod Align
pub mod Exchange
use kairos_p2p_engine.Base.{
  ℕ, Bool, true, false, not, ◌&&◌, ◌||◌, Option, none, some, List, [], ◌∷◌, Bytes, ◌==◌, codes,
  elem, ltb, leb, nat_eq, length, get_or, insert, Result, ok, err, succeeded, if◌then◌else◌,
}
use kairos_p2p_engine.Models.{SyncDigest, SyncPayload}
use kairos_p2p_engine.Badger.{DbError, Badger}
use kairos_p2p_engine.Config.{self_address}
use kairos_p2p_engine.Crypto.{CryptoError}
use kairos_p2p_engine.Database.{get_data, put_data, exists_key, get_all_keys}
use kairos_p2p_engine.Process.{
  Process, sign, sign_or_nil, check, rand_intn, Response, Post, ok_response, unauthorized_response,
  status_ok,
}
use kairos_p2p_engine.Process.Json.{Codec, Json}

-- The prefixes of the bootstrap server's database.
abbrev pub active_nodes : Bytes
active_nodes = codes "active_nodes"

abbrev pub manifests : Bytes
manifests = codes "manifests"

-- The keys of the second list that the set of the first list's keys lacks.
unfoldable pub missing : List Bytes → List Bytes → List Bytes
missing have [] = []
missing have (k ∷ ks) = let rest = missing have ks in if elem k have then rest else k ∷ rest

-- What the local server lacks, and what the remote one lacks.
unfoldable pub compare_keys : List Bytes → List Bytes → List Bytes × List Bytes
compare_keys local_keys remote_keys =
    (missing local_keys remote_keys, missing remote_keys local_keys)

module _ {D : Type 0} (b : Badger D) where
  -- `for _, key := range keys { if data, err := GetData(…); err == nil { m[key] = data } }`
  unfoldable pub read_entries : D → Bytes → List Bytes → List (Bytes × Bytes) → List (Bytes × Bytes)
  read_entries db prefix [] m = m
  read_entries db prefix (k ∷ ks) m =
      read_entries db prefix ks (elim (get_data b db prefix k) [ ok v ↦ insert k v m | err e ↦ m ])

  unfoldable pub align_nodes : D → List (Bytes × Bytes) → D
  align_nodes db [] = db
  align_nodes db ((k, v) ∷ nodes) = align_nodes (put_data b db active_nodes k v).0 nodes

  -- The update of one manifest.
  unfoldable pub align_manifest : D → Bytes → Bytes → D
  align_manifest db k v =
      let (found, e) = exists_key b db manifests k in
      if succeeded e && not found then (put_data b db manifests k v).0 else db

  unfoldable pub align_manifests : D → List (Bytes × Bytes) → D
  align_manifests db [] = db
  align_manifests db ((k, v) ∷ rest) = align_manifests (align_manifest db k v) rest

  unfoldable pub process_alignment : D → List (Bytes × Bytes) → List (Bytes × Bytes) → D
  process_alignment db nodes file_manifests = align_manifests (align_nodes db nodes) file_manifests

module _ {D F : Type 0} (self : Process D F) (json : Json) where
  -- The reply to a digest before it is signed.
  unfoldable pub digest_reply : D → SyncDigest → SyncPayload
  digest_reply db digest =
      let local_node_keys = (get_all_keys self.badger db active_nodes).0 in
      let local_manifest_keys = (get_all_keys self.badger db manifests).0 in
      let nodes = compare_keys local_node_keys digest.node_keys in
      let files = compare_keys local_manifest_keys digest.manifest_keys in
      record {
        address = self_address self.config;
        public_key = self.config.public_key;
        signature = [];
        active_nodes = read_entries self.badger db active_nodes nodes.1 [];
        file_manifests = read_entries self.badger db manifests files.1 [];
        requested_nodes = nodes.0;
        requested_manifests = files.0;
      }

  -- The text of a payload with the signature of its unsigned text.
  unfoldable pub signed_payload : SyncPayload → Bytes
  signed_payload payload =
      let signature = sign_or_nil self (json.sync_payload.marshal payload) in
      json.sync_payload.marshal (record payload { signature = signature })

  unfoldable pub sync_digest_handler : D → Bytes → Response
  sync_digest_handler db request =
      let digest : SyncDigest = (json.sync_digest.decode request).0 in
      let message = json.sync_digest.marshal (record digest { signature = [] }) in
      if check self message digest.signature digest.public_key
      then ok_response (signed_payload (digest_reply db digest))
      else unauthorized_response

  -- The alignment runs in a goroutine of its own; the new state is the one after it.
  unfoldable pub sync_push_handler : D → Bytes → D × Response
  sync_push_handler db request =
      let payload : SyncPayload = (json.sync_payload.decode request).0 in
      let message = json.sync_payload.marshal (record payload { signature = [] }) in
      if check self message payload.signature payload.public_key
      then (
        process_alignment self.badger db payload.active_nodes payload.file_manifests,
        ok_response [],
      )
      else (db, unauthorized_response)

  -- The payload that `pushMissingData` makes of the requested keys, before it is signed.
  unfoldable pub requested_data : D → List Bytes → List Bytes → SyncPayload
  requested_data db req_nodes req_manifests = record {
    address = self_address self.config;
    public_key = self.config.public_key;
    signature = [];
    active_nodes = read_entries self.badger db active_nodes req_nodes [];
    file_manifests = read_entries self.badger db manifests req_manifests [];
    requested_nodes = [];
    requested_manifests = [];
  }

  unfoldable pub push_missing_data :
      {W : Type 0} → Post W → D → W → Bytes → List Bytes → List Bytes → W
  push_missing_data post db w target req_nodes req_manifests =
      (post w target (codes "/sync/push")
        (signed_payload (requested_data db req_nodes req_manifests))).0

  -- What the caller does with a response of status 200 that decodes.
  unfoldable pub accept_payload : {W : Type 0} → Post W → D → W → Bytes → SyncPayload → D × W
  accept_payload post db w server payload =
      let db' = process_alignment self.badger db payload.active_nodes payload.file_manifests in
      if ltb 0 (length payload.requested_nodes) || ltb 0 (length payload.requested_manifests)
      then (
        db',
        push_missing_data post db' w server payload.requested_nodes payload.requested_manifests,
      )
      else (db', w)

  unfoldable pub receive_payload : {W : Type 0} → Post W → D → W × Option Response → Bytes → D × W
  receive_payload post db (w, none) server = (db, w)
  receive_payload post db (w, some response) server =
      let (payload, decoded) = json.sync_payload.decode response.body in
      if nat_eq response.status status_ok && decoded
      then accept_payload post db w server payload
      else (db, w)

  -- The digest of the own keys before it is signed.
  unfoldable pub own_digest : D → SyncDigest
  own_digest db = record {
    address = self_address self.config;
    public_key = self.config.public_key;
    signature = [];
    node_keys = (get_all_keys self.badger db active_nodes).0;
    manifest_keys = (get_all_keys self.badger db manifests).0;
  }

  -- `draw` is the generator's value for the choice of the peer.
  unfoldable pub perform_sync : {W : Type 0} → Post W → ℕ → D → W → D × W
  perform_sync post draw db w =
      let servers = self.config.bootstrap_servers in
      let server = get_or servers (rand_intn draw (length servers)) [] in
      let digest = own_digest db in
      if leb (length servers) 1 || (server == self_address self.config)
      then (db, w)
      else elim (sign self (json.sync_digest.marshal digest)) [
        | err e ↦ (db, w)
        | ok s ↦
            receive_payload post db
              (post w server (codes "/sync/digest")
                (json.sync_digest.marshal (record digest { signature = s })))
              server
      ]

  -- The two routes of cmd/k-bootstrap/main.go that a peer calls.
  unfoldable pub sync_routes : Post D
  sync_routes db server path request =
      if path == codes "/sync/digest"
      then (db, some (sync_digest_handler db request))
      else if path == codes "/sync/push"
      then (let (db', response) = sync_push_handler db request in (db', some response))
      else (db, none)
