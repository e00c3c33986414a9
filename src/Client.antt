-- ===== src/Client.antt =====
-- The node's calls of a bootstrap server: internal/service/subscription.go, and the functions of
-- internal/service/file_management.go that post to one. `draw` is the generator's value for the
-- choice of the server; `rand.Intn(0)`, when none is configured, panics. Marshalling a message and
-- making a request do not fail in the model.
use kairos_p2p_engine.Base.{
  ℕ, Bool, true, false, Option, none, some, List, [], Bytes, codes, Result, ok, err, length, get_or,
  nat_eq, if◌then◌else◌,
}
use kairos_p2p_engine.Models.{
  SubscriptionRequest, NodesForFileUploadRequest, FileManifest, FileManifestRequest,
  GetFileManifestRequest,
}
use kairos_p2p_engine.Config.{Config, self_address}
use kairos_p2p_engine.Crypto.{CryptoError}
use kairos_p2p_engine.Process.{
  Process, sign, rand_intn, Response, status_ok, Post, Send, method_delete,
}
use kairos_p2p_engine.Process.Json.{Codec, Json}
pub mod Served

pub data ClientError : Type 0 where
  no_servers request_failed : ClientError
  signing_failed : CryptoError → ClientError
  refused : ℕ → ClientError

-- `config.BootStrapServers[rand.Intn(len(config.BootStrapServers))]`
unfoldable pub chosen_server : Config → ℕ → Result ClientError Bytes
chosen_server config draw =
    if nat_eq (length config.bootstrap_servers) 0
    then err no_servers
    else ok (get_or config.bootstrap_servers (rand_intn draw (length config.bootstrap_servers)) [])

-- The body of a response of status 200.
unfoldable pub answer : Option Response → Result ClientError Bytes
answer none = err request_failed
answer (some response) =
    if nat_eq response.status status_ok then ok response.body else err (refused response.status)

-- The error of a call whose answer's body is not looked at.
abbrev pub error_of : Result ClientError Bytes → Option ClientError
error_of (ok body) = none
error_of (err e) = some e

module _ {D F : Type 0} (self : Process D F) where
  abbrev pub manifest_query : Bytes → GetFileManifestRequest
  manifest_query id = record {
    address = self_address self.config;
    public_key = self.config.public_key;
    signature = [];
    file_id = id;
  }

module _ {D F : Type 0} (self : Process D F) (json : Json) {W : Type 0} where
  -- Every call: a server is chosen, `text` is signed, and the message with the signature is sent.
  unfoldable pub send_signed :
      ℕ
      → W
      → Bytes
      → (Bytes → Bytes)
      → (W → Bytes → Bytes → W × Option Response)
      → W × Result ClientError Bytes
  send_signed draw w text signed send = elim (chosen_server self.config draw) [
    | err e ↦ (w, err e)
    | ok server ↦ elim (sign self text) [
      | err e ↦ (w, err (signing_failed e))
      | ok signature ↦
          let (w', response) = send w server (signed signature) in (w', answer response)
    ]
  ]

  -- No server at all is no error here.
  unfoldable pub subscribe : Post W → ℕ → W → W × Option ClientError
  subscribe post draw w =
      let subscription : SubscriptionRequest = record {
        address = self_address self.config;
        public_key = self.config.public_key;
        signature = [];
      } in
      if nat_eq (length self.config.bootstrap_servers) 0
      then (w, none)
      else (let (w', r) =
            send_signed draw w (json.subscription_request.marshal subscription)
              (λ s. json.subscription_request.marshal (record subscription { signature = s }))
              (λ v server text. post v server (codes "/subscribe") text) in
          (w', error_of r))

  unfoldable pub request_nodes_for_file_upload :
      Post W → ℕ → W → ℕ → W × Result ClientError (List Bytes)
  request_nodes_for_file_upload post draw w total_chunks =
      let request : NodesForFileUploadRequest = record {
        address = self_address self.config;
        public_key = self.config.public_key;
        signature = [];
        total_chunks = total_chunks;
        nodes_per_chunk = self.config.chunks_tolerance;
      } in
      let (w', r) =
        send_signed draw w (json.nodes_for_file_upload_request.marshal request)
          (λ s. json.nodes_for_file_upload_request.marshal (record request { signature = s }))
          (λ v server text. post v server (codes "/file/nodes") text) in
      elim r [ err e ↦ (w', err e) | ok body ↦ (w', ok (json.addresses.decode body).0) ]

  -- What is signed is the manifest's hash.
  unfoldable pub upload_file_manifest :
      (Bytes → Bytes) → Post W → ℕ → W → FileManifest → W × Option ClientError
  upload_file_manifest sha256 post draw w manifest =
      let (w', r) =
        send_signed draw w (sha256 (json.file_manifest.marshal manifest))
          (λ s. json.file_manifest_request.marshal (record {
            address = self_address self.config;
            public_key = self.config.public_key;
            signature = s;
            manifest = manifest;
          }))
          (λ v server text. post v server (codes "/file/manifest") text) in
      (w', error_of r)

  -- A nil manifest when the body does not hold one.
  unfoldable pub get_file_manifest_from_server :
      Post W → ℕ → W → Bytes → W × Result ClientError (Option FileManifest)
  get_file_manifest_from_server post draw w id =
      let (w', r) =
        send_signed draw w (json.get_file_manifest_request.marshal (manifest_query self id))
          (λ s.
            json.get_file_manifest_request.marshal
              (record (manifest_query self id) { signature = s }))
          (λ v server text. post v server (codes "/manifests") text) in
      elim r [ err e ↦ (w', err e) | ok body ↦ (w', ok (json.file_manifest_pointer body)) ]

  unfoldable pub delete_manifest_on_bootstrap : Send W → ℕ → W → Bytes → W × Option ClientError
  delete_manifest_on_bootstrap send draw w id =
      let (w', r) =
        send_signed draw w (json.get_file_manifest_request.marshal (manifest_query self id))
          (λ s.
            json.get_file_manifest_request.marshal
              (record (manifest_query self id) { signature = s }))
          (λ v server text. send v server method_delete (codes "/manifests") text) in
      (w', error_of r)

pub data RoundError : Type 0 where
  bad_release_time drand_network : RoundError

-- `parse` is `time.Parse(time.RFC3339, …)`, `network` says whether `NewNetwork` succeeds, and
-- `current` is the network's round at a time. Round 0 comes with the error of `NewNetwork`, which
-- is nil.
unfoldable pub get_round_for_time :
    (Bytes → Option ℕ) → Bool → (ℕ → ℕ) → Bytes → Result RoundError ℕ
get_round_for_time parse network current release_time = elim (parse release_time) [
  | none ↦ err bad_release_time
  | some time ↦ if network then ok (current time) else err drand_network
]
