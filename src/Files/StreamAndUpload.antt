-- ===== src/Files/StreamAndUpload.antt =====
-- `StreamAndUploadFile` as a whole, over the network that the node sees: `post` reaches the
-- bootstrap servers, `save` and `delete` the nodes (see Files/Sending.antt). The goroutines are
-- taken in the order of the data: blocks are read, then encrypted, then their chunks are sent.
use kairos_p2p_engine.Base.{
  ℕ, suc, ◌*◌, Bool, true, false, not, ◌&&◌, Option, none, some, List, [], Bytes, codes, ok, err,
  succeeded, length, ltb, if◌then◌else◌,
}
use kairos_p2p_engine.Models.{FileManifest, FileBlock, ChunkRequest}
use kairos_p2p_engine.Config.{Config}
use kairos_p2p_engine.Crypto.Library.{Aead}
use kairos_p2p_engine.Process.{Process, Post}
use kairos_p2p_engine.Process.Json.{Json}
use kairos_p2p_engine.Client.{
  ClientError, RoundError, request_nodes_for_file_upload, upload_file_manifest, get_round_for_time,
}
use kairos_p2p_engine.Files.Coding.{Coding}
use kairos_p2p_engine.Files.Blocks.{read_blocks, total_blocks}
use kairos_p2p_engine.Files.Encrypt.{Upload, Draws, encrypt_blocks}
use kairos_p2p_engine.Files.Sending.{UploadError, upload_jobs, finish_upload}

-- The temporary file: its bytes, whether hashing it and going back to its start succeed, its size
-- if `Stat` gives one, and whether reading it again ends in an I/O error.
pub record LocalFile : Type 0 where
  pub contents : Bytes
  pub copies : Bool
  pub seeks : Bool
  pub size : Option ℕ
  pub broken : Bool

-- What the libraries and the generators answer in the course of one upload.
pub record Chances : Type 0 where
  pub node_draw : ℕ
  pub manifest_draw : ℕ
  pub parse_rfc3339 : Bytes → Option ℕ
  pub round_network : Bool
  pub current_round : ℕ → ℕ
  pub upload_network : Bool
  pub draws : ℕ → Draws

-- The crypto workers end at once when the Reed-Solomon code is refused; the reading loop then waits
-- for ever as soon as the channel of blocks is full.
pub data StreamError : Type 0 where
  hashing_failed seeking_failed stat_failed drand_network_error reading_failed blocked : StreamError
  getting_nodes_failed : ClientError → StreamError
  getting_round_failed : RoundError → StreamError
  upload_failed : UploadError → StreamError

-- The fields of the file that stand in its manifest.
pub record FileHeader : Type 0 where
  pub name : Bytes
  pub id : Bytes
  pub release_time : Bytes
  pub hash : Bytes

-- `hex` is `hex.EncodeToString`.
abbrev pub header_of :
    (Bytes → Bytes) → (Bytes → Bytes) → LocalFile → Bytes → Bytes → Bytes → FileHeader
header_of hex sha256 file name release_time file_id = record {
  name = name;
  id = file_id;
  release_time = release_time;
  hash = hex (sha256 file.contents);
}

unfoldable pub new_manifest : Config → FileHeader → ℕ → ℕ → List (ℕ × FileBlock) → FileManifest
new_manifest config header size blocks split = record {
  file_name = header.name;
  file_id = header.id;
  file_size = size;
  release_date = header.release_time;
  hash_file = header.hash;
  hash_algorithm = codes "SHA256";
  blocks = blocks;
  chunks_per_blocks = config.total_shards;
  reed_solomon_config = record {
    data_shards = config.data_shards;
    parity_shards = config.parity_shards;
  };
  split = split;
}

abbrev pub ended : {W : Type 0} → W × Option UploadError → W × Option StreamError
ended (w, none) = (w, none)
ended (w, some e) = (w, some (upload_failed e))

module _ (coding : Coding) (aead : Aead) {D F : Type 0} (self : Process D F) (json : Json)
    (sha256 : Bytes → Bytes) {W : Type 0} (post : Post W)
    (save : W → Bytes → ChunkRequest → W × Bool) (delete : W → Bytes → Bytes → W) where
  -- `UploadFileManifest` of the finished manifest.
  unfoldable pub publish : ℕ → FileManifest → W → W × Bool
  publish draw manifest w =
      let (w', e) = upload_file_manifest self json sha256 post draw w manifest in (w', succeeded e)

  -- From the reading loop on. A read error ends the upload without a rollback; what was read before
  -- is still encrypted and sent.
  unfoldable pub pipeline :
      Chances → LocalFile → FileHeader → ℕ → ℕ → List Bytes → ℕ → W → W × Option StreamError
  pipeline chances file header block_size size nodes round w =
      let config = self.config in
      let (jobs, complete) =
        read_blocks (suc (length file.contents)) block_size 0
          (record { rest = file.contents; broken = file.broken }) in
      let accepted = coding.rs_new config.data_shards config.parity_shards in
      let upload : Upload = record {
        nodes = nodes;
        round = round;
        file_id = header.id;
        release_date = header.release_time;
      } in
      let (split, (made, crypto_failed)) =
        if accepted
        then encrypt_blocks coding aead config upload chances.draws jobs []
        else ([], ([], true)) in
      let sent =
        upload_jobs save self json (record { world = w; placed = []; failed = false }) made in
      let manifest = new_manifest config header size (total_blocks size block_size) split in
      if not accepted && ltb (config.total_shards * 2) (length jobs)
      then (w, some blocked)
      else if complete
      then ended (finish_upload delete (publish chances.manifest_draw manifest) crypto_failed sent)
      else (sent.world, some reading_failed)

  unfoldable pub upload_sized :
      Chances → LocalFile → FileHeader → ℕ → ℕ → W → W × Option StreamError
  upload_sized chances file header block_size size w =
      let (w', nodes) =
        request_nodes_for_file_upload self json post chances.node_draw w
          (total_blocks size block_size * self.config.total_shards) in
      elim nodes [
        | err e ↦ (w', some (getting_nodes_failed e))
        | ok nodes ↦
            elim (get_round_for_time chances.parse_rfc3339 chances.round_network
              chances.current_round header.release_time) [
                | err e ↦ (w', some (getting_round_failed e))
                | ok round ↦
                    if chances.upload_network
                    then pipeline chances file header block_size size nodes round w'
                    else (w', some drand_network_error)
              ]
      ]

  unfoldable pub stream_and_upload_file :
      (Bytes → Bytes) → Chances → LocalFile → Bytes → ℕ → Bytes → Bytes → W → W × Option StreamError
  stream_and_upload_file hex chances file name block_size release_time file_id w =
      let header = header_of hex sha256 file name release_time file_id in
      if file.copies
      then if file.seeks
        then elim file.size [
          | none ↦ (w, some stat_failed)
          | some size ↦ upload_sized chances file header block_size size w
        ]
        else (w, some seeking_failed)
      else (w, some hashing_failed)
