-- ===== src/Examples/Api.antt =====
-- The node's handlers on small worlds.
use kairos_p2p_engine.Base.{
  Bool, ◌++◌, ◌≡◌, refl, true, ◌&&◌, none, some, [], ◌∷◌, Bytes, codes, ◌==◌, if◌then◌else◌,
}
use kairos_p2p_engine.Badger.Memory.{Memory, memory_laws, memory-IsReliable}
use kairos_p2p_engine.Database.Laws.{stored}
use kairos_p2p_engine.Process.{method_get, method_post, method_delete, ok_response}
use kairos_p2p_engine.Process.Json.{Codec}
use kairos_p2p_engine.Cleanup.{chunks}
use kairos_p2p_engine.Sync.{manifests}
use kairos_p2p_engine.Client.Served.{manifest_of}
use kairos_p2p_engine.Files.StreamAndUpload.{reading_failed}
use kairos_p2p_engine.Network.{Net, net_send, net_delete, net_fetch}
use kairos_p2p_engine.NodeApi.{UploadStatus, Request, Form, check_status}
use kairos_p2p_engine.NodeApi.Files.{get_file, delete_file, panicked, split_of}
use kairos_p2p_engine.NodeApi.Statuses.{put, worker_ended, after_events, check_status-after_events}
use kairos_p2p_engine.NodeApi.Dropped.{names}
use kairos_p2p_engine.NodeApi.Deletion.{delete_file-stored, get_file-delete_file}
use kairos_p2p_engine.Examples.Codecs.{plain_json}
use kairos_p2p_engine.Examples.World.{aead, trusts}
use kairos_p2p_engine.Examples.Codes.{coding}
use kairos_p2p_engine.Examples.WholeFile.{two_blocks}
use kairos_p2p_engine.Examples.Servers.{servers, alice, carol, toy_hash}
use kairos_p2p_engine.Examples.Network.{node, no_metrics}

abbrev pub status_codec : Codec UploadStatus
status_codec = record {
  marshal = λ s. s.status;
  decode = λ text. (record { status = text }, true);
  decode-marshal = λ s. refl;
}

abbrev deleting : Request
deleting = record { method = method_delete; query = (codes "id", codes "f") ∷ []; body = [] }

abbrev getting : Request
getting = record { method = method_get; query = (codes "id", codes "f") ∷ []; body = [] }

abbrev pub posting : Request
posting = record { method = method_post; query = []; body = [] }

abbrev pub form : Form
form = record {
  name = codes "n";
  release_time = codes "d";
  created = true;
  copied = true;
  reopened = none;
}

-- File "f" is accepted, then "g"; the worker of "f" fails, that of "g" goes on.
check_status-after_events_example :
    check_status carol status_codec
      (after_events carol status_codec [] (
        put posting (some form) (codes "f")
        ∷ put posting (some form) (codes "g")
        ∷ worker_ended (codes "f") (some reading_failed)
        ∷ []))
      getting
    ≡ ok_response (codes "error")
check_status-after_events_example =
    check_status-after_events carol status_codec memory-IsReliable []
      (put posting (some form) (codes "f")
        ∷ put posting (some form) (codes "g")
        ∷ worker_ended (codes "f") (some reading_failed)
        ∷ [])
      getting none refl refl refl

-- The server has the manifest of the two blocks, and node "b", which is up, a chunk of each.
abbrev with_file : Net Memory Memory
with_file = record {
  bootstrap = (codes "manifests:f", plain_json.file_manifest.marshal two_blocks) ∷ [];
  nodes = λ a.
      if a == codes "b"
      then (codes "chunks:" ++ (1 ∷ []), codes "x") ∷ (codes "chunks:" ++ (11 ∷ []), codes "y") ∷ []
      else [];
}

abbrev b_is_up : Bytes → Bool
b_is_up a = a == codes "b"

delete_file-stored_example :
    let after =
      delete_file carol plain_json
        (net_send alice plain_json toy_hash no_metrics 0)
        (net_delete node plain_json b_is_up)
        0
        1
        with_file
        deleting in
    let manifest =
      manifest_of plain_json (stored memory_laws with_file.bootstrap manifests (codes "f")) in
    (after.1 ≡ some (ok_response []))
    × ((k : Bytes)
        → stored memory_laws after.0.bootstrap manifests k
          ≡ (if codes "f" == k then none else stored memory_laws with_file.bootstrap manifests k))
    × ((a j : Bytes)
        → stored memory_laws (after.0.nodes a) chunks j ≡ (
            if b_is_up a && names a j (split_of manifest)
            then none
            else stored memory_laws (with_file.nodes a) chunks j))
delete_file-stored_example =
    delete_file-stored alice node carol plain_json toy_hash no_metrics 0 b_is_up memory-IsReliable
      memory-IsReliable (trusts servers servers (codes "a") (codes "c")) refl 0 1 with_file deleting
      refl refl

get_file-delete_file_example :
    (get_file carol plain_json
      (net_send alice plain_json toy_hash no_metrics 0)
      coding
      aead
      toy_hash
      (λ h. h)
      (net_fetch node plain_json b_is_up)
      2
      6
      (λ k. true)
      true
      (delete_file carol plain_json
        (net_send alice plain_json toy_hash no_metrics 0)
        (net_delete node plain_json b_is_up)
        0
        1
        with_file
        deleting).0
      getting).1
    ≡ panicked
get_file-delete_file_example =
    get_file-delete_file alice node carol plain_json toy_hash no_metrics 0 b_is_up memory-IsReliable
      memory-IsReliable (trusts servers servers (codes "a") (codes "c")) refl coding aead (λ h. h) 0
      1 2 6 (λ k. true) true with_file deleting getting refl refl refl refl
