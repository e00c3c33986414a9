-- ===== src/Examples/Network.antt =====
-- A file of two blocks goes through a bootstrap server to two nodes, and comes back.
use kairos_p2p_engine.Files.Sending.{Sent}
use kairos_p2p_engine.Base.{
  ◌+◌, ◌<◌, ℕ, Bool, if◌then◌else◌, ◌==◌, ◌++◌, Option, eq_refl, ◌*◌, ◌≡◌, refl, true, false, none,
  some, List, [], ◌∷◌, Bytes, codes, ok, arith,
}
use kairos_p2p_engine.Files.Reconstruct.{stream_reconstruct}
use kairos_p2p_engine.Files.Encrypt.{
  UploadJob, encrypt_block, encrypt_blocks, make_chunk, make_chunks,
}
use kairos_p2p_engine.Files.Pick.{pick_loop, pick_random_items, remove_at}
use kairos_p2p_engine.NodeServer.{save_chunk}
use kairos_p2p_engine.Models.{FileManifest}
use kairos_p2p_engine.Files.Sending.{upload_job, finish_upload, send_chunk, upload_jobs}
use kairos_p2p_engine.Badger.Memory.{Memory, memory-IsReliable}
use kairos_p2p_engine.Config.{self_address}
use kairos_p2p_engine.Database.{
  put_data, make_key, get_data, delete_key, get_all_keys, prefix_bytes,
}
use kairos_p2p_engine.Crypto.{
  generate_random_aes_key, random_bytes, encrypt_gcm, sign_message, check_signature,
  verify_signature,
}
use kairos_p2p_engine.Process.{
  Process, Trusts, Response, Method, rand_intn, ok_response, sign, sign_or_nil, check, post_of,
}
use kairos_p2p_engine.Files.StreamAndUpload.{
  StreamError, LocalFile, Chances, stream_and_upload_file, upload_sized, pipeline, publish,
  new_manifest,
}
use kairos_p2p_engine.Files.Blocks.{read_full, read_blocks, total_blocks}
use kairos_p2p_engine.Client.{
  upload_file_manifest, request_nodes_for_file_upload, get_round_for_time, send_signed,
  chosen_server, answer, get_file_manifest_from_server,
}
use kairos_p2p_engine.Bootstrap.{
  insert_file_manifest, bootstrap_routes, request_nodes_for_file_upload_api, nodes_to_pickup,
  allocate,
}
use kairos_p2p_engine.Network.{net_fetch, net_delete, net_save, Net, net_send}
use kairos_p2p_engine.Network.RoundTrip.{stream_reconstruct-stream_and_upload_file}
use kairos_p2p_engine.Examples.Codecs.{plain_json}
use kairos_p2p_engine.Examples.World.{Files, aead, aead_laws, named, process, trusts}
use kairos_p2p_engine.Examples.Codes.{coding, coding_laws}
use kairos_p2p_engine.Examples.WholeFile.{request_of, draws_of}
use kairos_p2p_engine.Examples.Servers.{servers, alice, carol, toy_hash}

-- Carol, with one data shard and one parity shard for one node each.
abbrev pub sender : Process Memory Files
sender = record carol {
  config = record (named (codes "c") servers) {
    data_shards = 1;
    parity_shards = 1;
    total_shards = 2;
    chunks_tolerance = 1;
  };
}

abbrev pub node : Process Memory Files
node = process (codes "n") servers

pub Trusts-sender : (key : Bytes) → Trusts (process key servers) sender
unfolding sign sign_or_nil check sign_message check_signature verify_signature
Trusts-sender key = record {
  signs = λ message. refl;
  accepts = λ message. eq_refl (codes "c" ++ message);
}

-- Nodes "a" and "b" are subscribed.
abbrev pub start : Net Memory Memory
start = record {
  bootstrap = (codes "active_nodes:a", codes "1") ∷ (codes "active_nodes:b", codes "1") ∷ [];
  nodes = λ a. [];
}

abbrev pub no_metrics : Memory → Method → Response
no_metrics db method = ok_response []

abbrev two_bytes : LocalFile
two_bytes = record {
  contents = codes "hi";
  copies = true;
  seeks = true;
  size = some 2;
  broken = false;
}

abbrev chances : Chances
chances = record {
  node_draw = 0;
  manifest_draw = 1;
  parse_rfc3339 = λ t. some 5;
  round_network = true;
  current_round = λ t. t;
  upload_network = true;
  draws = draws_of;
}

abbrev two_nodes : List Bytes
two_nodes = codes "a" ∷ codes "b" ∷ []

asked :
    request_nodes_for_file_upload sender plain_json
      (post_of (net_send alice plain_json toy_hash no_metrics 0))
      0
      start
      (total_blocks 2 4 * 2)
    ≡ (start, ok two_nodes)
unfolding request_nodes_for_file_upload send_signed chosen_server answer bootstrap_routes
    request_nodes_for_file_upload_api nodes_to_pickup allocate rand_intn total_blocks check sign
    sign_message check_signature verify_signature self_address get_all_keys prefix_bytes
asked = refl

abbrev upload_end : Net Memory Memory × Option StreamError
upload_end =
    stream_and_upload_file coding aead sender plain_json toy_hash
      (post_of (net_send alice plain_json toy_hash no_metrics 0))
      (net_save node plain_json (λ a. true)) (net_delete node plain_json (λ a. true)) (λ h. h)
      chances two_bytes (codes "n") 4 (codes "d") (codes "f") start

uploads : upload_end.1 ≡ none
unfolding stream_and_upload_file upload_sized pipeline publish finish_upload net_save
    request_nodes_for_file_upload send_signed chosen_server sign sign_message answer
    bootstrap_routes request_nodes_for_file_upload_api check check_signature verify_signature
    self_address total_blocks nodes_to_pickup get_round_for_time read_blocks read_full allocate
    insert_file_manifest upload_file_manifest encrypt_gcm generate_random_aes_key random_bytes
    delete_key get_all_keys get_data make_key prefix_bytes put_data encrypt_block encrypt_blocks
    make_chunk make_chunks pick_loop pick_random_items remove_at send_chunk upload_job upload_jobs
    new_manifest save_chunk rand_intn sign_or_nil
uploads = refl

timed : get_round_for_time (λ t. some 5) true (λ t. t) (codes "d") ≡ ok 5
unfolding get_round_for_time
timed = refl

different_ids :
    (k j k' j' : ℕ)
    → j < 2
    → j' < 2
    → (draws_of k).chunk_ids j ≡ (draws_of k').chunk_ids j'
    → (k ≡ k') × (j ≡ j')
different_ids k j k' j' h h' e =
    let same : 10 * k + j ≡ 10 * k' + j' = ground arith in
    (omega (arith, same), omega (arith, same))

stream_reconstruct-stream_and_upload_file_example :
    (manifest : FileManifest) × ((get_file_manifest_from_server carol plain_json
        (post_of (net_send alice plain_json toy_hash no_metrics 0))
        0
        upload_end.0
        (codes "f")).1
      ≡ ok (some manifest))
    × (stream_reconstruct coding aead
          (net_fetch node plain_json (λ a. true) upload_end.0)
          manifest
          6
          (λ k. true)
          true
        ≡ (codes "hi", none))
stream_reconstruct-stream_and_upload_file_example =
    stream_reconstruct-stream_and_upload_file coding_laws aead_laws alice node sender carol
      plain_json toy_hash no_metrics 0 (λ a. true) memory-IsReliable memory-IsReliable
      (Trusts-sender (codes "a")) (trusts servers servers (codes "a") (codes "c"))
      (Trusts-sender (codes "n")) refl refl refl chances (λ k. codes "no") (λ k. refl) (λ k. refl)
      (λ h. h) two_bytes (codes "n") (codes "d") (codes "f") 4 start two_nodes 5 start 0 6
      (λ k. true) refl refl (omega arith) (omega arith) asked timed different_ids (λ k j node. refl)
      (λ k. refl) uploads

abbrev pub job : ℕ → Bytes → UploadJob
job j to = record {
  chunk_req = record (request_of 0 j (codes "hi")) { public_key = codes "c" };
  target_nodes = to ∷ codes "b" ∷ [];
}

abbrev pub two_jobs : List UploadJob
two_jobs = job 0 (codes "a") ∷ job 1 (codes "b") ∷ []

abbrev pub text_of : Bytes → Bytes
text_of id =
    plain_json.chunk_request.marshal
      (if id == 0 ∷ [] then (job 0 (codes "a")).chunk_req else (job 1 (codes "b")).chunk_req)

-- Node "a" is down; the second job may be done first.
abbrev pub b_only : Bytes → Bool
b_only a = a == codes "b"

abbrev pub no_placed : Sent (Net Memory Memory)
no_placed = record { world = start; placed = []; failed = false }
