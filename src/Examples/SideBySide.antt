-- ===== src/Examples/SideBySide.antt =====
-- Two upload workers take the two chunks of a file, in the other order than they were made.
use mathlib.Core.List.Perm
use mathlib.Core.List.{reverse, reverse_perm}
use kairos_p2p_engine.Base.{
  Option, some, ℕ, ◌≡◌, refl, Bool, true, false, none, List, [], ◌∷◌, Bytes, codes, arith,
}
use kairos_p2p_engine.Models.{FileManifest, ChunkRequest}
use kairos_p2p_engine.Config.{self_address}
use kairos_p2p_engine.Crypto.{
  sign_message, check_signature, verify_signature, encrypt_gcm, generate_random_aes_key,
}
use kairos_p2p_engine.Database.{put_data, make_key}
use kairos_p2p_engine.Process.{sign, sign_or_nil, check, rand_intn}
use kairos_p2p_engine.NodeServer.{save_chunk}
use kairos_p2p_engine.Badger.Memory.{Memory, memory-IsReliable}
use kairos_p2p_engine.Files.Blocks.{readable, read_blocks, read_full, total_blocks}
use kairos_p2p_engine.Files.Pick.{pick_random_items, pick_loop, remove_at}
use kairos_p2p_engine.Files.Encrypt.{
  Upload, UploadJob, encrypt_blocks, encrypt_block, make_chunks, make_chunk,
}
use kairos_p2p_engine.Files.Reconstruct.{stream_reconstruct}
use kairos_p2p_engine.Files.Reconstruct.RoundTrip.{rs_config}
use kairos_p2p_engine.Files.Workers.{
  idle, sending, noting, ended, take, saved, note, Pipeline, send, work, finish, close, Run, start,
  later, beginning, AllEnded,
}
use kairos_p2p_engine.Network.{Net, net_save, net_fetch}
use kairos_p2p_engine.Database.Laws.{stored}
use kairos_p2p_engine.Cleanup.{chunks}
use kairos_p2p_engine.Badger.Memory.{memory_laws}
use kairos_p2p_engine.Files.Sending.{UploadError, finish_upload, upload_pipeline_failed}
use kairos_p2p_engine.Network.{net_delete}
use kairos_p2p_engine.Network.RolledBack.{finish_upload-Run}
use kairos_p2p_engine.Network.Chunks.{AllStored}
use kairos_p2p_engine.Network.AnyOrder.{Run-AllStored}
use kairos_p2p_engine.Network.SideBySide.{stream_reconstruct-Run}
use kairos_p2p_engine.Examples.Codecs.{plain_json}
use kairos_p2p_engine.Examples.World.{aead, aead_laws}
use kairos_p2p_engine.Examples.Codes.{coding, coding_laws}
use kairos_p2p_engine.Examples.WholeFile.{request_of, draws_of, block_of, two_blocks}
use kairos_p2p_engine.Examples.Network.{sender, node, no_placed, Trusts-sender, start as empty_net}

abbrev hi : Bytes
hi = codes "hi"

abbrev both_up : Bytes → Bool
both_up a = true

abbrev save : Net Memory Memory → Bytes → ChunkRequest → Net Memory Memory × Bool
save = net_save node plain_json both_up

abbrev upload : Upload
upload = record {
  nodes = codes "a" ∷ codes "b" ∷ [];
  round = 5;
  file_id = codes "f";
  release_date = codes "d";
}

abbrev job : ℕ → Bytes → UploadJob
job j to = record {
  chunk_req = record (request_of 0 j hi) {
    public_key = codes "c";
    address = self_address sender.config;
  };
  target_nodes = to ∷ [];
}

abbrev made : List UploadJob
made = job 0 (codes "a") ∷ job 1 (codes "b") ∷ []

abbrev one_block : FileManifest
one_block = record two_blocks {
  blocks = 1;
  reed_solomon_config = rs_config sender.config;
  split = (0, block_of 0 4) ∷ [];
}

encrypted :
    encrypt_blocks coding aead sender.config upload draws_of (read_blocks 3 4 0 (readable hi)).0 []
    ≡ (one_block.split, (made, false))
unfolding encrypt_blocks encrypt_block make_chunks make_chunk pick_random_items pick_loop remove_at
    rand_intn encrypt_gcm generate_random_aes_key read_blocks read_full
encrypted = refl

blocks_of_hi : 1 ≡ total_blocks 2 4
unfolding total_blocks
blocks_of_hi = refl

abbrev RunTo : ℕ → Pipeline save sender plain_json → Type 0
RunTo k p =
    Run save sender plain_json 8 (beginning save sender plain_json 2 no_placed (reverse made)) k p

other_order : (p : Pipeline save sender plain_json) × RunTo 11 p
unfolding sign sign_message net_save save_chunk sign_or_nil check_signature verify_signature
    put_data make_key check self_address
other_order = (
  _,
  later {k = 10}
      (later {k = 9}
        (later {k = 8}
          (later {k = 7}
            (later {k = 6}
              (later {k = 5}
                (later {k = 4}
                  (later {k = 3}
                    (later {k = 2}
                      (later {k = 1} (later {k = 0} (start refl) (send refl (omega arith)) refl)
                        (work [] (idle ∷ []) refl (take refl)) refl)
                      (send refl (omega arith)) refl)
                    (work (sending _ _ ∷ []) [] refl (take refl)) refl)
                  (work (sending _ _ ∷ []) [] refl (saved refl)) refl)
                (work [] (noting _ _ ∷ []) refl (saved refl)) refl)
              (work [] (noting _ _ ∷ []) refl note) refl)
            (work (idle ∷ []) [] refl note) refl)
          (close refl refl) refl)
        (finish (idle ∷ []) [] refl refl refl) refl)
      (finish [] (ended ∷ []) refl refl refl) refl,
)

other_order_ends : AllEnded other_order.0.workers
unfolding other_order
other_order_ends = (refl, (refl, tt))

other_order_fine : other_order.0.sent.failed ≡ false
unfolding other_order
other_order_fine = refl

stream_reconstruct-Run_example :
    stream_reconstruct coding aead
      (net_fetch node plain_json both_up other_order.0.sent.world)
      one_block
      6
      (λ i. true)
      true
    ≡ (hi, none)
stream_reconstruct-Run_example =
    stream_reconstruct-Run coding_laws aead_laws node sender plain_json both_up memory-IsReliable
      (Trusts-sender (codes "n")) refl upload draws_of (λ k. codes "no") (λ k. refl) (λ k. refl)
      {count = 2} 4 6 hi one_block made (reverse made) empty_net other_order.0 (λ i. true)
      (omega arith) (omega arith) (omega arith) refl refl blocks_of_hi encrypted (refl, (refl, tt))
      ((λ a. refl), ((λ a. refl), tt)) (Perm.symm (reverse_perm made)) other_order.1
      other_order_ends other_order_fine (λ i. refl)

Run-AllStored_example : AllStored node plain_json both_up memory_laws other_order.0.sent.world made
Run-AllStored_example =
    Run-AllStored node plain_json both_up memory_laws sender memory-IsReliable
      (Trusts-sender (codes "n")) {count = 2} empty_net made (reverse made) other_order.0
      (omega arith) (refl, (refl, tt)) (refl, (refl, tt)) ((λ a. refl), ((λ a. refl), tt))
      (Perm.symm (reverse_perm made)) other_order.1 other_order_ends other_order_fine

-- The manifest is not sent, since a crypto worker failed.
abbrev end : Net Memory Memory × Option UploadError
end = finish_upload (net_delete node plain_json both_up) (λ v. (v, true)) true other_order.0.sent

fails : end.1 ≡ some upload_pipeline_failed
unfolding finish_upload
fails = refl

finish_upload-Run_example :
    stored memory_laws (end.0.nodes (codes "a")) chunks (0 ∷ [])
    ≡ stored memory_laws (empty_net.nodes (codes "a")) chunks (0 ∷ [])
finish_upload-Run_example =
    finish_upload-Run node plain_json both_up memory_laws sender memory-IsReliable
      (Trusts-sender (codes "n")) {count = 2} empty_net (reverse made) other_order.0 (omega arith)
      (refl, (refl, tt)) (refl, (refl, tt)) ((λ a. refl), ((λ a. refl), tt)) other_order.1
      other_order_ends (λ v. (v, true)) true upload_pipeline_failed (codes "a") (0 ∷ []) (λ v. refl)
      fails
