-- ===== src/Examples/Nodes.antt =====
-- A node that stores chunks.
use kairos_p2p_engine.Base.{◌≡◌, true, none, some, [], codes, arith}
use kairos_p2p_engine.Badger.Memory.{memory_laws, memory-IsReliable}
use kairos_p2p_engine.NodeServer.{save_chunk, get_chunk, delete_chunk, request_chunk, replied}
use kairos_p2p_engine.NodeServer.Chunks.{
  HasKeyedChunks, signed_chunk, save_and_delete-HasKeyedChunks, request_chunk-save_chunk,
}
use kairos_p2p_engine.Examples.Codecs.{plain_json}
use kairos_p2p_engine.Examples.World.{trusts}
use kairos_p2p_engine.Examples.Cleaning.{chunk_a}
use kairos_p2p_engine.Examples.Servers.{alice, carol, servers}

no_chunks : HasKeyedChunks memory_laws plain_json []
no_chunks id value h = absurd (ground arith)

save_and_delete-HasKeyedChunks_example :
    HasKeyedChunks memory_laws plain_json
      (save_chunk alice plain_json [] (signed_chunk carol plain_json chunk_a)).0
    × HasKeyedChunks memory_laws plain_json (delete_chunk alice [] (codes "a")).0
save_and_delete-HasKeyedChunks_example =
    save_and_delete-HasKeyedChunks alice plain_json memory_laws []
      (signed_chunk carol plain_json chunk_a) (codes "a") no_chunks

request_chunk-save_chunk_example :
    let after = save_chunk alice plain_json [] (signed_chunk carol plain_json chunk_a) in
    (after.1 ≡ (replied true (codes "chunk saved"), none))
    × (request_chunk plain_json (λ _ i. get_chunk alice after.0 i) (codes "a:1") (codes "a")
        ≡ some (record chunk_a { public_key = codes "c" }))
request_chunk-save_chunk_example =
    request_chunk-save_chunk alice plain_json memory_laws memory-IsReliable carol
      (trusts servers servers (codes "a") (codes "c")) [] chunk_a (codes "a:1") (codes "a")
