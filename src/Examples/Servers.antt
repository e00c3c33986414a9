-- ===== src/Examples/Servers.antt =====
-- Bootstrap servers and a node at work together.
use Prim.Native.Nat.{min}
use kairos_p2p_engine.Base.{
  ℕ, ◌+◌, ◌*◌, ◌<◌, ◌≤◌, ◌≡◌, ◌≢◌, refl, true, false, none, some, List, [], ◌∷◌, ◌++◌, Bytes, codes,
  ◌==◌, ok, length, is_some, arith,
}
use kairos_p2p_engine.Badger.Memory.{Memory, memory, memory_laws, memory-IsReliable}
use kairos_p2p_engine.Config.{Config, self_address}
use kairos_p2p_engine.Crypto.{
  generate_key_pair, load_keys, keys_exist, sign_message, verify_signature, get_public_key,
  get_private_key,
}
use kairos_p2p_engine.Crypto.Signing.{verify_signature-sign_message}
use kairos_p2p_engine.Database.Laws.{stored}
use kairos_p2p_engine.Process.{Process, rand_intn, ok_response}
use kairos_p2p_engine.Sync.{active_nodes, manifests, perform_sync, sync_routes}
use kairos_p2p_engine.Sync.Align.{or_else}
use kairos_p2p_engine.Sync.Exchange.{drawn_server, perform_sync-converges}
use kairos_p2p_engine.Cleanup.{Clock, second, clean_inactive_nodes}
use kairos_p2p_engine.Bootstrap.{
  subscribe_node, nodes_to_pickup, allocate, insert_file_manifest, download_file_manifest,
  delete_file_manifest,
}
use kairos_p2p_engine.Bootstrap.Registry.{
  signed_subscription, subscription_lasts, allocate-nodes_to_pickup,
}
use kairos_p2p_engine.Bootstrap.Manifests.{
  IsKeyedStore, signed_manifest, signed_query, insert_and_delete-IsKeyedStore,
  download_file_manifest-insert_file_manifest,
}
use kairos_p2p_engine.Examples.Codecs.{plain_json}
use kairos_p2p_engine.Examples.World.{
  Files, disk, disk_laws, primitives, primitive_laws, named, process, trusts,
}
use kairos_p2p_engine.Examples.Cleaning.{manifest_f}

abbrev pub servers : List Bytes
servers = codes "a:8080" ∷ codes "b:8080" ∷ []

abbrev pub alice : Process Memory Files
alice = process (codes "a") servers

abbrev bob : Process Memory Files
bob = process (codes "b") servers

abbrev pub carol : Process Memory Files
carol = process (codes "c") servers

abbrev alices_store : Memory
alices_store = (codes "manifests:f", codes "x") ∷ (codes "active_nodes:n", codes "1") ∷ []

abbrev bobs_store : Memory
bobs_store = (codes "manifests:g", codes "y") ∷ (codes "active_nodes:n", codes "2") ∷ []

bob_drawn : (drawn_server alice.config 1 == self_address alice.config) ≡ false
unfolding self_address rand_intn
bob_drawn = refl

-- The second of the two servers is drawn.
perform_sync-converges_example :
    let after =
      perform_sync alice plain_json (sync_routes bob plain_json) 1 alices_store bobs_store in
    (stored memory_laws after.0 active_nodes (codes "g")
      ≡ or_else
          (stored memory_laws alices_store active_nodes (codes "g"))
          (stored memory_laws bobs_store active_nodes (codes "g")))
    × (stored memory_laws after.0 manifests (codes "g")
        ≡ or_else
            (stored memory_laws alices_store manifests (codes "g"))
            (stored memory_laws bobs_store manifests (codes "g")))
    × (stored memory_laws after.1 active_nodes (codes "g")
        ≡ or_else
            (stored memory_laws bobs_store active_nodes (codes "g"))
            (stored memory_laws alices_store active_nodes (codes "g")))
    × (stored memory_laws after.1 manifests (codes "g")
        ≡ or_else
            (stored memory_laws bobs_store manifests (codes "g"))
            (stored memory_laws alices_store manifests (codes "g")))
perform_sync-converges_example =
    perform_sync-converges alice bob plain_json memory-IsReliable memory-IsReliable
      (trusts servers servers (codes "b") (codes "a")) 1 alices_store bobs_store (codes "g") refl
      bob_drawn

abbrev later : Clock
later = record { parse_rfc3339 = λ text. none; now = 0; unix = 0; unix_nano = 60 * second }

subscription_lasts_example :
    is_some (
      stored memory_laws
        (clean_inactive_nodes memory plain_json later
          (subscribe_node alice plain_json 5 alices_store
            (signed_subscription carol plain_json (codes "c:1"))).0)
        active_nodes
        (codes "c:1"))
    ≡ true
subscription_lasts_example =
    subscription_lasts alice carol plain_json memory-IsReliable
      (trusts servers servers (codes "a") (codes "c")) later 5 alices_store (codes "c:1")
      (omega arith) (omega arith)

allocate-nodes_to_pickup_example :
    let nodes = codes "a" ∷ codes "b" ∷ codes "c" ∷ [] in
    (count : ℕ) × (left : List Bytes) × (nodes_to_pickup 5 3 ≡ some count)
    × (allocate nodes count ++ left ≡ nodes)
    × (length (allocate nodes count) ≡ min count (length nodes))
    × (5 ≤ count * 3)
    × (count * 3 < 5 + 3)
allocate-nodes_to_pickup_example =
    allocate-nodes_to_pickup (codes "a" ∷ codes "b" ∷ codes "c" ∷ []) 5 3 (omega arith)
      (omega arith) (omega arith)

-- The hash of a text is its beginning.
abbrev pub toy_hash : Bytes → Bytes
toy_hash text = text

download_file_manifest-insert_file_manifest_example :
    download_file_manifest alice plain_json
      (insert_file_manifest alice plain_json toy_hash []
        (signed_manifest carol plain_json toy_hash manifest_f)).0
      (signed_query carol plain_json (codes "f"))
    ≡ ok_response (plain_json.file_manifest.marshal manifest_f)
download_file_manifest-insert_file_manifest_example =
    download_file_manifest-insert_file_manifest alice plain_json memory_laws toy_hash
      memory-IsReliable carol (trusts servers servers (codes "a") (codes "c")) [] manifest_f
      (codes "f")

nothing_keyed : IsKeyedStore memory_laws plain_json []
nothing_keyed id value h = absurd (ground arith)

insert_and_delete-IsKeyedStore_example :
    let body = signed_manifest carol plain_json toy_hash manifest_f in
    IsKeyedStore memory_laws plain_json (insert_file_manifest alice plain_json toy_hash [] body).0
    × IsKeyedStore memory_laws plain_json (delete_file_manifest alice plain_json [] body).0
insert_and_delete-IsKeyedStore_example =
    insert_and_delete-IsKeyedStore alice plain_json memory_laws toy_hash []
      (signed_manifest carol plain_json toy_hash manifest_f) nothing_keyed

-- A process without keys.
abbrev pub fresh : Config
fresh = named [] servers

two_files : fresh.public_key_dir ≢ fresh.private_key_dir
two_files e = absurd (ground arith)

pub generated_fresh :
    (generate_key_pair disk primitives fresh [] (some (codes "k", codes "k"))).1
    ≡ (record fresh { public_key = codes "k"; private_key = codes "k" }, none)
unfolding generate_key_pair load_keys get_public_key get_private_key
generated_fresh = refl

verify_signature-sign_message_example :
    let made = generate_key_pair disk primitives fresh [] (some (codes "k", codes "k")) in
    (signature : Bytes) × (sign_message disk primitives
        (record fresh { public_key = codes "k"; private_key = codes "k" })
        made.0
        (codes "m")
      ≡ ok signature)
    × (verify_signature primitives (codes "m") signature (codes "k") ≡ ok true)
    × (keys_exist disk (record fresh { public_key = codes "k"; private_key = codes "k" }) made.0
        ≡ true)
verify_signature-sign_message_example =
    verify_signature-sign_message disk_laws primitives primitive_laws fresh [] (codes "k")
      (codes "k") (record fresh { public_key = codes "k"; private_key = codes "k" }) (codes "m")
      refl two_files generated_fresh
