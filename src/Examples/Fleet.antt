-- ===== src/Examples/Fleet.antt =====
-- A node that starts, subscribes again and again and calls others, and the explorer that asks it.
use mathlib.Core.List.Perm
use mathlib.Core.List.{reverse, reverse_perm}
use kairos_p2p_engine.Base.{
  ◌*◌, ℕ, ◌≡◌, refl, true, Option, none, some, [], ◌∷◌, Bytes, codes, ◌==◌, is_some, lookup, arith,
  if◌then◌else◌,
}
use kairos_p2p_engine.Badger.Memory.{Memory, memory_laws, memory-IsReliable}
use kairos_p2p_engine.Config.{self_address}
use kairos_p2p_engine.Crypto.{sign_message, check_signature, verify_signature}
use kairos_p2p_engine.Bootstrap.{bootstrap_routes, subscribe_node}
use kairos_p2p_engine.Database.{put_data, make_key}
use kairos_p2p_engine.Database.Laws.{stored}
use kairos_p2p_engine.Process.{check, sign, rand_intn, Response, method_get, ok_response}
use kairos_p2p_engine.Sync.{active_nodes}
use kairos_p2p_engine.Cleanup.{Clock, second}
use kairos_p2p_engine.Client.{subscribe, send_signed, chosen_server, answer}
use kairos_p2p_engine.Metrics.{NodeMetrics, BootstrapMetrics}
use kairos_p2p_engine.Explorer.{get_network_overview, no_storage}
use kairos_p2p_engine.Explorer.Totals.{totals?, get_network_overview-order}
use kairos_p2p_engine.Heartbeat.{
  Beating, heartbeat, tick, beats, beat_once, IsOnTime, heartbeats_last,
}
use kairos_p2p_engine.Pool.{
  Pool, transient_failure, entry_of, get_grpc_connection, get_grpc_connection-lookup,
}
use kairos_p2p_engine.Examples.Codecs.{plain_json}
use kairos_p2p_engine.Examples.World.{trusts}
use kairos_p2p_engine.Examples.Servers.{servers, alice, carol, toy_hash}
use kairos_p2p_engine.Examples.Network.{no_metrics}

abbrev at_minute : Clock
at_minute = record { parse_rfc3339 = λ text. none; now = 0; unix = 0; unix_nano = 30 * second }

abbrev started : Beating Memory
started = record { db = []; next = 1 }

on_time :
    IsOnTime alice carol plain_json toy_hash no_metrics started
      (heartbeat 0 ∷ tick at_minute ∷ heartbeat 1 ∷ [])
unfolding beat_once subscribe send_signed chosen_server answer bootstrap_routes subscribe_node check
    sign sign_message check_signature verify_signature self_address put_data make_key rand_intn
on_time = (omega arith, (omega arith, omega arith, (omega arith, tt)))

heartbeats_last_example :
    is_some (
      stored memory_laws
        (beats alice carol plain_json toy_hash no_metrics started
          (heartbeat 0 ∷ tick at_minute ∷ heartbeat 1 ∷ [])).db
        active_nodes
        (self_address carol.config))
    ≡ true
heartbeats_last_example =
    heartbeats_last alice carol plain_json toy_hash no_metrics memory-IsReliable
      (trusts servers servers (codes "a") (codes "c")) refl started 0
      (tick at_minute ∷ heartbeat 1 ∷ []) on_time

-- Node "n" has one chunk, node "o" does not answer, and the server knows both.
abbrev answers : Bytes → Option Response
answers address = if address == codes "o" then none else some (ok_response [])

abbrev server_says : Bytes → BootstrapMetrics
server_says body = record {
  status = codes "online";
  storage = no_storage;
  active_nodes_count = 2;
  total_files = 1;
  node_addresses = codes "n" ∷ codes "o" ∷ [];
}

abbrev node_says : Bytes → Option NodeMetrics
node_says body = some (record { status = codes "online"; storage = no_storage; total_chunks = 1 })

get_network_overview-order_example :
    ((get_network_overview answers server_says node_says servers (1 ∷ 0 ∷ []) (λ l. l) method_get).0
      ≡ (get_network_overview answers server_says node_says servers
          (1 ∷ 0 ∷ [])
          (λ l. reverse l)
          method_get).0)
    × (totals?
          (get_network_overview answers server_says node_says servers
            (1 ∷ 0 ∷ [])
            (λ l. l)
            method_get).1
        ≡ totals?
            (get_network_overview answers server_says node_says servers
              (1 ∷ 0 ∷ [])
              (λ l. reverse l)
              method_get).1)
get_network_overview-order_example =
    get_network_overview-order answers server_says node_says servers (1 ∷ 0 ∷ []) (λ l. l)
      (λ l. reverse l) method_get (λ l. Perm.symm (reverse_perm l))

-- The connection to "n:1" fails and is made again.
abbrev one_conn : Pool ℕ
one_conn = record { conns = (codes "n:1", 7) ∷ []; closed = [] }

get_grpc_connection-lookup_example :
    lookup
      (codes "n:1")
      (get_grpc_connection
        (λ c. transient_failure)
        (λ a. some 8)
        (λ a. some (codes "n", codes "1"))
        (λ t. some 1)
        (λ n. codes "1001")
        one_conn
        (codes "n:1")).0.conns
    ≡ entry_of
        (get_grpc_connection
          (λ c. transient_failure)
          (λ a. some 8)
          (λ a. some (codes "n", codes "1"))
          (λ t. some 1)
          (λ n. codes "1001")
          one_conn
          (codes "n:1")).1
get_grpc_connection-lookup_example =
    get_grpc_connection-lookup (λ c. transient_failure) (λ a. some 8)
      (λ a. some (codes "n", codes "1")) (λ t. some 1) (λ n. codes "1001") one_conn (codes "n:1")
      (codes "n:1")
