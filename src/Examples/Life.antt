-- ===== src/Examples/Life.antt =====
-- A bootstrap server that has one manifest, before the manifest's time is over.
use kairos_p2p_engine.Base.{Option, ◌≡◌, refl, none, some, List, [], ◌∷◌, codes, arith}
use kairos_p2p_engine.Badger.Memory.{memory_laws, memory-IsReliable}
use kairos_p2p_engine.Cleanup.{Clock, is_expired}
use kairos_p2p_engine.Database.{make_key}
use kairos_p2p_engine.Database.Laws.{stored}
use kairos_p2p_engine.Config.{self_address}
use kairos_p2p_engine.Crypto.{sign_message}
use kairos_p2p_engine.Process.{sign, sign_or_nil, method_post, method_delete, Response}
use kairos_p2p_engine.Sync.{manifests}
use kairos_p2p_engine.Bootstrap.Manifests.{IsKeyedStore, signed_query}
use kairos_p2p_engine.Bootstrap.Life.{Event, request, sync_tick, clean_tick, monitor_tick, life}
use kairos_p2p_engine.Bootstrap.Kept.{life-IsKept}
use kairos_p2p_engine.Examples.Codecs.{plain_json}
use kairos_p2p_engine.Examples.Cleaning.{late, one_manifest, manifest_text, manifests_are_keyed}
use kairos_p2p_engine.Examples.Servers.{alice, carol, toy_hash}
use kairos_p2p_engine.Examples.Network.{no_metrics}

abbrev in_time : Clock
in_time = record late { now = 0 }

-- A peer's push, a request to delete another file, and a tick of each worker.
abbrev one_day : List Event
one_day =
    request 5 method_post (codes "/sync/push") []
    ∷ request 6 method_delete (codes "/manifests") (signed_query carol plain_json (codes "g"))
    ∷ sync_tick 1 (λ server path text. none)
    ∷ clean_tick in_time 3
    ∷ monitor_tick late
    ∷ []

no_answer : {A : Type 0} (response : Response) → ◌≡◌ {A = Option Response} none (some response) → A
no_answer response h = absurd (ground (arith, h))

life-IsKept_example :
    IsKeyedStore memory_laws plain_json
      (life alice plain_json toy_hash no_metrics one_manifest one_day)
    × (stored memory_laws
          (life alice plain_json toy_hash no_metrics one_manifest one_day)
          manifests
          (codes "f")
        ≡ some manifest_text)
unfolding make_key is_expired self_address sign_or_nil sign sign_message
life-IsKept_example =
    life-IsKept alice plain_json toy_hash no_metrics memory_laws memory-IsReliable one_manifest
      one_day (codes "f") manifest_text manifests_are_keyed
      (tt, (tt, ((λ server path text response h. no_answer response h), (tt, (tt, tt))))) refl refl
