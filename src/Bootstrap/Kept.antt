-- ===== src/Bootstrap/Kept.antt =====
-- What becomes of a manifest during the life of a bootstrap server.
use kairos_p2p_engine.Base.{
  subst, ◌≡◌, refl, sym, ◌∙◌, ℕ, true, false, ◌&&◌, some, List, [], ◌∷◌, Bytes, codes, ◌==◌,
  Bool-cases, Option-cases, inl, inr, arith, if◌then◌else◌,
}
use kairos_p2p_engine.Badger.{BadgerLaws, IsReliable}
use kairos_p2p_engine.Database.Laws.{stored, stored-put, stored-delete}
use kairos_p2p_engine.Cleanup.{
  clean_inactive_nodes, clean_bootstrap_database, Clock, condemned_manifest,
}
use kairos_p2p_engine.Cleanup.Sweep.{clean_bootstrap_database_lem, stored-clean_inactive_nodes}
use kairos_p2p_engine.Process.{
  Process, Response, Method, method_get, method_post, method_delete, other_method,
}
use kairos_p2p_engine.Process.Json.{Json}
use kairos_p2p_engine.NodeApi.{is_method}
use kairos_p2p_engine.Sync.{active_nodes, manifests, sync_routes}
use kairos_p2p_engine.Sync.Align.{active_nodes-IsPlain, manifests-IsPlain}
use kairos_p2p_engine.Bootstrap.{
  subscribe_node, insert_file_manifest, delete_file_manifest, manifests_route, bootstrap_routes,
}
use kairos_p2p_engine.Bootstrap.Manifests.{IsKeyedStore, insert_and_delete-IsKeyedStore}
use kairos_p2p_engine.Bootstrap.Aligned.{
  AllKeyed, IsHonest, AllHonest, spares, all_spare, IsAligned, aligned-IsKeyedStore, aligned-stored,
  push-IsAligned, sync-IsAligned,
}
use kairos_p2p_engine.Bootstrap.Life.{
  Event, request, sync_tick, clean_tick, monitor_tick, handle, life,
}

module _ {D F : Type 0} (self : Process D F) (json : Json) (sha256 : Bytes → Bytes)
    (metrics : D → Method → Response) (laws : BadgerLaws self.badger)
    (reliable : IsReliable laws) where
  abbrev after : D → Event → D
  after = handle self json sha256 metrics

  -- A manifest that is stored keeps its value in a store that stays keyed.
  abbrev IsKept : Bytes → Bytes → D → Type 0
  IsKept id value db = IsKeyedStore laws json db × (stored laws db manifests id ≡ some value)

  aligned-IsKept :
      (db db' : D) (id value : Bytes)
      → IsAligned laws json db db'
      → IsKept id value db
      → IsKept id value db'
  aligned-IsKept db db' id value aligned kept = (
    aligned-IsKeyedStore laws json db db' aligned kept.0,
    aligned-stored laws json db db' id value aligned kept.1,
  )

  insert-stored :
      (db : D) (body id value : Bytes)
      → ((json.file_manifest_request.decode body).0.manifest.file_id == id) ≡ false
      → stored laws db manifests id ≡ some value
      → stored laws (insert_file_manifest self json sha256 db body).0 manifests id ≡ some value
  unfolding insert_file_manifest
  insert-stored db body id value other h =
      let r = (json.file_manifest_request.decode body).0 in
      let text = json.file_manifest.marshal r.manifest in
      ground (
        arith,
        other,
        h,
        stored-put laws db manifests manifests r.manifest.file_id id text manifests-IsPlain
            manifests-IsPlain,
      )

  delete-stored :
      (db : D) (body id value : Bytes)
      → ((json.get_file_manifest_request.decode body).0.file_id == id) ≡ false
      → stored laws db manifests id ≡ some value
      → stored laws (delete_file_manifest self json db body).0 manifests id ≡ some value
  unfolding delete_file_manifest
  delete-stored db body id value other h =
      let r = (json.get_file_manifest_request.decode body).0 in
      ground (
        arith,
        other,
        h,
        stored-delete laws db manifests manifests r.file_id id manifests-IsPlain manifests-IsPlain,
      )

  subscribe-IsAligned :
      (now : ℕ) (db : D) (body : Bytes)
      → IsAligned laws json db (subscribe_node self json now db body).0
  unfolding subscribe_node
  subscribe-IsAligned now db body =
      let r = (json.subscription_request.decode body).0 in
      let text =
        json.active_node_record.marshal (record { public_key = r.public_key; timestamp = now }) in
      inl (λ id. ground (
        arith,
        stored-put laws db active_nodes manifests r.address id text active_nodes-IsPlain
            manifests-IsPlain,
      ))

  clean-IsKept :
      (clock : Clock) (gc_fuel : ℕ) (db : D) (id value : Bytes)
      → spares json id value (clean_tick clock gc_fuel) ≡ true
      → IsKept id value db
      → IsKept id value (clean_bootstrap_database self.badger json clock gc_fuel db)
  unfolding condemned_manifest
  clean-IsKept clock gc_fuel db id value spared kept =
      let cleaned = λ (k : Bytes).
        clean_bootstrap_database_lem laws reliable json clock gc_fuel db manifests k
          manifests-IsPlain kept.0 in
      (
        λ k v h. ground (arith, cleaned k, h, kept.0 k v),
        cleaned id ∙ rw kept.1 (ground (arith, spared)),
      )

  monitor-IsAligned :
      (clock : Clock) (db : D)
      → IsAligned laws json db (clean_inactive_nodes self.badger json clock db)
  monitor-IsAligned clock db =
      inl (λ id.
        stored-clean_inactive_nodes laws reliable json clock db manifests id manifests-IsPlain)

  manifests_route-IsKept :
      (db : D) (method : Method) (body id value : Bytes)
      → (is_method method method_delete
          && ((json.get_file_manifest_request.decode body).0.file_id == id))
        ≡ false
      → IsKept id value db
      → IsKept id value (manifests_route self json db method body).0
  unfolding manifests_route
  manifests_route-IsKept db method_get body id value other kept = kept
  manifests_route-IsKept db method_post body id value other kept = kept
  manifests_route-IsKept db other_method body id value other kept = kept
  manifests_route-IsKept db method_delete body id value other kept = (
    (insert_and_delete-IsKeyedStore self json laws sha256 db body kept.0).1,
    delete-stored db body id value other kept.1,
  )

  sync_routes-IsAligned :
      (db : D) (server path body : Bytes) (now : ℕ) (method : Method)
      → IsHonest json (request now method path body)
      → IsAligned laws json db (sync_routes self json db server path body).0
  unfolding sync_routes
  sync_routes-IsAligned db server path body now method honest =
      elim (Bool-cases (path == codes "/sync/digest")) [
        | inl e ↦ rw (sync_routes, e) (inl (λ id. refl))
        | inr n ↦ elim (Bool-cases (path == codes "/sync/push")) [
          | inl e ↦
              let files = (json.sync_payload.decode body).0.file_manifests in
              let all : AllKeyed json files =
                subst (λ t. if t then AllKeyed json files else Unit {0}) e honest in
              rw (sync_routes, n, e) (push-IsAligned self json laws db body all)
          | inr e ↦ rw (sync_routes, n, e) (inl (λ id. refl))
        ]
      ]

  request-IsKept :
      (db : D) (now : ℕ) (method : Method) (path body id value : Bytes)
      → IsHonest json (request now method path body)
      → spares json id value (request now method path body) ≡ true
      → IsKept id value db
      → IsKept id value (bootstrap_routes self json sha256 metrics now db [] method path body).0
  unfolding bootstrap_routes
  request-IsKept db now method path body id value honest spared kept =
      let routed = (bootstrap_routes self json sha256 metrics now db [] method path body).0 in
      let to : (db' : D) → routed ≡ db' → IsKept id value db' → IsKept id value routed =
        λ db' e k. subst (IsKept id value) (sym e) k in
      elim (Bool-cases (path == codes "/subscribe")) [
        | inl e ↦ to (subscribe_node self json now db body).0 (rw e refl) (
            aligned-IsKept db (subscribe_node self json now db body).0 id value
              (subscribe-IsAligned now db body) kept)
        | inr n₁ ↦ elim (Bool-cases (path == codes "/file/nodes")) [
          | inl e ↦ to db (rw (n₁, e) refl) kept
          | inr n₂ ↦ elim (Bool-cases (path == codes "/file/manifest")) [
            | inl e ↦ to (insert_file_manifest self json sha256 db body).0 (rw (n₁, n₂, e) refl) (
              (insert_and_delete-IsKeyedStore self json laws sha256 db body kept.0).0,
              insert-stored db body id value (ground (arith, spared, e)) kept.1,
            )
            | inr n₃ ↦ elim (Bool-cases (path == codes "/manifests")) [
              | inl e ↦
                  to (manifests_route self json db method body).0 (rw (n₁, n₂, n₃, e) refl) (
                    manifests_route-IsKept db method body id value (ground (arith, spared, e)) kept)
              | inr n₄ ↦ elim (Bool-cases (path == codes "/metrics")) [
                | inl e ↦ to db (rw (n₁, n₂, n₃, n₄, e) refl) kept
                | inr n₅ ↦
                    let synced = (sync_routes self json db [] path body).0 in
                    to synced
                      (rw (n₁, n₂, n₃, n₄, n₅)
                        (elim (Option-cases (sync_routes self json db [] path body).1) [
                          | inl e ↦ rw e refl
                          | inr (r, e) ↦ rw e refl
                        ]))
                      (aligned-IsKept db synced id value
                        (sync_routes-IsAligned db [] path body now method honest) kept)
              ]
            ]
          ]
        ]
      ]

  handle-IsKept :
      (db : D) (event : Event) (id value : Bytes)
      → IsHonest json event
      → spares json id value event ≡ true
      → IsKept id value db
      → IsKept id value (after db event)
  unfolding handle
  handle-IsKept db (request now method path body) id value honest spared kept =
      request-IsKept db now method path body id value honest spared kept
  handle-IsKept db (sync_tick draw answers) id value honest spared kept =
      aligned-IsKept db (after db (sync_tick draw answers)) id value
        (sync-IsAligned self json laws db draw answers honest) kept
  handle-IsKept db (clean_tick clock gc_fuel) id value honest spared kept =
      clean-IsKept clock gc_fuel db id value spared kept
  handle-IsKept db (monitor_tick clock) id value honest spared kept =
      aligned-IsKept db (after db (monitor_tick clock)) id value (monitor-IsAligned clock db) kept

  -- On a store that does not fail and whose manifests stand under their identifiers, whatever
  -- requests come in, whatever peers answer, and whichever ticks go off, in any order: if peers
  -- send manifests under their identifiers, a manifest that is stored keeps its value, as long as
  -- no request comes in that inserts or deletes under its identifier, and the cleaner does not go
  -- off a week after its release date; and all stored manifests go on to stand under their
  -- identifiers.
  pub life-IsKept :
      (db : D) (events : List Event) (id value : Bytes)
      → IsKeyedStore laws json db
      → AllHonest json events
      → all_spare json id value events ≡ true
      → stored laws db manifests id ≡ some value
      → IsKeyedStore laws json (life self json sha256 metrics db events)
        × (stored laws (life self json sha256 metrics db events) manifests id ≡ some value)
  unfolding life
  life-IsKept db [] id value keyed honest spared h = (keyed, h)
  life-IsKept db (event ∷ events) id value keyed honest spared h =
      let kept = handle-IsKept db event id value honest.0 (ground (arith, spared)) (keyed, h) in
      life-IsKept (after db event) events id value kept.0 honest.1 (ground (arith, spared)) kept.1
