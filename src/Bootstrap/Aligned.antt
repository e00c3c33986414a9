-- ===== src/Bootstrap/Aligned.antt =====
-- What a peer can do to the manifests of a bootstrap server.
use mathlib.Core.Logic.{◌⊎◌}
use kairos_p2p_engine.Base.{
  leb, length, ltb, nat_eq, get_or, ◌≡◌, refl, sym, ◌∙◌, ℕ, Bool, true, not, ◌&&◌, ◌||◌, Option,
  none, some, List, [], ◌∷◌, Bytes, codes, ◌==◌, eq_iff, Bool-cases, Result-cases, inl, inr, arith,
  if◌then◌else◌,
}
use kairos_p2p_engine.Models.{SyncPayload}
use kairos_p2p_engine.Badger.{Badger, BadgerLaws}
use kairos_p2p_engine.Config.{self_address}
use kairos_p2p_engine.Database.Laws.{stored, stored-put}
use kairos_p2p_engine.Cleanup.{is_expired}
use kairos_p2p_engine.Process.{rand_intn, status_ok, Process, check, sign, Response, method_delete}
use kairos_p2p_engine.Process.Json.{Json}
use kairos_p2p_engine.NodeApi.{is_method}
use kairos_p2p_engine.Sync.{
  manifests, align_nodes, align_manifest, align_manifests, process_alignment, sync_push_handler,
  accept_payload, receive_payload, perform_sync, own_digest,
}
use kairos_p2p_engine.Sync.Align.{
  manifests-IsPlain, process_alignment-keeps_manifests, align_nodes-other,
}
use kairos_p2p_engine.Bootstrap.Manifests.{IsKeyedStore}
use kairos_p2p_engine.Bootstrap.Life.{Event, request, sync_tick, clean_tick, monitor_tick}

module _ (json : Json) where
  -- A peer sends every manifest under its own identifier.
  abbrev pub AllKeyed : List (Bytes × Bytes) → Type 0
  AllKeyed [] = Unit {0}
  AllKeyed ((k, v) ∷ m) = ((json.file_manifest.decode v).0.file_id ≡ k) × AllKeyed m

  abbrev pub IsHonest : Event → Type 0
  IsHonest (request now method path body) =
      if path == codes "/sync/push"
      then AllKeyed (json.sync_payload.decode body).0.file_manifests
      else Unit {0}
  IsHonest (sync_tick draw answers) =
      (server path text : Bytes) (response : Response)
      → answers server path text ≡ some response
      → AllKeyed (json.sync_payload.decode response.body).0.file_manifests
  IsHonest (clean_tick clock gc_fuel) = Unit {0}
  IsHonest (monitor_tick clock) = Unit {0}

  abbrev pub AllHonest : List Event → Type 0
  AllHonest [] = Unit {0}
  AllHonest (event ∷ events) = IsHonest event × AllHonest events

  -- The event neither asks for an insertion or a deletion under `id`, nor is a tick of the cleaner
  -- when `value` is a manifest whose release date is a week past.
  abbrev pub spares : Bytes → Bytes → Event → Bool
  spares id value (request now method path body) = not (
      ((path == codes "/file/manifest")
        && ((json.file_manifest_request.decode body).0.manifest.file_id == id))
      || ((path == codes "/manifests")
          && (is_method method method_delete
              && ((json.get_file_manifest_request.decode body).0.file_id == id))))
  spares id value (sync_tick draw answers) = true
  spares id value (clean_tick clock gc_fuel) =
      let (manifest, decoded) = json.file_manifest.decode value in
      not (decoded && is_expired clock manifest.release_date)
  spares id value (monitor_tick clock) = true

  abbrev pub all_spare : Bytes → Bytes → List Event → Bool
  all_spare id value [] = true
  all_spare id value (event ∷ events) = spares id value event && all_spare id value events

module _ {D : Type 0} {b : Badger D} (laws : BadgerLaws b) (json : Json) where
  align_manifest-IsKeyedStore :
      (db : D) (k v : Bytes)
      → (json.file_manifest.decode v).0.file_id ≡ k
      → IsKeyedStore laws json db
      → IsKeyedStore laws json (align_manifest b db k v)
  unfolding align_manifest
  align_manifest-IsKeyedStore db k v e keyed id value h = ground (
    arith,
    e,
    stored-put laws db manifests manifests k id v manifests-IsPlain manifests-IsPlain,
    eq_iff k id,
    keyed id value,
  )

  align_manifests-IsKeyedStore :
      (db : D) (m : List (Bytes × Bytes))
      → AllKeyed json m
      → IsKeyedStore laws json db
      → IsKeyedStore laws json (align_manifests b db m)
  unfolding align_manifests
  align_manifests-IsKeyedStore db [] all keyed = keyed
  align_manifests-IsKeyedStore db ((k, v) ∷ m) all keyed =
      align_manifests-IsKeyedStore (align_manifest b db k v) m all.1
        (align_manifest-IsKeyedStore db k v all.0 keyed)

  process_alignment-IsKeyedStore :
      (db : D) (nodes m : List (Bytes × Bytes))
      → AllKeyed json m
      → IsKeyedStore laws json db
      → IsKeyedStore laws json (process_alignment b db nodes m)
  unfolding process_alignment
  process_alignment-IsKeyedStore db nodes m all keyed =
      align_manifests-IsKeyedStore (align_nodes b db nodes) m all (λ id value h.
        keyed id value
          (sym (align_nodes-other laws db nodes manifests id manifests-IsPlain refl) ∙ h))

  -- The manifests are the same, or some of an honest peer's were added.
  abbrev pub IsAligned : D → D → Type 0
  IsAligned db db' =
      ((id : Bytes) → stored laws db' manifests id ≡ stored laws db manifests id)
      ⊎ ((nodes : List (Bytes × Bytes)) × (m : List (Bytes × Bytes)) × AllKeyed json m
          × (db' ≡ process_alignment b db nodes m))

  -- What an alignment, or no change at all, keeps.
  pub aligned-IsKeyedStore :
      (db db' : D) → IsAligned db db' → IsKeyedStore laws json db → IsKeyedStore laws json db'
  aligned-IsKeyedStore db db' (inl same) keyed = λ id value h. keyed id value (sym (same id) ∙ h)
  aligned-IsKeyedStore db db' (inr (nodes, m, all, e)) keyed =
      rw e (process_alignment-IsKeyedStore db nodes m all keyed)

  pub aligned-stored :
      (db db' : D) (id value : Bytes)
      → IsAligned db db'
      → stored laws db manifests id ≡ some value
      → stored laws db' manifests id ≡ some value
  aligned-stored db db' id value (inl same) h = same id ∙ h
  aligned-stored db db' id value (inr (nodes, m, all, e)) h =
      rw e (process_alignment-keeps_manifests laws db nodes m id value h)

module _ {D F : Type 0} (self : Process D F) (json : Json) (laws : BadgerLaws self.badger) where
  pub push-IsAligned :
      (db : D) (body : Bytes)
      → AllKeyed json (json.sync_payload.decode body).0.file_manifests
      → IsAligned laws json db (sync_push_handler self json db body).0
  unfolding sync_push_handler
  push-IsAligned db body all =
      let payload : SyncPayload = (json.sync_payload.decode body).0 in
      elim (Bool-cases (
        check self (json.sync_payload.marshal (record payload { signature = [] })) payload.signature
          payload.public_key)) [
            | inl e ↦ rw e (inr (payload.active_nodes, payload.file_manifests, all, refl))
            | inr e ↦ rw e (inl (λ id. refl))
          ]

  accept_payload_lem :
      {W : Type 0} (post : W → Bytes → Bytes → Bytes → W × Option Response) (db : D) (w : W)
      (server : Bytes) (payload : SyncPayload)
      → (accept_payload self json post db w server payload).0
        ≡ process_alignment self.badger db payload.active_nodes payload.file_manifests
  unfolding accept_payload
  accept_payload_lem post db w server payload =
      elim (Bool-cases
        (ltb 0 (length payload.requested_nodes) || ltb 0 (length payload.requested_manifests))) [
          | inl e ↦ rw e refl
          | inr e ↦ rw e refl
        ]

  receive-IsAligned :
      {W : Type 0} (post : W → Bytes → Bytes → Bytes → W × Option Response) (db : D) (w : W)
      (answer : Option Response) (server : Bytes)
      → ((response : Response)
          → answer ≡ some response
          → AllKeyed json (json.sync_payload.decode response.body).0.file_manifests)
      → IsAligned laws json db (receive_payload self json post db (w, answer) server).0
  unfolding receive_payload
  receive-IsAligned post db w none server honest = inl (λ id. refl)
  receive-IsAligned post db w (some response) server honest =
      let (payload, decoded) = json.sync_payload.decode response.body in
      elim (Bool-cases (nat_eq response.status status_ok && decoded)) [
        | inl e ↦ rw e (
            inr (
              payload.active_nodes,
              payload.file_manifests,
              honest response refl,
              accept_payload_lem post db w server payload,
            ))
        | inr e ↦ rw e (inl (λ id. refl))
      ]

  pub sync-IsAligned :
      (db : D) (draw : ℕ) (answers : Bytes → Bytes → Bytes → Option Response)
      → IsHonest json (sync_tick draw answers)
      → IsAligned laws json db
          (perform_sync self json (λ (w : Unit {0}) s p t. (w, answers s p t)) draw db tt).0
  unfolding perform_sync
  sync-IsAligned db draw answers honest =
      let servers = self.config.bootstrap_servers in
      let server = get_or servers (rand_intn draw (length servers)) [] in
      let digest = own_digest self json db in
      elim (Bool-cases (leb (length servers) 1 || (server == self_address self.config))) [
        | inl e ↦ rw (perform_sync, e) (inl (λ id. refl))
        | inr e ↦ elim (Result-cases (sign self (json.sync_digest.marshal digest))) [
          | inl (x, failed) ↦ rw (perform_sync, e) (rw failed (inl (λ id. refl)))
          | inr (s, signed) ↦
              let text = json.sync_digest.marshal (record digest { signature = s }) in
              rw (perform_sync, e)
                (rw signed (
                  receive-IsAligned (λ (w : Unit {0}) s p t. (w, answers s p t)) db tt
                    (answers server (codes "/sync/digest") text) server
                    (λ response h. honest server (codes "/sync/digest") text response h)))
        ]
      ]
