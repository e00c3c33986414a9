-- ===== src/NodeApi/Kept.antt =====
-- What becomes of a chunk during the life of a node.
use kairos_p2p_engine.Base.{
  ◌≡◌, refl, true, Option, some, List, [], ◌∷◌, Bytes, codes, ◌==◌, Bool-cases, inl, inr, arith,
}
use kairos_p2p_engine.Badger.{BadgerLaws, IsReliable}
use kairos_p2p_engine.Database.Laws.{stored}
use kairos_p2p_engine.Cleanup.{chunks}
use kairos_p2p_engine.Process.{Process, Response}
use kairos_p2p_engine.Process.Json.{Codec, Json}
use kairos_p2p_engine.NodeApi.{UploadStatus, Request, Form}
use kairos_p2p_engine.NodeApi.Elsewhere.{
  spares, all_spare, IsElsewhere, IsKept, elsewhere-IsKept, save-IsElsewhere, delete-IsElsewhere,
  clean-IsKept, end_status-IsElsewhere, put_file-IsElsewhere, chunk-IsElsewhere,
}
use kairos_p2p_engine.NodeApi.Life.{
  Event, request, upload_end, save_call, delete_call, clean_tick, node_routes, handle, life,
}
use kairos_p2p_engine.NodeServer.Chunks.{HasKeyedChunks}

module _ {D F : Type 0} (self : Process D F) (json : Json) (statuses : Codec UploadStatus)
    (get delete metrics : D → Request → Option Response) (laws : BadgerLaws self.badger) where
  abbrev after : D → Event → D
  after = handle self json statuses get delete metrics

  routes-IsElsewhere :
      (db : D) (path : Bytes) (r : Request) (form : Option Form) (new id value : Bytes)
      → spares json id value (request path r form new) ≡ true
      → IsElsewhere self json laws id db
          (node_routes self json statuses get delete metrics db path r form new).0
  unfolding node_routes
  routes-IsElsewhere db path r form new id value spared = elim (Bool-cases (path == codes "/put")) [
    | inl e ↦ rw e (put_file-IsElsewhere self json laws statuses db r form new id)
    | inr n₁ ↦ elim (Bool-cases (path == codes "/get")) [
      | inl e ↦ rw (n₁, e) (inl (λ j. refl))
      | inr n₂ ↦ elim (Bool-cases (path == codes "/delete")) [
        | inl e ↦ rw (n₁, n₂, e) (inl (λ j. refl))
        | inr n₃ ↦ elim (Bool-cases (path == codes "/chunk")) [
          | inl e ↦
              rw (n₁, n₂, n₃, e)
                (chunk-IsElsewhere self json laws statuses db r id (ground (arith, spared, e)))
          | inr n₄ ↦ elim (Bool-cases (path == codes "/upload/status")) [
            | inl e ↦ rw (n₁, n₂, n₃, n₄, e) (inl (λ j. refl))
            | inr n₅ ↦ elim (Bool-cases (path == codes "/metrics")) [
              | inl e ↦ rw (n₁, n₂, n₃, n₄, n₅, e) (inl (λ j. refl))
              | inr n₆ ↦ rw (n₁, n₂, n₃, n₄, n₅, n₆) (inl (λ j. refl))
            ]
          ]
        ]
      ]
    ]
  ]

  handle-IsKept :
      (reliable : IsReliable laws) (db : D) (event : Event) (id value : Bytes)
      → spares json id value event ≡ true
      → IsKept self json laws id value db
      → IsKept self json laws id value (after db event)
  unfolding handle
  handle-IsKept reliable db (request path r form new) id value spared kept =
      elsewhere-IsKept self json laws db (after db (request path r form new)) id value
        (routes-IsElsewhere db path r form new id value spared) kept
  handle-IsKept reliable db (upload_end old e) id value spared kept =
      elsewhere-IsKept self json laws db (after db (upload_end old e)) id value
        (end_status-IsElsewhere self json laws statuses db old id e) kept
  handle-IsKept reliable db (save_call r) id value spared kept =
      elsewhere-IsKept self json laws db (after db (save_call r)) id value
        (save-IsElsewhere self json laws db r id (ground (arith, spared))) kept
  handle-IsKept reliable db (delete_call k) id value spared kept =
      elsewhere-IsKept self json laws db (after db (delete_call k)) id value
        (delete-IsElsewhere self json laws db k id (ground (arith, spared))) kept
  handle-IsKept reliable db (clean_tick clock find gc_fuel) id value spared kept =
      clean-IsKept self json laws reliable clock find gc_fuel db id value spared kept

  -- On a store that does not fail and whose chunks stand under their identifiers, whatever requests
  -- and calls come in, uploads end and ticks go off, in any order: a chunk that is stored keeps its
  -- text, as long as no request or call saves or deletes a chunk under its identifier, and the cleaner
  -- does not go off a week after its release date, or when the chunk is old and no manifest of its file
  -- is found; and all stored chunks go on to stand under their identifiers.
  pub life-HasKeyedChunks :
      (db : D) (events : List Event) (id value : Bytes)
      → IsReliable laws
      → HasKeyedChunks laws json db
      → all_spare json id value events ≡ true
      → stored laws db chunks id ≡ some value
      → HasKeyedChunks laws json (life self json statuses get delete metrics db events)
        × (stored laws (life self json statuses get delete metrics db events) chunks id
            ≡ some value)
  unfolding life
  life-HasKeyedChunks db [] id value reliable keyed spared h = (keyed, h)
  life-HasKeyedChunks db (event ∷ events) id value reliable keyed spared h =
      let kept = handle-IsKept reliable db event id value (ground (arith, spared)) (keyed, h) in
      life-HasKeyedChunks (after db event) events id value reliable kept.0 (ground (arith, spared))
        kept.1
