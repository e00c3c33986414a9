-- ===== src/NodeApi/Elsewhere.antt =====
-- What the handlers of a node leave of a chunk that they are not asked about.
use mathlib.Core.Logic.{◌⊎◌}
use kairos_p2p_engine.Base.{
  ◌≡◌, refl, sym, ap, ◌∙◌, ℕ, Bool, true, false, not, ◌&&◌, ◌||◌, Option, none, some, List, [], ◌∷◌,
  Bytes, codes, ◌==◌, eq_iff, is_some, Bool-cases, Option-cases, inl, inr, arith,
}
use kairos_p2p_engine.Models.{FileManifest, ChunkRequest}
use kairos_p2p_engine.Badger.{BadgerLaws, IsReliable}
use kairos_p2p_engine.Database.{put_data, delete_key}
use kairos_p2p_engine.Database.Laws.{stored, stored-put, stored-delete}
use kairos_p2p_engine.Cleanup.{
  Clock, is_expired, is_old, chunks, condemned_chunk, clean_node_database,
}
use kairos_p2p_engine.Cleanup.Sweep.{clean_node_database_lem}
use kairos_p2p_engine.Process.{Process, check, method_get, method_post, method_delete}
use kairos_p2p_engine.Process.Json.{Codec, Json}
use kairos_p2p_engine.Files.StreamAndUpload.{StreamError, blocked}
use kairos_p2p_engine.NodeApi.{
  UploadStatus, Request, Form, query_get, is_method, upload_status, put_file, save_status,
  end_status, chunk, save_chunk_http,
}
use kairos_p2p_engine.NodeApi.Life.{Event, request, upload_end, save_call, delete_call, clean_tick}
use kairos_p2p_engine.NodeServer.{save_chunk, delete_chunk}
use kairos_p2p_engine.NodeServer.Chunks.{HasKeyedChunks}

-- The event neither asks to save or to delete a chunk under `id`, nor is a tick of the cleaner when
-- `value` is a chunk whose release date is a week past, or an old one of a file that is not found.
abbrev pub spares : Json → Bytes → Bytes → Event → Bool
spares json id value (request path r form new) = not (
    (path == codes "/chunk")
    && ((is_method r.method method_post && ((json.chunk_request.decode r.body).0.chunk_id == id))
        || (is_method r.method method_delete && (query_get r (codes "id") == id))))
spares json id value (upload_end old e) = true
spares json id value (save_call r) = not (r.chunk_id == id)
spares json id value (delete_call k) = not (k == id)
spares json id value (clean_tick clock find gc_fuel) =
    let (c, decoded) = json.chunk_request.decode value in
    not (
      decoded
      && (is_expired clock c.release_date
          || (is_old clock c.created_at && not (is_some (find c.file_id)))))

abbrev pub all_spare : Json → Bytes → Bytes → List Event → Bool
all_spare json id value [] = true
all_spare json id value (event ∷ events) =
    spares json id value event && all_spare json id value events

module _ {D F : Type 0} (self : Process D F) (json : Json) (laws : BadgerLaws self.badger) where
  -- The chunks are the same, or one other than that of `id` was saved or deleted.
  abbrev pub IsElsewhere : Bytes → D → D → Type 0
  IsElsewhere id db db' =
      ((j : Bytes) → stored laws db' chunks j ≡ stored laws db chunks j)
      ⊎ (((r : ChunkRequest) × ((r.chunk_id == id) ≡ false)
            × (db' ≡ (put_data self.badger db chunks r.chunk_id (json.chunk_request.marshal r)).0))
          ⊎ ((k : Bytes) × ((k == id) ≡ false) × (db' ≡ (delete_key self.badger db chunks k).0)))

  abbrev pub IsKept : Bytes → Bytes → D → Type 0
  IsKept id value db = HasKeyedChunks laws json db × (stored laws db chunks id ≡ some value)

  pub elsewhere-IsKept :
      (db db' : D) (id value : Bytes)
      → IsElsewhere id db db'
      → IsKept id value db
      → IsKept id value db'
  elsewhere-IsKept db db' id value (inl same) kept =
      (λ j v h. kept.0 j v (sym (same j) ∙ h), same id ∙ kept.1)
  elsewhere-IsKept db db' id value (inr (inl (r, other, e))) kept =
      let text = json.chunk_request.marshal r in
      let put = λ (j : Bytes). stored-put laws db chunks chunks r.chunk_id j text refl refl in
      let read = ap (λ t. t.0.chunk_id) (json.chunk_request.decode-marshal r) in
      rw e (
        λ j v h. ground (arith, put j, read, eq_iff r.chunk_id j, kept.0 j v),
        put id ∙ ground (arith, other, kept.1),
      )
  elsewhere-IsKept db db' id value (inr (inr (k, other, e))) kept =
      let gone = λ (j : Bytes). stored-delete laws db chunks chunks k j refl refl in
      rw e (λ j v h. ground (arith, gone j, kept.0 j v), gone id ∙ ground (arith, other, kept.1))

  pub save-IsElsewhere :
      (db : D) (r : ChunkRequest) (id : Bytes)
      → (r.chunk_id == id) ≡ false
      → IsElsewhere id db (save_chunk self json db r).0
  unfolding save_chunk
  save-IsElsewhere db r id other =
      let sent = record r { signature = [] } in
      let message = json.chunk_request.marshal sent in
      elim (Bool-cases (check self message r.signature r.public_key)) [
        | inl e ↦ elim (Option-cases (put_data self.badger db chunks r.chunk_id message).1) [
          | inl k ↦ rw e (rw k (inr (inl (sent, other, refl))))
          | inr (x, k) ↦ rw e (rw k (inr (inl (sent, other, refl))))
        ]
        | inr e ↦ rw e (inl (λ j. refl))
      ]

  pub delete-IsElsewhere :
      (db : D) (k id : Bytes) → (k == id) ≡ false → IsElsewhere id db (delete_chunk self db k).0
  unfolding delete_chunk
  delete-IsElsewhere db k id other = elim (Option-cases (delete_key self.badger db chunks k).1) [
    | inl e ↦ rw (delete_chunk, e) (inr (inr (k, other, refl)))
    | inr (x, e) ↦ rw (delete_chunk, e) (inr (inr (k, other, refl)))
  ]

  module _ (reliable : IsReliable laws) where
    pub clean-IsKept :
        (clock : Clock) (find : Bytes → Option FileManifest) (gc_fuel : ℕ) (db : D)
        (id value : Bytes)
        → spares json id value (clean_tick clock find gc_fuel) ≡ true
        → IsKept id value db
        → IsKept id value (clean_node_database self.badger json clock find gc_fuel db)
    unfolding condemned_chunk
    clean-IsKept clock find gc_fuel db id value spared kept =
        let cleaned = λ (k : Bytes).
          clean_node_database_lem laws reliable json clock find gc_fuel db chunks k refl kept.0 in
        (
          λ k v h. ground (arith, cleaned k, h, kept.0 k v),
          cleaned id ∙ rw kept.1 (ground (arith, spared)),
        )

  module _ (statuses : Codec UploadStatus) where
    save_status-IsElsewhere :
        (db : D) (old status id : Bytes)
        → IsElsewhere id db (save_status self statuses db old status)
    unfolding save_status
    save_status-IsElsewhere db old status id =
        let text = statuses.marshal (record { status = status }) in
        inl (λ j. stored-put laws db upload_status chunks old j text refl refl ∙ ground arith)

    pub end_status-IsElsewhere :
        (db : D) (old id : Bytes) (e : Option StreamError)
        → IsElsewhere id db (end_status self statuses db old e)
    unfolding end_status
    end_status-IsElsewhere db old id none = save_status-IsElsewhere db old (codes "completed") id
    end_status-IsElsewhere db old id (some blocked) = inl (λ j. refl)
    end_status-IsElsewhere db old id (some e) = save_status-IsElsewhere db old (codes "error") id

    pub put_file-IsElsewhere :
        (db : D) (r : Request) (form : Option Form) (new id : Bytes)
        → IsElsewhere id db (put_file self statuses db r form new).0
    unfolding put_file
    put_file-IsElsewhere db r form new id = elim (Bool-cases (is_method r.method method_post)) [
      | inr n ↦ rw n (inl (λ j. refl))
      | inl y ↦ elim (Option-cases form) [
        | inl e ↦ rw (y, e) (inl (λ j. refl))
        | inr (f, e) ↦ elim (Bool-cases f.created) [
          | inr n ↦ rw (y, e) (rw n (inl (λ j. refl)))
          | inl made ↦ elim (Bool-cases f.copied) [
            | inr n ↦ rw (y, e) (rw (made, n) (inl (λ j. refl)))
            | inl copied ↦
                rw (y, e)
                  (rw (made, copied) (save_status-IsElsewhere db new (codes "processing") id))
          ]
        ]
      ]
    ]

    save_http-IsElsewhere :
        (db : D) (body id : Bytes)
        → ((json.chunk_request.decode body).0.chunk_id == id) ≡ false
        → IsElsewhere id db (save_chunk_http self statuses json db body).0
    unfolding save_chunk_http
    save_http-IsElsewhere db body id other =
        let sent : ChunkRequest = record (json.chunk_request.decode body).0 { signature = [] } in
        let r = (json.chunk_request.decode body).0 in
        let message = json.chunk_request.marshal sent in
        elim (Bool-cases (json.chunk_request.decode body).1) [
          | inr n ↦ rw (save_chunk_http, n) (inl (λ j. refl))
          | inl y ↦ elim (Bool-cases (check self message r.signature r.public_key)) [
            | inr n ↦ rw (save_chunk_http, y) (rw n (inl (λ j. refl)))
            | inl e ↦ rw (save_chunk_http, y) (rw e (inr (inl (sent, other, refl))))
          ]
        ]

    pub chunk-IsElsewhere :
        (db : D) (r : Request) (id : Bytes)
        → ((is_method r.method method_post && ((json.chunk_request.decode r.body).0.chunk_id == id))
            || (is_method r.method method_delete && (query_get r (codes "id") == id)))
          ≡ false
        → IsElsewhere id db (chunk self statuses json db r).0
    unfolding chunk
    chunk-IsElsewhere db r id other = elim (Bool-cases (is_method r.method method_post)) [
      | inl y ↦ rw y (save_http-IsElsewhere db r.body id (ground (arith, other, y)))
      | inr n ↦ elim (Bool-cases (is_method r.method method_get)) [
        | inl y ↦ rw (n, y) (inl (λ j. refl))
        | inr m ↦ elim (Bool-cases (is_method r.method method_delete)) [
          | inl y ↦
              rw (n, m, y) (inr (inr (query_get r (codes "id"), ground (arith, other, y), refl)))
          | inr l ↦ rw (n, m, l) (inl (λ j. refl))
        ]
      ]
    ]
