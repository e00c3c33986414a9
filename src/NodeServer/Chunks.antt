-- ===== src/NodeServer/Chunks.antt =====
-- The chunks that a node stores.
use kairos_p2p_engine.Base.{
  ◌≡◌, refl, ap, ◌∙◌, true, Option, none, some, [], Bytes, codes, ◌==◌, eq_iff, arith, Bool-cases,
  Option-cases, inl, inr, if◌then◌else◌,
}
use kairos_p2p_engine.Models.{ChunkRequest}
use kairos_p2p_engine.Badger.{Badger, BadgerLaws, IsReliable}
use kairos_p2p_engine.Database.{put_data, delete_key}
use kairos_p2p_engine.Database.Laws.{stored, stored-put, stored-delete, put_data_ok, get_data_lem}
use kairos_p2p_engine.Process.{Process, check, sign_or_nil, Trusts}
use kairos_p2p_engine.Process.Json.{Json}
use kairos_p2p_engine.Cleanup.{chunks}
use kairos_p2p_engine.NodeServer.{replied, save_chunk, get_chunk, delete_chunk, request_chunk}

-- Every stored chunk stands under its own identifier, as the node's cleaner takes for granted.
abbrev pub HasKeyedChunks : {D : Type 0} {b : Badger D} → BadgerLaws b → Json → D → Type 0
HasKeyedChunks laws json db =
    (id value : Bytes)
    → stored laws db chunks id ≡ some value
    → (json.chunk_request.decode value).0.chunk_id ≡ id

-- A request as an upload worker signs it.
abbrev pub signed_chunk : {E G : Type 0} → Process E G → Json → ChunkRequest → ChunkRequest
signed_chunk node json request =
    let unsigned = record request { public_key = node.config.public_key; signature = [] } in
    record unsigned { signature = sign_or_nil node (json.chunk_request.marshal unsigned) }

module _ {D F : Type 0} (server : Process D F) (json : Json) (laws : BadgerLaws server.badger) where
  -- Whatever the requests are, and whatever fails in the store, saving and deleting chunks keeps
  -- every stored chunk under its own identifier.
  pub save_and_delete-HasKeyedChunks :
      (db : D) (request : ChunkRequest) (id : Bytes)
      → HasKeyedChunks laws json db
      → HasKeyedChunks laws json (save_chunk server json db request).0
        × HasKeyedChunks laws json (delete_chunk server db id).0
  unfolding save_chunk delete_chunk
  save_and_delete-HasKeyedChunks db request id keyed =
      let message = json.chunk_request.marshal (record request { signature = [] }) in
      let put = put_data server.badger db chunks request.chunk_id message in
      let deleted = delete_key server.badger db chunks id in
      let put_keyed : HasKeyedChunks laws json put.0 = λ j value h. ground (
        arith,
        stored-put laws db chunks chunks request.chunk_id j message refl refl,
        ap (λ r. r.0.chunk_id)
            (json.chunk_request.decode-marshal (record request { signature = [] })),
        eq_iff request.chunk_id j,
        keyed j value,
      ) in
      let delete_keyed : HasKeyedChunks laws json deleted.0 = λ j value h.
        ground (arith, stored-delete laws db chunks chunks id j refl refl, keyed j value) in
      (
        elim (Bool-cases (check server message request.signature request.public_key)) [
          | inl e ↦
              rw e
                (elim (Option-cases put.1) [ inl k ↦ rw k put_keyed | inr (x, k) ↦ rw k put_keyed ])
          | inr e ↦ rw e keyed
        ],
        elim (Option-cases deleted.1) [
          | inl k ↦ rw (k, delete_chunk) delete_keyed
          | inr (x, k) ↦ rw (k, delete_chunk) delete_keyed
        ],
      )

  module _ {E G : Type 0} (reliable : IsReliable laws) (node : Process E G)
      (trusted : Trusts server node) where
    -- What a stored value is decoded to.
    abbrev pub read_chunk : Option Bytes → Option ChunkRequest
    read_chunk none = none
    read_chunk (some text) =
        if (json.chunk_request.decode text).1 then some (json.chunk_request.decode text).0 else none

    pub request_stored :
        (db : D) (address id : Bytes)
        → request_chunk json (λ _ i. get_chunk server db i) address id
          ≡ read_chunk (stored laws db chunks id)
    unfolding request_chunk get_chunk
    request_stored db address id = elim (Option-cases (stored laws db chunks id)) [
      | inl e ↦ rw (get_data_lem laws reliable db chunks id, e, request_chunk, get_chunk) refl
      | inr (text, e) ↦
          rw (get_data_lem laws reliable db chunks id, e, request_chunk, get_chunk) refl
    ]

    pub saved :
        (db : D) (request : ChunkRequest)
        → save_chunk server json db (signed_chunk node json request) ≡ (
          (put_data server.badger db chunks request.chunk_id (
              json.chunk_request.marshal
                (record request { public_key = node.config.public_key; signature = [] }))).0,
          (replied true (codes "chunk saved"), none),
        )
    unfolding save_chunk
    saved db request =
        let message =
          json.chunk_request.marshal
            (record request { public_key = node.config.public_key; signature = [] }) in
        rw (trusted.accepts message)
          (rw (put_data_ok laws reliable db chunks request.chunk_id message) refl)

    -- On a store that does not fail, with a node whose signatures the server accepts: a chunk that
    -- an upload worker sends is saved; whoever asks the server for its identifier then gets the
    -- request back without its signature, and other identifiers answer as before.
    pub request_chunk-save_chunk :
        (db : D) (request : ChunkRequest) (address id : Bytes)
        → let after = save_chunk server json db (signed_chunk node json request) in
          (after.1 ≡ (replied true (codes "chunk saved"), none))
          × (request_chunk json (λ _ i. get_chunk server after.0 i) address id ≡ (
              if request.chunk_id == id
              then some (record request { public_key = node.config.public_key; signature = [] })
              else request_chunk json (λ _ i. get_chunk server db i) address id))
    request_chunk-save_chunk db request address id =
        let unsigned = record request { public_key = node.config.public_key; signature = [] } in
        let message = json.chunk_request.marshal unsigned in
        let db' = (put_data server.badger db chunks request.chunk_id message).0 in
        rw (saved db request) (
          refl,
          request_stored db' address id
              ∙ ground (
                arith,
                stored-put laws db chunks chunks request.chunk_id id message refl refl,
                put_data_ok laws reliable db chunks request.chunk_id message,
                json.chunk_request.decode-marshal unsigned,
                request_stored db address id,
              ),
        )
