-- ===== src/Bootstrap/Manifests.antt =====
-- The store of file manifests.
use kairos_p2p_engine.Base.{
  ◌≡◌, refl, ap, some, [], Bytes, ◌==◌, eq_refl, eq_iff, ok, err, Bool-cases, inl, inr, arith,
  if◌then◌else◌,
}
use kairos_p2p_engine.Models.{FileManifest, GetFileManifestRequest}
use kairos_p2p_engine.Badger.{Badger, BadgerLaws, IsReliable}
use kairos_p2p_engine.Config.{self_address}
use kairos_p2p_engine.Database.{get_data, put_data, delete_key}
use kairos_p2p_engine.Database.Laws.{stored, stored-put, stored-delete, put_data_ok, get_data_lem}
use kairos_p2p_engine.Process.{Process, check, sign_or_nil, Trusts, ok_response}
use kairos_p2p_engine.Process.Json.{Json}
use kairos_p2p_engine.Sync.{manifests}
use kairos_p2p_engine.Sync.Align.{manifests-IsPlain}
use kairos_p2p_engine.Bootstrap.{insert_file_manifest, download_file_manifest, delete_file_manifest}

-- Every stored manifest can be read, and stands under its own identifier.
abbrev pub IsKeyedStore : {D : Type 0} {b : Badger D} → BadgerLaws b → Json → D → Type 0
IsKeyedStore laws json db =
    (id value : Bytes)
    → stored laws db manifests id ≡ some value
    → (json.file_manifest.decode value).0.file_id ≡ id

-- A request as `service.UploadFileManifest` and as `service.GetFileManifest` build it.
abbrev pub signed_manifest :
    {E G : Type 0} → Process E G → Json → (Bytes → Bytes) → FileManifest → Bytes
signed_manifest node json sha256 manifest = json.file_manifest_request.marshal (record {
  manifest = manifest;
  address = self_address node.config;
  public_key = node.config.public_key;
  signature = sign_or_nil node (sha256 (json.file_manifest.marshal manifest));
})

abbrev pub signed_query : {E G : Type 0} → Process E G → Json → Bytes → Bytes
signed_query node json id =
    let unsigned : GetFileManifestRequest = record {
      file_id = id;
      address = self_address node.config;
      public_key = node.config.public_key;
      signature = [];
    } in
    json.get_file_manifest_request.marshal (record unsigned {
      signature = sign_or_nil node (json.get_file_manifest_request.marshal unsigned);
    })

module _ {D F : Type 0} (server : Process D F) (json : Json) (laws : BadgerLaws server.badger)
    (sha256 : Bytes → Bytes) where
  put-IsKeyedStore :
      (db : D) (manifest : FileManifest)
      → IsKeyedStore laws json db
      → IsKeyedStore laws json
          (put_data server.badger db manifests manifest.file_id
            (json.file_manifest.marshal manifest)).0
  put-IsKeyedStore db manifest keyed id value h =
      let written =
        stored-put laws db manifests manifests manifest.file_id id
          (json.file_manifest.marshal manifest) manifests-IsPlain manifests-IsPlain in
      let decoded = ap (λ r. r.0.file_id) (json.file_manifest.decode-marshal manifest) in
      ground (arith, written, decoded, eq_iff manifest.file_id id, keyed id value)

  delete-IsKeyedStore :
      (db : D) (key : Bytes)
      → IsKeyedStore laws json db
      → IsKeyedStore laws json (delete_key server.badger db manifests key).0
  delete-IsKeyedStore db key keyed id value h = ground (
    arith,
    stored-delete laws db manifests manifests key id manifests-IsPlain manifests-IsPlain,
    keyed id value,
  )

  -- Whatever the body of the request is, and whatever fails in the store, an insertion and a
  -- deletion keep every stored manifest under its own identifier.
  pub insert_and_delete-IsKeyedStore :
      (db : D) (body : Bytes)
      → IsKeyedStore laws json db
      → IsKeyedStore laws json (insert_file_manifest server json sha256 db body).0
        × IsKeyedStore laws json (delete_file_manifest server json db body).0
  unfolding insert_file_manifest delete_file_manifest
  insert_and_delete-IsKeyedStore db body keyed =
      let request = (json.file_manifest_request.decode body).0 in
      let query = (json.get_file_manifest_request.decode body).0 in
      (
        elim (Bool-cases (
            check server (sha256 (json.file_manifest.marshal request.manifest)) request.signature
              request.public_key)) [
                | inl e ↦ rw e (put-IsKeyedStore db request.manifest keyed)
                | inr e ↦ rw e keyed
              ],
        elim (Bool-cases (
            check server (json.get_file_manifest_request.marshal (record query { signature = [] }))
              query.signature query.public_key)) [
                | inl e ↦ rw e (delete-IsKeyedStore db query.file_id keyed)
                | inr e ↦ rw e keyed
              ],
      )

  module _ {E G : Type 0} (reliable : IsReliable laws) (node : Process E G)
      (trusted : Trusts server node) where
    pub inserted :
        (db : D) (manifest : FileManifest)
        → insert_file_manifest server json sha256 db (signed_manifest node json sha256 manifest) ≡ (
          (put_data server.badger db manifests manifest.file_id
              (json.file_manifest.marshal manifest)).0,
          ok_response [],
        )
    unfolding insert_file_manifest
    inserted db manifest =
        let text = sha256 (json.file_manifest.marshal manifest) in
        rw
          (json.file_manifest_request.decode-marshal (record {
            manifest = manifest;
            address = self_address node.config;
            public_key = node.config.public_key;
            signature = sign_or_nil node text;
          }))
          (rw (trusted.accepts text) refl)

    pub downloaded :
        (db : D) (id : Bytes)
        → download_file_manifest server json db (signed_query node json id)
          ≡ ok_response (elim (get_data server.badger db manifests id) [ ok v ↦ v | err e ↦ [] ])
    unfolding download_file_manifest
    downloaded db id =
        let unsigned : GetFileManifestRequest = record {
          file_id = id;
          address = self_address node.config;
          public_key = node.config.public_key;
          signature = [];
        } in
        let text = json.get_file_manifest_request.marshal unsigned in
        rw
          (json.get_file_manifest_request.decode-marshal
            (record unsigned { signature = sign_or_nil node text }))
          (rw (trusted.accepts text) refl)

    pub deleted :
        (db : D) (id : Bytes)
        → delete_file_manifest server json db (signed_query node json id)
          ≡ ((delete_key server.badger db manifests id).0, ok_response [])
    unfolding delete_file_manifest
    deleted db id =
        let unsigned : GetFileManifestRequest = record {
          file_id = id;
          address = self_address node.config;
          public_key = node.config.public_key;
          signature = [];
        } in
        let text = json.get_file_manifest_request.marshal unsigned in
        rw
          (json.get_file_manifest_request.decode-marshal
            (record unsigned { signature = sign_or_nil node text }))
          (rw (trusted.accepts text) refl)

    -- On a store that does not fail, with a node whose signatures the server accepts: a node that
    -- asks for a manifest after it was inserted gets it, and one that asks for another file gets
    -- what it would have got before.
    pub download_file_manifest-insert_file_manifest :
        (db : D) (manifest : FileManifest) (id : Bytes)
        → download_file_manifest server json
            (insert_file_manifest server json sha256 db
              (signed_manifest node json sha256 manifest)).0
            (signed_query node json id)
          ≡ (if manifest.file_id == id
              then ok_response (json.file_manifest.marshal manifest)
              else download_file_manifest server json db (signed_query node json id))
    download_file_manifest-insert_file_manifest db manifest id =
        let value = json.file_manifest.marshal manifest in
        rw (inserted db manifest) (
          rw (downloaded (put_data server.badger db manifests manifest.file_id value).0 id) (
            rw (downloaded db id) (
              rw
                (get_data_lem laws reliable
                  (put_data server.badger db manifests manifest.file_id value).0 manifests id)
                (rw (get_data_lem laws reliable db manifests id) (
                  ground (
                    arith,
                    stored-put laws db manifests manifests manifest.file_id id value
                        manifests-IsPlain manifests-IsPlain,
                    put_data_ok laws reliable db manifests manifest.file_id value,
                    eq_refl manifests,
                  ))))))
