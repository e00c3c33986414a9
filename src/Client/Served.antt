-- ===== src/Client/Served.antt =====
-- The calls of a node whose signatures the bootstrap server accepts, answered by that server. The
-- world `W` holds the server's database: `view` reads it and `update` replaces it.
use kairos_p2p_engine.Base.{
  ℕ, ◌≡◌, refl, ap, ◌∙◌, false, Option, none, some, [], Bytes, Result, ok, err, length, get_or,
  nat_eq, Option-cases, inl, inr,
}
use kairos_p2p_engine.Models.{FileManifest}
use kairos_p2p_engine.Badger.{BadgerLaws, IsReliable}
use kairos_p2p_engine.Database.{put_data, delete_key}
use kairos_p2p_engine.Database.Laws.{stored, get_data_lem}
use kairos_p2p_engine.Process.{
  Process, sign_or_nil, Trusts, rand_intn, Response, Method, Send, post_of,
}
use kairos_p2p_engine.Process.Json.{Json}
use kairos_p2p_engine.Sync.{manifests}
use kairos_p2p_engine.Bootstrap.{
  insert_file_manifest, download_file_manifest, delete_file_manifest, manifests_route,
  bootstrap_routes,
}
use kairos_p2p_engine.Bootstrap.Manifests.{inserted, downloaded, deleted}
use kairos_p2p_engine.Client.{
  ClientError, chosen_server, answer, error_of, send_signed, upload_file_manifest, manifest_query,
  get_file_manifest_from_server, delete_manifest_on_bootstrap,
}

-- A network in which every request reaches the one bootstrap server.
abbrev pub served :
    {D F W : Type 0}
    → Process D F
    → Json
    → (Bytes → Bytes)
    → (D → Method → Response)
    → ℕ
    → (W → D)
    → (W → D → W)
    → Send W
served server json sha256 metrics now view update w address method path body =
    let (db, response) =
      bootstrap_routes server json sha256 metrics now (view w) address method path body in
    (update w db, response)

-- The manifest that the server answers with, by what it has stored.
abbrev pub manifest_of : Json → Option Bytes → Option FileManifest
manifest_of json none = none
manifest_of json (some text) = json.file_manifest_pointer text

module _ {D E F G W : Type 0} (server : Process D F) (node : Process E G) (json : Json)
    (sha256 : Bytes → Bytes) (metrics : D → Method → Response) (now : ℕ) (view : W → D)
    (update : W → D → W) {laws : BadgerLaws server.badger} (reliable : IsReliable laws)
    (trusted : Trusts server node)
    (configured : nat_eq (length node.config.bootstrap_servers) 0 ≡ false) where
  abbrev send : Send W
  send = served server json sha256 metrics now view update

  pub send_signed_lem :
      (draw : ℕ) (w : W) (text : Bytes) (signed : Bytes → Bytes)
      (call : W → Bytes → Bytes → W × Option Response)
      → send_signed node json draw w text signed call ≡ (
          let r =
            call w
              (get_or node.config.bootstrap_servers
                (rand_intn draw (length node.config.bootstrap_servers))
                [])
              (signed (sign_or_nil node text)) in
          (r.0, answer r.1))
  unfolding send_signed chosen_server
  send_signed_lem draw w text signed call =
      let chosen : chosen_server node.config draw
          ≡ ok (
              get_or node.config.bootstrap_servers
                (rand_intn draw (length node.config.bootstrap_servers)) []) =
        rw (configured, chosen_server) refl in
      rw (chosen, send_signed) (rw (trusted.signs text, send_signed) refl)

  pub upload_file_manifest_lem :
      (draw : ℕ) (w : W) (manifest : FileManifest)
      → upload_file_manifest node json sha256 (post_of send) draw w manifest ≡ (
        update w
            (put_data server.badger
              (view w)
              manifests
              manifest.file_id
              (json.file_manifest.marshal manifest)).0,
        none,
      )
  unfolding upload_file_manifest bootstrap_routes insert_file_manifest answer
  upload_file_manifest_lem draw w manifest =
      let text = sha256 (json.file_manifest.marshal manifest) in
      ap (λ r. (r.0, error_of r.1)) (send_signed_lem draw w text _ _)
      ∙ rw (inserted server json laws sha256 reliable node trusted (view w) manifest) refl

  pub get_file_manifest_answer :
      (draw : ℕ) (w : W) (id : Bytes)
      → get_file_manifest_from_server node json (post_of send) draw w id
        ≡ (update w (view w), ok (manifest_of json (stored laws (view w) manifests id)))
  unfolding get_file_manifest_from_server bootstrap_routes manifests_route download_file_manifest
      answer
  get_file_manifest_answer draw w id =
      let got = get_data_lem laws reliable (view w) manifests id in
      ap
        (λ (r : W × Result ClientError Bytes).
          elim r.1 as (λ _. W × Result ClientError (Option FileManifest)) [
            | err e ↦ (r.0, err e)
            | ok body ↦ (r.0, ok (json.file_manifest_pointer body))
          ])
        (send_signed_lem draw w (json.get_file_manifest_request.marshal (manifest_query node id)) _
          _)
      ∙ (rw (downloaded server json laws sha256 reliable node trusted (view w) id)
          (elim (Option-cases (stored laws (view w) manifests id)) [
            | inl e ↦
                rw (got, e) (ap (λ m. (update w (view w), ok m)) json.file_manifest_pointer-empty)
            | inr (v, e) ↦ rw (got, e) refl
          ]))

  pub get_file_manifest_lem :
      (draw : ℕ) (w : W) (id : Bytes)
      → (get_file_manifest_from_server node json (post_of send) draw w id).1
        ≡ ok (manifest_of json (stored laws (view w) manifests id))
  get_file_manifest_lem draw w id = ap (λ t. t.1) (get_file_manifest_answer draw w id)

  pub delete_manifest_lem :
      (draw : ℕ) (w : W) (id : Bytes)
      → delete_manifest_on_bootstrap node json send draw w id
        ≡ (update w (delete_key server.badger (view w) manifests id).0, none)
  unfolding delete_manifest_on_bootstrap bootstrap_routes manifests_route delete_file_manifest
      answer
  delete_manifest_lem draw w id =
      ap (λ r. (r.0, error_of r.1))
        (send_signed_lem draw w (json.get_file_manifest_request.marshal (manifest_query node id)) _
          _)
      ∙ rw (deleted server json laws sha256 reliable node trusted (view w) id) refl
