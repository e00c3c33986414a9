-- ===== src/NodeApi/Deletion.antt =====
-- What the deletion of a file leaves behind, on the bootstrap server and on the nodes.
use kairos_p2p_engine.Base.{
  ℕ, ◌≡◌, refl, ap, ◌∙◌, Bool, true, false, ◌&&◌, Option, none, some, [], Bytes, codes, ◌==◌,
  eq_refl, nat_eq, length, ok, arith, if◌then◌else◌,
}
use kairos_p2p_engine.Models.{FileManifest}
use kairos_p2p_engine.Badger.{BadgerLaws, IsReliable}
use kairos_p2p_engine.Crypto.Library.{Aead}
use kairos_p2p_engine.Database.{delete_key}
use kairos_p2p_engine.Database.Laws.{stored, stored-delete, delete_key_ok}
use kairos_p2p_engine.Process.{
  Process, Response, Method, method_get, method_delete, ok_response, Send, Trusts, post_of,
}
use kairos_p2p_engine.Process.Json.{Json}
use kairos_p2p_engine.Cleanup.{chunks}
use kairos_p2p_engine.Sync.{manifests}
use kairos_p2p_engine.Sync.Align.{manifests-IsPlain}
use kairos_p2p_engine.Client.{ClientError, no_servers, get_file_manifest_from_server}
use kairos_p2p_engine.Client.Served.{
  manifest_of, get_file_manifest_answer, get_file_manifest_lem, delete_manifest_lem,
}
use kairos_p2p_engine.Files.Coding.{Coding}
use kairos_p2p_engine.Network.{Net, net_send, net_delete, net_fetch}
use kairos_p2p_engine.NodeApi.{
  internal_server_error, http_error, Request, query_get, is_empty, is_method,
}
use kairos_p2p_engine.NodeApi.Dropped.{names, deleted_blocks, bootstrap_kept}
use kairos_p2p_engine.NodeApi.Files.{split_of, delete_blocks, panicked, get_file, delete_file}

module _ {D E F G H K : Type 0} (server : Process D F) (nodes : Process E G) (self : Process H K)
    (json : Json) (sha256 : Bytes → Bytes) (metrics : D → Method → Response) (now : ℕ)
    (is_up : Bytes → Bool) {server_laws : BadgerLaws server.badger}
    (server_reliable : IsReliable server_laws) {node_laws : BadgerLaws nodes.badger}
    (node_reliable : IsReliable node_laws) (server_trusts : Trusts server self)
    (configured : nat_eq (length self.config.bootstrap_servers) 0 ≡ false) where
  abbrev send : Send (Net D E)
  send = net_send server json sha256 metrics now

  abbrev found : Net D E → Bytes → Option FileManifest
  found w id = manifest_of json (stored server_laws w.bootstrap manifests id)

  abbrev chunks_gone : Net D E → Bytes → Net D E
  chunks_gone w id = delete_blocks (net_delete nodes json is_up) w (split_of (found w id))

  delete_file_lem :
      (draw second_draw : ℕ) (w : Net D E) (r : Request)
      → is_method r.method method_delete ≡ true
      → is_empty (query_get r (codes "id")) ≡ false
      → delete_file self json send (net_delete nodes json is_up) draw second_draw w r ≡ (
          let id = query_get r (codes "id") in
          let gone = chunks_gone w id in
          (
            record gone { bootstrap = (delete_key server.badger gone.bootstrap manifests id).0 },
            some (ok_response []),
          ))
  unfolding delete_file
  delete_file_lem draw second_draw w r delete given =
      let id = query_get r (codes "id") in
      let got =
        get_file_manifest_answer server self json sha256 metrics now (λ (v : Net D E). v.bootstrap)
          (λ v d. record v { bootstrap = d }) server_reliable server_trusts configured draw w id in
      let done =
        delete_manifest_lem server self json sha256 metrics now (λ (v : Net D E). v.bootstrap)
          (λ v d. record v { bootstrap = d }) server_reliable server_trusts configured second_draw
          (chunks_gone w id) id in
      rw (delete_file, delete, given)
        (rw (ap (λ t. t.1) got) (
          rw (ap (λ t. t.0) got) (
            ap
              (λ (t : Net D E × Option ClientError). (
                t.0,
                elim t.1 as (λ _. Option Response) [
                  | some no_servers ↦ none
                  | some _ ↦
                      some (http_error internal_server_error (codes "Error deleting manifest"))
                  | none ↦ some (ok_response [])
                ],
              ))
              done)))

  -- On stores that do not fail, for a node that has a bootstrap server configured, which accepts its
  -- signatures: a DELETE request with an identifier is answered with 200; the server has no manifest
  -- for the identifier any more and all others as before; a node that is up has lost exactly the
  -- chunks for which the manifest named it, and a node that is down has lost none.
  pub delete_file-stored :
      (draw second_draw : ℕ) (w : Net D E) (r : Request)
      → is_method r.method method_delete ≡ true
      → is_empty (query_get r (codes "id")) ≡ false
      → let after = delete_file self json send (net_delete nodes json is_up) draw second_draw w r in
        let manifest =
          manifest_of json (stored server_laws w.bootstrap manifests (query_get r (codes "id"))) in
        (after.1 ≡ some (ok_response []))
        × ((k : Bytes)
            → stored server_laws after.0.bootstrap manifests k ≡ (
                if query_get r (codes "id") == k
                then none
                else stored server_laws w.bootstrap manifests k))
        × ((a j : Bytes)
            → stored node_laws (after.0.nodes a) chunks j ≡ (
                if is_up a && names a j (split_of manifest)
                then none
                else stored node_laws (w.nodes a) chunks j))
  unfolding delete_file
  delete_file-stored draw second_draw w r delete given =
      let id = query_get r (codes "id") in
      let gone = chunks_gone w id in
      let before = bootstrap_kept nodes json is_up w (split_of (found w id)) in
      rw (delete_file_lem draw second_draw w r delete given) (
        refl,
        λ k.
            ap (λ d. stored server_laws (delete_key server.badger d manifests id).0 manifests k)
              before
            ∙ ground (
              arith,
              stored-delete server_laws w.bootstrap manifests manifests id k manifests-IsPlain
                  manifests-IsPlain,
              delete_key_ok server_laws server_reliable w.bootstrap manifests id,
            ),
        λ a j. deleted_blocks nodes json is_up node_reliable w (split_of (found w id)) a j,
      )

  -- Under the same conditions, a GET request for a file that was deleted reaches the use of a nil
  -- manifest: the handler panics instead of answering with an error.
  pub get_file-delete_file :
      (coding : Coding) (aead : Aead) (hex : Bytes → Bytes) (draw second_draw third_draw later : ℕ)
      (writes : ℕ → Bool) (network : Bool) (w : Net D E) (r r' : Request)
      → is_method r.method method_delete ≡ true
      → is_empty (query_get r (codes "id")) ≡ false
      → is_method r'.method method_get ≡ true
      → query_get r' (codes "id") ≡ query_get r (codes "id")
      → (get_file self json send coding aead sha256 hex
          (net_fetch nodes json is_up)
          third_draw
          later
          writes
          network
          (delete_file self json send (net_delete nodes json is_up) draw second_draw w r).0
          r').1
        ≡ panicked
  unfolding get_file
  get_file-delete_file coding aead hex draw second_draw third_draw later writes network w r r'
        delete given get same =
      let id = query_get r (codes "id") in
      let after =
        (delete_file self json send (net_delete nodes json is_up) draw second_draw w r).0 in
      let gone : stored server_laws after.bootstrap manifests id ≡ none =
        (delete_file-stored draw second_draw w r delete given).1 id ∙ rw (eq_refl id) refl in
      let got : (get_file_manifest_from_server self json (post_of send) third_draw after id).1
          ≡ ok none =
        get_file_manifest_lem server self json sha256 metrics now (λ (v : Net D E). v.bootstrap)
          (λ v d. record v { bootstrap = d }) server_reliable server_trusts configured third_draw
          after id
        ∙ ap (λ t. ok (manifest_of json t)) gone in
      rw (get, same) (rw given (rw got refl))
