-- ===== src/Cli/Answers.antt =====
-- `get` against the handler `GetFile` of a node.
use kairos_p2p_engine.Base.{
  sym, Option-cases, inr, inl, Result-cases, ℕ, ◌≡◌, refl, ap, ◌∙◌, Bool, true, false, Option, none,
  some, [], ◌∷◌, ◌++◌, Bytes, codes, Result, ok, err, if◌then◌else◌,
}
use kairos_p2p_engine.Models.{FileManifest, ChunkRequest}
use kairos_p2p_engine.Crypto.Library.{Aead}
use kairos_p2p_engine.Process.{Process, method_get, internal_server_error, status_ok, Send, post_of}
use kairos_p2p_engine.Process.Json.{Json}
use kairos_p2p_engine.Client.{
  ClientError, no_servers, request_failed, signing_failed, get_file_manifest_from_server,
}
use kairos_p2p_engine.Files.Coding.{Coding}
use kairos_p2p_engine.Files.Reconstruct.{
  GetError, connection_lost, index_out_of_range, stream_reconstruct,
}
use kairos_p2p_engine.NodeApi.{Request, query_get, is_empty, is_method}
use kairos_p2p_engine.NodeApi.Files.{
  Download, answered, interrupted, completed, panicked, disposition, get_file,
}
use kairos_p2p_engine.Cli.{
  Reply, Outcome, call_failed, create_failed, saved, refused, file_name, save_body, get,
}
use kairos_p2p_engine.Cli.FileName.{is_header_text, has_space, file_name-disposition}

-- The errors with which the connection to the client ends: it is lost, or the handler panics.
abbrev pub is_cut : Option GetError → Bool
is_cut (some connection_lost) = true
is_cut (some index_out_of_range) = true
is_cut _ = false

-- What net/http sends of a download: a handler that returns has sent the status 200 unless it chose
-- another, and the whole of what it wrote; the connection of one that panics is closed. `cut_off` is
-- what arrives over a connection that ends while the file is written.
abbrev pub reply_of : (Bytes → Bytes → Option Reply) → Download → Option Reply
reply_of cut_off (answered response) =
    some (record { status = response.status; disposition = []; body = response.body; whole = true })
reply_of cut_off (interrupted header written e) =
    if is_cut (some e)
    then cut_off header written
    else some (record { status = status_ok; disposition = header; body = written; whole = true })
reply_of cut_off (completed header written same) =
    some (record { status = status_ok; disposition = header; body = written; whole = true })
reply_of cut_off panicked = none

save_body-disposition :
    (creates : Bytes → Bool) (output_dir file_id name written : Bytes)
    → is_header_text name ≡ true
    → has_space name ≡ false
    → save_body creates output_dir file_id (record {
      status = status_ok;
      disposition = disposition name;
      body = written;
      whole = true;
    })
      ≡ (if creates (output_dir ++ (b'/' ∷ name))
          then saved (output_dir ++ (b'/' ∷ name)) written
          else create_failed (output_dir ++ (b'/' ∷ name)))
unfolding save_body
save_body-disposition creates output_dir file_id name written ascii h =
    let named : file_name file_id (disposition name) ≡ some name =
      file_name-disposition file_id name ascii ∙ rw h refl in
    rw (save_body, named) refl

module _ {D F : Type 0} (self : Process D F) (json : Json) {W : Type 0} (send : Send W)
    (coding : Coding) (aead : Aead) (sha256 hex : Bytes → Bytes)
    (fetch : W → Bytes → Bytes → Option ChunkRequest) (draw now : ℕ) (writes : ℕ → Bool)
    (network : Bool) (creates : Bytes → Bool) (cut_off : Bytes → Bytes → Option Reply)
    (output_dir file_id : Bytes) where
  -- The node that `get` asks, which reads the address as the request `r`.
  abbrev pub ask : Request → W → Bytes → W × Option Reply
  ask r w url =
      let (w', download) =
        get_file self json send coding aead sha256 hex fetch draw now writes network w r in
      (w', reply_of cut_off download)

  -- What `get` ends with, for what the node learns of the manifest.
  abbrev pub outcome : W → Result ClientError (Option FileManifest) → Outcome
  outcome w (err no_servers) = call_failed
  outcome w (err e) = refused internal_server_error (codes "Error retrieving manifest" ++ (10 ∷ []))
  outcome w (ok none) = call_failed
  outcome w (ok (some manifest)) =
      let path = output_dir ++ (b'/' ∷ manifest.file_name) in
      if creates path
      then saved path (stream_reconstruct coding aead (fetch w) manifest now writes network).0
      else create_failed path

  -- A node answers the request of `get` for a file; if it finds a manifest, the name in it is printable
  -- ASCII without a space, and the reconstruction does not end with the connection lost or a panic. Then `get` reports that the call failed when the node has no bootstrap server configured
  -- or gets a nil manifest, since the handler panics, and the refusal with status 500 when the call
  -- of the bootstrap server fails otherwise; else, if the file can be created, it leaves under the
  -- manifest's name what the reconstruction has written, and reports success, also when the
  -- reconstruction ended with an error; if the file cannot be created, it reports that.
  pub get-get_file :
      (w : W) (r : Request)
      → is_method r.method method_get ≡ true
      → is_empty (query_get r (codes "id")) ≡ false
      → ((manifest : FileManifest)
          → (get_file_manifest_from_server self json
              (post_of send)
              draw
              w
              (query_get r (codes "id"))).1
            ≡ ok (some manifest)
          → (is_header_text manifest.file_name ≡ true)
            × (has_space manifest.file_name ≡ false)
            × (is_cut
                  (stream_reconstruct coding aead
                    (fetch
                      (get_file_manifest_from_server self json
                        (post_of send)
                        draw
                        w
                        (query_get r (codes "id"))).0)
                    manifest
                    now
                    writes
                    network).1
                ≡ false))
      → let (w', found) =
          get_file_manifest_from_server self json
            (post_of send)
            draw
            w
            (query_get r (codes "id")) in
        (get (ask r) creates output_dir file_id w).1 ≡ outcome w' found
  unfolding get get_file
  get-get_file w r is_get given plain =
      let id = query_get r (codes "id") in
      let w' = (get_file_manifest_from_server self json (post_of send) draw w id).0 in
      let found = (get_file_manifest_from_server self json (post_of send) draw w id).1 in
      rw (get, get_file, is_get, given)
        (elim (Result-cases found) [
          | inl (no_servers, e) ↦ rw e refl
          | inl (request_failed, e) ↦ rw e refl
          | inl (signing_failed x, e) ↦ rw e refl
          | inl (kairos_p2p_engine.Client.refused x, e) ↦ rw e refl
          | inr (answer, e) ↦ elim (Option-cases answer) [
            | inl nil ↦ rw (e, nil) refl
            | inr (manifest, is_one) ↦
                let one : found ≡ ok (some manifest) = e ∙ ap ok is_one in
                let body = stream_reconstruct coding aead (fetch w') manifest now writes network in
                let left =
                  save_body-disposition creates output_dir file_id manifest.file_name body.0
                    (plain manifest one).0 (plain manifest one).1 in
                rw one (elim (Option-cases body.1) [
                  | inl none_left ↦ rw none_left left
                  | inr (x, failed) ↦
                      let arrives : is_cut (some x) ≡ false =
                        ap is_cut (sym failed) ∙ (plain manifest one).2 in
                      rw failed (rw arrives left)
                ])
          ]
        ])
