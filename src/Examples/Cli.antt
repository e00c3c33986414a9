-- ===== src/Examples/Cli.antt =====
-- The command line client asks a node that knows one file, before its release round.
use kairos_p2p_engine.Base.{
  none, ◌≡◌, refl, sym, ap, ◌∙◌, true, false, Option, some, [], ◌∷◌, Bytes, codes, ok, Result,
}
use kairos_p2p_engine.Models.{FileManifest}
use kairos_p2p_engine.Process.{method_get, Send, ok_response, post_of, sign, rand_intn}
use kairos_p2p_engine.Crypto.{sign_message}
use kairos_p2p_engine.Client.{
  ClientError, get_file_manifest_from_server, send_signed, chosen_server, answer,
}
use kairos_p2p_engine.NodeApi.{Request}
use kairos_p2p_engine.NodeApi.Files.{disposition}
use kairos_p2p_engine.Cli.{Reply, file_name, get}
use kairos_p2p_engine.Cli.FileName.{is_header_text, has_space, file_name-disposition}
use kairos_p2p_engine.Files.Reconstruct.{
  stream_reconstruct, reconstruct_blocks, reconstruct_block, gather_chunks, try_nodes, place_shard,
  accept_shard, chunk_infos,
}
use kairos_p2p_engine.Cli.Answers.{is_cut, ask, outcome, get-get_file}
use kairos_p2p_engine.Examples.Wire.{codec}
use kairos_p2p_engine.Examples.Codecs.{plain_json, file_manifest_wire, manifest_pointer-marshal}
use kairos_p2p_engine.Examples.World.{aead}
use kairos_p2p_engine.Examples.Codes.{coding}
use kairos_p2p_engine.Examples.Servers.{carol, toy_hash}
use kairos_p2p_engine.Examples.WholeFile.{two_blocks, fetch_b}

file_name-disposition_example :
    file_name (codes "x") (disposition (codes "my file")) ≡ some (codes "m")
file_name-disposition_example = file_name-disposition (codes "x") (codes "my file") refl

-- A bootstrap server that has the file.
abbrev has_it : Send Bytes
has_it w server method path body =
    (w, some (ok_response ((codec file_manifest_wire).marshal two_blocks)))

abbrev for_f : Request
for_f = record { method = method_get; query = (codes "id", codes "f") ∷ []; body = [] }

found_lem :
    (get_file_manifest_from_server carol plain_json (post_of has_it) 0 [] (codes "f")).1
    ≡ ok (some two_blocks)
unfolding get_file_manifest_from_server send_signed chosen_server answer sign sign_message rand_intn
found_lem = ap ok (manifest_pointer-marshal two_blocks)

abbrev manifest_of : Result ClientError (Option FileManifest) → FileManifest
manifest_of (ok (some manifest)) = manifest
manifest_of _ = two_blocks

locked : is_cut (stream_reconstruct coding aead fetch_b two_blocks 4 (λ k. true) true).1 ≡ false
unfolding stream_reconstruct reconstruct_blocks reconstruct_block gather_chunks try_nodes
    place_shard accept_shard chunk_infos
locked = refl

plain :
    (manifest : FileManifest)
    → (get_file_manifest_from_server carol plain_json (post_of has_it) 0 [] (codes "f")).1
      ≡ ok (some manifest)
    → (is_header_text manifest.file_name ≡ true)
      × (has_space manifest.file_name ≡ false)
      × (is_cut (stream_reconstruct coding aead fetch_b manifest 4 (λ k. true) true).1 ≡ false)
plain manifest h =
    let same : two_blocks ≡ manifest = ap manifest_of (sym found_lem ∙ h) in
    rw (← same) (refl, refl, locked)

-- A reply of which nothing arrives.
abbrev nothing : Bytes → Bytes → Option Reply
nothing header written = none

get-get_file_example :
    (get
      (ask carol plain_json has_it coding aead toy_hash
        (λ h. h)
        (λ w. fetch_b)
        0
        4
        (λ k. true)
        true
        (λ p. true)
        nothing
        (codes ".")
        (codes "f")
        for_f)
      (λ p. true)
      (codes ".")
      (codes "f")
      []).1
    ≡ outcome carol plain_json has_it coding aead toy_hash
        (λ h. h)
        (λ w. fetch_b)
        0
        4
        (λ k. true)
        true
        (λ p. true)
        nothing
        (codes ".")
        (codes "f")
        (get_file_manifest_from_server carol plain_json (post_of has_it) 0 [] (codes "f")).0
        (get_file_manifest_from_server carol plain_json (post_of has_it) 0 [] (codes "f")).1
get-get_file_example =
    get-get_file carol plain_json has_it coding aead toy_hash (λ h. h) (λ w. fetch_b) 0 4
      (λ k. true) true (λ p. true) nothing (codes ".") (codes "f") [] for_f refl refl plain
