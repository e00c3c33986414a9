-- ===== src/Sync/Exchange.antt =====
-- One round of the synchronisation between two bootstrap servers.
use kairos_p2p_engine.Base.{
  ℕ, ◌≡◌, refl, ◌∙◌, false, not, ◌&&◌, ◌||◌, none, List, [], ◌∷◌, Bytes, ◌==◌, elem, ltb, leb,
  length, get_or, lookup, is_some, arith, if◌then◌else◌, Bool-cases, inl, inr, Bool,
}
use kairos_p2p_engine.Models.{SyncDigest, SyncPayload}
use kairos_p2p_engine.Badger.{Badger, BadgerLaws, IsReliable}
use kairos_p2p_engine.Config.{Config, self_address}
use kairos_p2p_engine.Database.{get_all_keys}
use kairos_p2p_engine.Database.Laws.{stored}
use kairos_p2p_engine.Database.Laws.Scan.{elem-get_all_keys}
use kairos_p2p_engine.Process.{Process, sign_or_nil, Trusts, rand_intn, ok_response}
use kairos_p2p_engine.Process.Json.{Json}
use kairos_p2p_engine.Sync.{
  active_nodes, manifests, missing, compare_keys, read_entries, process_alignment, digest_reply,
  signed_payload, sync_digest_handler, sync_push_handler, requested_data, push_missing_data,
  accept_payload, receive_payload, own_digest, perform_sync, sync_routes,
}
use kairos_p2p_engine.Sync.Compare.{elem-missing}
use kairos_p2p_engine.Sync.Align.{
  or_else, process_alignment_lem, read_entries_lem, read_entries-IsDistinct,
}

-- The bootstrap server that a round draws.
abbrev pub drawn_server : Config → ℕ → Bytes
drawn_server config draw =
    get_or config.bootstrap_servers (rand_intn draw (length config.bootstrap_servers)) []

elem_of_no-length : (k : Bytes) (xs : List Bytes) → ltb 0 (length xs) ≡ false → elem k xs ≡ false
elem_of_no-length k [] h = refl
elem_of_no-length k (x ∷ xs) h = absurd (ground arith)

-- What one process signs, the other accepts; `q` and `g` give the parts that are not about who
-- sends.
module _ {D E F G : Type 0} (a : Process D F) (b : Process E G) (json : Json)
    (trusted : Trusts b a) where
  abbrev from_a : SyncPayload → SyncPayload
  from_a q = record q { public_key = a.config.public_key; signature = [] }

  abbrev digest_from_a : SyncDigest → SyncDigest
  digest_from_a g = record g { public_key = a.config.public_key; signature = [] }

  push_accepted :
      (w : E) (q : SyncPayload)
      → (sync_push_handler b json w (signed_payload a json (from_a q))).0
        ≡ process_alignment b.badger w q.active_nodes q.file_manifests
  unfolding sync_push_handler signed_payload
  push_accepted w q =
      let sent = from_a q in
      let s = sign_or_nil a (json.sync_payload.marshal sent) in
      rw (json.sync_payload.decode-marshal (record sent { signature = s }))
        (rw (trusted.accepts (json.sync_payload.marshal sent)) refl)

  digest_accepted :
      (w : E) (g : SyncDigest)
      → sync_digest_handler b json w (
          json.sync_digest.marshal (record (digest_from_a g) {
            signature = sign_or_nil a (json.sync_digest.marshal (digest_from_a g));
          }))
        ≡ ok_response (signed_payload b json (digest_reply b json w g))
  unfolding sync_digest_handler digest_reply
  digest_accepted w g =
      let sent = digest_from_a g in
      let s = sign_or_nil a (json.sync_digest.marshal sent) in
      rw (json.sync_digest.decode-marshal (record sent { signature = s }))
        (rw (trusted.accepts (json.sync_digest.marshal sent)) refl)

-- The keys that one server has and the other lacks, in terms of the stores.
module _ {D E : Type 0} {x : Badger D} {y : Badger E} {lx : BadgerLaws x} {ly : BadgerLaws y}
    (rx : IsReliable lx) (ry : IsReliable ly) where
  -- What `y` is sent for the keys that it lacks, read when the store of `x` is `d'`.
  sent_entries :
      (d d' : D) (e : E) (p k : Bytes)
      → lookup k (read_entries x d' p (missing (get_all_keys y e p).0 (get_all_keys x d p).0) [])
        ≡ (if is_some (stored lx d p k) && not (is_some (stored ly e p k))
            then stored lx d' p k
            else none)
  sent_entries d d' e p k = ground (
    arith,
    read_entries_lem lx rx d' p k (missing (get_all_keys y e p).0 (get_all_keys x d p).0) [],
    elem-missing k (get_all_keys y e p).0 (get_all_keys x d p).0,
    elem-get_all_keys lx d p k (rx.begins d),
    elem-get_all_keys ly e p k (ry.begins e),
  )

  -- Where `y` has no missing key, every stored key of `x` is stored in `y`.
  nothing_missing :
      (d : D) (e : E) (p k : Bytes)
      → ltb 0 (length (missing (get_all_keys y e p).0 (get_all_keys x d p).0)) ≡ false
      → (is_some (stored lx d p k) && not (is_some (stored ly e p k))) ≡ false
  nothing_missing d e p k h = ground (
    arith,
    elem_of_no-length k (missing (get_all_keys y e p).0 (get_all_keys x d p).0) h,
    elem-missing k (get_all_keys y e p).0 (get_all_keys x d p).0,
    elem-get_all_keys lx d p k (rx.begins d),
    elem-get_all_keys ly e p k (ry.begins e),
  )

module _ {D E F G : Type 0} (a : Process D F) (b : Process E G) (json : Json)
    {la : BadgerLaws a.badger} {lb : BadgerLaws b.badger} (ra : IsReliable la) (rb : IsReliable lb)
    (a_trusted : Trusts b a) where
  abbrev reply : D → E → SyncPayload
  reply d w = digest_reply b json w (own_digest a json d)

  -- The caller's store after the round.
  abbrev caller_after : D → E → D
  caller_after d w =
      process_alignment a.badger d (reply d w).active_nodes (reply d w).file_manifests

  abbrev pushed : D → E → SyncPayload
  pushed d w =
      requested_data a json (caller_after d w) (reply d w).requested_nodes
        (reply d w).requested_manifests

  abbrev requests_something : D → E → Bool
  requests_something d w =
      ltb 0 (length (reply d w).requested_nodes) || ltb 0 (length (reply d w).requested_manifests)

  -- The peer's store after the round.
  abbrev peer_after : D → E → E
  peer_after d w =
      if requests_something d w
      then process_alignment b.badger w (pushed d w).active_nodes (pushed d w).file_manifests
      else w

  accept_payload_lem :
      (d : D) (w : E) (server s : Bytes)
      → accept_payload a json (sync_routes b json) d w server (record (reply d w) { signature = s })
        ≡ (caller_after d w, peer_after d w)
  unfolding accept_payload push_missing_data sync_routes requested_data
  accept_payload_lem d w server s = elim (Bool-cases (requests_something d w)) [
    | inl h ↦ rw h (rw (push_accepted a b json a_trusted w (pushed d w)) refl)
    | inr h ↦ rw h refl
  ]

  perform_sync_lem :
      (draw : ℕ) (d : D) (w : E)
      → leb (length a.config.bootstrap_servers) 1 ≡ false
      → (drawn_server a.config draw == self_address a.config) ≡ false
      → perform_sync a json (sync_routes b json) draw d w ≡ (caller_after d w, peer_after d w)
  unfolding perform_sync receive_payload sync_routes own_digest
  perform_sync_lem draw d w many other_server =
      let server =
        get_or a.config.bootstrap_servers (rand_intn draw (length a.config.bootstrap_servers)) [] in
      let text = json.sync_payload.marshal (reply d w) in
      let s = sign_or_nil b text in
      rw (many, other_server)
        (rw (a_trusted.signs (json.sync_digest.marshal (own_digest a json d))) (
          rw (digest_accepted a b json a_trusted w (own_digest a json d)) (
            unfold signed_payload in
            rw (json.sync_payload.decode-marshal (record (reply d w) { signature = s }))
              (accept_payload_lem d w server s))))

  caller_after_lem :
      (d : D) (w : E) (k : Bytes)
      → (stored la (caller_after d w) active_nodes k
          ≡ or_else (stored la d active_nodes k) (stored lb w active_nodes k))
        × (stored la (caller_after d w) manifests k
            ≡ or_else (stored la d manifests k) (stored lb w manifests k))
  unfolding digest_reply compare_keys own_digest
  caller_after_lem d w k =
      let all =
        process_alignment_lem la ra d (reply d w).active_nodes (reply d w).file_manifests k
          (read_entries-IsDistinct b.badger w active_nodes _ [] tt) in
      (
        all.0 ∙ ground (arith, sent_entries rb ra w w d active_nodes k),
        all.1 ∙ ground (arith, sent_entries rb ra w w d manifests k),
      )

  peer_after_lem :
      (d : D) (w : E) (k : Bytes)
      → (stored lb (peer_after d w) active_nodes k
          ≡ or_else (stored lb w active_nodes k) (stored la d active_nodes k))
        × (stored lb (peer_after d w) manifests k
            ≡ or_else (stored lb w manifests k) (stored la d manifests k))
  unfolding digest_reply compare_keys own_digest requested_data
  peer_after_lem d w k = elim (Bool-cases (requests_something d w)) [
    | inl h ↦
        let all =
          process_alignment_lem lb rb w (pushed d w).active_nodes (pushed d w).file_manifests k
            (read_entries-IsDistinct a.badger (caller_after d w) active_nodes _ [] tt) in
        let mine = caller_after_lem d w k in
        rw h (
          all.0 ∙ ground (arith, mine.0, sent_entries ra rb d (caller_after d w) w active_nodes k),
          all.1 ∙ ground (arith, mine.1, sent_entries ra rb d (caller_after d w) w manifests k),
        )
    | inr h ↦ rw h (
      ground (arith, nothing_missing ra rb d w active_nodes k (ground arith)),
      ground (arith, nothing_missing ra rb d w manifests k (ground arith)),
    )
  ]

  -- After a round with a peer other than oneself, in which no store fails and the peer accepts the
  -- caller's signatures, both servers hold, for active nodes and for manifests, the keys that one
  -- of them held before. Where both held a key, each keeps its own value.
  pub perform_sync-converges :
      (draw : ℕ) (d : D) (w : E) (k : Bytes)
      → leb (length a.config.bootstrap_servers) 1 ≡ false
      → (drawn_server a.config draw == self_address a.config) ≡ false
      → let after = perform_sync a json (sync_routes b json) draw d w in
        (stored la after.0 active_nodes k
          ≡ or_else (stored la d active_nodes k) (stored lb w active_nodes k))
        × (stored la after.0 manifests k
            ≡ or_else (stored la d manifests k) (stored lb w manifests k))
        × (stored lb after.1 active_nodes k
            ≡ or_else (stored lb w active_nodes k) (stored la d active_nodes k))
        × (stored lb after.1 manifests k
            ≡ or_else (stored lb w manifests k) (stored la d manifests k))
  perform_sync-converges draw d w k many other_server =
      let mine = caller_after_lem d w k in
      let theirs = peer_after_lem d w k in
      rw (perform_sync_lem draw d w many other_server) (mine.0, mine.1, theirs.0, theirs.1)
