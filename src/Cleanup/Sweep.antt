-- ===== src/Cleanup/Sweep.antt =====
-- What the cleaners remove, and what they keep.
use kairos_p2p_engine.Base.{
  ℕ, ◌≡◌, refl, sym, ap, ◌∙◌, Bool, true, false, ◌&&◌, ◌||◌, Option, none, some, List, [], ◌∷◌,
  ◌++◌, Bytes, ◌==◌, eq_iff, eq_refl, elem, elem-append, IsDistinct, keys, lookup, lookup-keys,
  is_some, int64_sign, ◌<◌, ◌+◌, ltb, lt64-sub64, arith, if◌then◌else◌, Option-cases, Bool-cases,
  inl, inr,
}
use kairos_p2p_engine.Models.{FileManifest}
use kairos_p2p_engine.Badger.{Badger, BadgerLaws, IsReliable}
use kairos_p2p_engine.Database.{delete_key, get_all_data}
use kairos_p2p_engine.Database.Keys.{IsPlain}
use kairos_p2p_engine.Database.Laws.{stored, stored-delete, stored-gc, delete_key_ok}
use kairos_p2p_engine.Database.Laws.Scan.{
  fold_entries, iterate_and_process-get_all_data, get_all_data_lem, get_all_data-IsDistinct,
}
use kairos_p2p_engine.Process.Json.{Json}
use kairos_p2p_engine.Sync.{active_nodes, manifests}
use kairos_p2p_engine.Sync.Align.{active_nodes-IsPlain, manifests-IsPlain}
use kairos_p2p_engine.Cleanup.{
  Clock, chunks, heartbeat_timeout, note_key, delete_keys, sweep, condemned_chunk,
  condemned_manifest, is_unresponsive, clean_node_database, clean_bootstrap_database,
  remove_unresponsive, clean_inactive_nodes,
}

-- Entries are stored under the key that the cleaner would note for them.
abbrev IsKeyed : (Bytes → Option Bytes) → List (Bytes × Bytes) → Type 0
IsKeyed condemned [] = Unit {0}
IsKeyed condemned ((k, v) ∷ m) =
    ((id : Bytes) → condemned v ≡ some id → id ≡ k) × IsKeyed condemned m

IsKeyed-entries :
    (condemned : Bytes → Option Bytes) (m : List (Bytes × Bytes))
    → IsDistinct (keys m)
    → ((k v id : Bytes) → lookup k m ≡ some v → condemned v ≡ some id → id ≡ k)
    → IsKeyed condemned m
IsKeyed-entries condemned [] d h = tt
IsKeyed-entries condemned ((j, v) ∷ m) d h = (
  λ id e. h j v id (rw (eq_refl j) refl) e,
  IsKeyed-entries condemned m d.1
      (λ k w id l e. h k w id (ground (arith, eq_iff j k, d.0, lookup-keys k m)) e),
)

abbrev pub is_condemned : (Bytes → Option Bytes) → Option Bytes → Bool
is_condemned condemned none = false
is_condemned condemned (some v) = is_some (condemned v)

-- The keys that are noted are those of the condemned entries.
elem-noted :
    (condemned : Bytes → Option Bytes) (k : Bytes) (m : List (Bytes × Bytes)) (noted : List Bytes)
    → IsDistinct (keys m)
    → IsKeyed condemned m
    → elem k (fold_entries (note_key condemned) noted m)
      ≡ (elem k noted || is_condemned condemned (lookup k m))
unfolding note_key
elem-noted condemned k [] noted d keyed = ground arith
elem-noted condemned k ((j, v) ∷ m) noted d keyed = elim (Option-cases (condemned v)) [
  | inl e ↦
      rw (e, note_key)
        (elem-noted condemned k m noted d.1 keyed.1
          ∙ ground (arith, eq_iff j k, d.0, lookup-keys k m))
  | inr (id, e) ↦
      let same = keyed.0 id e in
      rw (e, note_key)
        (elem-noted condemned k m (noted ++ (id ∷ [])) d.1 keyed.1
          ∙ ground (arith, elem-append k noted (id ∷ []), eq_iff j k, same, d.0, lookup-keys k m))
]

-- The record of a node, if there is one, is too old.
abbrev pub is_silent : Json → Clock → Option Bytes → Bool
is_silent json clock none = false
is_silent json clock (some v) = is_unresponsive json clock v

condemned_chunk_id :
    (json : Json) (clock : Clock) (find : Bytes → Option FileManifest) (v id : Bytes)
    → condemned_chunk json clock find v ≡ some id
    → id ≡ (json.chunk_request.decode v).0.chunk_id
unfolding condemned_chunk
condemned_chunk_id json clock find v id h = ground arith

condemned_manifest_id :
    (json : Json) (clock : Clock) (v id : Bytes)
    → condemned_manifest json clock v ≡ some id
    → id ≡ (json.file_manifest.decode v).0.file_id
unfolding condemned_manifest
condemned_manifest_id json clock v id h = ground arith

module _ {D : Type 0} {b : Badger D} (laws : BadgerLaws b) (reliable : IsReliable laws) where
  stored-delete_keys :
      (db : D) (p q k : Bytes) (ks : List Bytes)
      → IsPlain p
      → IsPlain q
      → stored laws (delete_keys b db p ks) q k
        ≡ (if (p == q) && elem k ks then none else stored laws db q k)
  unfolding delete_keys
  stored-delete_keys db p q k [] hp hq = ground arith
  stored-delete_keys db p q k (x ∷ ks) hp hq =
      stored-delete_keys (delete_key b db p x).0 p q k ks hp hq
      ∙ ground (arith, stored-delete laws db p q x k hp hq, delete_key_ok laws reliable db p x)

  -- A sweep removes the condemned entries of its prefix, and nothing else.
  pub stored-sweep :
      (gc_fuel : ℕ) (db : D) (p q k : Bytes) (condemned : Bytes → Option Bytes)
      → IsPlain p
      → IsPlain q
      → ((k v id : Bytes) → stored laws db p k ≡ some v → condemned v ≡ some id → id ≡ k)
      → stored laws (sweep b gc_fuel p condemned db) q k ≡ (
          if (p == q) && is_condemned condemned (stored laws db p k)
          then none
          else stored laws db q k)
  unfolding sweep
  stored-sweep gc_fuel db p q k condemned hp hq keyed =
      let entries = (get_all_data b db p).0 in
      let at_key : (j : Bytes) → lookup j entries ≡ stored laws db p j =
        λ j. (get_all_data_lem laws db p j reliable).0 in
      let distinct = get_all_data-IsDistinct laws db p in
      let noted = elem-noted condemned k entries [] distinct (
        IsKeyed-entries condemned entries distinct
          (λ j v id l e. keyed j v id (sym (at_key j) ∙ l) e)) in
      stored-gc laws gc_fuel _ q k
      ∙ rw (iterate_and_process-get_all_data laws (note_key condemned) db p []) (
          stored-delete_keys db p q k (fold_entries (note_key condemned) [] entries) hp hq
          ∙ ground (arith, noted, at_key k))

  remove_unresponsive-stored :
      (json : Json) (clock : Clock) (db : D) (q k : Bytes) (m : List (Bytes × Bytes))
      → IsPlain q
      → IsDistinct (keys m)
      → stored laws (remove_unresponsive b json clock db m) q k ≡ (
          if (active_nodes == q) && is_silent json clock (lookup k m)
          then none
          else stored laws db q k)
  unfolding remove_unresponsive
  remove_unresponsive-stored json clock db q k [] hq d = ground arith
  remove_unresponsive-stored json clock db q k ((j, v) ∷ m) hq d =
      elim (Bool-cases (is_unresponsive json clock v)) [
        | inl e ↦
            rw (e, remove_unresponsive)
              (remove_unresponsive-stored json clock (delete_key b db active_nodes j).0 q k m hq d.1
                ∙ ground (
                  arith,
                  stored-delete laws db active_nodes q j k active_nodes-IsPlain hq,
                  delete_key_ok laws reliable db active_nodes j,
                  eq_iff j k,
                  d.0,
                  lookup-keys k m,
                ))
        | inr e ↦
            rw (e, remove_unresponsive)
              (remove_unresponsive-stored json clock db q k m hq d.1
                ∙ ground (arith, eq_iff j k, d.0, lookup-keys k m))
      ]

  pub stored-clean_inactive_nodes :
      (json : Json) (clock : Clock) (db : D) (q k : Bytes)
      → IsPlain q
      → stored laws (clean_inactive_nodes b json clock db) q k ≡ (
          if (active_nodes == q) && is_silent json clock (stored laws db active_nodes k)
          then none
          else stored laws db q k)
  unfolding clean_inactive_nodes
  stored-clean_inactive_nodes json clock db q k hq =
      let (at_key, fine) = get_all_data_lem laws db active_nodes k reliable in
      rw (fine, clean_inactive_nodes)
        (remove_unresponsive-stored json clock db q k (get_all_data b db active_nodes).0 hq
            (get_all_data-IsDistinct laws db active_nodes)
          ∙ ap
              (λ o.
                if (active_nodes == q) && is_silent json clock o then none else stored laws db q k)
              at_key)

  pub clean_node_database_lem :
      (json : Json) (clock : Clock) (find : Bytes → Option FileManifest) (gc_fuel : ℕ) (db : D)
      (q k : Bytes)
      → IsPlain q
      → ((id value : Bytes)
          → stored laws db chunks id ≡ some value
          → (json.chunk_request.decode value).0.chunk_id ≡ id)
      → stored laws (clean_node_database b json clock find gc_fuel db) q k ≡ (
          if (chunks == q)
            && is_condemned (condemned_chunk json clock find) (stored laws db chunks k)
          then none
          else stored laws db q k)
  unfolding clean_node_database
  clean_node_database_lem json clock find gc_fuel db q k hq keyed =
      stored-sweep gc_fuel db chunks q k (condemned_chunk json clock find) refl hq
        (λ j v id l e. condemned_chunk_id json clock find v id e ∙ keyed j v l)

  pub clean_bootstrap_database_lem :
      (json : Json) (clock : Clock) (gc_fuel : ℕ) (db : D) (q k : Bytes)
      → IsPlain q
      → ((id value : Bytes)
          → stored laws db manifests id ≡ some value
          → (json.file_manifest.decode value).0.file_id ≡ id)
      → stored laws (clean_bootstrap_database b json clock gc_fuel db) q k ≡ (
          if (manifests == q)
            && is_condemned (condemned_manifest json clock) (stored laws db manifests k)
          then none
          else stored laws db q k)
  unfolding clean_bootstrap_database
  clean_bootstrap_database_lem json clock gc_fuel db q k hq keyed =
      stored-sweep gc_fuel db manifests q k (condemned_manifest json clock) manifests-IsPlain hq
        (λ j v id l e. condemned_manifest_id json clock v id e ∙ keyed j v l)

-- A record whose times are ordinary: the monitor waits for two minutes, and no less.
pub is_unresponsive_lem :
    (json : Json) (clock : Clock) (value : Bytes)
    → clock.unix_nano < int64_sign
    → (json.active_node_record.decode value).0.timestamp < int64_sign
    → (json.active_node_record.decode value).1 ≡ true
    → is_unresponsive json clock value
      ≡ ltb ((json.active_node_record.decode value).0.timestamp + heartbeat_timeout) clock.unix_nano
unfolding is_unresponsive
is_unresponsive_lem json clock value hc hv h = rw h (
    lt64-sub64 heartbeat_timeout clock.unix_nano (json.active_node_record.decode value).0.timestamp
      (omega arith) hc hv)
