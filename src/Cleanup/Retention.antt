-- ===== src/Cleanup/Retention.antt =====
-- What the cleaners of internal/service/clean_database.go have to remove, with the ages written out
-- in nanoseconds and in seconds, beside what their ticks do.
use kairos_p2p_engine.Base.{
  inr, inl, sub64, int64_sign, lt64, Option-cases, ◌<◌, ltb, ◌+◌, ◌&&◌, ◌||◌, not, is_some, ◌==◌,
  if◌then◌else◌, int64_mod, ℕ, ◌≡◌, refl, ap, ◌∙◌, Bool, false, Option, none, some, Bytes, arith,
}
use kairos_p2p_engine.Models.{FileManifest}
use kairos_p2p_engine.Badger.{Badger, BadgerLaws, IsReliable}
use kairos_p2p_engine.Database.Keys.{IsPlain}
use kairos_p2p_engine.Database.Laws.{stored}
use kairos_p2p_engine.Process.Json.{Json}
use kairos_p2p_engine.Sync.{manifests}
use kairos_p2p_engine.Cleanup.{
  Clock, chunks, is_expired, is_old, condemned_chunk, condemned_manifest, clean_node_database,
  clean_bootstrap_database,
}
use kairos_p2p_engine.Cleanup.Sweep.{
  is_condemned, clean_node_database_lem, clean_bootstrap_database_lem,
}

-- 604 800 seconds, which are seven days, have passed since a time.
abbrev is_week_past : ℕ → Option ℕ → Bool
is_week_past now none = false
is_week_past now (some time) = ltb (time + 604_800_000_000_000) now

-- A time that is given, and two hours have passed since.
abbrev pub is_two_hours_past : ℕ → ℕ → Bool
is_two_hours_past now created_at = ltb 0 created_at && ltb (created_at + 7200) now

module _ (json : Json) (clock : Clock) where
  -- The stored chunk, if any, can be read; its release date is a week past, or it was made two
  -- hours ago and its file has no manifest.
  abbrev pub has_no_use : (Bytes → Option FileManifest) → Option Bytes → Bool
  has_no_use find none = false
  has_no_use find (some value) =
      let (chunk, is_chunk) = json.chunk_request.decode value in
      is_chunk
      && (is_week_past clock.now (clock.parse_rfc3339 chunk.release_date)
          || (is_two_hours_past clock.unix chunk.created_at && not (is_some (find chunk.file_id))))

  -- The stored manifest, if any, can be read, and its release date is a week past.
  abbrev pub has_run_out : Option Bytes → Bool
  has_run_out none = false
  has_run_out (some value) =
      let (manifest, is_manifest) = json.file_manifest.decode value in
      is_manifest && is_week_past clock.now (clock.parse_rfc3339 manifest.release_date)

is_expired_lem :
    (clock : Clock) (date : Bytes)
    → is_expired clock date ≡ is_week_past clock.now (clock.parse_rfc3339 date)
unfolding is_expired
is_expired_lem clock date = elim (Option-cases (clock.parse_rfc3339 date)) [
  | inl e ↦ rw (e, is_expired) refl
  | inr (time, e) ↦ rw (e, is_expired) refl
]

is_old_lem :
    (clock : Clock) (created_at : ℕ)
    → clock.unix < int64_sign
    → created_at < int64_mod
    → is_old clock created_at ≡ is_two_hours_past clock.unix created_at
unfolding is_old lt64 sub64
is_old_lem clock created_at now made = ground arith

condemned_chunk_lem :
    (json : Json) (clock : Clock) (find : Bytes → Option FileManifest)
    → clock.unix < int64_sign
    → (value : Option Bytes)
    → ((v : Bytes) → value ≡ some v → (json.chunk_request.decode v).0.created_at < int64_mod)
    → is_condemned (condemned_chunk json clock find) value ≡ has_no_use json clock find value
unfolding condemned_chunk
condemned_chunk_lem json clock find now none made = refl
condemned_chunk_lem json clock find now (some value) made =
    let chunk = (json.chunk_request.decode value).0 in
    rw
      (
        condemned_chunk,
        is_expired_lem clock chunk.release_date,
        is_old_lem clock chunk.created_at now (made value refl),
      )
      (ground arith)

condemned_manifest_lem :
    (json : Json) (clock : Clock) (value : Option Bytes)
    → is_condemned (condemned_manifest json clock) value ≡ has_run_out json clock value
unfolding condemned_manifest
condemned_manifest_lem json clock none = refl
condemned_manifest_lem json clock (some value) =
    let manifest = (json.file_manifest.decode value).0 in
    rw (condemned_manifest, is_expired_lem clock manifest.release_date) (ground arith)

module _ {D : Type 0} {b : Badger D} (laws : BadgerLaws b) (reliable : IsReliable laws) where
  -- On a store that does not fail and whose chunks are stored under their identifiers, for a clock
  -- that reads no negative time and an entry with a time of creation of 64 bits: a tick of the node's
  -- cleaner removes exactly the chunks that can be read and whose release date is more than 7 * 24
  -- * 3600 seconds past, or whose time of creation is positive and more than 7200 seconds past while
  -- no manifest is found for their file. The other entries stay.
  pub stored-clean_node_database :
      (json : Json) (clock : Clock) (find : Bytes → Option FileManifest) (gc_fuel : ℕ) (db : D)
      (q k : Bytes)
      → clock.unix < int64_sign
      → ((value : Bytes)
          → stored laws db chunks k ≡ some value
          → (json.chunk_request.decode value).0.created_at < int64_mod)
      → IsPlain q
      → ((id value : Bytes)
          → stored laws db chunks id ≡ some value
          → (json.chunk_request.decode value).0.chunk_id ≡ id)
      → stored laws (clean_node_database b json clock find gc_fuel db) q k ≡ (
          if (chunks == q) && has_no_use json clock find (stored laws db chunks k)
          then none
          else stored laws db q k)
  stored-clean_node_database json clock find gc_fuel db q k now made hq keyed =
      clean_node_database_lem laws reliable json clock find gc_fuel db q k hq keyed
      ∙ ap (λ c. if (chunks == q) && c then none else stored laws db q k)
          (condemned_chunk_lem json clock find now (stored laws db chunks k) made)

  -- On a store that does not fail and whose manifests are stored under their identifiers: a tick
  -- of the bootstrap server's cleaner removes exactly the manifests that can be read and whose
  -- release date is more than 7 * 24 * 3600 seconds past. The other entries stay.
  pub stored-clean_bootstrap_database :
      (json : Json) (clock : Clock) (gc_fuel : ℕ) (db : D) (q k : Bytes)
      → IsPlain q
      → ((id value : Bytes)
          → stored laws db manifests id ≡ some value
          → (json.file_manifest.decode value).0.file_id ≡ id)
      → stored laws (clean_bootstrap_database b json clock gc_fuel db) q k ≡ (
          if (manifests == q) && has_run_out json clock (stored laws db manifests k)
          then none
          else stored laws db q k)
  stored-clean_bootstrap_database json clock gc_fuel db q k hq keyed =
      clean_bootstrap_database_lem laws reliable json clock gc_fuel db q k hq keyed
      ∙ ap (λ c. if (manifests == q) && c then none else stored laws db q k)
          (condemned_manifest_lem json clock (stored laws db manifests k))
