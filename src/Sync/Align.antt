-- ===== src/Sync/Align.antt =====
-- `ProcessAlignment` and the reading of entries for a peer.
use kairos_p2p_engine.Base.{
  ◌≡◌, refl, ◌∙◌, ap, insert-IsDistinct, false, Option, none, some, List, [], ◌∷◌, Bytes, ◌==◌,
  eq_iff, elem, IsDistinct, insert, lookup, lookup-insert, lookup-keys, keys, arith, if◌then◌else◌,
  Option-cases, inl, inr, Result-cases,
}
use kairos_p2p_engine.Badger.{Badger, BadgerLaws, IsReliable}
use kairos_p2p_engine.Database.{get_data, put_data}
use kairos_p2p_engine.Database.Keys.{IsPlain}
use kairos_p2p_engine.Database.Laws.{
  stored, stored-put, exists_key_sound, get_data_lem, exists_key_lem, put_data_ok,
}
use kairos_p2p_engine.Sync.{
  active_nodes, manifests, read_entries, align_nodes, align_manifest, align_manifests,
  process_alignment,
}

-- The first value, or else the second.
abbrev pub or_else {ℓ} : {A : Type ℓ} → Option A → Option A → Option A
or_else none p = p
or_else (some a) p = some a

pub active_nodes-IsPlain : IsPlain active_nodes
active_nodes-IsPlain = refl

pub manifests-IsPlain : IsPlain manifests
manifests-IsPlain = refl

module _ {D : Type 0} {b : Badger D} (laws : BadgerLaws b) where
  -- Whatever fails, no manifest that is stored is changed.
  align_manifest-keeps :
      (db : D) (k j v w : Bytes)
      → stored laws db manifests j ≡ some w
      → stored laws (align_manifest b db k v) manifests j ≡ some w
  unfolding align_manifest
  align_manifest-keeps db k j v w h = ground (
    arith,
    exists_key_sound laws db manifests k,
    stored-put laws db manifests manifests k j v manifests-IsPlain manifests-IsPlain,
    eq_iff k j,
  )

  pub align_nodes-other :
      (db : D) (m : List (Bytes × Bytes)) (q k : Bytes)
      → IsPlain q
      → (active_nodes == q) ≡ false
      → stored laws (align_nodes b db m) q k ≡ stored laws db q k
  unfolding align_nodes
  align_nodes-other db [] q k plain ne = refl
  align_nodes-other db ((j, v) ∷ m) q k plain ne =
      align_nodes-other (put_data b db active_nodes j v).0 m q k plain ne
      ∙ stored-put laws db active_nodes q j k v active_nodes-IsPlain plain
      ∙ ground arith

  align_manifests-keeps :
      (db : D) (m : List (Bytes × Bytes)) (j w : Bytes)
      → stored laws db manifests j ≡ some w
      → stored laws (align_manifests b db m) manifests j ≡ some w
  unfolding align_manifests
  align_manifests-keeps db [] j w h = h
  align_manifests-keeps db ((k, v) ∷ m) j w h =
      align_manifests-keeps (align_manifest b db k v) m j w (align_manifest-keeps db k j v w h)

  -- Whatever the peer sends and whatever fails on the way, a manifest that is stored keeps its
  -- value.
  pub process_alignment-keeps_manifests :
      (db : D) (nodes files : List (Bytes × Bytes)) (k w : Bytes)
      → stored laws db manifests k ≡ some w
      → stored laws (process_alignment b db nodes files) manifests k ≡ some w
  unfolding process_alignment
  process_alignment-keeps_manifests db nodes files k w h =
      align_manifests-keeps (align_nodes b db nodes) files k w
        (align_nodes-other db nodes manifests k manifests-IsPlain refl ∙ h)

  module _ (reliable : IsReliable laws) where
    align_nodes-stored :
        (db : D) (m : List (Bytes × Bytes)) (k : Bytes)
        → IsDistinct (keys m)
        → stored laws (align_nodes b db m) active_nodes k
          ≡ or_else (lookup k m) (stored laws db active_nodes k)
    unfolding align_nodes
    align_nodes-stored db [] k d = refl
    align_nodes-stored db ((j, v) ∷ m) k d =
        align_nodes-stored (put_data b db active_nodes j v).0 m k d.1
        ∙ ground (
          arith,
          stored-put laws db active_nodes active_nodes j k v active_nodes-IsPlain
              active_nodes-IsPlain,
          put_data_ok laws reliable db active_nodes j v,
          eq_iff j k,
          d.0,
          lookup-keys k m,
        )

    align_manifest-stored :
        (db : D) (j k v : Bytes)
        → stored laws (align_manifest b db j v) manifests k
          ≡ or_else (stored laws db manifests k) (if j == k then some v else none)
    unfolding align_manifest
    align_manifest-stored db j k v = ground (
      arith,
      exists_key_lem laws reliable db manifests j,
      stored-put laws db manifests manifests j k v manifests-IsPlain manifests-IsPlain,
      put_data_ok laws reliable db manifests j v,
      eq_iff j k,
    )

    align_manifests-stored :
        (db : D) (m : List (Bytes × Bytes)) (k : Bytes)
        → stored laws (align_manifests b db m) manifests k
          ≡ or_else (stored laws db manifests k) (lookup k m)
    unfolding align_manifests
    align_manifests-stored db [] k = ground arith
    align_manifests-stored db ((j, v) ∷ m) k =
        align_manifests-stored (align_manifest b db j v) m k
        ∙ ground (arith, align_manifest-stored db j k v)

    align_manifests-other :
        (db : D) (m : List (Bytes × Bytes)) (q k : Bytes)
        → IsPlain q
        → (manifests == q) ≡ false
        → stored laws (align_manifests b db m) q k ≡ stored laws db q k
    unfolding align_manifests align_manifest
    align_manifests-other db [] q k plain ne = refl
    align_manifests-other db ((j, v) ∷ m) q k plain ne =
        align_manifests-other (align_manifest b db j v) m q k plain ne
        ∙ ground (arith, stored-put laws db manifests q j k v manifests-IsPlain plain)

    -- On a store on which no call fails, and for a payload that has each node once: the nodes of
    -- the payload replace the stored ones, and its manifests are added where there is none.
    pub process_alignment_lem :
        (db : D) (nodes files : List (Bytes × Bytes)) (k : Bytes)
        → IsDistinct (keys nodes)
        → (stored laws (process_alignment b db nodes files) active_nodes k
            ≡ or_else (lookup k nodes) (stored laws db active_nodes k))
          × (stored laws (process_alignment b db nodes files) manifests k
              ≡ or_else (stored laws db manifests k) (lookup k files))
    unfolding process_alignment
    process_alignment_lem db nodes files k d = (
      align_manifests-other (align_nodes b db nodes) files active_nodes k active_nodes-IsPlain refl
          ∙ align_nodes-stored db nodes k d,
      align_manifests-stored (align_nodes b db nodes) files k
          ∙ ap (λ t. or_else t (lookup k files))
              (align_nodes-other db nodes manifests k manifests-IsPlain refl),
    )

    -- The entries that are read for the peer: the stored values of the keys that it lacks.
    pub read_entries_lem :
        (db : D) (p k : Bytes) (ks : List Bytes) (m : List (Bytes × Bytes))
        → lookup k (read_entries b db p ks m)
          ≡ (if elem k ks then or_else (stored laws db p k) (lookup k m) else lookup k m)
    unfolding read_entries
    read_entries_lem db p k [] m = refl
    read_entries_lem db p k (x ∷ ks) m = elim (Option-cases (stored laws db p x)) [
      | inl e ↦
          rw (get_data_lem laws reliable db p x, e)
            (read_entries_lem db p k ks m ∙ ground (arith, eq_iff x k))
      | inr (v, e) ↦
          rw (get_data_lem laws reliable db p x, e)
            (read_entries_lem db p k ks (insert x v m)
              ∙ ground (arith, eq_iff x k, lookup-insert x k v m))
    ]

-- A map that is built by assignments has each key once.
pub read_entries-IsDistinct :
    {D : Type 0} (b : Badger D) (db : D) (p : Bytes) (ks : List Bytes) (m : List (Bytes × Bytes))
    → IsDistinct (keys m)
    → IsDistinct (keys (read_entries b db p ks m))
unfolding read_entries
read_entries-IsDistinct b db p [] m d = d
read_entries-IsDistinct b db p (x ∷ ks) m d = elim (Result-cases (get_data b db p x)) [
  | inl (e, h) ↦ rw h (read_entries-IsDistinct b db p ks m d)
  | inr (v, h) ↦ rw h (read_entries-IsDistinct b db p ks (insert x v m) (insert-IsDistinct x v m d))
]
