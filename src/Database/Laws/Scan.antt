-- ===== src/Database/Laws/Scan.antt =====
-- The three loops over a prefix: `GetAllKeys`, `GetAllData` and `IterateAndProcess`.
use kairos_p2p_engine.Base.{
  ◌≡◌, refl, ap, ◌∙◌, true, false, none, List, [], ◌∷◌, ◌++◌, Bytes, ◌==◌, eq_refl, eq_iff, elem,
  IsDistinct, starts_with, starts_with-append, strip, elem-strip, strip-IsDistinct, drop-eq, drop,
  length, is_some, insert, lookup, keys, lookup-insert, elem-keys-insert, insert-IsDistinct,
  if◌then◌else◌, arith, Option-cases, Result-cases, Bool-cases, inl, inr,
}
use kairos_p2p_engine.Badger.{Badger, BadgerLaws, IsReliable}
use kairos_p2p_engine.Database.{
  prefix_bytes, collect, get_all_data, get_all_keys, visit_items, iterate_and_process,
}
use kairos_p2p_engine.Database.Keys.{prefix_bytes-append}
use kairos_p2p_engine.Database.Laws.{stored}

-- A callback run over the entries of a map.
abbrev pub fold_entries {ℓ} : {S : Type ℓ} → (S → Bytes → Bytes → S) → S → List (Bytes × Bytes) → S
fold_entries f s [] = s
fold_entries f s ((k, v) ∷ m) = fold_entries f (f s k v) m

-- An insertion of a new key goes to the end.
fold_entries-insert {ℓ} :
    {S : Type ℓ} (f : S → Bytes → Bytes → S) (s : S) (k v : Bytes) (m : List (Bytes × Bytes))
    → elem k (keys m) ≡ false
    → fold_entries f s (insert k v m) ≡ f (fold_entries f s m) k v
fold_entries-insert f s k v [] h = refl
fold_entries-insert f s k v ((j, w) ∷ m) h = elim (Bool-cases (j == k)) [
  | inl e ↦ absurd (ground arith)
  | inr e ↦ rw e (fold_entries-insert f (f s j w) k v m (ground arith))
]

module _ {D : Type 0} {b : Badger D} (laws : BadgerLaws b) where
  -- Every key that the iterator visits has the prefix.
  visited_prefix :
      (db : D) (p x : Bytes)
      → elem x (b.iterate db (prefix_bytes p)) ≡ true
      → starts_with (prefix_bytes p) x ≡ true
  visited_prefix db p x h = ground (arith, laws.elem-iterate db (prefix_bytes p) x)

  -- When the read transaction opens, the keys of a prefix are those that hold a value.
  pub elem-get_all_keys :
      (db : D) (p k : Bytes)
      → b.begin db ≡ none
      → elem k (get_all_keys b db p).0 ≡ is_some (stored laws db p k)
  unfolding get_all_keys
  elem-get_all_keys db p k h =
      rw (h, get_all_keys)
        (elem-strip (prefix_bytes p) k (b.iterate db (prefix_bytes p)) (visited_prefix db p)
          ∙ laws.elem-iterate db (prefix_bytes p) (prefix_bytes p ++ k)
          ∙ rw (starts_with-append (prefix_bytes p) k)
              (ap (λ t. is_some (laws.value db t)) (prefix_bytes-append p k)))

  -- No key is listed twice.
  pub get_all_keys-IsDistinct : (db : D) (p : Bytes) → IsDistinct (get_all_keys b db p).0
  unfolding get_all_keys
  get_all_keys-IsDistinct db p = elim (Option-cases (b.begin db)) [
    | inl h ↦
        rw (h, get_all_keys)
          (strip-IsDistinct (prefix_bytes p) (b.iterate db (prefix_bytes p)) (visited_prefix db p)
            (laws.iterate-IsDistinct db (prefix_bytes p)))
    | inr (e, h) ↦ rw (h, get_all_keys) tt
  ]

  -- The two loops agree on any list of keys that are new to the map and listed once.
  visit_items-collect {ℓ} :
      {S : Type ℓ} (f : S → Bytes → Bytes → S) (db : D) (p : Bytes) (ks : List Bytes) (s : S)
      (m : List (Bytes × Bytes))
      → IsDistinct (strip p ks)
      → ((x : Bytes) → elem x (strip p ks) ≡ true → elem x (keys m) ≡ false)
      → visit_items b f db p ks (fold_entries f s m)
        ≡ (fold_entries f s (collect b db p ks m).0, (collect b db p ks m).1)
  unfolding visit_items collect
  visit_items-collect f db p [] s m d new = refl
  visit_items-collect f db p (k ∷ ks) s m d new = elim (Result-cases (b.item_value db k)) [
    | inl (e, h) ↦ rw (h, visit_items, collect) refl
    | inr (v, h) ↦
        let x = drop (length p) k in
        let new' : (y : Bytes) → elem y (strip p ks) ≡ true → elem y (keys (insert x v m)) ≡ false =
          λ y i. ground (arith, elem-keys-insert y x v m, eq_iff x y, d.0, new y) in
        rw (h, visit_items, collect)
          (rw (← fold_entries-insert f s x v m (new x (rw (eq_refl x) refl)))
            (visit_items-collect f db p ks s (insert x v m) d.1 new'))
  ]

  -- `IterateAndProcess` runs its callback over the entries that `GetAllData` collects, in the same
  -- order, and ends with the same error, whatever fails on the way.
  pub iterate_and_process-get_all_data {ℓ} :
      {S : Type ℓ} (f : S → Bytes → Bytes → S) (db : D) (p : Bytes) (s : S)
      → iterate_and_process b db p f s
        ≡ (fold_entries f s (get_all_data b db p).0, (get_all_data b db p).1)
  unfolding iterate_and_process get_all_data
  iterate_and_process-get_all_data f db p s = elim (Option-cases (b.begin db)) [
    | inl h ↦
        rw (h, iterate_and_process, get_all_data)
          (visit_items-collect f db (prefix_bytes p) (b.iterate db (prefix_bytes p)) s []
            (strip-IsDistinct (prefix_bytes p) (b.iterate db (prefix_bytes p)) (visited_prefix db p)
              (laws.iterate-IsDistinct db (prefix_bytes p)))
            (λ x _. refl))
    | inr (e, h) ↦ rw (h, iterate_and_process, get_all_data) refl
  ]

  -- The map that the loop builds has, for each key under the prefix, the value that was read.
  collect_lem :
      (db : D) (p k : Bytes) (ks : List Bytes) (m : List (Bytes × Bytes))
      → IsReliable laws
      → ((x : Bytes) → elem x ks ≡ true → starts_with p x ≡ true)
      → ((x : Bytes) → elem x ks ≡ true → is_some (laws.value db x) ≡ true)
      → (lookup k (collect b db p ks m).0
          ≡ (if elem (p ++ k) ks then laws.value db (p ++ k) else lookup k m))
        × ((collect b db p ks m).1 ≡ none)
  unfolding collect
  collect_lem db p k [] m rel under live = (refl, refl)
  collect_lem db p k (x ∷ ks) m rel under live = elim (Option-cases (laws.value db x)) [
    | inl h ↦ absurd (ground (arith, live x, eq_refl x))
    | inr (v, h) ↦
        let ih =
          collect_lem db p k ks (insert (drop (length p) x) v m) rel (λ y i. under y (ground arith))
            (λ y i. live y (ground arith)) in
        rw (rel.reads db x v h, collect)
          (ground (
            arith,
            ih,
            lookup-insert (drop (length p) x) k v m,
            drop-eq p x k (under x (rw (eq_refl x) refl)),
            eq_iff x (p ++ k),
          ))
  ]

  -- On a store on which no read fails, `GetAllData` returns the entries of the prefix: each key
  -- has its stored value, and a key that is not stored has none.
  pub get_all_data_lem :
      (db : D) (p k : Bytes)
      → IsReliable laws
      → (lookup k (get_all_data b db p).0 ≡ stored laws db p k) × ((get_all_data b db p).1 ≡ none)
  unfolding get_all_data
  get_all_data_lem db p k rel =
      let ks = b.iterate db (prefix_bytes p) in
      let live : (x : Bytes) → elem x ks ≡ true → is_some (laws.value db x) ≡ true =
        λ x i. ground (arith, laws.elem-iterate db (prefix_bytes p) x) in
      let all = collect_lem db (prefix_bytes p) k ks [] rel (visited_prefix db p) live in
      rw (rel.begins db, get_all_data)
        (ground (
          arith,
          all,
          prefix_bytes-append p k,
          laws.elem-iterate db (prefix_bytes p) (prefix_bytes p ++ k),
          starts_with-append (prefix_bytes p) k,
        ))

  collect-IsDistinct :
      (db : D) (p : Bytes) (ks : List Bytes) (m : List (Bytes × Bytes))
      → IsDistinct (keys m)
      → IsDistinct (keys (collect b db p ks m).0)
  unfolding collect
  collect-IsDistinct db p [] m d = d
  collect-IsDistinct db p (x ∷ ks) m d = elim (Result-cases (b.item_value db x)) [
    | inl (e, h) ↦ rw (h, collect) d
    | inr (v, h) ↦
        rw (h, collect)
          (collect-IsDistinct db p ks (insert (drop (length p) x) v m)
            (insert-IsDistinct (drop (length p) x) v m d))
  ]

  pub get_all_data-IsDistinct : (db : D) (p : Bytes) → IsDistinct (keys (get_all_data b db p).0)
  unfolding get_all_data
  get_all_data-IsDistinct db p = elim (Option-cases (b.begin db)) [
    | inl h ↦
        rw (h, get_all_data)
          (collect-IsDistinct db (prefix_bytes p) (b.iterate db (prefix_bytes p)) [] tt)
    | inr (e, h) ↦ rw (h, get_all_data) tt
  ]
