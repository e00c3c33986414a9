-- ===== src/Database.antt =====
-- internal/database/badger.go: the key-value operations over one BadgerDB. A key is stored as
-- "prefix:key"; the prefixes of the program are "active_nodes", "manifests", "chunks" and
-- "upload_status". Logging is left out.
pub mod Keys
pub mod Laws
use kairos_p2p_engine.Base.{
  ℕ, zero, suc, Bool, true, false, Option, none, some, List, [], ◌∷◌, ◌++◌, Bytes, drop, length,
  strip, insert, Result, ok, err,
}
use kairos_p2p_engine.Badger.{DbError, key_not_found, fault, Badger}

-- fmt.Sprintf("%s:", prefix)
unfoldable pub prefix_bytes : Bytes → Bytes
prefix_bytes prefix = prefix ++ b':' ∷ []

-- fmt.Sprintf("%s:%s", prefix, key)
unfoldable pub make_key : Bytes → Bytes → Bytes
make_key prefix key = prefix ++ b':' ∷ key

module _ {D : Type 0} (b : Badger D) where
  unfoldable pub get_data : D → Bytes → Bytes → Result DbError Bytes
  get_data db prefix key = elim (b.begin db) [
    | some e ↦ err e
    | none ↦ elim (b.txn_get db (make_key prefix key)) [
      | some e ↦ err e
      | none ↦ b.item_value db (make_key prefix key)
    ]
  ]

  unfoldable pub put_data : D → Bytes → Bytes → Bytes → D × Option DbError
  put_data db prefix key value = b.txn_set db (make_key prefix key) value

  unfoldable pub delete_key : D → Bytes → Bytes → D × Option DbError
  delete_key db prefix key = b.txn_delete db (make_key prefix key)

  -- The error of the read transaction's callback: a missing key is no error there.
  abbrev existence : Option DbError → Bool × Option DbError
  existence none = (true, none)
  existence (some key_not_found) = (false, none)
  existence (some (fault e)) = (false, some (fault e))

  unfoldable pub exists_key : D → Bytes → Bytes → Bool × Option DbError
  exists_key db prefix key = elim (b.begin db) [
    | some e ↦ (false, some e)
    | none ↦ existence (b.txn_get db (make_key prefix key))
  ]

  -- The loop of `GetAllData` over the iterator's items.
  pub collect :
      D → Bytes → List Bytes → List (Bytes × Bytes) → List (Bytes × Bytes) × Option DbError
  collect db prefix [] values = (values, none)
  collect db prefix (k ∷ ks) values = elim (b.item_value db k) [
    | err e ↦ (values, some e)
    | ok v ↦ collect db prefix ks (insert (drop (length prefix) k) v values)
  ]

  unfoldable pub get_all_data : D → Bytes → List (Bytes × Bytes) × Option DbError
  get_all_data db prefix = elim (b.begin db) [
    | some e ↦ ([], some e)
    | none ↦ collect db (prefix_bytes prefix) (b.iterate db (prefix_bytes prefix)) []
  ]

  unfoldable pub get_all_keys : D → Bytes → List Bytes × Option DbError
  get_all_keys db prefix = elim (b.begin db) [
    | some e ↦ ([], some e)
    | none ↦ (strip (prefix_bytes prefix) (b.iterate db (prefix_bytes prefix)), none)
  ]

  -- The loop of `IterateAndProcess`; `process` changes the variables that its closure captures.
  pub visit_items {ℓ} :
      {S : Type ℓ} → (S → Bytes → Bytes → S) → D → Bytes → List Bytes → S → S × Option DbError
  visit_items process db prefix [] s = (s, none)
  visit_items process db prefix (k ∷ ks) s = elim (b.item_value db k) [
    | err e ↦ (s, some e)
    | ok v ↦ visit_items process db prefix ks (process s (drop (length prefix) k) v)
  ]

  unfoldable pub iterate_and_process {ℓ} :
      {S : Type ℓ} → D → Bytes → (S → Bytes → Bytes → S) → S → S × Option DbError
  iterate_and_process db prefix process s = elim (b.begin db) [
    | some e ↦ (s, some e)
    | none ↦ visit_items process db (prefix_bytes prefix) (b.iterate db (prefix_bytes prefix)) s
  ]

  -- `for { if db.RunValueLogGC(0.5) != nil { break } }`, on fuel; the flag says that the loop ended.
  unfoldable pub run_value_log_gc : ℕ → D → D × Bool
  run_value_log_gc zero db = (db, false)
  run_value_log_gc (suc fuel) db =
      let (db', e) = b.value_log_gc db in
      elim e [ some _ ↦ (db', true) | none ↦ run_value_log_gc fuel db' ]
