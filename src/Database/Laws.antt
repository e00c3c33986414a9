-- ===== src/Database/Laws.antt =====
-- What the operations of internal/database/badger.go do to the entries of a prefix.
pub mod Scan
use kairos_p2p_engine.Base.{
  ℕ, zero, suc, ◌<◌, ◌≡◌, refl, ◌∙◌, Bool, true, ◌&&◌, Option, none, some, Bytes, ◌==◌, Result, ok,
  err, or_fail, is_some, succeeded, if◌then◌else◌, arith, Option-cases, inl, inr,
}
use kairos_p2p_engine.Badger.{DbError, key_not_found, fault, Badger, BadgerLaws, IsReliable}
use kairos_p2p_engine.Database.{
  make_key, get_data, put_data, delete_key, exists_key, run_value_log_gc,
}
use kairos_p2p_engine.Database.Keys.{IsPlain, make_key-eq}

module _ {D : Type 0} {b : Badger D} (laws : BadgerLaws b) where
  -- The committed value of a key under a prefix.
  abbrev pub stored : D → Bytes → Bytes → Option Bytes
  stored db prefix key = laws.value db (make_key prefix key)

  -- For prefixes without a colon: a write that reports no error stores the value; a failed one
  -- changes nothing. No other key, of this prefix or of another, is touched.
  pub stored-put :
      (db : D) (p q k j v : Bytes)
      → IsPlain p
      → IsPlain q
      → stored (put_data b db p k v).0 q j ≡ (
          if succeeded (put_data b db p k v).1 && ((p == q) && (k == j))
          then some v
          else stored db q j)
  unfolding put_data
  stored-put db p q k j v hp hq =
      ground (arith, laws.value-set db (make_key p k) v (make_key q j), make_key-eq p q k j hp hq)

  -- For prefixes without a colon: a deletion that reports no error removes the value; a failed one
  -- changes nothing. No other key, of this prefix or of another, is touched.
  pub stored-delete :
      (db : D) (p q k j : Bytes)
      → IsPlain p
      → IsPlain q
      → stored (delete_key b db p k).0 q j ≡ (
          if succeeded (delete_key b db p k).1 && ((p == q) && (k == j))
          then none
          else stored db q j)
  unfolding delete_key
  stored-delete db p q k j hp hq =
      ground (arith, laws.value-delete db (make_key p k) (make_key q j), make_key-eq p q k j hp hq)

  -- Whatever fails, a value that is returned is the stored one.
  pub get_data_sound : (db : D) (p k v : Bytes) → get_data b db p k ≡ ok v → stored db p k ≡ some v
  unfolding get_data
  get_data_sound db p k v h = ground (arith, laws.value_read db (make_key p k) v)

  -- Whatever fails, an existence test that answers without an error answers right.
  pub exists_key_sound :
      (db : D) (p k : Bytes)
      → (exists_key b db p k).1 ≡ none
      → (exists_key b db p k).0 ≡ is_some (stored db p k)
  unfolding exists_key
  exists_key_sound db p k h =
      ground (arith, laws.get_found db (make_key p k), laws.get_missing db (make_key p k))

  -- Garbage collection of the value log leaves every entry alone.
  pub stored-gc :
      (fuel : ℕ) (db : D) (p k : Bytes) → stored (run_value_log_gc b fuel db).0 p k ≡ stored db p k
  unfolding run_value_log_gc
  stored-gc zero db p k = refl
  stored-gc (suc fuel) db p k =
      ground (arith, stored-gc fuel (b.value_log_gc db).0 p k, laws.value-gc db (make_key p k))

  module _ (reliable : IsReliable laws) where
    pub get_data_lem :
        (db : D) (p k : Bytes) → get_data b db p k ≡ or_fail (stored db p k) key_not_found
    unfolding get_data
    get_data_lem db p k = elim (Option-cases (stored db p k)) [
      | inl e ↦ ground (arith, reliable.begins db, reliable.gets db (make_key p k))
      | inr (v, e) ↦ ground (
        arith,
        reliable.begins db,
        reliable.gets db (make_key p k),
        reliable.reads db (make_key p k) v e,
      )
    ]

    pub exists_key_lem :
        (db : D) (p k : Bytes) → exists_key b db p k ≡ (is_some (stored db p k), none)
    unfolding exists_key
    exists_key_lem db p k = ground (arith, reliable.begins db, reliable.gets db (make_key p k))

    pub put_data_ok : (db : D) (p k v : Bytes) → (put_data b db p k v).1 ≡ none
    unfolding put_data
    put_data_ok db p k v = reliable.sets db (make_key p k) v

    pub delete_key_ok : (db : D) (p k : Bytes) → (delete_key b db p k).1 ≡ none
    unfolding delete_key
    delete_key_ok db p k = reliable.deletes db (make_key p k)

-- With more fuel than there is garbage the collection loop ends by its `break`, provided that a
-- rewrite that succeeds leaves less garbage.
pub run_value_log_gc-ends :
    {D : Type 0} (b : Badger D) (garbage : D → ℕ)
    → ((db : D) → (b.value_log_gc db).1 ≡ none → garbage (b.value_log_gc db).0 < garbage db)
    → (fuel : ℕ) (db : D) → garbage db < fuel
    → (run_value_log_gc b fuel db).1 ≡ true
unfolding run_value_log_gc
run_value_log_gc-ends b garbage less zero db h = elim h [ ]
run_value_log_gc-ends b garbage less (suc fuel) db h = elim (Option-cases (b.value_log_gc db).1) [
  | inl e ↦
      ground (arith, less db e, run_value_log_gc-ends b garbage less fuel (b.value_log_gc db).0)
  | inr (x, e) ↦ ground arith
]
