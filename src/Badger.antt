-- ===== src/Badger.antt =====
-- The interface of BadgerDB (github.com/dgraph-io/badger/v4) as internal/database uses it. The
-- store is a parameter of the model: `D` is the state of an open database.
pub mod Memory
use kairos_p2p_engine.Base.{
  ◌≡◌, true, ◌&&◌, Option, none, some, List, Bytes, ◌==◌, elem, IsDistinct, starts_with, Result, ok,
  is_some, succeeded, if◌then◌else◌,
}

-- `ErrKeyNotFound`, and any other error.
pub data DbError : Type 0 where
  key_not_found : DbError
  fault : Bytes → DbError

pub record Badger (D : Type 0) : Type 0 where
  -- the error of opening a read transaction, `db.View`
  pub begin : D → Option DbError
  -- the error of `txn.Get`; no error when the key has an item
  pub txn_get : D → Bytes → Option DbError
  -- what `item.Value` passes to its callback
  pub item_value : D → Bytes → Result DbError Bytes
  -- the keys that an iterator visits from `Seek(prefix)` while `ValidForPrefix(prefix)`
  pub iterate : D → Bytes → List Bytes
  -- `db.Update` of one `txn.Set`, of one `txn.Delete`
  pub txn_set : D → Bytes → Bytes → D × Option DbError
  pub txn_delete : D → Bytes → D × Option DbError
  -- `db.RunValueLogGC(0.5)`, which reports an error when there is nothing to rewrite
  pub value_log_gc : D → D × Option DbError

-- What the store documents: committed values are read back, a failed update changes nothing, an
-- update changes its own key only, an iterator visits each key under the prefix once, and garbage
-- collection leaves the values alone and comes to an end.
pub record BadgerLaws {D : Type 0} (b : Badger D) : Type 0 where
  -- the committed value of a key
  pub value : D → Bytes → Option Bytes
  pub get_found : (d : D) (k : Bytes) → b.txn_get d k ≡ none → is_some (value d k) ≡ true
  pub get_missing : (d : D) (k : Bytes) → b.txn_get d k ≡ some key_not_found → value d k ≡ none
  pub value_read : (d : D) (k v : Bytes) → b.item_value d k ≡ ok v → value d k ≡ some v
  pub value-set :
      (d : D) (k v j : Bytes)
      → value (b.txn_set d k v).0 j
        ≡ (if succeeded (b.txn_set d k v).1 && (k == j) then some v else value d j)
  pub value-delete :
      (d : D) (k j : Bytes)
      → value (b.txn_delete d k).0 j
        ≡ (if succeeded (b.txn_delete d k).1 && (k == j) then none else value d j)
  pub elem-iterate :
      (d : D) (p k : Bytes) → elem k (b.iterate d p) ≡ (starts_with p k && is_some (value d k))
  pub iterate-IsDistinct : (d : D) (p : Bytes) → IsDistinct (b.iterate d p)
  pub value-gc : (d : D) (j : Bytes) → value (b.value_log_gc d).0 j ≡ value d j

-- A store on which no call fails: reads find what is committed, and updates are committed.
pub record IsReliable {D : Type 0} {b : Badger D} (laws : BadgerLaws b) : Type 0 where
  pub begins : (d : D) → b.begin d ≡ none
  pub gets :
      (d : D) (k : Bytes)
      → b.txn_get d k ≡ (if is_some (laws.value d k) then none else some key_not_found)
  pub reads : (d : D) (k v : Bytes) → laws.value d k ≡ some v → b.item_value d k ≡ ok v
  pub sets : (d : D) (k v : Bytes) → (b.txn_set d k v).1 ≡ none
  pub deletes : (d : D) (k : Bytes) → (b.txn_delete d k).1 ≡ none
