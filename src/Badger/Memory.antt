-- ===== src/Badger/Memory.antt =====
-- An in-memory store that meets the interface: an association list, on which no call fails. It
-- stands for BadgerDB in the examples.
use kairos_p2p_engine.Base.{
  ◌≡◌, refl, true, not, ◌&&◌, Option, none, some, List, [], ◌∷◌, Bytes, ◌==◌, eq_iff, elem,
  IsDistinct, starts_with, ok, or_fail, is_some, lookup, insert, keys, lookup-insert, lookup-keys,
  if◌then◌else◌, arith,
}
use kairos_p2p_engine.Badger.{DbError, key_not_found, fault, Badger, BadgerLaws, IsReliable}

abbrev pub Memory : Type 0
Memory = List (Bytes × Bytes)

abbrev erase : Bytes → Memory → Memory
erase k [] = []
erase k ((j, v) ∷ m) = let rest = erase k m in if j == k then rest else (j, v) ∷ rest

-- The keys under a prefix, each once.
abbrev visit : Bytes → Memory → List Bytes
visit p [] = []
visit p ((k, v) ∷ m) =
    let rest = visit p m in if starts_with p k && not (elem k (keys m)) then k ∷ rest else rest

pub lookup-erase :
    (k j : Bytes) (m : Memory) → lookup j (erase k m) ≡ (if k == j then none else lookup j m)
lookup-erase k j [] = ground arith
lookup-erase k j ((i, v) ∷ m) =
    ground (arith, eq_iff i k, eq_iff i j, eq_iff k j, lookup-erase k j m)

elem-visit : (p k : Bytes) (m : Memory) → elem k (visit p m) ≡ (starts_with p k && elem k (keys m))
elem-visit p k [] = ground arith
elem-visit p k ((j, v) ∷ m) = ground (arith, eq_iff j k, elem-visit p k m)

pub visit-IsDistinct : (p : Bytes) (m : Memory) → IsDistinct (visit p m)
visit-IsDistinct p [] = tt
visit-IsDistinct p ((k, v) ∷ m) = ground (arith, visit-IsDistinct p m, elem-visit p k m)

abbrev pub memory : Badger Memory
memory = record {
  begin = λ d. none;
  txn_get = λ d k. if is_some (lookup k d) then none else some key_not_found;
  item_value = λ d k. or_fail (lookup k d) key_not_found;
  iterate = λ d p. visit p d;
  txn_set = λ d k v. (insert k v d, none);
  txn_delete = λ d k. (erase k d, none);
  value_log_gc = λ d. (d, some (fault []));
}

pub found :
    (o : Option Bytes)
    → ◌≡◌ {A = Option DbError} (if is_some o then none else some key_not_found) none
    → is_some o ≡ true
found o h = ground arith

pub missing :
    (o : Option Bytes)
    → ◌≡◌ {A = Option DbError} (if is_some o then none else some key_not_found) (some key_not_found)
    → o ≡ none
missing o h = ground arith

pub read : (o : Option Bytes) (v : Bytes) → or_fail o key_not_found ≡ ok v → o ≡ some v
read o v h = ground arith

pub elem_visited :
    (d : Memory) (p k : Bytes) → elem k (visit p d) ≡ (starts_with p k && is_some (lookup k d))
elem_visited d p k = ground (arith, elem-visit p k d, lookup-keys k d)

abbrev pub memory_laws : BadgerLaws memory
memory_laws = record {
  value = λ d k. lookup k d;
  get_found = λ d k. found (lookup k d);
  get_missing = λ d k. missing (lookup k d);
  value_read = λ d k. read (lookup k d);
  value-set = λ d k v j. lookup-insert k j v d;
  value-delete = λ d k j. lookup-erase k j d;
  elem-iterate = λ d p k. elem_visited d p k;
  iterate-IsDistinct = λ d p. visit-IsDistinct p d;
  value-gc = λ d j. refl;
}

pub memory-IsReliable : IsReliable memory_laws
memory-IsReliable = record {
  begins = λ d. refl;
  gets = λ d k. refl;
  reads = λ d k v e. ground arith;
  sets = λ d k v. refl;
  deletes = λ d k. refl;
}
