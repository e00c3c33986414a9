-- ===== src/Base/Maps.antt =====
-- Go's maps as association lists, the newest value of a key in its place. A `range` over a map
-- visits the entries in the order of the list; Go promises no order, so a theorem about such a
-- loop holds for every order when it holds for every list.
use Prim.Native.Nat.{ℕ}
use mathlib.Core.Path.{◌≡◌, refl}
use mathlib.Core.Bool.{◌||◌}
use mathlib.Core.List.{List, [], ◌∷◌}
use mathlib.Core.Option.{Option, none, some}
use native.Mathlib.Omega.{arith}
use kairos_p2p_engine.Base.Tests.{nat_eq, if◌then◌else◌}
use kairos_p2p_engine.Base.ByteStrings.{Bytes, ◌==◌, eq_iff, elem, IsDistinct}
use kairos_p2p_engine.Base.Results.{is_some}

module _ {ℓ} {V : Type ℓ} where
  abbrev pub lookup : Bytes → List (Bytes × V) → Option V
  lookup k [] = none
  lookup k ((j, v) ∷ m) = if j == k then some v else lookup k m

  abbrev pub insert : Bytes → V → List (Bytes × V) → List (Bytes × V)
  insert k v [] = (k, v) ∷ []
  insert k v ((j, w) ∷ m) = if j == k then (k, v) ∷ m else (j, w) ∷ insert k v m

  abbrev pub keys : List (Bytes × V) → List Bytes
  keys [] = []
  keys ((k, v) ∷ m) = k ∷ keys m

  pub lookup-insert :
      (k j : Bytes) (v : V) (m : List (Bytes × V))
      → lookup j (insert k v m) ≡ (if k == j then some v else lookup j m)
  lookup-insert k j v [] = refl
  lookup-insert k j v ((i, w) ∷ m) =
      ground (arith, eq_iff k j, eq_iff i k, eq_iff i j, lookup-insert k j v m)

  -- A map has the keys that its entries list.
  pub lookup-keys : (k : Bytes) (m : List (Bytes × V)) → is_some (lookup k m) ≡ elem k (keys m)
  lookup-keys k [] = refl
  lookup-keys k ((j, v) ∷ m) = ground (arith, lookup-keys k m)

pub elem-keys-insert :
    (x k v : Bytes) (m : List (Bytes × Bytes))
    → elem x (keys (insert k v m)) ≡ ((k == x) || elem x (keys m))
elem-keys-insert x k v m =
    ground (arith, lookup-keys x (insert k v m), lookup-keys x m, lookup-insert k x v m)

pub insert-IsDistinct :
    (k v : Bytes) (m : List (Bytes × Bytes))
    → IsDistinct (keys m)
    → IsDistinct (keys (insert k v m))
insert-IsDistinct k v [] d = (refl, tt)
insert-IsDistinct k v ((j, w) ∷ m) d =
    ground (arith, insert-IsDistinct k v m d.1, elem-keys-insert j k v m, eq_iff j k, eq_iff k j)

-- The same for a map whose keys are numbers (`map[int]T`, `map[byte]T`).
module _ {ℓ} {V : Type ℓ} where
  abbrev pub lookup_at : ℕ → List (ℕ × V) → Option V
  lookup_at k [] = none
  lookup_at k ((j, v) ∷ m) = if nat_eq j k then some v else lookup_at k m

  abbrev pub insert_at : ℕ → V → List (ℕ × V) → List (ℕ × V)
  insert_at k v [] = (k, v) ∷ []
  insert_at k v ((j, w) ∷ m) = if nat_eq j k then (k, v) ∷ m else (j, w) ∷ insert_at k v m

  pub lookup_at-insert_at :
      (k j : ℕ) (v : V) (m : List (ℕ × V))
      → lookup_at j (insert_at k v m) ≡ (if nat_eq k j then some v else lookup_at j m)
  lookup_at-insert_at k j v [] = refl
  lookup_at-insert_at k j v ((i, w) ∷ m) = ground (arith, lookup_at-insert_at k j v m)
