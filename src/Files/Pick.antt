-- ===== src/Files/Pick.antt =====
-- `pickRandomItems`: the nodes that a chunk is offered to.
use mathlib.Core.List.{Perm}
use mathlib.Core.List.Perm
use Prim.Native.Nat.{min}
use kairos_p2p_engine.Base.{
  ℕ, zero, suc, ◌-◌, Bool-cases, inl, inr, ◌≤◌, ◌<◌, ◌≡◌, refl, ap, List, [], ◌∷◌, ◌++◌, Bytes,
  length, get_or, set, get_last_or, drop_last, length-set, arith, ltb, if◌then◌else◌,
}
use kairos_p2p_engine.Process.{rand_intn}

-- The chosen item is replaced by the last one, and the list gets shorter by one.
unfoldable pub remove_at : List Bytes → ℕ → List Bytes
remove_at list i = drop_last (set list i (get_last_or [] list))

-- The loop; `draws` are the values of the random generator.
unfoldable pub pick_loop : ℕ → List Bytes → (ℕ → ℕ) → List Bytes
pick_loop zero list draws = []
pick_loop (suc n) list draws =
    let i = rand_intn (draws 0) (length list) in
    get_or list i [] ∷ pick_loop n (remove_at list i) (λ j. draws (suc j))

unfoldable pub pick_random_items : List Bytes → ℕ → (ℕ → ℕ) → List Bytes
pick_random_items original n draws =
    pick_loop (if ltb (length original) n then length original else n) original draws

last_perm : (x : Bytes) (xs : List Bytes) → Perm (get_last_or x xs ∷ drop_last (x ∷ xs)) (x ∷ xs)
last_perm x [] = Perm.rfl
last_perm x (y ∷ ys) =
    Perm.trans (Perm.swap x (get_last_or y ys) (drop_last (y ∷ ys))) (Perm.cons x (last_perm y ys))

drop_last-set :
    (x y : Bytes) (ys : List Bytes) (i : ℕ) (v : Bytes)
    → drop_last (x ∷ set (y ∷ ys) i v) ≡ x ∷ drop_last (set (y ∷ ys) i v)
drop_last-set x y ys zero v = refl
drop_last-set x y ys (suc i) v = refl

length-drop_last : (xs : List Bytes) → length (drop_last xs) ≡ length xs - 1
length-drop_last [] = refl
length-drop_last (x ∷ []) = refl
length-drop_last (x ∷ y ∷ xs) = omega (arith, length-drop_last (y ∷ xs))

-- The last element of the list that replaced entry `i` need not be looked at: it is dropped.
remove_at-perm :
    (list : List Bytes) (i : ℕ) → i < length list → Perm (get_or list i [] ∷ remove_at list i) list
unfolding remove_at
remove_at-perm [] i h = elim h [ ]
remove_at-perm (x ∷ []) zero h = Perm.rfl
remove_at-perm (x ∷ []) (suc i) h = absurd (omega arith)
remove_at-perm (x ∷ y ∷ ys) zero h = Perm.cons x (last_perm y ys)
remove_at-perm (x ∷ y ∷ ys) (suc i) h =
    rw (drop_last-set x y ys i (get_last_or y ys))
      (Perm.trans (Perm.swap x _ _) (Perm.cons x (remove_at-perm (y ∷ ys) i (omega arith))))

length-remove_at : (list : List Bytes) (i : ℕ) → length (remove_at list i) ≡ length list - 1
unfolding remove_at
length-remove_at list i = omega (
  arith,
  length-drop_last (set list i (get_last_or [] list)),
  length-set list i (get_last_or [] list),
)

rand_intn-lt : (r n : ℕ) → 0 < n → rand_intn r n < n
unfolding rand_intn
rand_intn-lt r n h = omega arith

-- What is picked and what is left are the list that was picked from.
pick_loop-perm :
    (n : ℕ) (list : List Bytes) (draws : ℕ → ℕ)
    → n ≤ length list
    → (left : List Bytes) × Perm (pick_loop n list draws ++ left) list
      × (length (pick_loop n list draws) ≡ n)
unfolding pick_loop
pick_loop-perm zero list draws h = (list, Perm.rfl, refl)
pick_loop-perm (suc n) list draws h =
    let i = rand_intn (draws 0) (length list) in
    let (left, p, e) =
      pick_loop-perm n (remove_at list i) (λ j. draws (suc j))
        (omega (arith, length-remove_at list i)) in
    let lt : i < length list = rand_intn-lt (draws 0) (length list) (omega arith) in
    (left, Perm.trans (Perm.cons _ p) (remove_at-perm list i lt), ap suc e)

-- Whatever the generator draws: the number of items asked for is picked, or all of them if there
-- are fewer, and the picked items with those left over are a permutation of the list, so no entry
-- is picked twice.
pub pick_random_items-perm :
    (original : List Bytes) (n : ℕ) (draws : ℕ → ℕ)
    → (left : List Bytes) × Perm (pick_random_items original n draws ++ left) original
      × (length (pick_random_items original n draws) ≡ min n (length original))
unfolding pick_random_items
pick_random_items-perm original n draws = elim (Bool-cases (ltb (length original) n)) [
  | inl h ↦
      let (left, p, e) = pick_loop-perm (length original) original draws (omega arith) in
      rw h (left, p, ground arith)
  | inr h ↦
      let (left, p, e) = pick_loop-perm n original draws (ground arith) in
      rw h (left, p, ground arith)
]
