-- ===== src/Base/ByteStrings.antt =====
-- Go's `[]byte` and `string`: both are sequences of bytes, written as lists of numbers. The
-- program never depends on the difference between a nil and an empty byte slice except where
-- the model says so.
use Prim.Native.Char.{code}
use Prim.Native.Nat.{ℕ}
use Prim.Native.String.{String}
use mathlib.Core.Path.{◌≡◌, refl, subst, ap, ◌∙◌}
use mathlib.Core.Logic.{◌↔◌}
use mathlib.Core.Bool.{Bool, true, false, ◌&&◌, ◌||◌}
use mathlib.Core.List.{List, [], ◌∷◌, ◌++◌}
use native.Mathlib.Omega.{arith}
use kairos_p2p_engine.Base.Tests.{nat_eq, nat_eq_iff}
use kairos_p2p_engine.Base.Lists.{length, drop}

abbrev pub Bytes : Type 0
Bytes = List ℕ

-- A source literal as its bytes (all literals of the program that matter are ASCII).
abbrev pub codes : String → Bytes
codes String.[] = []
codes (String.◌∷◌ c s) = code c ∷ codes s

infix 50 ◌==◌
abbrev pub ◌==◌ : Bytes → Bytes → Bool
[] == [] = true
[] == (b ∷ bs) = false
(a ∷ as') == [] = false
(a ∷ as') == (b ∷ bs) = nat_eq a b && (as' == bs)

pub eq_refl : (a : Bytes) → (a == a) ≡ true
eq_refl [] = refl
eq_refl (a ∷ as') = ground (arith, eq_refl as', nat_eq_iff a a)

pub eq_sound : (a b : Bytes) → (a == b) ≡ true → a ≡ b
eq_sound [] [] h = refl
eq_sound [] (b ∷ bs) h = ground arith
eq_sound (a ∷ as') [] h = ground arith
eq_sound (a ∷ as') (b ∷ bs) h = ground (arith, eq_sound as' bs, nat_eq_iff a b)

pub eq_iff : (a b : Bytes) → ((a == b) ≡ true) ↔ (a ≡ b)
eq_iff a b = (eq_sound a b, λ e. subst (λ t. (a == t) ≡ true) e (eq_refl a))

-- Membership as a test.
abbrev pub elem : Bytes → List Bytes → Bool
elem k [] = false
elem k (x ∷ xs) = (x == k) || elem k xs

-- No key twice.
abbrev pub IsDistinct : List Bytes → Type 0
IsDistinct [] = Unit {0}
IsDistinct (x ∷ xs) = (elem x xs ≡ false) × IsDistinct xs

abbrev pub starts_with : Bytes → Bytes → Bool
starts_with [] k = true
starts_with (p ∷ ps) [] = false
starts_with (p ∷ ps) (c ∷ cs) = nat_eq p c && starts_with ps cs

pub elem-append : (k : Bytes) (xs ys : List Bytes) → elem k (xs ++ ys) ≡ (elem k xs || elem k ys)
elem-append k [] ys = refl
elem-append k (x ∷ xs) ys = ground (arith, elem-append k xs ys)

pub starts_with-append : (p k : Bytes) → starts_with p (p ++ k) ≡ true
starts_with-append [] k = refl
starts_with-append (c ∷ p) k = ground (arith, starts_with-append p k, nat_eq_iff c c)

-- A common front does not change a comparison.
pub append-eq : (p a b : Bytes) → ((p ++ a) == (p ++ b)) ≡ (a == b)
append-eq [] a b = refl
append-eq (c ∷ p) a b = ground (arith, append-eq p a b, nat_eq_iff c c)

-- Where a key has the front `p`, cutting the front off compares like putting it before the other.
pub drop-eq : (p x k : Bytes) → starts_with p x ≡ true → (drop (length p) x == k) ≡ (x == (p ++ k))
drop-eq [] x k h = refl
drop-eq (c ∷ p) [] k h = ground arith
drop-eq (c ∷ p) (d ∷ x) k h = ground (arith, drop-eq p x k, nat_eq_iff c d, nat_eq_iff d c)

pub append-drop : (p x : Bytes) → starts_with p x ≡ true → p ++ drop (length p) x ≡ x
append-drop [] x h = refl
append-drop (c ∷ p) [] h = ground arith
append-drop (c ∷ p) (d ∷ x) h = ground (arith, append-drop p x, nat_eq_iff c d)

-- The keys of `xs` with the front `p` cut off.
abbrev pub strip : Bytes → List Bytes → List Bytes
strip p [] = []
strip p (x ∷ xs) = drop (length p) x ∷ strip p xs

pub elem-strip :
    (p k : Bytes) (xs : List Bytes)
    → ((x : Bytes) → elem x xs ≡ true → starts_with p x ≡ true)
    → elem k (strip p xs) ≡ elem (p ++ k) xs
elem-strip p k [] h = refl
elem-strip p k (x ∷ xs) h = ground (
  arith,
  drop-eq p x k (h x (rw (eq_refl x) refl)),
  elem-strip p k xs (λ y m. h y (ground arith)),
)

pub strip-IsDistinct :
    (p : Bytes) (xs : List Bytes)
    → ((x : Bytes) → elem x xs ≡ true → starts_with p x ≡ true)
    → IsDistinct xs
    → IsDistinct (strip p xs)
strip-IsDistinct p [] h d = tt
strip-IsDistinct p (x ∷ xs) h d =
    let rest : (y : Bytes) → elem y xs ≡ true → starts_with p y ≡ true =
      λ y m. h y (ground arith) in
    (
      elem-strip p (drop (length p) x) xs rest
          ∙ ap (λ t. elem t xs) (append-drop p x (h x (rw (eq_refl x) refl)))
          ∙ d.0,
      strip-IsDistinct p xs rest d.1,
    )
