-- ===== src/Database/Keys.antt =====
-- The stored form of keys: `makeKey` keeps the entries of different prefixes apart.
use kairos_p2p_engine.Base.{
  ◌≡◌, refl, Bool, true, not, ◌&&◌, [], ◌∷◌, ◌++◌, Bytes, ◌==◌, nat_eq, starts_with, arith,
  nat_eq_iff,
}
use kairos_p2p_engine.Database.{prefix_bytes, make_key}

-- A prefix without the separator, as all the program's prefixes are.
abbrev pub is_plain : Bytes → Bool
is_plain [] = true
is_plain (c ∷ cs) = not (nat_eq c b':') && is_plain cs

abbrev pub IsPlain : Bytes → Type 0
IsPlain p = is_plain p ≡ true

-- For prefixes without a colon, stored keys are equal exactly when prefix and key are.
pub make_key-eq :
    (p q k j : Bytes)
    → IsPlain p
    → IsPlain q
    → (make_key p k == make_key q j) ≡ ((p == q) && (k == j))
unfolding make_key
make_key-eq [] [] k j hp hq = refl
make_key-eq [] (d ∷ q) k j hp hq = ground (arith, nat_eq_iff b':' d)
make_key-eq (c ∷ p) [] k j hp hq = ground arith
make_key-eq (c ∷ p) (d ∷ q) k j hp hq =
    ground (arith, make_key-eq p q k j (ground arith) (ground arith))

-- An iterator over one prefix meets no key of another.
pub starts_with-make_key :
    (p q k : Bytes) → IsPlain p → IsPlain q → starts_with (prefix_bytes p) (make_key q k) ≡ (p == q)
unfolding prefix_bytes make_key
starts_with-make_key [] [] k hp hq = refl
starts_with-make_key [] (d ∷ q) k hp hq = ground (arith, nat_eq_iff b':' d)
starts_with-make_key (c ∷ p) [] k hp hq = ground arith
starts_with-make_key (c ∷ p) (d ∷ q) k hp hq =
    ground (arith, starts_with-make_key p q k (ground arith) (ground arith))

pub prefix_bytes-append : (p k : Bytes) → prefix_bytes p ++ k ≡ make_key p k
unfolding prefix_bytes make_key
prefix_bytes-append [] k = refl
prefix_bytes-append (c ∷ p) k = ground (arith, prefix_bytes-append p k)
