-- ===== src/Files/Slots.antt =====
-- Lemmas on the slots of shards and the parts of the key that a download fills in.
use kairos_p2p_engine.Base.{
  ℕ, zero, suc, ◌+◌, ◌≡◌, refl, ap, ◌∙◌, Option, none, some, List, [], ◌∷◌, ◌++◌, Bytes, length,
  get_elem?, set, drop, replicate, lookup_at, insert_at, lookup_at-insert_at, arith,
}
use kairos_p2p_engine.Files.Coding.{Matches, filled, IsSubmap, HasDistinctKeys}

abbrev pub no_slots : ℕ → List (Option Bytes)
no_slots n = replicate n none

module _ {ℓ} {A : Type ℓ} where
  pub get_elem?-append :
      (pre : List A) (x : A) (ys : List A) → get_elem? (pre ++ (x ∷ ys)) (length pre) ≡ some x
  get_elem?-append [] x ys = refl
  get_elem?-append (p ∷ pre) x ys = get_elem?-append pre x ys

  pub set-append :
      (pre : List A) (x v : A) (ys : List A)
      → set (pre ++ (x ∷ ys)) (length pre) v ≡ pre ++ (v ∷ ys)
  set-append [] x v ys = refl
  set-append (p ∷ pre) x v ys = ap (λ t. p ∷ t) (set-append pre x v ys)

  pub drop-get_elem? :
      (xs : List A) (i : ℕ) (x : A) → get_elem? xs i ≡ some x → drop i xs ≡ x ∷ drop (i + 1) xs
  drop-get_elem? [] i x h = ground arith
  drop-get_elem? (y ∷ ys) zero x h = ground arith
  drop-get_elem? (y ∷ ys) (suc i) x h = drop-get_elem? ys i x h ∙ ground arith

pub Matches-append :
    (pre : List (Option Bytes)) (done : List Bytes) (ss : List (Option Bytes)) (cs : List Bytes)
    → Matches pre done
    → Matches ss cs
    → Matches (pre ++ ss) (done ++ cs)
Matches-append [] [] ss cs m n = n
Matches-append [] (d ∷ done) ss cs m n = absurd m
Matches-append (p ∷ pre) [] ss cs m n = absurd m
Matches-append (none ∷ pre) (d ∷ done) ss cs m n = Matches-append pre done ss cs m n
Matches-append (some s ∷ pre) (d ∷ done) ss cs m n = (m.0, Matches-append pre done ss cs m.1 n)

pub Matches-none : (cs : List Bytes) → Matches (no_slots (length cs)) cs
Matches-none [] = tt
Matches-none (c ∷ cs) = Matches-none cs

pub filled-append : (xs ys : List (Option Bytes)) → filled (xs ++ ys) ≡ filled xs + filled ys
filled-append [] ys = omega arith
filled-append (none ∷ xs) ys = filled-append xs ys
filled-append (some s ∷ xs) ys = omega (arith, filled-append xs ys)

pub filled-none : (n : ℕ) → filled (no_slots n) ≡ 0
filled-none zero = refl
filled-none (suc n) = filled-none n

pub length-insert_at :
    (k : ℕ) (v : Bytes) (m : List (ℕ × Bytes))
    → lookup_at k m ≡ none
    → length (insert_at k v m) ≡ length m + 1
length-insert_at k v [] h = omega arith
length-insert_at k v ((j, w) ∷ m) h = ground (arith, length-insert_at k v m)

-- A part that is new to the map and stands among the parts keeps it a map of parts.
pub insert_at-IsSubmap :
    (k : ℕ) (v : Bytes) (m parts : List (ℕ × Bytes))
    → lookup_at k parts ≡ some v
    → lookup_at k m ≡ none
    → IsSubmap m parts
    → IsSubmap (insert_at k v m) parts
insert_at-IsSubmap k v [] parts here new sub = (here, refl, tt)
insert_at-IsSubmap k v ((j, w) ∷ m) parts here new sub =
    ground
      (arith, insert_at-IsSubmap k v m parts here (ground arith) sub.2, lookup_at-insert_at k j v m)

-- Entries stay entries when a map with other keys goes in front.
IsSubmap-cons :
    (k : ℕ) (v : Bytes) (sub parts : List (ℕ × Bytes))
    → lookup_at k sub ≡ none
    → IsSubmap sub parts
    → IsSubmap sub ((k, v) ∷ parts)
IsSubmap-cons k v [] parts new sub = tt
IsSubmap-cons k v ((j, w) ∷ m) parts new sub =
    ground (arith, IsSubmap-cons k v m parts (ground arith) sub.2)

pub IsSubmap-refl : (parts : List (ℕ × Bytes)) → HasDistinctKeys parts → IsSubmap parts parts
IsSubmap-refl [] d = tt
IsSubmap-refl ((k, v) ∷ parts) d =
    (ground arith, d.0, IsSubmap-cons k v parts parts d.0 (IsSubmap-refl parts d.1))
