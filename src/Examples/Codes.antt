-- ===== src/Examples/Codes.antt =====
-- Plain stand-ins for the codes: one data shard that is repeated, one part of the key that is
-- enough, and a round in front of the locked key.
use Prim.Native.Nat.{suc}
use kairos_p2p_engine.Base.{
  ℕ, zero, ◌+◌, ◌≤◌, ◌<◌, ◌≡◌, refl, ap, Option, none, some, List, [], ◌∷◌, Bytes, length,
  replicate, nat_eq, nat_eq_iff, leb, lookup_at, arith, if◌then◌else◌,
}
use kairos_p2p_engine.Files.Coding.{
  Coding, CodingLaws, Matches, filled, IsSubmap, AllFilled, HasDistinctKeys,
}

abbrev pub first_filled : List (Option Bytes) → Option Bytes
first_filled [] = none
first_filled (none ∷ slots) = first_filled slots
first_filled (some shard ∷ slots) = some shard

abbrev pub first_of : List Bytes → Bytes
first_of [] = []
first_of (x ∷ xs) = x

-- The indices count from `i + 1` on.
abbrev pub parts_from : ℕ → ℕ → Bytes → List (ℕ × Bytes)
parts_from i zero secret = []
parts_from i (suc n) secret = (suc i, secret) ∷ parts_from (suc i) n secret

abbrev pub first_part : List (ℕ × Bytes) → Option Bytes
first_part [] = none
first_part ((k, v) ∷ parts) = some v

abbrev pub unlock : ℕ → Bytes → Option Bytes
unlock now [] = none
unlock now (round ∷ key) = if leb round now then some key else none

abbrev pub coding : Coding
coding = record {
  rs_new = λ data_shards parity_shards. nat_eq data_shards 1;
  rs_split =
      λ data_shards parity_shards block. if nat_eq data_shards 1 then some (block ∷ []) else none;
  rs_encode = λ data_shards parity_shards raw. some (replicate (suc parity_shards) (first_of raw));
  rs_reconstruct = λ data_shards parity_shards slots. some slots;
  rs_join = λ data_shards parity_shards slots size. first_filled slots;
  shamir_split = λ seed secret total threshold.
      if nat_eq threshold 1 then some (parts_from 0 total secret) else none;
  shamir_combine = λ parts. first_part parts;
  tlock_encrypt = λ seed key round. some (round ∷ key);
  tlock_decrypt = λ now sealed. unlock now sealed;
}

length-copies : (n : ℕ) (b : Bytes) → length (replicate n b) ≡ n
length-copies zero b = refl
length-copies (suc n) b = ap suc (length-copies n b)

copies-AllFilled : (n : ℕ) (b : Bytes) → 0 < length b → AllFilled (replicate n b)
copies-AllFilled zero b h = tt
copies-AllFilled (suc n) b h = (h, copies-AllFilled n b h)

first_copy :
    (n : ℕ) (b : Bytes) (slots : List (Option Bytes))
    → Matches slots (replicate n b)
    → 0 < filled slots
    → first_filled slots ≡ some b
first_copy n b [] m h = elim h [ ]
first_copy zero b (s ∷ slots) m h = elim m [ ]
first_copy (suc n) b (none ∷ slots) m h = first_copy n b slots m h
first_copy (suc n) b (some s ∷ slots) m h = ap some m.0

length-parts_from : (i n : ℕ) (secret : Bytes) → length (parts_from i n secret) ≡ n
length-parts_from i zero secret = refl
length-parts_from i (suc n) secret = ap suc (length-parts_from (suc i) n secret)

early_part : (k i n : ℕ) (secret : Bytes) → k ≤ i → lookup_at k (parts_from i n secret) ≡ none
early_part k i zero secret h = refl
early_part k i (suc n) secret h =
    ground (arith, nat_eq_iff (suc i) k, early_part k (suc i) n secret (omega arith))

parts_from-distinct : (i n : ℕ) (secret : Bytes) → HasDistinctKeys (parts_from i n secret)
parts_from-distinct i zero secret = tt
parts_from-distinct i (suc n) secret =
    (early_part (suc i) (suc i) n secret (omega arith), parts_from-distinct (suc i) n secret)

every_part :
    (k i n : ℕ) (secret v : Bytes) → lookup_at k (parts_from i n secret) ≡ some v → v ≡ secret
every_part k i zero secret v h = absurd (ground arith)
every_part k i (suc n) secret v h =
    ground (arith, nat_eq_iff (suc i) k, every_part k (suc i) n secret v)

copies_law :
    (d p : ℕ) (raw chunks : List Bytes) (block : Bytes)
    → coding.rs_split d p block ≡ some raw
    → coding.rs_encode d p raw ≡ some chunks
    → (d ≡ 1) × (replicate (suc p) block ≡ chunks)
copies_law d p raw chunks block h k =
    let both : (d ≡ 1) × (block ∷ [] ≡ raw) = ground (arith, nat_eq_iff d 1) in
    let all : replicate (suc p) (first_of raw) ≡ chunks = ground arith in
    (both.0, rw (← both.1) at all)

shards_law :
    (data_shards parity_shards : ℕ) (raw chunks : List Bytes) (block : Bytes)
    → coding.rs_split data_shards parity_shards block ≡ some raw
    → coding.rs_encode data_shards parity_shards raw ≡ some chunks
    → 0 < length block
    → (length chunks ≡ data_shards + parity_shards) × AllFilled chunks
shards_law d p raw chunks block h k l =
    let (one, e) = copies_law d p raw chunks block h k in
    rw (← e, one) (omega (arith, length-copies (suc p) block), copies-AllFilled (suc p) block l)

recovers_law :
    (data_shards parity_shards : ℕ) (raw chunks : List Bytes) (block : Bytes)
    (slots : List (Option Bytes))
    → coding.rs_split data_shards parity_shards block ≡ some raw
    → coding.rs_encode data_shards parity_shards raw ≡ some chunks
    → Matches slots chunks
    → data_shards ≤ filled slots
    → first_filled slots ≡ some block
recovers_law d p raw chunks block slots h k m f =
    let (one, e) = copies_law d p raw chunks block h k in
    first_copy (suc p) block slots (rw (← e) at m) (omega (arith, one, f))

parts_law :
    (total threshold : ℕ) (secret : Bytes) (parts : List (ℕ × Bytes))
    → (if nat_eq threshold 1 then some (parts_from 0 total secret) else none) ≡ some parts
    → (threshold ≡ 1) × (parts_from 0 total secret ≡ parts)
parts_law total threshold secret parts h = ground (arith, nat_eq_iff threshold 1)

first_part_law :
    (total : ℕ) (secret : Bytes) (sub : List (ℕ × Bytes))
    → IsSubmap sub (parts_from 0 total secret)
    → 1 ≤ length sub
    → first_part sub ≡ some secret
first_part_law total secret [] s h = elim h [ ]
first_part_law total secret ((k, v) ∷ sub) s h = ap some (every_part k 0 total secret v s.0)

opens : (round now : ℕ) (key : Bytes) → round ≤ now → unlock now (round ∷ key) ≡ some key
opens round now key h = ground arith

stays_locked : (round now : ℕ) (key : Bytes) → now < round → unlock now (round ∷ key) ≡ none
stays_locked round now key h = ground arith

pub coding_laws : CodingLaws coding
coding_laws = record {
  rs_shards = shards_law;
  rs_recovers = λ d p raw chunks block slots h k m f.
      (slots, refl, recovers_law d p raw chunks block slots h k m f);
  shamir_parts = λ seed total threshold secret parts h.
      let e = (parts_law total threshold secret parts h).1 in
      rw (← e) (length-parts_from 0 total secret, parts_from-distinct 0 total secret);
  shamir_recovers = λ seed total threshold secret parts sub h s l.
      let (one, e) = parts_law total threshold secret parts h in
      first_part_law total secret sub (rw (← e) at s) (omega (arith, one, l));
  tlock_opens = λ seed round now key sealed h k.
      let e : round ∷ key ≡ sealed = ground arith in rw (← e) (opens round now key k);
  tlock_locked = λ seed round now key sealed h k.
      let e : round ∷ key ≡ sealed = ground arith in rw (← e) (stays_locked round now key k);
}
