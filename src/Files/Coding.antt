-- ===== src/Files/Coding.antt =====
-- The codes that a block goes through, by their libraries' interfaces: Reed-Solomon
-- (github.com/klauspost/reedsolomon), Shamir's secret sharing (github.com/corvus-ch/shamir) and
-- time-lock encryption (github.com/drand/tlock). `seed` stands for the random numbers of a call.
use kairos_p2p_engine.Base.{
  ℕ, suc, ◌+◌, ◌≤◌, ◌<◌, ◌≡◌, Bool, Option, none, some, List, [], ◌∷◌, Bytes, length, lookup_at,
}

pub record Coding : Type 0 where
  -- whether `reedsolomon.New(data, parity)` succeeds
  pub rs_new : ℕ → ℕ → Bool
  pub rs_split : ℕ → ℕ → Bytes → Option (List Bytes)
  pub rs_encode : ℕ → ℕ → List Bytes → Option (List Bytes)
  -- a missing shard is a nil slot
  pub rs_reconstruct : ℕ → ℕ → List (Option Bytes) → Option (List (Option Bytes))
  pub rs_join : ℕ → ℕ → List (Option Bytes) → ℕ → Option Bytes
  -- a map from the index of a part to the part, in the order of its iteration
  pub shamir_split : ℕ → Bytes → ℕ → ℕ → Option (List (ℕ × Bytes))
  pub shamir_combine : List (ℕ × Bytes) → Option Bytes
  pub tlock_encrypt : ℕ → Bytes → ℕ → Option Bytes
  -- with the beacon of the given round as the newest one
  pub tlock_decrypt : ℕ → Bytes → Option Bytes

-- Every filled slot holds the chunk of its place.
abbrev pub Matches : List (Option Bytes) → List Bytes → Type 0
Matches [] [] = Unit {0}
Matches [] (c ∷ cs) = ⊥
Matches (s ∷ ss) [] = ⊥
Matches (none ∷ ss) (c ∷ cs) = Matches ss cs
Matches (some s ∷ ss) (c ∷ cs) = (s ≡ c) × Matches ss cs

abbrev pub filled : List (Option Bytes) → ℕ
filled [] = 0
filled (none ∷ ss) = filled ss
filled (some s ∷ ss) = suc (filled ss)

-- Every entry of the first map is an entry of the second, and no key is repeated.
abbrev pub IsSubmap : List (ℕ × Bytes) → List (ℕ × Bytes) → Type 0
IsSubmap [] parts = Unit {0}
IsSubmap ((k, v) ∷ sub) parts =
    (lookup_at k parts ≡ some v) × (lookup_at k sub ≡ none) × IsSubmap sub parts

-- No key is repeated.
abbrev pub HasDistinctKeys : List (ℕ × Bytes) → Type 0
HasDistinctKeys [] = Unit {0}
HasDistinctKeys ((k, v) ∷ m) = (lookup_at k m ≡ none) × HasDistinctKeys m

abbrev pub AllFilled : List Bytes → Type 0
AllFilled [] = Unit {0}
AllFilled (c ∷ cs) = (0 < length c) × AllFilled cs

pub record CodingLaws (c : Coding) : Type 0 where
  -- a block that is not empty has that many shards, none of them empty
  pub rs_shards :
      (data_shards parity_shards : ℕ) (raw chunks : List Bytes) (block : Bytes)
      → c.rs_split data_shards parity_shards block ≡ some raw
      → c.rs_encode data_shards parity_shards raw ≡ some chunks
      → 0 < length block
      → (length chunks ≡ data_shards + parity_shards) × AllFilled chunks
  -- enough intact shards give the block back
  pub rs_recovers :
      (data_shards parity_shards : ℕ) (raw chunks : List Bytes) (block : Bytes)
      (slots : List (Option Bytes))
      → c.rs_split data_shards parity_shards block ≡ some raw
      → c.rs_encode data_shards parity_shards raw ≡ some chunks
      → Matches slots chunks
      → data_shards ≤ filled slots
      → (all : List (Option Bytes)) × (c.rs_reconstruct data_shards parity_shards slots ≡ some all)
        × (c.rs_join data_shards parity_shards all (length block) ≡ some block)
  pub shamir_parts :
      (seed total threshold : ℕ) (secret : Bytes) (parts : List (ℕ × Bytes))
      → c.shamir_split seed secret total threshold ≡ some parts
      → (length parts ≡ total) × HasDistinctKeys parts
  -- any `threshold` parts give the secret back
  pub shamir_recovers :
      (seed total threshold : ℕ) (secret : Bytes) (parts sub : List (ℕ × Bytes))
      → c.shamir_split seed secret total threshold ≡ some parts
      → IsSubmap sub parts
      → threshold ≤ length sub
      → c.shamir_combine sub ≡ some secret
  -- the key opens from its round on, and not before
  pub tlock_opens :
      (seed round now : ℕ) (key sealed : Bytes)
      → c.tlock_encrypt seed key round ≡ some sealed
      → round ≤ now
      → c.tlock_decrypt now sealed ≡ some key
  pub tlock_locked :
      (seed round now : ℕ) (key sealed : Bytes)
      → c.tlock_encrypt seed key round ≡ some sealed
      → now < round
      → c.tlock_decrypt now sealed ≡ none
