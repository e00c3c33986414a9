-- ===== src/Files/Reconstruct/Invariant.antt =====
-- The gathering loop ends with as many intact shards as can be had, up to the number required.
use mathlib.Core.List.{append_assoc}
use Prim.Native.Nat.{min}
use native.Mathlib.Nat.{add_assoc, zero-add}
use kairos_p2p_engine.Base.{
  ℕ, suc, ◌+◌, ◌≤◌, ◌<◌, ◌≡◌, refl, sym, ap, subst, ◌∙◌, true, Option, none, some, List, [], ◌∷◌,
  ◌++◌, Bytes, ok, is_some, length, length-append, lookup_at, lookup_at-insert_at, leb, arith,
  if◌then◌else◌, Bool-cases, inl, inr,
}
use kairos_p2p_engine.Models.{Chunk, ChunkRequest}
use kairos_p2p_engine.Files.Coding.{Matches, filled, IsSubmap, AllFilled}
use kairos_p2p_engine.Files.Slots.{
  no_slots, get_elem?-append, set-append, Matches-append, Matches-none, filled-append, filled-none,
  length-insert_at, insert_at-IsSubmap,
}
use kairos_p2p_engine.Files.Encrypt.{UploadJob, chunks_of, jobs_of}
use kairos_p2p_engine.Files.Encrypt.Made.{IsMade}
use kairos_p2p_engine.Files.Reconstruct.{Gather, accept_shard, try_nodes, gather_chunks, nil_or}
use kairos_p2p_engine.Files.Reconstruct.Loop.{IsKnown, reaches, available, IsHonest, try_nodes_lem}

-- What the loop ends with for a block of the shards `data_chunks` and the key parts `parts`.
abbrev pub IsGathered : ℕ → List Bytes → List (ℕ × Bytes) → Gather → Type 0
IsGathered received data_chunks parts g =
    Matches g.shards data_chunks
    × IsSubmap g.key_parts parts
    × (filled g.shards ≡ received)
    × (length g.key_parts ≡ received)
    × (g.shards_received ≡ received)

-- The invariant of the loop: the slots before the next chunk match the shards before it, the
-- later ones are nil, and the parts of the later chunks are not yet in the map.
pub record Inv (done : List Bytes) (n : ℕ) (all left : List (ℕ × Bytes)) (g : Gather) : Type 0 where
  pub front : List (Option Bytes)
  pub shape : g.shards ≡ front ++ no_slots n
  pub place : length front ≡ length done
  pub matches : Matches front done
  pub submap : IsSubmap g.key_parts all
  pub fresh : (k : ℕ) → is_some (lookup_at k left) ≡ true → lookup_at k g.key_parts ≡ none
  pub count : filled front ≡ g.shards_received
  pub parts_count : length g.key_parts ≡ g.shards_received

nil_or-some : (s : Bytes) → 0 < length s → nil_or s ≡ some s
nil_or-some [] h = elim h [ ]
nil_or-some (b ∷ bs) h = refl

Inv-IsGathered :
    (done rest : List Bytes) (all left : List (ℕ × Bytes)) (g : Gather)
    → Inv done (length rest) all left g
    → IsGathered g.shards_received (done ++ rest) all g
Inv-IsGathered done rest all left g inv = (
  subst (λ t. Matches t (done ++ rest)) (sym inv.shape)
      (Matches-append inv.front done (no_slots (length rest)) rest inv.matches (Matches-none rest)),
  inv.submap,
  ap filled inv.shape
      ∙ omega (
        arith,
        filled-append inv.front (no_slots (length rest)),
        filled-none (length rest),
        inv.count,
      ),
  inv.parts_count,
  refl,
)

-- The chunk's shard does not come: its slot stays nil.
Inv-skip :
    (done : List Bytes) (s : Bytes) (n : ℕ) (all : List (ℕ × Bytes)) (k : ℕ) (v : Bytes)
    (left : List (ℕ × Bytes)) (g : Gather)
    → lookup_at k left ≡ none
    → Inv done (suc n) all ((k, v) ∷ left) g
    → Inv (done ++ (s ∷ [])) n all left g
Inv-skip done s n all k v left g new inv = record {
  front = inv.front ++ (none ∷ []);
  shape = inv.shape ∙ sym (append_assoc inv.front (none ∷ []) (no_slots n));
  place =
      omega (
        arith,
        length-append {0} inv.front (none ∷ []),
        length-append {0} done (s ∷ []),
        inv.place,
      );
  matches = Matches-append inv.front done (none ∷ []) (s ∷ []) inv.matches tt;
  submap = inv.submap;
  fresh = λ j h. inv.fresh j (ground arith);
  count = omega (arith, filled-append inv.front (none ∷ []), inv.count);
  parts_count = inv.parts_count;
}

-- The chunk's shard comes.
Inv-accept :
    (done : List Bytes) (s : Bytes) (n : ℕ) (all : List (ℕ × Bytes)) (k : ℕ) (v : Bytes)
    (left : List (ℕ × Bytes)) (g : Gather) (c : Chunk)
    → c.shard_index ≡ length done
    → c.key_index_part ≡ k
    → c.key_part ≡ v
    → 0 < length s
    → lookup_at k all ≡ some v
    → lookup_at k left ≡ none
    → Inv done (suc n) all ((k, v) ∷ left) g
    → Inv (done ++ (s ∷ [])) n all left (accept_shard g c s)
unfolding accept_shard
Inv-accept done s n all k v left g c at_ ki kp pos here new inv = record {
  front = inv.front ++ (some s ∷ []);
  shape =
      rw (at_, nil_or-some s pos, inv.shape, ← inv.place)
        (set-append inv.front none (some s) (no_slots n)
          ∙ sym (append_assoc inv.front (some s ∷ []) (no_slots n)));
  place = omega (
    arith,
    length-append {0} inv.front (some s ∷ []),
    length-append {0} done (s ∷ []),
    inv.place,
  );
  matches = Matches-append inv.front done (some s ∷ []) (s ∷ []) inv.matches (refl, tt);
  submap = rw (ki, kp) (insert_at-IsSubmap k v g.key_parts all here new_key inv.submap);
  fresh = λ j h. rw (ki, kp) (ground (arith, lookup_at-insert_at k j v g.key_parts, inv.fresh j));
  count = omega (arith, filled-append inv.front (some s ∷ []), inv.count);
  parts_count =
      rw (ki, kp) (length-insert_at k v g.key_parts new_key ∙ ap (λ t. t + 1) inv.parts_count);
}
  where
    new_key : lookup_at k g.key_parts ≡ none
    new_key = inv.fresh k (ground arith)

received-accept :
    (g : Gather) (c : Chunk) (s : Bytes)
    → (accept_shard g c s).shards_received ≡ g.shards_received + 1
unfolding accept_shard
received-accept g c s = refl

module _ (fetch : Bytes → Bytes → Option ChunkRequest) (infos : List (Bytes × Chunk))
    (required : ℕ) where
  pub gather_chunks-IsGathered :
      (made : List (Chunk × UploadJob)) (done rest : List Bytes) (all left : List (ℕ × Bytes))
      (g : Gather)
      → IsKnown infos (chunks_of made)
      → IsHonest fetch (jobs_of made)
      → IsMade (length done) made rest left
      → AllFilled rest
      → IsSubmap left all
      → Inv done (length rest) all left g
      → g.shards_received ≤ required
      → (g' : Gather) × (gather_chunks fetch infos required g (chunks_of made) ≡ ok g')
        × IsGathered
            (min required (g.shards_received + available fetch (chunks_of made)))
            (done ++ rest)
            all
            g'
  unfolding gather_chunks
  gather_chunks-IsGathered [] done [] all [] g known honest m pos sub inv le = (
    g,
    refl,
    subst (λ n. IsGathered n (done ++ []) all g) (omega arith)
        (Inv-IsGathered done [] all [] g inv),
  )
  gather_chunks-IsGathered [] done (s ∷ rest) all left g known honest m pos sub inv le = absurd m
  gather_chunks-IsGathered [] done [] all (kv ∷ left) g known honest m pos sub inv le = absurd m
  gather_chunks-IsGathered ((c, job) ∷ made) done [] all left g known honest m pos sub inv le =
      absurd m
  gather_chunks-IsGathered ((c, job) ∷ made) done (s ∷ rest) all [] g known honest m pos sub inv
        le =
      absurd m
  gather_chunks-IsGathered ((c, job) ∷ made) done (s ∷ rest) all ((k, v) ∷ left) g known honest m
        pos sub inv le =
      elim (Bool-cases (leb required g.shards_received)) [
        | inl full ↦ (
          g,
          rw full refl,
          subst (λ n. IsGathered n (done ++ s ∷ rest) all g) (ground arith)
              (Inv-IsGathered done (s ∷ rest) all ((k, v) ∷ left) g inv),
        )
        | inr more ↦ elim (Bool-cases (reaches fetch c.chunk_id c.nodes)) [
          | inl here ↦
              let (g', e, r) =
                gather_chunks-IsGathered made (done ++ (s ∷ [])) rest all left (accept_shard g c s)
                  known.1 honest.1 (rw (length-append done (s ∷ [])) m.5) pos.1 sub.2
                  (Inv-accept done s (length rest) all k v left g c m.0 m.1 m.2 pos.0 sub.0 sub.1
                    inv)
                  (rw (received-accept g c s) (ground arith)) in
              (
                g',
                rw more (rw tried (rw here e)),
                rw here (rw (append_assoc, received-accept, add_assoc) at r),
              )
          | inr gone ↦
              let (g', e, r) =
                gather_chunks-IsGathered made (done ++ (s ∷ [])) rest all left g known.1 honest.1
                  (rw (length-append done (s ∷ [])) m.5) pos.1 sub.2
                  (Inv-skip done s (length rest) all k v left g sub.1 inv) le in
              (
                g',
                rw more (rw tried (rw gone e)),
                rw gone (rw (append_assoc, ← zero-add (available fetch (chunks_of made))) at r),
              )
        ]
      ]
    where
      tried :
          try_nodes fetch infos g c.chunk_id c.nodes
          ≡ ok (if reaches fetch c.chunk_id c.nodes then accept_shard g c s else g)
      tried =
          try_nodes_lem fetch infos g c s c.nodes known.0
            (rw (m.0, inv.shape, ← inv.place)
              (get_elem?-append inv.front none (no_slots (length rest))))
            (λ node reply e. let (i, d) = honest.0 node reply (rw m.3 e) in (i ∙ m.3, d ∙ m.4))
