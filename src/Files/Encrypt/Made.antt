-- ===== src/Files/Encrypt/Made.antt =====
-- The chunks that a block becomes, beside its shards and the parts of its key.
use kairos_p2p_engine.Base.{
  ℕ, zero, suc, ◌+◌, ◌≡◌, refl, subst, List, [], ◌∷◌, Bytes, ok, ok-injective, length, get_elem?,
  drop, arith, Option-cases, Result-cases, inl, inr,
}
use kairos_p2p_engine.Models.{Chunk}
use kairos_p2p_engine.Config.{Config}
use kairos_p2p_engine.Files.Slots.{drop-get_elem?}
use kairos_p2p_engine.Files.Encrypt.{UploadJob, Draws, Upload, make_chunk, make_chunks}

-- The chunks from the `j`-th on carry the shards and the parts in order, and each is uploaded under
-- its identifier with its shard.
abbrev pub IsMade : ℕ → List (Chunk × UploadJob) → List Bytes → List (ℕ × Bytes) → Type 0
IsMade j [] [] [] = Unit {0}
IsMade j ((c, job) ∷ made) (s ∷ shards) ((k, v) ∷ parts) =
    (c.shard_index ≡ j)
    × (c.key_index_part ≡ k)
    × (c.key_part ≡ v)
    × (job.chunk_req.chunk_id ≡ c.chunk_id)
    × (job.chunk_req.shard ≡ s)
    × IsMade (j + 1) made shards parts
IsMade j _ _ _ = ⊥

drop_all {ℓ} : {A : Type ℓ} (n : ℕ) (xs : List A) → length xs ≡ n → drop n xs ≡ []
drop_all zero [] h = refl
drop_all zero (x ∷ xs) h = absurd (omega arith)
drop_all (suc n) [] h = refl
drop_all (suc n) (x ∷ xs) h = drop_all n xs (omega arith)

module _ (config : Config) (upload : Upload) (draws : Draws) (shards : List Bytes)
    (parts : List (ℕ × Bytes)) where
  pub make_chunks-IsMade :
      (n j : ℕ) (made : List (Chunk × UploadJob))
      → length shards ≡ j + n
      → length parts ≡ j + n
      → make_chunks config upload draws shards parts n j ≡ ok made
      → IsMade j made (drop j shards) (drop j parts)
  unfolding make_chunks make_chunk
  make_chunks-IsMade zero j made hs hp h =
      rw (drop_all j shards (omega (arith, hs)), drop_all j parts (omega (arith, hp)))
        (subst (λ m. IsMade j m [] []) (ok-injective h) tt)
  make_chunks-IsMade (suc n) j made hs hp h = elim (Option-cases (get_elem? shards j)) [
    | inl e ↦ absurd (ground arith)
    | inr (s, e) ↦ elim (Option-cases (get_elem? parts j)) [
      | inl e' ↦ absurd (ground arith)
      | inr ((k, v), e') ↦
          elim (Result-cases (make_chunks config upload draws shards parts n (j + 1))) [
            | inl (x, r) ↦ absurd (ground arith)
            | inr (rest, r) ↦
                let ih =
                  make_chunks-IsMade n (j + 1) rest (omega (arith, hs)) (omega (arith, hp)) r in
                rw (drop-get_elem? shards j s e, drop-get_elem? parts j (k, v) e')
                  (subst (λ m. IsMade j m (s ∷ drop (j + 1) shards) ((k, v) ∷ drop (j + 1) parts))
                    (ok-injective (rw (e, e', r) at h)) (refl, refl, refl, refl, refl, ih))
          ]
    ]
  ]
