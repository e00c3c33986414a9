-- ===== src/Network/Jobs.antt =====
-- The upload jobs of a block, beside the chunks that its entry in the manifest names.
use kairos_p2p_engine.Base.{
  ℕ, zero, suc, ◌+◌, ◌≡◌, refl, sym, ap, subst, false, List, [], ◌∷◌, ◌++◌, Bytes, elem-append,
  IsDistinct, ok, ok-injective, arith, get_elem?, insert_at, Option-cases, Result-cases, inl, inr,
}
use kairos_p2p_engine.Models.{Chunk, FileBlock}
use kairos_p2p_engine.Crypto.Library.{Aead}
use kairos_p2p_engine.Process.{Process}
use kairos_p2p_engine.Cleanup.{chunks}
use kairos_p2p_engine.Files.Coding.{Coding}
use kairos_p2p_engine.Files.Blocks.{CryptoJob}
use kairos_p2p_engine.Files.Encrypt.{
  UploadJob, Upload, Draws, make_chunk, make_chunks, chunks_of, jobs_of, encrypt_block,
  encrypt_blocks,
}
use kairos_p2p_engine.Files.Encrypt.Inversion.{encrypt_block-IsEncrypted}
use kairos_p2p_engine.Files.Reconstruct.Loop.{ids}
use kairos_p2p_engine.Files.Reconstruct.WholeFile.{step_made}
use kairos_p2p_engine.Network.Chunks.{job_ids, IsOwn, AllOwn}

pub job_ids-append : (xs ys : List UploadJob) → job_ids (xs ++ ys) ≡ job_ids xs ++ job_ids ys
job_ids-append [] ys = refl
job_ids-append (x ∷ xs) ys = ap (λ t. x.chunk_req.chunk_id ∷ t) (job_ids-append xs ys)

IsDistinct-append : (xs ys : List Bytes) → IsDistinct (xs ++ ys) → IsDistinct xs × IsDistinct ys
IsDistinct-append [] ys h = (tt, h)
IsDistinct-append (x ∷ xs) ys h =
    let (l, r) = IsDistinct-append xs ys h.1 in ((ground (arith, elem-append x xs ys, h.0), l), r)

pub IsDistinct-parts :
    (xs ys : List UploadJob)
    → IsDistinct (job_ids (xs ++ ys))
    → IsDistinct (job_ids xs) × IsDistinct (job_ids ys)
IsDistinct-parts xs ys h =
    IsDistinct-append (job_ids xs) (job_ids ys) (subst IsDistinct (job_ids-append xs ys) h)

-- `n` chunks, each sent under its identifier to the nodes that the manifest names for it.
abbrev pub IsSent : {D F : Type 0} → Process D F → ℕ → List (Chunk × UploadJob) → Type 0
IsSent self zero [] = Unit {0}
IsSent self (suc n) ((c, job) ∷ made) =
    (job.chunk_req.chunk_id ≡ c.chunk_id)
    × (job.target_nodes ≡ c.nodes)
    × IsOwn self job.chunk_req
    × IsSent self n made
IsSent self _ _ = ⊥

module _ {D F : Type 0} (self : Process D F) (upload : Upload) where
  make_chunks-IsSent :
      (draws : Draws) (shards : List Bytes) (parts : List (ℕ × Bytes)) (n j : ℕ)
      (made : List (Chunk × UploadJob))
      → make_chunks self.config upload draws shards parts n j ≡ ok made
      → IsSent self n made
  unfolding make_chunks make_chunk
  make_chunks-IsSent draws shards parts zero j made h =
      subst (λ m. IsSent self zero m) (ok-injective h) tt
  make_chunks-IsSent draws shards parts (suc n) j made h =
      elim (Option-cases (get_elem? shards j)) [
        | inl e ↦ absurd (ground arith)
        | inr (s, e) ↦ elim (Option-cases (get_elem? parts j)) [
          | inl e' ↦ absurd (ground arith)
          | inr ((k, v), e') ↦
              elim (Result-cases (make_chunks self.config upload draws shards parts n (j + 1))) [
                | inl (x, r) ↦ absurd (ground arith)
                | inr (rest, r) ↦
                    subst (λ m. IsSent self (suc n) m) (ok-injective (rw (e, e', r) at h))
                      (refl, refl, refl, make_chunks-IsSent draws shards parts n (j + 1) rest r)
              ]
        ]
      ]

  made-AllOwn :
      (n : ℕ) (made : List (Chunk × UploadJob)) → IsSent self n made → AllOwn self (jobs_of made)
  made-AllOwn zero [] sent = tt
  made-AllOwn zero (m ∷ made) sent = absurd sent
  made-AllOwn (suc n) [] sent = absurd sent
  made-AllOwn (suc n) ((c, job) ∷ made) sent = (sent.2, made-AllOwn n made sent.3)

  pub made-ids :
      (n : ℕ) (made : List (Chunk × UploadJob))
      → IsSent self n made
      → job_ids (jobs_of made) ≡ ids (chunks_of made)
  made-ids zero [] sent = refl
  made-ids zero (m ∷ made) sent = absurd sent
  made-ids (suc n) [] sent = absurd sent
  made-ids (suc n) ((c, job) ∷ made) sent = rw (sent.0, made-ids n made sent.3) refl

  pub encrypt_block-IsSent :
      (coding : Coding) (aead : Aead) (draws : Draws) (plain : Bytes) (block : FileBlock)
      (jobs : List UploadJob)
      → encrypt_block coding aead self.config upload draws plain ≡ ok (block, jobs)
      → (made : List (Chunk × UploadJob)) × (block.chunks ≡ chunks_of made)
        × (jobs ≡ jobs_of made)
        × IsSent self self.config.total_shards made
  encrypt_block-IsSent coding aead draws plain block jobs h =
      let e = encrypt_block-IsEncrypted coding aead self.config upload draws plain block jobs h in
      (
        e.made,
        ap (λ b. b.chunks) e.block_made,
        e.jobs_made,
        make_chunks-IsSent draws e.data_chunks e.key_parts self.config.total_shards 0 e.made
            e.chunks_made,
      )

AllOwn-append :
    {D F : Type 0} (self : Process D F) (xs ys : List UploadJob)
    → AllOwn self xs
    → AllOwn self ys
    → AllOwn self (xs ++ ys)
AllOwn-append self [] ys l r = r
AllOwn-append self (x ∷ xs) ys l r = (l.0, AllOwn-append self xs ys l.1 r)

-- The jobs of the crypto workers are the process's own.
pub encrypt_blocks-AllOwn :
    {D F : Type 0} (self : Process D F) (coding : Coding) (aead : Aead) (upload : Upload)
    (draws : ℕ → Draws) (jobs : List CryptoJob) (before split : List (ℕ × FileBlock))
    (made : List UploadJob)
    → encrypt_blocks coding aead self.config upload draws jobs before ≡ (split, (made, false))
    → AllOwn self made
unfolding encrypt_blocks
encrypt_blocks-AllOwn self coding aead upload draws [] before split made h =
    subst (AllOwn self) (ap (λ t. t.1.0) h) tt
encrypt_blocks-AllOwn self coding aead upload draws (job ∷ jobs) before split made h =
    let (block, own, rest, e, e', all) =
      step_made coding aead self.config upload draws job jobs before split made h in
    let (chunks, c, j, sent) =
      encrypt_block-IsSent self upload coding aead (draws job.block_id) job.block block own e in
    subst (AllOwn self) all (
      AllOwn-append self own rest
        (subst (AllOwn self) (sym j) (made-AllOwn self upload self.config.total_shards chunks sent))
        (encrypt_blocks-AllOwn self coding aead upload draws jobs
          (insert_at job.block_id block before) split rest e'))
