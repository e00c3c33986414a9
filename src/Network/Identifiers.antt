-- ===== src/Network/Identifiers.antt =====
-- The identifiers of the chunks of an upload: those that were drawn, block by block.
use kairos_p2p_engine.Base.{
  ℕ, zero, suc, ◌+◌, ◌≤◌, ◌<◌, ◌≡◌, refl, sym, ap, ◌∙◌, subst, Bool, false, none, List, [], ◌∷◌,
  ◌++◌, Bytes, ◌==◌, eq_iff, elem, elem-append, IsDistinct, ok, ok-injective, length, get_elem?,
  insert_at, arith, Bool-cases, Option-cases, Result-cases, inl, inr,
}
use kairos_p2p_engine.Models.{Chunk, FileBlock}
use kairos_p2p_engine.Badger.{BadgerLaws}
use kairos_p2p_engine.Config.{Config}
use kairos_p2p_engine.Crypto.Library.{Aead}
use kairos_p2p_engine.Database.Laws.{stored}
use kairos_p2p_engine.Process.{Process}
use kairos_p2p_engine.Process.Json.{Json}
use kairos_p2p_engine.Cleanup.{chunks}
use kairos_p2p_engine.Files.Coding.{Coding}
use kairos_p2p_engine.Files.Blocks.{CryptoJob, IsNumbered}
use kairos_p2p_engine.Files.Encrypt.{
  UploadJob, Upload, Draws, make_chunk, make_chunks, jobs_of, encrypt_blocks,
}
use kairos_p2p_engine.Files.Encrypt.Inversion.{encrypt_block-IsEncrypted}
use kairos_p2p_engine.Files.Reconstruct.WholeFile.{step_made}
use kairos_p2p_engine.Network.{Net}
use kairos_p2p_engine.Network.Chunks.{job_ids, AllFresh}
use kairos_p2p_engine.Network.Jobs.{job_ids-append}

-- `m` identifiers of a block from the `j`-th on, and those of `m` blocks of `n` chunks.
abbrev ids_from : Draws → ℕ → ℕ → List Bytes
ids_from draws j zero = []
ids_from draws j (suc m) = draws.chunk_ids j ∷ ids_from draws (j + 1) m

abbrev pub all_ids : (ℕ → Draws) → ℕ → ℕ → ℕ → List Bytes
all_ids draws n i zero = []
all_ids draws n i (suc m) = ids_from (draws i) 0 n ++ all_ids draws n (i + 1) m

module _ (coding : Coding) (aead : Aead) (config : Config) (upload : Upload) where
  job_ids-make_chunks :
      (draws : Draws) (shards : List Bytes) (parts : List (ℕ × Bytes)) (n j : ℕ)
      (made : List (Chunk × UploadJob))
      → make_chunks config upload draws shards parts n j ≡ ok made
      → job_ids (jobs_of made) ≡ ids_from draws j n
  unfolding make_chunks make_chunk
  job_ids-make_chunks draws shards parts zero j made h =
      subst (λ m. job_ids (jobs_of m) ≡ []) (ok-injective h) refl
  job_ids-make_chunks draws shards parts (suc n) j made h =
      elim (Option-cases (get_elem? shards j)) [
        | inl e ↦ absurd (ground arith)
        | inr (s, e) ↦ elim (Option-cases (get_elem? parts j)) [
          | inl e' ↦ absurd (ground arith)
          | inr ((k, v), e') ↦
              elim (Result-cases (make_chunks config upload draws shards parts n (j + 1))) [
                | inl (x, r) ↦ absurd (ground arith)
                | inr (rest, r) ↦
                    subst (λ m. job_ids (jobs_of m) ≡ ids_from draws j (suc n))
                      (ok-injective (rw (e, e', r) at h))
                      (ap (λ t. draws.chunk_ids j ∷ t)
                        (job_ids-make_chunks draws shards parts n (j + 1) rest r))
              ]
        ]
      ]

  pub job_ids-encrypt_blocks :
      (draws : ℕ → Draws) (i : ℕ) (jobs : List CryptoJob) (before split : List (ℕ × FileBlock))
      (made : List UploadJob)
      → IsNumbered i jobs
      → encrypt_blocks coding aead config upload draws jobs before ≡ (split, (made, false))
      → job_ids made ≡ all_ids draws config.total_shards i (length jobs)
  unfolding encrypt_blocks
  job_ids-encrypt_blocks draws i [] before split made numbered h = ap (λ t. job_ids t.1.0) (sym h)
  job_ids-encrypt_blocks draws i (job ∷ jobs) before split made numbered h =
      let (block, own, rest, e, e', parts) =
        step_made coding aead config upload draws job jobs before split made h in
      let r =
        encrypt_block-IsEncrypted coding aead config upload (draws job.block_id) job.block block own
          e in
      ap job_ids (sym parts)
      ∙ job_ids-append own rest
      ∙ ap (λ t. t ++ job_ids rest)
          (ap job_ids r.jobs_made
            ∙ job_ids-make_chunks (draws job.block_id) r.data_chunks r.key_parts config.total_shards
                0 r.made r.chunks_made
            ∙ ap (λ b. ids_from (draws b) 0 config.total_shards) numbered.0)
      ∙ ap (λ t. ids_from (draws i) 0 config.total_shards ++ t)
          (job_ids-encrypt_blocks draws (i + 1) jobs (insert_at job.block_id block before) split
            rest numbered.1 e')

module _ (draws : ℕ → Draws) (n : ℕ)
    (differ : (k j k' j' : ℕ)
      → j < n
      → j' < n
      → (draws k).chunk_ids j ≡ (draws k').chunk_ids j'
      → (k ≡ k') × (j ≡ j')) where
  elem-ids_from :
      (k j k' j' m : ℕ)
      → j < n
      → j' + m ≤ n
      → (k ≡ k' → j < j')
      → elem ((draws k).chunk_ids j) (ids_from (draws k') j' m) ≡ false
  elem-ids_from k j k' j' zero hj hm h = refl
  elem-ids_from k j k' j' (suc m) hj hm h =
      elim (Bool-cases ((draws k').chunk_ids j' == (draws k).chunk_ids j)) [
        | inl e ↦
            let (a, b) =
              differ k' j' k j (omega arith) hj
                ((eq_iff ((draws k').chunk_ids j') ((draws k).chunk_ids j)).0 e) in
            absurd (omega (arith, h (sym a), b))
        | inr e ↦ rw e (elem-ids_from k j k' (j' + 1) m hj (omega arith) (λ q. omega (arith, h q)))
      ]

  elem-all_ids :
      (k j i m : ℕ) → j < n → k < i → elem ((draws k).chunk_ids j) (all_ids draws n i m) ≡ false
  elem-all_ids k j i zero hj hk = refl
  elem-all_ids k j i (suc m) hj hk =
      elem-append ((draws k).chunk_ids j) (ids_from (draws i) 0 n) (all_ids draws n (i + 1) m)
      ∙ rw (elem-ids_from k j i 0 n hj (omega arith) (λ q. absurd (omega (arith, q, hk))))
          (elem-all_ids k j (i + 1) m hj (omega arith))

  ids_from-IsDistinct :
      (k j m : ℕ) (ys : List Bytes)
      → j + m ≤ n
      → IsDistinct ys
      → ((j' : ℕ) → j' < n → elem ((draws k).chunk_ids j') ys ≡ false)
      → IsDistinct (ids_from (draws k) j m ++ ys)
  ids_from-IsDistinct k j zero ys hm d out = d
  ids_from-IsDistinct k j (suc m) ys hm d out = (
    elem-append ((draws k).chunk_ids j) (ids_from (draws k) (j + 1) m) ys
        ∙ rw (elem-ids_from k j k (j + 1) m (omega arith) (omega arith) (λ q. omega arith))
            (out j (omega arith)),
    ids_from-IsDistinct k (j + 1) m ys (omega arith) d out,
  )

  pub all_ids-IsDistinct : (i m : ℕ) → IsDistinct (all_ids draws n i m)
  all_ids-IsDistinct i zero = tt
  all_ids-IsDistinct i (suc m) =
      ids_from-IsDistinct i 0 n (all_ids draws n (i + 1) m) (omega arith)
        (all_ids-IsDistinct (i + 1) m) (λ j hj. elem-all_ids i j (i + 1) m hj (omega arith))

module _ {B E G : Type 0} (nodes : Process E G) (json : Json) (is_up : Bytes → Bool)
    (laws : BadgerLaws nodes.badger) (w : Net B E) where
  abbrev pub IsNew : List Bytes → Type 0
  IsNew [] = Unit {0}
  IsNew (id ∷ ids) = ((node : Bytes) → stored laws (w.nodes node) chunks id ≡ none) × IsNew ids

  IsNew-append : (xs ys : List Bytes) → IsNew xs → IsNew ys → IsNew (xs ++ ys)
  IsNew-append [] ys l r = r
  IsNew-append (x ∷ xs) ys l r = (l.0, IsNew-append xs ys l.1 r)

  pub IsNew-AllFresh :
      (jobs : List UploadJob) → IsNew (job_ids jobs) → AllFresh nodes json is_up laws w jobs
  IsNew-AllFresh [] h = tt
  IsNew-AllFresh (job ∷ jobs) h = (h.0, IsNew-AllFresh jobs h.1)

  module _ (draws : ℕ → Draws)
      (fresh : (k j : ℕ) (node : Bytes)
        → stored laws (w.nodes node) chunks ((draws k).chunk_ids j) ≡ none) where
    ids_from-IsNew : (k j m : ℕ) → IsNew (ids_from (draws k) j m)
    ids_from-IsNew k j zero = tt
    ids_from-IsNew k j (suc m) = (λ node. fresh k j node, ids_from-IsNew k (j + 1) m)

    pub all_ids-IsNew : (n i m : ℕ) → IsNew (all_ids draws n i m)
    all_ids-IsNew n i zero = tt
    all_ids-IsNew n i (suc m) =
        IsNew-append (ids_from (draws i) 0 n) (all_ids draws n (i + 1) m) (ids_from-IsNew i 0 n)
          (all_ids-IsNew n (i + 1) m)
