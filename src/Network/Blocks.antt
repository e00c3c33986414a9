-- ===== src/Network/Blocks.antt =====
-- The blocks of a manifest, beside the chunks that the upload workers leave on the nodes.
use kairos_p2p_engine.Base.{
  nat_eq, ℕ, zero, suc, ◌≡◌, refl, sym, ap, ◌∙◌, subst, Bool, true, false, Option, none, some, List,
  [], ◌∷◌, ◌++◌, Bytes, ◌==◌, eq_iff, elem, IsDistinct, arith, lookup_at, insert_at,
  lookup_at-insert_at, Bool-cases, Option-cases, inl, inr, if◌then◌else◌,
}
use kairos_p2p_engine.Models.{Chunk, FileBlock, ChunkRequest}
use kairos_p2p_engine.Badger.{BadgerLaws, IsReliable}
use kairos_p2p_engine.Crypto.Library.{Aead}
use kairos_p2p_engine.Database.Laws.{stored}
use kairos_p2p_engine.Process.{Process, Trusts}
use kairos_p2p_engine.Process.Json.{Json}
use kairos_p2p_engine.Cleanup.{chunks}
use kairos_p2p_engine.NodeServer.{request_chunk}
use kairos_p2p_engine.NodeServer.Chunks.{read_chunk, request_stored}
use kairos_p2p_engine.Files.Coding.{Coding}
use kairos_p2p_engine.Files.Blocks.{CryptoJob}
use kairos_p2p_engine.Files.Encrypt.{UploadJob, Upload, Draws, chunks_of, jobs_of, encrypt_blocks}
use kairos_p2p_engine.Files.Reconstruct.Loop.{ids, reaches, available, IsHonest}
use kairos_p2p_engine.Files.Reconstruct.WholeFile.{step_made}
use kairos_p2p_engine.Network.Jobs.{IsSent, made-ids, encrypt_block-IsSent, IsDistinct-parts}
use kairos_p2p_engine.Network.{Net, net_fetch}
use kairos_p2p_engine.Network.Chunks.{job_ids, AllStored}

module _ {B E G : Type 0} (nodes : Process E G) (json : Json) (is_up : Bytes → Bool)
    (laws : BadgerLaws nodes.badger) (w : Net B E) where
  abbrev fetch : Bytes → Bytes → Option ChunkRequest
  fetch = net_fetch nodes json is_up w

  stored_parts :
      (xs ys : List UploadJob)
      → AllStored nodes json is_up laws w (xs ++ ys)
      → AllStored nodes json is_up laws w xs × AllStored nodes json is_up laws w ys
  stored_parts [] ys h = (tt, h)
  stored_parts (x ∷ xs) ys h = let (l, r) = stored_parts xs ys h.1 in ((h.0, l), r)

  module _ (reliable : IsReliable laws) {D F : Type 0} (self : Process D F)
      (trusted : Trusts nodes self) (upload : Upload) where
    fetched :
        (node id : Bytes)
        → fetch node id ≡ (
            if is_up node
            then read_chunk nodes json laws reliable self trusted
                (stored laws (w.nodes node) chunks id)
            else none)
    unfolding net_fetch request_chunk
    fetched node id = elim (Bool-cases (is_up node)) [
      | inl up ↦
          rw (up, request_chunk)
            (request_stored nodes json laws reliable self trusted (w.nodes node) node id)
      | inr down ↦ rw (down, request_chunk) refl
    ]

    pub AllStored-IsHonest :
        (jobs : List UploadJob) → AllStored nodes json is_up laws w jobs → IsHonest fetch jobs
    AllStored-IsHonest [] h = tt
    AllStored-IsHonest (job ∷ jobs) h = (
      λ node reply f.
          elim (Option-cases (stored laws (w.nodes node) chunks job.chunk_req.chunk_id)) [
            | inl e ↦ absurd (ground (arith, fetched node job.chunk_req.chunk_id))
            | inr (v, e) ↦ ground (
              arith,
              fetched node job.chunk_req.chunk_id,
              h.0.1 node v e,
              json.chunk_request.decode-marshal job.chunk_req,
            )
          ],
      AllStored-IsHonest jobs h.1,
    )

    reaches-elem :
        (id node : Bytes) (reply : ChunkRequest) (targets : List Bytes)
        → elem node targets ≡ true
        → fetch node id ≡ some reply
        → reaches fetch id targets ≡ true
    reaches-elem id node reply [] m f = ground arith
    reaches-elem id node reply (t ∷ targets) m f = elim (Bool-cases (t == node)) [
      | inl e ↦ rw ((eq_iff t node).0 e, f) refl
      | inr e ↦ ground (arith, reaches-elem id node reply targets)
    ]

    all_available :
        (n : ℕ) (made : List (Chunk × UploadJob))
        → IsSent self n made
        → AllStored nodes json is_up laws w (jobs_of made)
        → available fetch (chunks_of made) ≡ n
    all_available zero [] sent h = refl
    all_available zero (m ∷ made) sent h = absurd sent
    all_available (suc n) [] sent h = absurd sent
    all_available (suc n) ((c, job) ∷ made) sent h =
        let (node, m, up, value) = h.0.0 in
        let answered : fetch node job.chunk_req.chunk_id ≡ some job.chunk_req = ground (
          arith,
          fetched node job.chunk_req.chunk_id,
          json.chunk_request.decode-marshal job.chunk_req,
        ) in
        let reached : reaches fetch c.chunk_id c.nodes ≡ true =
          reaches-elem c.chunk_id node job.chunk_req c.nodes (rw sent.1 at m)
            (ap (fetch node) (sym sent.0) ∙ answered) in
        rw reached (omega (arith, all_available n made sent.3 h.1))

    -- Every block of the finished manifest has different chunks, and all of them can be had.
    pub encrypt_blocks-reachable :
        (coding : Coding) (aead : Aead) (draws : ℕ → Draws) (jobs : List CryptoJob)
        (before split : List (ℕ × FileBlock)) (made : List UploadJob)
        → encrypt_blocks coding aead self.config upload draws jobs before ≡ (split, (made, false))
        → IsDistinct (job_ids made)
        → AllStored nodes json is_up laws w made
        → ((k : ℕ) (block : FileBlock)
            → lookup_at k before ≡ some block
            → IsDistinct (ids block.chunks)
              × (available fetch block.chunks ≡ self.config.total_shards))
        → (k : ℕ) (block : FileBlock) → lookup_at k split ≡ some block
        → IsDistinct (ids block.chunks) × (available fetch block.chunks ≡ self.config.total_shards)
    unfolding encrypt_blocks
    encrypt_blocks-reachable coding aead draws [] before split made h distinct all known k block l =
        known k block (ap (lookup_at k) (ap (λ t. t.0) h) ∙ l)
    encrypt_blocks-reachable coding aead draws (job ∷ jobs) before split made h distinct all known k
          block l =
        let (b, own, rest, e, e', parts) =
          step_made coding aead self.config upload draws job jobs before split made h in
        let (cs, c, j, sent) =
          encrypt_block-IsSent self upload coding aead (draws job.block_id) job.block b own e in
        let (d, d') = IsDistinct-parts own rest (rw parts distinct) in
        let (a, a') = stored_parts own rest (rw parts all) in
        let here : IsDistinct (ids b.chunks)
            × (available fetch b.chunks ≡ self.config.total_shards) =
          rw c (
            subst IsDistinct (ap job_ids j ∙ made-ids self upload self.config.total_shards cs sent)
                d,
            all_available self.config.total_shards cs sent (rw j at a),
          ) in
        encrypt_blocks-reachable coding aead draws jobs (insert_at job.block_id b before) split rest
          e' d' a'
          (λ i x m. elim (Bool-cases (nat_eq job.block_id i)) [
            | inl same ↦
                let x_is : b ≡ x = ground (arith, lookup_at-insert_at job.block_id i b before) in
                subst
                  (λ y.
                    IsDistinct (ids y.chunks)
                    × (available fetch y.chunks ≡ self.config.total_shards))
                  x_is here
            | inr other ↦ known i x (ground (arith, lookup_at-insert_at job.block_id i b before))
          ])
          k block l
