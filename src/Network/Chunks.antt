-- ===== src/Network/Chunks.antt =====
-- Where the upload workers leave the chunks.
use kairos_p2p_engine.Base.{
  ◌≡◌, refl, sym, ap, ◌∙◌, Bool, true, false, ◌&&◌, Option, none, some, List, [], ◌∷◌, Bytes, ◌==◌,
  eq_iff, eq_refl, elem, IsDistinct, arith, Bool-cases, inl, inr, if◌then◌else◌,
}
use mathlib.Core.Logic.{◌⊎◌}
use kairos_p2p_engine.Models.{ChunkRequest}
use kairos_p2p_engine.Badger.{BadgerLaws, IsReliable}
use kairos_p2p_engine.Database.{put_data}
use kairos_p2p_engine.Database.Laws.{stored, stored-put, put_data_ok}
use kairos_p2p_engine.Process.{Process, sign_or_nil, Trusts}
use kairos_p2p_engine.Process.Json.{Json}
use kairos_p2p_engine.Cleanup.{chunks}
use kairos_p2p_engine.NodeServer.Chunks.{signed_chunk, saved}
use kairos_p2p_engine.Files.Encrypt.{UploadJob}
use kairos_p2p_engine.Files.Sending.{Sent, send_chunk, upload_job, upload_jobs}
use kairos_p2p_engine.Network.{Net, set_node, net_save}

abbrev pub job_ids : List UploadJob → List Bytes
job_ids [] = []
job_ids (job ∷ jobs) = job.chunk_req.chunk_id ∷ job_ids jobs

module _ {D F : Type 0} (self : Process D F) where
  -- The request is the process's own, and not signed yet.
  abbrev pub IsOwn : ChunkRequest → Type 0
  IsOwn request = record request { public_key = self.config.public_key; signature = [] } ≡ request

  abbrev pub AllOwn : List UploadJob → Type 0
  AllOwn [] = Unit {0}
  AllOwn (job ∷ jobs) = IsOwn job.chunk_req × AllOwn jobs

module _ {E G : Type 0} (nodes : Process E G) (json : Json) (is_up : Bytes → Bool)
    (laws : BadgerLaws nodes.badger) where
  module _ {B : Type 0} where
    -- No node has a chunk of that identifier.
    abbrev pub AllFresh : Net B E → List UploadJob → Type 0
    AllFresh w [] = Unit {0}
    AllFresh w (job ∷ jobs) =
        ((node : Bytes) → stored laws (w.nodes node) chunks job.chunk_req.chunk_id ≡ none)
        × AllFresh w jobs

    -- One of the job's nodes is up and has the chunk, and no node has another text under its
    -- identifier.
    abbrev pub IsStored : Net B E → UploadJob → Type 0
    IsStored w job =
        ((node : Bytes) × (elem node job.target_nodes ≡ true)
          × (is_up node ≡ true)
          × (stored laws (w.nodes node) chunks job.chunk_req.chunk_id
              ≡ some (json.chunk_request.marshal job.chunk_req)))
        × ((node value : Bytes)
            → stored laws (w.nodes node) chunks job.chunk_req.chunk_id ≡ some value
            → value ≡ json.chunk_request.marshal job.chunk_req)

    abbrev pub AllStored : Net B E → List UploadJob → Type 0
    AllStored w [] = Unit {0}
    AllStored w (job ∷ jobs) = IsStored w job × AllStored w jobs

    module _ {D F : Type 0} (self : Process D F) (reliable : IsReliable laws)
        (trusted : Trusts nodes self) where
      -- The world after a node has saved a request.
      abbrev pub stored_at : Net B E → Bytes → ChunkRequest → Net B E
      stored_at w node request =
          set_node w node
            (put_data nodes.badger (w.nodes node) chunks request.chunk_id
              (json.chunk_request.marshal request)).0

      pub stored-stored_at :
          (w : Net B E) (node a id : Bytes) (request : ChunkRequest)
          → stored laws ((stored_at w node request).nodes a) chunks id ≡ (
              if (node == a) && (request.chunk_id == id)
              then some (json.chunk_request.marshal request)
              else stored laws (w.nodes a) chunks id)
      stored-stored_at w node a id request = elim (Bool-cases (node == a)) [
        | inl e ↦ rw e (
            ground (
              arith,
              stored-put laws (w.nodes node) chunks chunks request.chunk_id id
                  (json.chunk_request.marshal request) refl refl,
              put_data_ok laws reliable (w.nodes node) chunks request.chunk_id
                  (json.chunk_request.marshal request),
              ap w.nodes ((eq_iff node a).0 e),
            ))
        | inr e ↦ rw e refl
      ]

      pub net_save_lem :
          (w : Net B E) (node : Bytes) (request : ChunkRequest)
          → IsOwn self request
          → net_save nodes json is_up w node (signed_chunk self json request)
            ≡ (if is_up node then (stored_at w node request, true) else (w, false))
      unfolding net_save
      net_save_lem w node request own =
          rw (saved nodes json laws reliable self trusted (w.nodes node) request, own) refl

      send_chunk-cases :
          (w : Net B E) (request : ChunkRequest) (targets : List Bytes)
          → IsOwn self request
          → (send_chunk (net_save nodes json is_up) w (signed_chunk self json request) targets
              ≡ (w, none))
            ⊎ ((node : Bytes) × (elem node targets ≡ true)
                × (is_up node ≡ true)
                × (send_chunk (net_save nodes json is_up) w (signed_chunk self json request) targets
                    ≡ (stored_at w node request, some node)))
      unfolding send_chunk
      send_chunk-cases w request [] own = inl refl
      send_chunk-cases w request (node ∷ targets) own = elim (Bool-cases (is_up node)) [
        | inl up ↦
            inr (node, rw (eq_refl node) refl, up, rw (net_save_lem w node request own, up) refl)
        | inr down ↦
            rw (net_save_lem w node request own, down)
              (elim (send_chunk-cases w request targets own) [
                | inl e ↦ inl e
                | inr (a, m, up, e) ↦ inr (a, rw m (ground arith), up, e)
              ])
      ]

      -- What one job does.
      upload_job-cases :
          (s : Sent (Net B E)) (job : UploadJob)
          → IsOwn self job.chunk_req
          → ((upload_job (net_save nodes json is_up) self json s job).failed ≡ true)
            ⊎ ((node : Bytes) × (elem node job.target_nodes ≡ true)
                × (is_up node ≡ true)
                × (s.failed ≡ (upload_job (net_save nodes json is_up) self json s job).failed)
                × ((upload_job (net_save nodes json is_up) self json s job).world
                    ≡ stored_at s.world node job.chunk_req))
      unfolding upload_job
      upload_job-cases s job own =
          let message = json.chunk_request.marshal job.chunk_req in
          let signed : signed_chunk self json job.chunk_req
              ≡ record job.chunk_req { signature = sign_or_nil self message } =
            ap {A = ChunkRequest}
              (λ r. record r { signature = sign_or_nil self (json.chunk_request.marshal r) }) own in
          let sent_as : (r : Net B E × Option Bytes)
              → send_chunk (net_save nodes json is_up) s.world
                  (signed_chunk self json job.chunk_req) job.target_nodes
                ≡ r
              → send_chunk (net_save nodes json is_up) s.world
                  (record job.chunk_req { signature = sign_or_nil self message }) job.target_nodes
                ≡ r =
            λ r e.
              ap (λ c. send_chunk (net_save nodes json is_up) s.world c job.target_nodes)
                (sym signed)
              ∙ e in
          rw (upload_job, trusted.signs message)
            (elim (send_chunk-cases s.world job.chunk_req job.target_nodes own) [
              | inl e ↦ inl (rw (ap (λ t. t.1) (sent_as (s.world, none) e)) refl)
              | inr (a, m, up, e) ↦
                  let t = sent_as (stored_at s.world a job.chunk_req, some a) e in
                  inr (a, m, up, rw (ap (λ t. t.1) t) refl, rw (ap (λ t. t.1) t) (ap (λ t. t.0) t))
            ])

      failed_before :
          (s : Sent (Net B E)) (jobs : List UploadJob)
          → AllOwn self jobs
          → (upload_jobs (net_save nodes json is_up) self json s jobs).failed ≡ false
          → s.failed ≡ false
      unfolding upload_jobs
      failed_before s [] own h = h
      failed_before s (job ∷ jobs) own h =
          let s' = upload_job (net_save nodes json is_up) self json s job in
          elim (upload_job-cases s job own.0) [
            | inl e ↦ ground (arith, e, failed_before s' jobs own.1 h)
            | inr (node, m, up, f, e) ↦ f ∙ failed_before s' jobs own.1 h
          ]

      -- Other identifiers keep their chunks.
      kept :
          (s : Sent (Net B E)) (jobs : List UploadJob) (a id : Bytes)
          → AllOwn self jobs
          → elem id (job_ids jobs) ≡ false
          → (upload_jobs (net_save nodes json is_up) self json s jobs).failed ≡ false
          → stored laws
              ((upload_jobs (net_save nodes json is_up) self json s jobs).world.nodes a)
              chunks
              id
            ≡ stored laws (s.world.nodes a) chunks id
      unfolding upload_jobs
      kept s [] a id own out h = refl
      kept s (job ∷ jobs) a id own out h =
          let s' = upload_job (net_save nodes json is_up) self json s job in
          elim (upload_job-cases s job own.0) [
            | inl e ↦ ground (arith, e, failed_before s' jobs own.1 h)
            | inr (node, m, up, f, e) ↦
                kept s' jobs a id own.1 (ground arith) h
                ∙ rw e (ground (arith, stored-stored_at s.world node a id job.chunk_req))
          ]

      still_fresh :
          (w : Net B E) (node : Bytes) (request : ChunkRequest) (jobs : List UploadJob)
          → elem request.chunk_id (job_ids jobs) ≡ false
          → AllFresh w jobs
          → AllFresh (stored_at w node request) jobs
      still_fresh w node request [] out fresh = fresh
      still_fresh w node request (job ∷ jobs) out fresh = (
        λ a. ground (
          arith,
          stored-stored_at w node a job.chunk_req.chunk_id request,
          eq_iff job.chunk_req.chunk_id request.chunk_id,
          eq_iff request.chunk_id job.chunk_req.chunk_id,
          fresh.0 a,
        ),
        still_fresh w node request jobs (ground arith) fresh.1,
      )

      -- When the workers report no error, every chunk is on one of its nodes.
      pub upload_jobs-AllStored :
          (s : Sent (Net B E)) (jobs : List UploadJob)
          → AllOwn self jobs
          → IsDistinct (job_ids jobs)
          → AllFresh s.world jobs
          → (upload_jobs (net_save nodes json is_up) self json s jobs).failed ≡ false
          → AllStored (upload_jobs (net_save nodes json is_up) self json s jobs).world jobs
      unfolding upload_jobs
      upload_jobs-AllStored s [] own distinct fresh h = distinct
      upload_jobs-AllStored s (job ∷ jobs) own distinct fresh h =
          let s' = upload_job (net_save nodes json is_up) self json s job in
          elim (upload_job-cases s job own.0) [
            | inl e ↦ ground (arith, e, failed_before s' jobs own.1 h)
            | inr (node, m, up, f, e) ↦
                let after : (a : Bytes)
                    → stored laws
                        ((upload_jobs (net_save nodes json is_up) self json s' jobs).world.nodes a)
                        chunks job.chunk_req.chunk_id
                      ≡ (if node == a
                          then some (json.chunk_request.marshal job.chunk_req)
                          else none) =
                  λ a.
                    kept s' jobs a job.chunk_req.chunk_id own.1 distinct.0 h
                    ∙ rw e (
                        ground (
                          arith,
                          stored-stored_at s.world node a job.chunk_req.chunk_id job.chunk_req,
                          eq_refl job.chunk_req.chunk_id,
                          fresh.0 a,
                        )) in
                (
                  (
                    (node, m, up, ground (arith, after node, eq_refl node)),
                    λ a value k. ground (arith, after a),
                  ),
                  upload_jobs-AllStored s' jobs own.1 distinct.1
                      (rw e (still_fresh s.world node job.chunk_req jobs distinct.0 fresh.1)) h,
                )
          ]
