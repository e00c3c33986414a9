-- ===== src/Files/Sending.antt =====
-- The upload workers of `StreamAndUploadFile`, the rollback, and the end of the upload. `save` is
-- the `SaveChunk` call of a node in a world `W` of nodes, true when it returns without an error
-- and reports success; a node that cannot be reached is false. The workers' jobs are taken one
-- after the other, in the order in which they are done.
use kairos_p2p_engine.Base.{
  Bool, true, ◌||◌, Option, none, some, List, [], ◌∷◌, Bytes, ok, err, insert, if◌then◌else◌,
}
use kairos_p2p_engine.Models.{ChunkRequest}
use kairos_p2p_engine.Process.{Process, sign}
use kairos_p2p_engine.Process.Json.{Json}
use kairos_p2p_engine.Files.Encrypt.{UploadJob}

-- The errors that end an upload after its blocks were read.
pub data UploadError : Type 0 where
  upload_pipeline_failed manifest_upload_failed : UploadError

-- The world, `successfulUploads`, and whether `errChan` holds an error.
pub record Sent (W : Type 0) : Type 0 where
  pub world : W
  pub placed : List (Bytes × Bytes)
  pub failed : Bool

module _ {W : Type 0} (save : W → Bytes → ChunkRequest → W × Bool) where
  -- The first node that saves the chunk, if any.
  unfoldable pub send_chunk : W → ChunkRequest → List Bytes → W × Option Bytes
  send_chunk w request [] = (w, none)
  send_chunk w request (node ∷ nodes) =
      let (w', saved) = save w node request in
      let rest = send_chunk w' request nodes in if saved then (w', some node) else rest

  module _ {D F : Type 0} (self : Process D F) (json : Json) where
    -- A job whose request cannot be signed is passed over.
    unfoldable pub upload_job : Sent W → UploadJob → Sent W
    upload_job s job = elim (sign self (json.chunk_request.marshal job.chunk_req)) [
      | err _ ↦ s
      | ok signature ↦
          let request = record job.chunk_req { signature = signature } in
          let (w', found) = send_chunk s.world request job.target_nodes in
          elim found [
            | none ↦ record { world = w'; placed = s.placed; failed = true }
            | some node ↦ record {
              world = w';
              placed = insert request.chunk_id node s.placed;
              failed = s.failed;
            }
          ]
    ]

    unfoldable pub upload_jobs : Sent W → List UploadJob → Sent W
    upload_jobs s [] = s
    upload_jobs s (job ∷ jobs) = upload_jobs (upload_job s job) jobs

-- `RequestChunkDeletion` of every chunk that was placed.
unfoldable pub roll_back : {W : Type 0} → (W → Bytes → Bytes → W) → W → List (Bytes × Bytes) → W
roll_back delete w [] = w
roll_back delete w ((chunk_id, node) ∷ placed) = roll_back delete (delete w node chunk_id) placed

-- The end of the upload; `publish` is `UploadFileManifest`.
unfoldable pub finish_upload :
    {W : Type 0} → (W → Bytes → Bytes → W) → (W → W × Bool) → Bool → Sent W → W × Option UploadError
finish_upload delete publish crypto_failed s =
    let (w', published) = publish s.world in
    if crypto_failed || s.failed
    then (roll_back delete s.world s.placed, some upload_pipeline_failed)
    else if published
    then (w', none)
    else (roll_back delete w' s.placed, some manifest_upload_failed)
