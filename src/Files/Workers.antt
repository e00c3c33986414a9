-- ===== src/Files/Workers.antt =====
-- The upload workers of `StreamAndUploadFile` as they run side by side: a worker stands between two
-- steps at a `Pc`, a step is one worker's next access of what they share, a job that a crypto worker
-- sends, or what becomes of the reading loop, and any of them may be next. A `SaveChunk` call, with
-- the connection to the node, is one step, `save`. `Files.Sending` has the same workers with whole jobs.
use kairos_p2p_engine.Base.{
  zero, suc, ℕ, ◌+◌, ◌<◌, Bool, true, false, Option, none, some, List, [], ◌∷◌, ◌++◌, ◌≡◌, Bytes,
  ok, err, insert, length, Result,
}
use kairos_p2p_engine.Models.{ChunkRequest}
use kairos_p2p_engine.Crypto.{CryptoError}
use kairos_p2p_engine.Process.{Process, sign}
use kairos_p2p_engine.Process.Json.{Json}
use kairos_p2p_engine.Files.Encrypt.{UploadJob}
use kairos_p2p_engine.Files.Sending.{Sent}
pub mod Measure
pub mod Channel
pub mod Progress

-- Where a worker stands, with its local variables.
pub data Pc : Type 0 where
  idle : Pc  -- at the head of `for job := range uploadJobs`
  sending : (request : ChunkRequest) (nodes : List Bytes) → Pc  -- in the loop over the nodes
  noting : (request : ChunkRequest) (node : Bytes) → Pc  -- before `successfulUploads.Store`
  ended : Pc

-- The goroutine that reads the file and fills `cryptoJobs`.
pub data Reader : Type 0 where
  reading : Reader  -- in its loop, or in `cryptoWg.Wait`
  closed : Reader  -- past `close(uploadJobs)`
  -- It returned on a read error, or waits for crypto workers that have returned: it will not close
  -- `uploadJobs`.
  stopped : Reader

abbrev pub all_idle : ℕ → List Pc
all_idle zero = []
all_idle (suc n) = idle ∷ all_idle n

-- What `uploadWg.Wait` waits for.
abbrev pub AllEnded : List Pc → Type 0
AllEnded [] = Unit {0}
AllEnded (pc ∷ pcs) = (pc ≡ ended) × AllEnded pcs

module _ {W : Type 0} (save : W → Bytes → ChunkRequest → W × Bool) {D F : Type 0}
    (self : Process D F) (json : Json) where
  -- The signature of a job's request.
  abbrev pub signed : UploadJob → Result CryptoError Bytes
  signed job = sign self (json.chunk_request.marshal job.chunk_req)

  abbrev pub request_with : UploadJob → Bytes → ChunkRequest
  request_with job signature = record job.chunk_req { signature = signature }

  -- One step of a worker, with the jobs that are in `uploadJobs`.
  pub data Move : Sent W → List UploadJob → Pc → Sent W → List UploadJob → Pc → Type 0 where
    take :
        {s : Sent W} {job : UploadJob} {queue : List UploadJob} {signature : Bytes}
        → signed job ≡ ok signature
        → Move s (job ∷ queue) idle s queue (sending (request_with job signature) job.target_nodes)
    skip :
        {s : Sent W} {job : UploadJob} {queue : List UploadJob} {e : CryptoError}
        → signed job ≡ err e
        → Move s (job ∷ queue) idle s queue idle
    saved :
        {s : Sent W} {queue : List UploadJob} {request : ChunkRequest} {node : Bytes}
        {nodes : List Bytes}
        → (save s.world node request).1 ≡ true
        → Move s queue
            (sending request (node ∷ nodes))
            (record s { world = (save s.world node request).0 })
            queue
            (noting request node)
    refused :
        {s : Sent W} {queue : List UploadJob} {request : ChunkRequest} {node : Bytes}
        {nodes : List Bytes}
        → (save s.world node request).1 ≡ false
        → Move s queue
            (sending request (node ∷ nodes))
            (record s { world = (save s.world node request).0 })
            queue
            (sending request nodes)
    note :
        {s : Sent W} {queue : List UploadJob} {request : ChunkRequest} {node : Bytes}
        → Move s queue
            (noting request node)
            (record s { placed = insert request.chunk_id node s.placed })
            queue
            idle
    give_up :
        {s : Sent W} {queue : List UploadJob} {request : ChunkRequest}
        → Move s queue (sending request []) (record s { failed = true }) queue idle

  -- The reading loop, the jobs that crypto workers have yet to send, the channel, and the workers.
  pub record Pipeline : Type 0 where
    pub reader : Reader
    pub unsent : List UploadJob
    pub queue : List UploadJob
    pub sent : Sent W
    pub workers : List Pc

  -- `capacity` is that of the channel `uploadJobs`. It is closed when the loop has read the whole
  -- file and the crypto workers have sent everything; whether the loop gets there depends on the
  -- file and on the Reed-Solomon library, so that it may also stop.
  pub data Step (capacity : ℕ) (p : Pipeline) : Pipeline → Type 0 where
    send :
        {job : UploadJob} {unsent : List UploadJob}
        → p.unsent ≡ job ∷ unsent
        → length p.queue < capacity
        → Step capacity p (record p { unsent = unsent; queue = p.queue ++ (job ∷ []) })
    work :
        (before : List Pc) {pc pc' : Pc} (after : List Pc) {s : Sent W} {queue : List UploadJob}
        → p.workers ≡ before ++ (pc ∷ after)
        → Move p.sent p.queue pc s queue pc'
        → Step capacity p (record p { queue = queue; sent = s; workers = before ++ (pc' ∷ after) })
    close : p.reader ≡ reading → p.unsent ≡ [] → Step capacity p (record p { reader = closed })
    stop : p.reader ≡ reading → Step capacity p (record p { reader = stopped })
    finish :
        (before after : List Pc)
        → p.workers ≡ before ++ (idle ∷ after)
        → p.reader ≡ closed
        → p.queue ≡ []
        → Step capacity p (record p { workers = before ++ (ended ∷ after) })

  -- What `steps` steps lead to.
  pub data Run (capacity : ℕ) (p : Pipeline) : ℕ → Pipeline → Type 0 where
    start : {n : ℕ} → n ≡ 0 → Run capacity p n p
    later :
        {k n : ℕ} {q r : Pipeline}
        → Run capacity p k q
        → Step capacity q r
        → n ≡ 1 + k
        → Run capacity p n r

  -- `uploadWorkerCount` workers, before the first job.
  abbrev pub beginning : ℕ → Sent W → List UploadJob → Pipeline
  beginning count s jobs = record {
    reader = reading;
    unsent = jobs;
    queue = [];
    sent = s;
    workers = all_idle count;
  }
