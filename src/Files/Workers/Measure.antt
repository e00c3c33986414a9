-- ===== src/Files/Workers/Measure.antt =====
-- How many steps the upload workers can still make.
use kairos_p2p_engine.Base.{
  ℕ, zero, suc, ◌+◌, ◌<◌, ◌≤◌, Bool, List, [], ◌∷◌, ◌++◌, ◌≡◌, refl, Bytes, length, arith,
}
use kairos_p2p_engine.Models.{ChunkRequest}
use kairos_p2p_engine.Process.{Process}
use kairos_p2p_engine.Process.Json.{Json}
use kairos_p2p_engine.Files.Encrypt.{UploadJob}
use kairos_p2p_engine.Files.Sending.{Sent}
use kairos_p2p_engine.Files.Workers.{
  Reader, reading, close, stop, Pc, idle, sending, noting, ended, Move, take, skip, saved, refused,
  note, give_up, Pipeline, Step, send, work, finish, Run, start, later, all_idle,
}

-- At most so many steps for a worker, a job in the channel, and a job that is not sent yet.
abbrev pub steps_left : Pc → ℕ
steps_left idle = 1
steps_left (sending request nodes) = 3 + length nodes
steps_left (noting request node) = 2
steps_left ended = 0

abbrev pub workers_left : List Pc → ℕ
workers_left [] = 0
workers_left (pc ∷ pcs) = steps_left pc + workers_left pcs

abbrev pub queue_left : List UploadJob → ℕ
queue_left [] = 0
queue_left (job ∷ jobs) = 3 + length job.target_nodes + queue_left jobs

-- Of a job that no worker has taken: it is sent, taken, offered to each node, and noted or lost.
abbrev pub job_steps : List UploadJob → ℕ
job_steps [] = 0
job_steps (job ∷ jobs) = 4 + length job.target_nodes + job_steps jobs

workers_left-append :
    (xs ys : List Pc) → workers_left (xs ++ ys) ≡ workers_left xs + workers_left ys
workers_left-append [] ys = omega arith
workers_left-append (x ∷ xs) ys = omega (arith, workers_left-append xs ys)

queue_left-append : (xs ys : List UploadJob) → queue_left (xs ++ ys) ≡ queue_left xs + queue_left ys
queue_left-append [] ys = omega arith
queue_left-append (x ∷ xs) ys = omega (arith, queue_left-append xs ys)

pub workers_left-all_idle : (count : ℕ) → workers_left (all_idle count) ≡ count
workers_left-all_idle zero = refl
workers_left-all_idle (suc n) = omega (arith, workers_left-all_idle n)

abbrev pub reader_left : Reader → ℕ
reader_left reading = 1
reader_left _ = 0

module _ {W : Type 0} (save : W → Bytes → ChunkRequest → W × Bool) {D F : Type 0}
    (self : Process D F) (json : Json) where
  abbrev pub left : Pipeline save self json → ℕ
  left p = reader_left p.reader + job_steps p.unsent + queue_left p.queue + workers_left p.workers

  Move-left :
      {s s' : Sent W} {queue queue' : List UploadJob} {pc pc' : Pc}
      → Move save self json s queue pc s' queue' pc'
      → queue_left queue' + steps_left pc' < queue_left queue + steps_left pc
  Move-left (take _) = omega arith
  Move-left (skip _) = omega arith
  Move-left (saved _) = omega arith
  Move-left (refused _) = omega arith
  Move-left note = omega arith
  Move-left give_up = omega arith

  Step-left :
      {capacity : ℕ} {p q : Pipeline save self json}
      → Step save self json capacity p q
      → left q < left p
  Step-left {p = p} (send {job} {unsent} e h) =
      rw e (omega (arith, queue_left-append p.queue (job ∷ [])))
  Step-left (work before {pc} {pc'} after e m) = rw e (
      omega (
        arith,
        Move-left m,
        workers_left-append before (pc ∷ after),
        workers_left-append before (pc' ∷ after),
      ))
  Step-left (close e _) = rw e (omega arith)
  Step-left (stop e) = rw e (omega arith)
  Step-left (finish before after e _ _) = rw e (
      omega (
        arith,
        workers_left-append before (idle ∷ after),
        workers_left-append before (ended ∷ after),
      ))

  pub Run-left :
      {capacity : ℕ} {p : Pipeline save self json} {k : ℕ} {q : Pipeline save self json}
      → Run save self json capacity p k q
      → k + left q ≤ left p
  Run-left (start e) = omega (arith, e)
  Run-left (later r s e) = omega (arith, Run-left r, Step-left s, e)
