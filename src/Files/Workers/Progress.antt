-- ===== src/Files/Workers/Progress.antt =====
-- The end of a run of the upload workers.
use mathlib.Core.Logic.{◌⊎◌, inl, inr}
use kairos_p2p_engine.Base.{
  ◌∙◌, subst, ℕ, ◌+◌, ◌<◌, ◌≤◌, Bool, true, false, List, [], ◌∷◌, ◌++◌, ◌≡◌, refl, sym, ap, Bytes,
  length, Result-cases, Bool-cases, arith,
}
use kairos_p2p_engine.Models.{ChunkRequest}
use kairos_p2p_engine.Process.{Process}
use kairos_p2p_engine.Process.Json.{Json}
use kairos_p2p_engine.Files.Encrypt.{UploadJob}
use kairos_p2p_engine.Files.Sending.{Sent}
use kairos_p2p_engine.Files.Workers.Measure.{job_steps, workers_left-all_idle, Run-left}
use kairos_p2p_engine.Files.Workers.{
  Reader, reading, closed, stopped, close, Pc, idle, sending, noting, ended, Move, take, skip,
  saved, refused, note, give_up, Pipeline, Step, send, work, finish, Run, all_idle, beginning,
  AllEnded, signed, request_with,
}
use kairos_p2p_engine.Files.Workers.Channel.{
  is_ended, some_ended, all_ended, IsOpen, Run-IsOpen, starts-IsOpen,
}

-- The first worker that has not ended, if any.
abbrev Busy : List Pc → Type 0
Busy pcs =
    (before : List Pc) × (pc : Pc) × (after : List Pc) × (is_ended pc ≡ false)
    × (pcs ≡ before ++ (pc ∷ after))

find-Busy : (pcs : List Pc) → AllEnded pcs ⊎ Busy pcs
find-Busy [] = inl tt
find-Busy (ended ∷ pcs) = elim (find-Busy pcs) [
  | inl h ↦ inl (refl, h)
  | inr (before, pc, after, h, e) ↦ inr (ended ∷ before, pc, after, h, ap (λ t. ended ∷ t) e)
]
find-Busy (idle ∷ pcs) = inr ([], idle, pcs, refl, refl)
find-Busy (sending r nodes ∷ pcs) = inr ([], sending r nodes, pcs, refl, refl)
find-Busy (noting r node ∷ pcs) = inr ([], noting r node, pcs, refl, refl)

-- A worker that has a job in hand.
abbrev is_active : Pc → Bool
is_active idle = false
is_active ended = false
is_active _ = true

abbrev Active : List Pc → Type 0
Active pcs =
    (before : List Pc) × (pc : Pc) × (after : List Pc) × (is_active pc ≡ true)
    × (pcs ≡ before ++ (pc ∷ after))

Active-later : {pcs : List Pc} (pc : Pc) → Active pcs → Active (pc ∷ pcs)
Active-later pc (before, x, after, h, e) = (pc ∷ before, x, after, h, ap (λ t. pc ∷ t) e)

-- Without a worker that has a job in hand or has ended, all wait for a job.
find-Active : (pcs : List Pc) → some_ended pcs ≡ false → (pcs ≡ all_idle (length pcs)) ⊎ Active pcs
find-Active [] h = inl refl
find-Active (ended ∷ pcs) h = absurd (ground (arith, h))
find-Active (idle ∷ pcs) h = elim (find-Active pcs h) [
  | inl e ↦ inl (ap (λ t. idle ∷ t) e)
  | inr found ↦ inr (Active-later idle found)
]
find-Active (sending r nodes ∷ pcs) h = inr ([], sending r nodes, pcs, refl, refl)
find-Active (noting r node ∷ pcs) h = inr ([], noting r node, pcs, refl, refl)

module _ {W : Type 0} (save : W → Bytes → ChunkRequest → W × Bool) {D F : Type 0}
    (self : Process D F) (json : Json) where
  abbrev pub IsOver : Pipeline save self json → Type 0
  IsOver p = AllEnded p.workers × (p.unsent ≡ []) × (p.queue ≡ [])

  -- The channel is empty and stays open, and every worker waits for a job.
  abbrev pub IsStuck : ℕ → Pipeline save self json → Type 0
  IsStuck count p =
      (p.reader ≡ stopped) × (p.workers ≡ all_idle count) × (p.unsent ≡ []) × (p.queue ≡ [])

  -- What may come next without the loop's stopping.
  abbrev pub Next : ℕ → Pipeline save self json → Type 0
  Next capacity p =
      (q : Pipeline save self json) × Step save self json capacity p q
      × ((q.reader ≡ p.reader) ⊎ (q.reader ≡ closed))

  active-Next :
      (capacity : ℕ) (p : Pipeline save self json) (before : List Pc) (pc : Pc) (after : List Pc)
      → is_active pc ≡ true
      → p.workers ≡ before ++ (pc ∷ after)
      → Next capacity p
  active-Next capacity p before (sending request []) after h e =
      (_, work before after e give_up, inl refl)
  active-Next capacity p before (sending request (node ∷ nodes)) after h e =
      elim (Bool-cases (save p.sent.world node request).1) [
        | inl y ↦ (_, work before after e (saved y), inl refl)
        | inr n ↦ (_, work before after e (refused n), inl refl)
      ]
  active-Next capacity p before (noting request node) after h e =
      (_, work before after e note, inl refl)
  active-Next capacity p before idle after h e = absurd (ground (arith, h))
  active-Next capacity p before ended after h e = absurd (ground (arith, h))

  -- A worker at the head of its loop takes a job that is in the channel.
  taken-Next :
      (capacity : ℕ) (p : Pipeline save self json) (before after : List Pc) (job : UploadJob)
      (queue : List UploadJob)
      → p.workers ≡ before ++ (idle ∷ after)
      → p.queue ≡ job ∷ queue
      → Next capacity p
  taken-Next capacity p before after job queue e c =
      elim (Result-cases (signed save self json job)) [
        | inl (x, h) ↦ (
          _,
          work before after e
              (subst (λ t. Move save self json p.sent t idle p.sent queue idle) (sym c) (skip h)),
          inl refl,
        )
        | inr (x, h) ↦ (
          _,
          work before after e (
              subst
                (λ t.
                  Move save self json p.sent t idle p.sent queue
                    (sending (request_with save self json job x) job.target_nodes))
                (sym c) (take h)),
          inl refl,
        )
      ]

  -- Nothing is left to send or to take, and a worker is at the head of its loop.
  drained-Next :
      (capacity count : ℕ) (p : Pipeline save self json) (before after : List Pc) (reader : Reader)
      → IsOpen save self json count p
      → p.workers ≡ before ++ (idle ∷ after)
      → p.unsent ≡ []
      → p.queue ≡ []
      → p.reader ≡ reader
      → Next capacity p ⊎ IsStuck count p
  drained-Next capacity count p before after reading inv e u c r = inl (_, close r u, inr refl)
  drained-Next capacity count p before after closed inv e u c r =
      inl (_, finish before after e r c, inl refl)
  drained-Next capacity count p before after stopped inv e u c r =
      elim (Bool-cases (some_ended p.workers)) [
        | inl h ↦ let (done, none_queued) = inv.over h in absurd (ground (arith, r, done))
        | inr h ↦ elim (find-Active p.workers h) [
          | inl same ↦ inr (r, same ∙ ap all_idle inv.as_many, u, c)
          | inr (before, pc, after, busy, at) ↦ inl (active-Next capacity p before pc after busy at)
        ]
      ]

  idle-Next :
      (capacity count : ℕ) (p : Pipeline save self json) (before after : List Pc)
      (unsent queue : List UploadJob)
      → 0 < capacity
      → IsOpen save self json count p
      → p.workers ≡ before ++ (idle ∷ after)
      → p.unsent ≡ unsent
      → p.queue ≡ queue
      → Next capacity p ⊎ IsStuck count p
  idle-Next capacity count p before after [] [] room inv e u c =
      drained-Next capacity count p before after p.reader inv e u c refl
  idle-Next capacity count p before after (job ∷ unsent) [] room inv e u c =
      inl (_, send u (rw c room), inl refl)
  idle-Next capacity count p before after unsent (job ∷ queue) room inv e u c =
      inl (taken-Next capacity p before after job queue e c)

  busy-Next :
      (capacity count : ℕ) (p : Pipeline save self json) (before : List Pc) (pc : Pc)
      (after : List Pc)
      → 0 < capacity
      → IsOpen save self json count p
      → is_ended pc ≡ false
      → p.workers ≡ before ++ (pc ∷ after)
      → Next capacity p ⊎ IsStuck count p
  busy-Next capacity count p before idle after room inv h e =
      idle-Next capacity count p before after p.unsent p.queue room inv e refl refl
  busy-Next capacity count p before (sending request nodes) after room inv h e =
      inl (active-Next capacity p before (sending request nodes) after refl e)
  busy-Next capacity count p before (noting request node) after room inv h e =
      inl (active-Next capacity p before (noting request node) after refl e)
  busy-Next capacity count p before ended after room inv h e = absurd (ground (arith, h))

  AllEnded-IsOver :
      {count : ℕ} {p : Pipeline save self json}
      → 0 < count
      → IsOpen save self json count p
      → AllEnded p.workers
      → IsOver p
  AllEnded-IsOver {p = p} any inv h =
      let (done, none_queued) =
        inv.over (all_ended p.workers (omega (arith, inv.as_many, any)) h) in
      (h, inv.all_sent done, none_queued)

  IsOver-or_Next :
      (capacity count : ℕ) (p : Pipeline save self json)
      → 0 < capacity
      → 0 < count
      → IsOpen save self json count p
      → IsOver p ⊎ (Next capacity p ⊎ IsStuck count p)
  IsOver-or_Next capacity count p room any inv = elim (find-Busy p.workers) [
    | inl h ↦ inl (AllEnded-IsOver any inv h)
    | inr (before, pc, after, h, e) ↦ inr (busy-Next capacity count p before pc after room inv h e)
  ]

  -- When every worker has ended, every job was sent and taken.
  pub ended-IsOver :
      {capacity count : ℕ} {s : Sent W} {jobs : List UploadJob} {k : ℕ}
      {p : Pipeline save self json}
      → 0 < count
      → Run save self json capacity (beginning save self json count s jobs) k p
      → AllEnded p.workers
      → IsOver p
  ended-IsOver {count = count} {s = s} {jobs} any r h =
      AllEnded-IsOver any (Run-IsOpen save self json (starts-IsOpen save self json count s jobs) r)
        h

  -- With at least one worker and room in the channel, whichever worker is next at each step: a run
  -- that starts with idle workers and a reading loop has at most one step for that loop, one for
  -- each worker and, for each job, four more than it has nodes. When it cannot go on but for the
  -- loop's stopping, either all workers have ended and every job was sent and taken, or the loop has
  -- stopped before it closed the channel, every job was sent and taken, and all the workers wait for
  -- another job.
  pub Run-ends :
      {capacity count : ℕ} {s : Sent W} {jobs : List UploadJob} {k : ℕ}
      {p : Pipeline save self json}
      → 0 < capacity
      → 0 < count
      → Run save self json capacity (beginning save self json count s jobs) k p
      → (k ≤ 1 + count + job_steps jobs) × (IsOver p ⊎ (Next capacity p ⊎ IsStuck count p))
  Run-ends {capacity} {count} {s = s} {jobs} {p = p} room any r = (
    omega (arith, Run-left save self json r, workers_left-all_idle count),
    IsOver-or_Next capacity count p room any
        (Run-IsOpen save self json (starts-IsOpen save self json count s jobs) r),
  )
