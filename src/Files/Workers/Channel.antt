-- ===== src/Files/Workers/Channel.antt =====
-- The channel `uploadJobs` along a run of the upload workers.
use kairos_p2p_engine.Base.{
  ℕ, zero, suc, ◌<◌, ◌||◌, Bool, true, false, List, [], ◌∷◌, ◌++◌, ◌≡◌, refl, ap, Bytes, length,
  arith, length-append,
}
use kairos_p2p_engine.Models.{ChunkRequest}
use kairos_p2p_engine.Process.{Process}
use kairos_p2p_engine.Process.Json.{Json}
use kairos_p2p_engine.Files.Encrypt.{UploadJob}
use kairos_p2p_engine.Files.Sending.{Sent}
use kairos_p2p_engine.Files.Workers.{
  closed, close, stop, Pc, idle, ended, Move, take, skip, saved, refused, note, give_up, Pipeline,
  Step, send, work, finish, Run, start, later, all_idle, beginning, AllEnded,
}

abbrev pub is_ended : Pc → Bool
is_ended ended = true
is_ended _ = false

abbrev pub some_ended : List Pc → Bool
some_ended [] = false
some_ended (pc ∷ pcs) = is_ended pc || some_ended pcs

some_ended-append : (xs ys : List Pc) → some_ended (xs ++ ys) ≡ (some_ended xs || some_ended ys)
some_ended-append [] ys = refl
some_ended-append (x ∷ xs) ys = ground (arith, some_ended-append xs ys)

some_ended-all_idle : (count : ℕ) → some_ended (all_idle count) ≡ false
some_ended-all_idle zero = refl
some_ended-all_idle (suc n) = some_ended-all_idle n

length-all_idle : (count : ℕ) → length (all_idle count) ≡ count
length-all_idle zero = refl
length-all_idle (suc n) = omega (arith, length-all_idle n)

some_ended_lem : (pc : Pc) (pcs : List Pc) → AllEnded (pc ∷ pcs) → some_ended (pc ∷ pcs) ≡ true
some_ended_lem pc pcs h = rw h.0 refl

pub all_ended : (pcs : List Pc) → 0 < length pcs → AllEnded pcs → some_ended pcs ≡ true
all_ended [] h e = absurd (omega (arith, h))
all_ended (pc ∷ pcs) h e = some_ended_lem pc pcs e

module _ {W : Type 0} (save : W → Bytes → ChunkRequest → W × Bool) {D F : Type 0}
    (self : Process D F) (json : Json) where
  -- A worker ends when the channel is closed and empty, and the workers are as many as there were.
  pub record IsOpen (count : ℕ) (p : Pipeline save self json) : Type 0 where
    pub over : some_ended p.workers ≡ true → (p.reader ≡ closed) × (p.queue ≡ [])
    pub all_sent : p.reader ≡ closed → p.unsent ≡ []
    pub as_many : length p.workers ≡ count

  Move-queue :
      {s s' : Sent W} {queue queue' : List UploadJob} {pc pc' : Pc}
      → Move save self json s queue pc s' queue' pc'
      → ((queue ≡ []) → (queue' ≡ [])) × (is_ended pc ≡ false) × (is_ended pc' ≡ false)
  Move-queue (take {job = job} _) = (λ e. ground (arith, e), refl, refl)
  Move-queue (skip _) = (λ e. ground (arith, e), refl, refl)
  Move-queue (saved _) = (λ e. e, refl, refl)
  Move-queue (refused _) = (λ e. e, refl, refl)
  Move-queue note = (λ e. e, refl, refl)
  Move-queue give_up = (λ e. e, refl, refl)

  Step-IsOpen :
      {capacity count : ℕ} {p q : Pipeline save self json}
      → Step save self json capacity p q
      → IsOpen count p
      → IsOpen count q
  Step-IsOpen (send e _) inv = record {
    over = λ h. let (done, none_queued) = inv.over h in ground (arith, e, inv.all_sent done);
    all_sent = λ h. ground (arith, e, inv.all_sent h);
    as_many = inv.as_many;
  }
  Step-IsOpen (close e none_unsent) inv = record {
    over = λ h. let (done, none_queued) = inv.over h in (refl, none_queued);
    all_sent = λ h. none_unsent;
    as_many = inv.as_many;
  }
  Step-IsOpen (stop e) inv = record {
    over = λ h. let (done, none_queued) = inv.over h in absurd (ground (arith, e, done));
    all_sent = λ h. absurd (ground (arith, h));
    as_many = inv.as_many;
  }
  Step-IsOpen (work before {pc} {pc'} after e m) inv =
      let moved = Move-queue m in
      let old = some_ended-append before (pc ∷ after) in
      let new = some_ended-append before (pc' ∷ after) in
      record {
        over = λ h.
            let (done, none_queued) = inv.over (ground (arith, h, e, old, new, moved.1)) in
            (done, moved.0 none_queued);
        all_sent = inv.all_sent;
        as_many = omega (
          arith,
          inv.as_many,
          ap (length {A = Pc}) e,
          length-append before (pc ∷ after),
          length-append before (pc' ∷ after),
        );
      }
  Step-IsOpen (finish before after e done none_queued) inv = record {
    over = λ h. (done, none_queued);
    all_sent = inv.all_sent;
    as_many = omega (
      arith,
      inv.as_many,
      ap (length {A = Pc}) e,
      length-append before (idle ∷ after),
      length-append before (ended ∷ after),
    );
  }

  pub Run-IsOpen :
      {capacity count : ℕ} {p : Pipeline save self json} {k : ℕ} {q : Pipeline save self json}
      → IsOpen count p
      → Run save self json capacity p k q
      → IsOpen count q
  Run-IsOpen inv (start e) = inv
  Run-IsOpen inv (later r s e) = Step-IsOpen s (Run-IsOpen inv r)

  pub starts-IsOpen :
      (count : ℕ) (s : Sent W) (jobs : List UploadJob)
      → IsOpen count (beginning save self json count s jobs)
  starts-IsOpen count s jobs = record {
    over = λ h. absurd (ground (arith, h, some_ended-all_idle count));
    all_sent = λ h. absurd (ground (arith, h));
    as_many = length-all_idle count;
  }
