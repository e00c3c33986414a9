-- ===== src/Network/Interleaving.antt =====
-- The upload workers side by side, beside `upload_jobs`.
use kairos_p2p_engine.Base.{
  ◌==◌, eq_iff, Option-cases, inl, inr, ◌<◌, ◌≡◌, refl, ap, ◌∙◌, Bool, true, false, Option, List,
  [], ◌∷◌, ℕ, Bytes, lookup, lookup-insert, arith, if◌then◌else◌,
}
use kairos_p2p_engine.Models.{ChunkRequest}
use kairos_p2p_engine.Badger.{BadgerLaws, IsReliable}
use kairos_p2p_engine.Database.Laws.{stored}
use kairos_p2p_engine.Process.{Process, Trusts}
use kairos_p2p_engine.Process.Json.{Json}
use kairos_p2p_engine.Cleanup.{chunks}
use kairos_p2p_engine.Files.Encrypt.{UploadJob}
use kairos_p2p_engine.Files.Sending.{Sent, upload_job, upload_jobs}
use kairos_p2p_engine.Files.Workers.{Pc, idle, ended, Pipeline, Run, all_idle, beginning, AllEnded}
use kairos_p2p_engine.Files.Workers.Progress.{ended-IsOver}
use kairos_p2p_engine.Network.{Net, net_save}
use kairos_p2p_engine.Network.Pending.{
  will_put, will_fail, will_note, some_notes, any, AllKnown, AllNamed-AllKnown, KnownPcs-all_idle,
}
use kairos_p2p_engine.Network.Steps.{IsKnownPipeline, Run-IsSameWhole, any-ended, any-all_idle}
use kairos_p2p_engine.Network.Order.{first_up, jobs_stored, jobs_failed, upload_job_lem}

module _ {B D E F G : Type 0} (nodes : Process E G) (json : Json) (is_up : Bytes → Bool)
    (laws : BadgerLaws nodes.badger) (self : Process D F) (reliable : IsReliable laws)
    (trusted : Trusts nodes self) (text : Bytes → Bytes) (home : Bytes → Option Bytes) where
  abbrev save : Net B E → Bytes → ChunkRequest → Net B E × Bool
  save = net_save nodes json is_up

  pub jobs_placed :
      (s : Sent (Net B E)) (jobs : List UploadJob) (id : Bytes)
      → AllKnown self json is_up text home jobs
      → lookup id (upload_jobs save self json s jobs).placed
        ≡ (if some_notes is_up id jobs then home id else lookup id s.placed)
  unfolding upload_jobs
  jobs_placed s [] id known = refl
  jobs_placed s (job ∷ jobs) id known =
      let r = job.chunk_req in
      let first = first_up is_up job.target_nodes in
      let homes : (r.chunk_id == id) ≡ true → first ≡ home id =
        λ h. known.0.2 ∙ ap home ((eq_iff r.chunk_id id).0 h) in
      jobs_placed (upload_job save self json s job) jobs id known.1
      ∙ rw (upload_job_lem nodes json is_up laws self reliable trusted text s job known.0.0)
          (elim (Option-cases first) [
            | inl e ↦ rw e refl
            | inr (node, e) ↦
                rw e (rw (lookup-insert r.chunk_id id node s.placed) (ground (arith, homes, e)))
          ])

  -- On stores that do not fail, with nodes that accept the process's signatures, and for jobs of
  -- the process in which an identifier stands for one text and one first node that is up: in
  -- whatever order the upload workers, at least one, make their steps, when all have ended they
  -- have reported a failure or none, left the same chunks on every node, and noted the same node
  -- for every chunk, as one worker that takes the jobs one after the other.
  pub Run-upload_jobs :
      {capacity count : ℕ} {s : Sent (Net B E)} {jobs : List UploadJob} {k : ℕ}
      {p : Pipeline save self json}
      → 0 < count
      → AllKnown self json is_up text home jobs
      → Run save self json capacity (beginning save self json count s jobs) k p
      → AllEnded p.workers
      → (p.sent.failed ≡ (upload_jobs save self json s jobs).failed)
        × ((a id : Bytes)
            → stored laws (p.sent.world.nodes a) chunks id
              ≡ stored laws ((upload_jobs save self json s jobs).world.nodes a) chunks id)
        × ((id : Bytes)
            → lookup id p.sent.placed ≡ lookup id (upload_jobs save self json s jobs).placed)
  Run-upload_jobs {count = count} {s = s} {jobs} {p = p} any_worker known r over =
      let first : IsKnownPipeline nodes json is_up laws self reliable trusted text home
          (beginning save self json count s jobs) =
        record {
          unsent = known;
          queued = tt;
          held = KnownPcs-all_idle self json is_up text home count;
        } in
      let whole =
        (Run-IsSameWhole nodes json is_up laws self reliable trusted text home first r).1 in
      let none_left = ended-IsOver save self json any_worker r over in
      let done : (f : Pc → Bool) → f ended ≡ false → any f p.workers ≡ false =
        λ f e. any-ended f p.workers e over in
      let none_begun : (f : Pc → Bool) → f idle ≡ false → any f (all_idle count) ≡ false =
        λ f e. any-all_idle f count e in
      let named = AllNamed-AllKnown self json is_up text home jobs known in
      (
        ground (
          arith,
          whole.0,
          none_left.1,
          none_left.2,
          done (will_fail is_up) refl,
          none_begun (will_fail is_up) refl,
          jobs_failed nodes json is_up laws self reliable trusted text s jobs named,
        ),
        λ a id. ground (
          arith,
          whole.1 a id,
          none_left.1,
          none_left.2,
          done (will_put is_up a id) refl,
          none_begun (will_put is_up a id) refl,
          jobs_stored nodes json is_up laws self reliable trusted text s jobs a id named,
        ),
        λ id. ground (
          arith,
          whole.2 id,
          none_left.1,
          none_left.2,
          done (will_note is_up id) refl,
          none_begun (will_note is_up id) refl,
          jobs_placed s jobs id known,
        ),
      )
