-- ===== src/Network/AnyOrder.antt =====
-- The upload workers side by side, on jobs that come in any order.
use mathlib.Core.List.{Perm, Permᴰ}
use mathlib.Core.Logic.{∥∥₁_elim}
use kairos_p2p_engine.Base.{
  ◌≡◌, refl, sym, ◌∙◌, subst, Bool, false, Option, none, List, [], ◌∷◌, ℕ, ◌<◌, Bytes, ◌==◌, eq_iff,
  eq_refl, elem, IsDistinct, arith, if◌then◌else◌,
}
use kairos_p2p_engine.Models.{ChunkRequest}
use kairos_p2p_engine.Badger.{BadgerLaws, IsReliable}
use kairos_p2p_engine.Database.Laws.{stored}
use kairos_p2p_engine.Process.{Process, Trusts}
use kairos_p2p_engine.Process.Json.{Json}
use kairos_p2p_engine.Cleanup.{chunks}
use kairos_p2p_engine.Files.Encrypt.{UploadJob}
use kairos_p2p_engine.Files.Sending.{Sent, upload_jobs}
use kairos_p2p_engine.Files.Workers.{Pipeline, Run, beginning, AllEnded}
use kairos_p2p_engine.Network.{Net, net_save}
use kairos_p2p_engine.Network.Chunks.{job_ids, AllOwn, AllFresh, AllStored, upload_jobs-AllStored}
use kairos_p2p_engine.Network.Order.{first_up, upload_jobs-order}
use kairos_p2p_engine.Network.Pending.{IsKnown, AllKnown, AllNamed-AllKnown}
use kairos_p2p_engine.Network.Interleaving.{Run-upload_jobs}

module _ {D F : Type 0} (self : Process D F) (json : Json) (is_up : Bytes → Bool) where
  -- The text and the node that the first job of an identifier has.
  abbrev pub text_in : List UploadJob → Bytes → Bytes
  text_in [] id = []
  text_in (job ∷ jobs) id =
      if job.chunk_req.chunk_id == id
      then json.chunk_request.marshal job.chunk_req
      else text_in jobs id

  abbrev pub home_in : List UploadJob → Bytes → Option Bytes
  home_in [] id = none
  home_in (job ∷ jobs) id =
      if job.chunk_req.chunk_id == id then first_up is_up job.target_nodes else home_in jobs id

  AllKnown-other :
      (text : Bytes → Bytes) (home : Bytes → Option Bytes) (other t : Bytes) (h : Option Bytes)
      (jobs : List UploadJob)
      → elem other (job_ids jobs) ≡ false
      → AllKnown self json is_up text home jobs
      → AllKnown self json is_up
          (λ id. if other == id then t else text id)
          (λ id. if other == id then h else home id)
          jobs
  AllKnown-other text home other t h [] out known = tt
  AllKnown-other text home other t h (job ∷ jobs) out known =
      let id = job.chunk_req.chunk_id in
      let apart : (other == id) ≡ false = ground (arith, out, eq_iff other id, eq_iff id other) in
      (
        (known.0.0, rw apart known.0.1, rw apart known.0.2),
        AllKnown-other text home other t h jobs (ground (arith, out)) known.1,
      )

  pub AllKnown-distinct :
      (jobs : List UploadJob)
      → AllOwn self jobs
      → IsDistinct (job_ids jobs)
      → AllKnown self json is_up (text_in jobs) (home_in jobs) jobs
  AllKnown-distinct [] own distinct = tt
  AllKnown-distinct (job ∷ jobs) own distinct =
      let id = job.chunk_req.chunk_id in
      (
        (own.0, rw (eq_refl id) refl, rw (eq_refl id) refl),
        AllKnown-other (text_in jobs) (home_in jobs) id (json.chunk_request.marshal job.chunk_req)
            (first_up is_up job.target_nodes) jobs distinct.0
            (AllKnown-distinct jobs own.1 distinct.1),
      )

  module _ (text : Bytes → Bytes) (home : Bytes → Option Bytes) where
    abbrev IsKnownJob : UploadJob → Type 0
    IsKnownJob job = IsKnown self json is_up text home job.chunk_req job.target_nodes

    AllKnown-perm :
        (xs ys : List UploadJob)
        → Permᴰ xs ys
        → AllKnown self json is_up text home xs
        → AllKnown self json is_up text home ys
    AllKnown-perm xs ys Permᴰ.nil h = h
    AllKnown-perm (x ∷ xs) (y ∷ ys) (Permᴰ.cons e p) h =
        (subst IsKnownJob e h.0, AllKnown-perm xs ys p h.1)
    AllKnown-perm (x ∷ y ∷ xs) (z ∷ t ∷ ys) (Permᴰ.swap e f) h =
        (subst IsKnownJob f h.1.0, (subst IsKnownJob e h.0, h.1.1))
    AllKnown-perm xs ys (Permᴰ.trans {l₂ = zs} p q) h =
        AllKnown-perm zs ys q (AllKnown-perm xs zs p h)

module _ {B D E F G : Type 0} (nodes : Process E G) (json : Json) (is_up : Bytes → Bool)
    (laws : BadgerLaws nodes.badger) (self : Process D F) (reliable : IsReliable laws)
    (trusted : Trusts nodes self) where
  abbrev save : Net B E → Bytes → ChunkRequest → Net B E × Bool
  save = net_save nodes json is_up

  AllStored-same :
      (w w' : Net B E) (jobs : List UploadJob)
      → ((a id : Bytes) → stored laws (w'.nodes a) chunks id ≡ stored laws (w.nodes a) chunks id)
      → AllStored nodes json is_up laws w jobs
      → AllStored nodes json is_up laws w' jobs
  AllStored-same w w' [] same h = tt
  AllStored-same w w' (job ∷ jobs) same h =
      let id = job.chunk_req.chunk_id in
      let (node, m, up, s) = h.0.0 in
      (
        ((node, m, up, same node id ∙ s), λ a value k. h.0.1 a value (sym (same a id) ∙ k)),
        AllStored-same w w' jobs same h.1,
      )

  -- What a run leaves, beside one worker that takes the jobs in another order.
  Run-order :
      {capacity count : ℕ} (s : Sent (Net B E)) (made jobs : List UploadJob) {k : ℕ}
      (p : Pipeline save self json)
      → 0 < count
      → AllOwn self made
      → IsDistinct (job_ids made)
      → Run save self json capacity (beginning save self json count s jobs) k p
      → AllEnded p.workers
      → Permᴰ made jobs
      → (p.sent.failed ≡ (upload_jobs save self json s made).failed)
        × ((a id : Bytes)
            → stored laws (p.sent.world.nodes a) chunks id
              ≡ stored laws ((upload_jobs save self json s made).world.nodes a) chunks id)
  Run-order {count = count} s made jobs p any_worker own distinct r over perm =
      let text = text_in self json is_up made in
      let home = home_in self json is_up made in
      let known = AllKnown-distinct self json is_up made own distinct in
      let run =
        Run-upload_jobs nodes json is_up laws self reliable trusted text home any_worker
          (AllKnown-perm self json is_up text home made jobs perm known) r over in
      let order =
        upload_jobs-order nodes json is_up laws self reliable trusted text s made jobs
          (AllNamed-AllKnown self json is_up text home made known) ∣ perm ∣₁ in
      (run.0 ∙ sym order.0, λ a id. run.1 a id ∙ sym (order.1 a id))

  -- On stores that do not fail, with nodes that accept the process's signatures, and for its own
  -- requests under different identifiers that no node has yet: when the upload workers, at least
  -- one, who get the jobs in any order and make their steps in any order, have all ended and no
  -- failure was reported, every chunk is on one of its nodes that is up, and no node has another
  -- text under its identifier.
  pub Run-AllStored :
      {capacity count : ℕ} (w : Net B E) (made jobs : List UploadJob) {k : ℕ}
      (p : Pipeline save self json)
      → 0 < count
      → AllOwn self made
      → IsDistinct (job_ids made)
      → AllFresh nodes json is_up laws w made
      → Perm made jobs
      → Run save self json capacity
          (beginning save self json count (record { world = w; placed = []; failed = false }) jobs)
          k
          p
      → AllEnded p.workers
      → p.sent.failed ≡ false
      → AllStored nodes json is_up laws p.sent.world made
  Run-AllStored w made jobs p any_worker own distinct fresh perm r over fine =
      let s : Sent (Net B E) = record { world = w; placed = []; failed = false } in
      let (failed, same) =
        ∥∥₁_elim perm (hlevel) (Run-order s made jobs p any_worker own distinct r over) in
      AllStored-same (upload_jobs save self json s made).world p.sent.world made same (
        upload_jobs-AllStored nodes json is_up laws self reliable trusted s made own distinct fresh
          (sym failed ∙ fine))
