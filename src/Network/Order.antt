-- ===== src/Network/Order.antt =====
-- The upload workers take the jobs in any order.
use mathlib.Core.List.{Perm, Permᴰ}
use mathlib.Core.Logic.{∥∥₁_elim}
use kairos_p2p_engine.Base.{
  ◌≡◌, refl, sym, ap, ◌∙◌, subst, Bool, true, false, not, ◌&&◌, ◌||◌, Option, none, some, List, [],
  ◌∷◌, Bytes, ◌==◌, eq_iff, is_some, insert, Bool-cases, Option-cases, inl, inr, arith,
  if◌then◌else◌,
}
use kairos_p2p_engine.Models.{ChunkRequest}
use kairos_p2p_engine.Badger.{BadgerLaws, IsReliable}
use kairos_p2p_engine.Database.Laws.{stored}
use kairos_p2p_engine.Process.{Process, sign_or_nil, Trusts}
use kairos_p2p_engine.Process.Json.{Json}
use kairos_p2p_engine.Cleanup.{chunks}
use kairos_p2p_engine.NodeServer.Chunks.{signed_chunk}
use kairos_p2p_engine.Files.Encrypt.{UploadJob}
use kairos_p2p_engine.Files.Sending.{Sent, send_chunk, upload_job, upload_jobs}
use kairos_p2p_engine.Network.{Net, net_save}
use kairos_p2p_engine.Network.Chunks.{IsOwn, stored_at, stored-stored_at, net_save_lem}

-- The node that saves a chunk: the first of its nodes that is up.
abbrev pub first_up : (Bytes → Bool) → List Bytes → Option Bytes
first_up is_up [] = none
first_up is_up (node ∷ nodes) = if is_up node then some node else first_up is_up nodes

abbrev pub is_node : Bytes → Option Bytes → Bool
is_node a none = false
is_node a (some node) = node == a

module _ (is_up : Bytes → Bool) where
  abbrev pub puts : Bytes → Bytes → UploadJob → Bool
  puts a id job = is_node a (first_up is_up job.target_nodes) && (job.chunk_req.chunk_id == id)

  abbrev pub some_puts : Bytes → Bytes → List UploadJob → Bool
  some_puts a id [] = false
  some_puts a id (job ∷ jobs) = puts a id job || some_puts a id jobs

  abbrev pub some_fails : List UploadJob → Bool
  some_fails [] = false
  some_fails (job ∷ jobs) = not (is_some (first_up is_up job.target_nodes)) || some_fails jobs

  some_puts-perm :
      (a id : Bytes) (xs ys : List UploadJob) → Permᴰ xs ys → some_puts a id xs ≡ some_puts a id ys
  some_puts-perm a id xs ys Permᴰ.nil = refl
  some_puts-perm a id (x ∷ xs) (y ∷ ys) (Permᴰ.cons e p) =
      ap (λ t. puts a id t || some_puts a id xs) e
      ∙ ap (λ b. puts a id y || b) (some_puts-perm a id xs ys p)
  some_puts-perm a id (x ∷ y ∷ xs) (z ∷ t ∷ ys) (Permᴰ.swap e f) =
      ap (λ u. puts a id u || (puts a id y || some_puts a id xs)) e
      ∙ ap (λ u. puts a id t || (puts a id u || some_puts a id xs)) f
      ∙ ground arith
  some_puts-perm a id xs ys (Permᴰ.trans {l₂ = zs} p q) =
      some_puts-perm a id xs zs p ∙ some_puts-perm a id zs ys q

  some_fails-perm : (xs ys : List UploadJob) → Permᴰ xs ys → some_fails xs ≡ some_fails ys
  some_fails-perm xs ys Permᴰ.nil = refl
  some_fails-perm (x ∷ xs) (y ∷ ys) (Permᴰ.cons e p) =
      ap (λ t. not (is_some (first_up is_up t.target_nodes)) || some_fails xs) e
      ∙ ap (λ b. not (is_some (first_up is_up y.target_nodes)) || b) (some_fails-perm xs ys p)
  some_fails-perm (x ∷ y ∷ xs) (z ∷ t ∷ ys) (Permᴰ.swap e f) =
      ap
        (λ u.
          not (is_some (first_up is_up u.target_nodes))
          || (not (is_some (first_up is_up y.target_nodes)) || some_fails xs))
        e
      ∙ ap
          (λ u.
            not (is_some (first_up is_up t.target_nodes))
            || (not (is_some (first_up is_up u.target_nodes)) || some_fails xs))
          f
      ∙ ground arith
  some_fails-perm xs ys (Permᴰ.trans {l₂ = zs} p q) =
      some_fails-perm xs zs p ∙ some_fails-perm zs ys q

module _ {D F : Type 0} (self : Process D F) (json : Json) (text : Bytes → Bytes) where
  -- Every job is the process's own, and an identifier stands for one text.
  abbrev pub AllNamed : List UploadJob → Type 0
  AllNamed [] = Unit {0}
  AllNamed (job ∷ jobs) =
      (IsOwn self job.chunk_req
        × (json.chunk_request.marshal job.chunk_req ≡ text job.chunk_req.chunk_id))
      × AllNamed jobs

  AllNamed-perm : (xs ys : List UploadJob) → Permᴰ xs ys → AllNamed xs → AllNamed ys
  AllNamed-perm xs ys Permᴰ.nil h = h
  AllNamed-perm (x ∷ xs) (y ∷ ys) (Permᴰ.cons e p) h = (
    subst
        (λ j.
          IsOwn self j.chunk_req
          × (json.chunk_request.marshal j.chunk_req ≡ text j.chunk_req.chunk_id))
        e h.0,
    AllNamed-perm xs ys p h.1,
  )
  AllNamed-perm (x ∷ y ∷ xs) (z ∷ t ∷ ys) (Permᴰ.swap e f) h = (
    subst
        (λ j.
          IsOwn self j.chunk_req
          × (json.chunk_request.marshal j.chunk_req ≡ text j.chunk_req.chunk_id))
        f h.1.0,
    (
      subst
          (λ j.
            IsOwn self j.chunk_req
            × (json.chunk_request.marshal j.chunk_req ≡ text j.chunk_req.chunk_id))
          e h.0,
      h.1.1,
    ),
  )
  AllNamed-perm xs ys (Permᴰ.trans {l₂ = zs} p q) h =
      AllNamed-perm zs ys q (AllNamed-perm xs zs p h)

module _ {B D E F G : Type 0} (nodes : Process E G) (json : Json) (is_up : Bytes → Bool)
    (laws : BadgerLaws nodes.badger) (self : Process D F) (reliable : IsReliable laws)
    (trusted : Trusts nodes self) (text : Bytes → Bytes) where
  abbrev save : Net B E → Bytes → ChunkRequest → Net B E × Bool
  save = net_save nodes json is_up

  abbrev saved_by : Net B E → ChunkRequest → Option Bytes → Net B E × Option Bytes
  saved_by w request none = (w, none)
  saved_by w request (some node) =
      (stored_at nodes json is_up laws self reliable trusted w node request, some node)

  send_chunk_lem :
      (w : Net B E) (request : ChunkRequest) (targets : List Bytes)
      → IsOwn self request
      → send_chunk save w (signed_chunk self json request) targets
        ≡ saved_by w request (first_up is_up targets)
  unfolding send_chunk
  send_chunk_lem w request [] own = refl
  send_chunk_lem w request (node ∷ targets) own = elim (Bool-cases (is_up node)) [
    | inl up ↦
        rw (net_save_lem nodes json is_up laws self reliable trusted w node request own, up) refl
    | inr down ↦
        rw (net_save_lem nodes json is_up laws self reliable trusted w node request own, down)
          (send_chunk_lem w request targets own)
  ]

  abbrev pub done_by : Sent (Net B E) → ChunkRequest → Option Bytes → Sent (Net B E)
  done_by s request none = record { world = s.world; placed = s.placed; failed = true }
  done_by s request (some node) = record {
    world = stored_at nodes json is_up laws self reliable trusted s.world node request;
    placed = insert request.chunk_id node s.placed;
    failed = s.failed;
  }

  pub upload_job_lem :
      (s : Sent (Net B E)) (job : UploadJob)
      → IsOwn self job.chunk_req
      → upload_job save self json s job ≡ done_by s job.chunk_req (first_up is_up job.target_nodes)
  unfolding upload_job
  upload_job_lem s job own =
      let message = json.chunk_request.marshal job.chunk_req in
      let signed : signed_chunk self json job.chunk_req
          ≡ record job.chunk_req { signature = sign_or_nil self message } =
        ap {A = ChunkRequest}
          (λ r. record r { signature = sign_or_nil self (json.chunk_request.marshal r) }) own in
      let sent =
        ap (λ c. send_chunk save s.world c job.target_nodes) (sym signed)
        ∙ send_chunk_lem s.world job.chunk_req job.target_nodes own in
      rw (upload_job, trusted.signs message)
        (elim (Option-cases (first_up is_up job.target_nodes)) [
          | inl e ↦
              let lost = sent ∙ ap (saved_by s.world job.chunk_req) e in
              rw e (rw (ap (λ t. t.1) lost) (rw (ap (λ t. t.0) lost) refl))
          | inr (node, e) ↦
              let saved = sent ∙ ap (saved_by s.world job.chunk_req) e in
              rw e (rw (ap (λ t. t.1) saved) (rw (ap (λ t. t.0) saved) refl))
        ])

  pub job_stored :
      (s : Sent (Net B E)) (job : UploadJob) (a id : Bytes)
      → IsOwn self job.chunk_req
      → json.chunk_request.marshal job.chunk_req ≡ text job.chunk_req.chunk_id
      → stored laws ((upload_job save self json s job).world.nodes a) chunks id
        ≡ (if puts is_up a id job then some (text id) else stored laws (s.world.nodes a) chunks id)
  job_stored s job a id own named =
      rw (upload_job_lem s job own) (elim (Option-cases (first_up is_up job.target_nodes)) [
        | inl e ↦ rw e refl
        | inr (node, e) ↦ rw e (
            stored-stored_at nodes json is_up laws self reliable trusted s.world node a id
              job.chunk_req
            ∙ rw named (
                let same : (job.chunk_req.chunk_id == id) ≡ true
                    → text job.chunk_req.chunk_id ≡ text id =
                  λ h. ap text ((eq_iff job.chunk_req.chunk_id id).0 h) in
                ground (arith, same)))
      ])

  pub jobs_stored :
      (s : Sent (Net B E)) (jobs : List UploadJob) (a id : Bytes)
      → AllNamed self json text jobs
      → stored laws ((upload_jobs save self json s jobs).world.nodes a) chunks id ≡ (
          if some_puts is_up a id jobs
          then some (text id)
          else stored laws (s.world.nodes a) chunks id)
  unfolding upload_jobs
  jobs_stored s [] a id named = refl
  jobs_stored s (job ∷ jobs) a id named =
      jobs_stored (upload_job save self json s job) jobs a id named.1
      ∙ rw (job_stored s job a id named.0.0 named.0.1) (ground arith)

  pub jobs_failed :
      (s : Sent (Net B E)) (jobs : List UploadJob)
      → AllNamed self json text jobs
      → (upload_jobs save self json s jobs).failed ≡ (s.failed || some_fails is_up jobs)
  unfolding upload_jobs
  jobs_failed s [] named = ground arith
  jobs_failed s (job ∷ jobs) named =
      jobs_failed (upload_job save self json s job) jobs named.1
      ∙ rw (upload_job_lem s job named.0.0) (elim (Option-cases (first_up is_up job.target_nodes)) [
        | inl e ↦ rw e (ground arith)
        | inr (node, e) ↦ rw e (ground arith)
      ])

  orders_agree :
      (s : Sent (Net B E)) (jobs later : List UploadJob)
      → AllNamed self json text jobs
      → Permᴰ jobs later
      → ((upload_jobs save self json s jobs).failed ≡ (upload_jobs save self json s later).failed)
        × ((a id : Bytes)
            → stored laws ((upload_jobs save self json s jobs).world.nodes a) chunks id
              ≡ stored laws ((upload_jobs save self json s later).world.nodes a) chunks id)
  orders_agree s jobs later named p =
      let named' = AllNamed-perm self json text jobs later p named in
      (
        jobs_failed s jobs named
            ∙ ap (λ b. s.failed || b) (some_fails-perm is_up jobs later p)
            ∙ sym (jobs_failed s later named'),
        λ a id.
            jobs_stored s jobs a id named
            ∙ ap (λ b. if b then some (text id) else stored laws (s.world.nodes a) chunks id)
                (some_puts-perm is_up a id jobs later p)
            ∙ sym (jobs_stored s later a id named'),
      )

  -- On stores that do not fail, with nodes that accept the process's signatures, and for jobs of the
  -- process in which an identifier stands for one text: whatever the order in which the upload workers
  -- take the jobs, they report a failure or none, and leave the same chunks on every node.
  pub upload_jobs-order :
      (s : Sent (Net B E)) (jobs later : List UploadJob)
      → AllNamed self json text jobs
      → Perm jobs later
      → ((upload_jobs save self json s jobs).failed ≡ (upload_jobs save self json s later).failed)
        × ((a id : Bytes)
            → stored laws ((upload_jobs save self json s jobs).world.nodes a) chunks id
              ≡ stored laws ((upload_jobs save self json s later).world.nodes a) chunks id)
  upload_jobs-order s jobs later named p = ∥∥₁_elim p (hlevel) (orders_agree s jobs later named)
