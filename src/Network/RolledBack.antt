-- ===== src/Network/RolledBack.antt =====
-- The rollback of an upload whose workers ran side by side.
use kairos_p2p_engine.Base.{
  ◌≡◌, refl, sym, ap, ◌∙◌, Bool, true, false, ◌&&◌, none, some, List, [], ◌∷◌, ℕ, ◌<◌, Bytes, ◌==◌,
  eq_iff, IsDistinct, Bool-cases, inl, inr, arith, if◌then◌else◌,
}
use kairos_p2p_engine.Models.{ChunkRequest}
use kairos_p2p_engine.Badger.{BadgerLaws, IsReliable}
use kairos_p2p_engine.Database.Laws.{stored}
use kairos_p2p_engine.Process.{Process, Trusts}
use kairos_p2p_engine.Process.Json.{Json}
use kairos_p2p_engine.Cleanup.{chunks}
use kairos_p2p_engine.Files.Encrypt.{UploadJob}
use kairos_p2p_engine.Files.Sending.{Sent, UploadError, roll_back, finish_upload}
use kairos_p2p_engine.Files.Workers.{Pipeline, Run, beginning, AllEnded}
use kairos_p2p_engine.Network.{Net, net_save, net_delete}
use kairos_p2p_engine.Network.Chunks.{job_ids, AllOwn, AllFresh}
use kairos_p2p_engine.Network.Order.{is_node, some_puts, jobs_stored}
use kairos_p2p_engine.Network.Pending.{AllNamed-AllKnown}
use kairos_p2p_engine.Network.Interleaving.{Run-upload_jobs, jobs_placed}
use kairos_p2p_engine.Network.Notes.{
  notes, notes-lookup, Run-IsDistinct, some_puts-is_up, some_puts-some_notes,
}
use kairos_p2p_engine.Network.AnyOrder.{text_in, home_in, AllKnown-distinct}
use kairos_p2p_engine.NodeApi.Dropped.{deleted_one}

module _ {B D E F G : Type 0} (nodes : Process E G) (json : Json) (is_up : Bytes → Bool)
    (laws : BadgerLaws nodes.badger) (self : Process D F) (reliable : IsReliable laws)
    (trusted : Trusts nodes self) where
  fresh_puts :
      (w : Net B E) (a id : Bytes) (jobs : List UploadJob)
      → AllFresh nodes json is_up laws w jobs
      → some_puts is_up a id jobs ≡ true
      → stored laws (w.nodes a) chunks id ≡ none
  fresh_puts w a id [] fresh h = absurd (ground (arith, h))
  fresh_puts w a id (job ∷ jobs) fresh h = elim (Bool-cases (job.chunk_req.chunk_id == id)) [
    | inl e ↦
        ap (λ t. stored laws (w.nodes a) chunks t) (sym ((eq_iff job.chunk_req.chunk_id id).0 e))
        ∙ fresh.0 a
    | inr e ↦ fresh_puts w a id jobs fresh.1 (ground (arith, h, e))
  ]

  stored-roll_back :
      (w : Net B E) (placed : List (Bytes × Bytes)) (a id : Bytes)
      → stored laws ((roll_back (net_delete nodes json is_up) w placed).nodes a) chunks id
        ≡ (if is_up a && notes a id placed then none else stored laws (w.nodes a) chunks id)
  unfolding roll_back
  stored-roll_back w [] a id = ground arith
  stored-roll_back w ((j, node) ∷ placed) a id =
      stored-roll_back (net_delete nodes json is_up w node j) placed a id
      ∙ ground (arith, deleted_one nodes json is_up reliable w node j a id)

  abbrev save : Net B E → Bytes → ChunkRequest → Net B E × Bool
  save = net_save nodes json is_up

  module _ {capacity count k : ℕ} (w : Net B E) (jobs : List UploadJob)
      (p : Pipeline save self json) (any_worker : 0 < count) (own : AllOwn self jobs)
      (distinct : IsDistinct (job_ids jobs)) (fresh : AllFresh nodes json is_up laws w jobs)
      (run : Run save self json capacity
        (beginning save self json count (record { world = w; placed = []; failed = false }) jobs)
        k
        p)
      (over : AllEnded p.workers) where
    -- From a world whose nodes are as the workers left them.
    rolled_back :
        (v : Net B E) (a id : Bytes)
        → v.nodes ≡ p.sent.world.nodes
        → stored laws ((roll_back (net_delete nodes json is_up) v p.sent.placed).nodes a) chunks id
          ≡ stored laws (w.nodes a) chunks id
    rolled_back v a id same =
        let s : Sent (Net B E) = record { world = w; placed = []; failed = false } in
        let text = text_in self json is_up jobs in
        let home = home_in self json is_up jobs in
        let known = AllKnown-distinct self json is_up jobs own distinct in
        let named = AllNamed-AllKnown self json is_up text home jobs known in
        let ran =
          Run-upload_jobs nodes json is_up laws self reliable trusted text home any_worker known run
            over in
        let left =
          ap (λ (n : Bytes → E). stored laws (n a) chunks id) same
          ∙ ran.1 a id
          ∙ jobs_stored nodes json is_up laws self reliable trusted text s jobs a id named in
        let noted =
          notes-lookup a id p.sent.placed (Run-IsDistinct save self json tt run)
          ∙ ap (is_node a) (
              ran.2 id
              ∙ jobs_placed nodes json is_up laws self reliable trusted text home s jobs id
                  known) in
        ground (
          arith,
          stored-roll_back v p.sent.placed a id,
          left,
          noted,
          some_puts-some_notes is_up self json text home a id jobs known,
          some_puts-is_up is_up a id jobs,
          fresh_puts w a id jobs fresh,
        )

    -- The workers, at least one, side by side and in any order of their steps, have all ended and
    -- taken the process's own requests, under different identifiers that no node had; the stores do
    -- not fail, the nodes accept the signatures, the publication of the manifest changes nothing at
    -- the nodes, and deletions reach the nodes that were up. When the upload then ends with an
    -- error, every node has of every chunk exactly what it had before.
    pub finish_upload-Run :
        (publish : Net B E → Net B E × Bool) (crypto_failed : Bool) (e : UploadError) (a id : Bytes)
        → ((v : Net B E) → (publish v).0.nodes ≡ v.nodes)
        → (finish_upload (net_delete nodes json is_up) publish crypto_failed p.sent).1 ≡ some e
        → stored laws
            ((finish_upload (net_delete nodes json is_up) publish crypto_failed p.sent).0.nodes a)
            chunks
            id
          ≡ stored laws (w.nodes a) chunks id
    unfolding finish_upload
    finish_upload-Run publish crypto_failed e a id keeps fails = ground (
      arith,
      fails,
      rolled_back p.sent.world a id refl,
      rolled_back (publish p.sent.world).0 a id (keeps p.sent.world),
    )
