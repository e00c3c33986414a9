-- ===== src/Network/Moves.antt =====
-- What a step of an upload worker does to what the whole upload comes to.
use kairos_p2p_engine.Base.{
  ◌≡◌, refl, sym, ap, ◌∙◌, Bool, true, false, ◌||◌, Option, some, List, ◌∷◌, Bytes, ◌==◌, eq_iff,
  lookup, lookup-insert, Bool-cases, inl, inr, arith, if◌then◌else◌,
}
use kairos_p2p_engine.Models.{ChunkRequest}
use kairos_p2p_engine.Badger.{BadgerLaws, IsReliable}
use kairos_p2p_engine.Database.Laws.{stored}
use kairos_p2p_engine.Process.{Process, Trusts}
use kairos_p2p_engine.Process.Json.{Json}
use kairos_p2p_engine.Cleanup.{chunks}
use kairos_p2p_engine.NodeServer.Chunks.{signed_chunk}
use kairos_p2p_engine.Files.Encrypt.{UploadJob}
use kairos_p2p_engine.Files.Sending.{Sent}
use kairos_p2p_engine.Files.Workers.{Pc, Move, take, skip, saved, refused, note, give_up}
use kairos_p2p_engine.Network.{Net, net_save}
use kairos_p2p_engine.Network.Chunks.{stored_at, stored-stored_at, net_save_lem}
use kairos_p2p_engine.Network.Pending.{
  will_put, will_fail, will_note, some_notes, IsKnown, AllKnown, IsKnownPc, signed_lem,
}
use kairos_p2p_engine.Network.Order.{first_up, some_puts, some_fails}

module _ {B D E F G : Type 0} (nodes : Process E G) (json : Json) (is_up : Bytes → Bool)
    (laws : BadgerLaws nodes.badger) (self : Process D F) (reliable : IsReliable laws)
    (trusted : Trusts nodes self) (text : Bytes → Bytes) (home : Bytes → Option Bytes) where
  abbrev pub save : Net B E → Bytes → ChunkRequest → Net B E × Bool
  save = net_save nodes json is_up

  save_lem :
      (w : Net B E) (node : Bytes) (request r : ChunkRequest) (targets : List Bytes)
      → request ≡ signed_chunk self json r
      → IsKnown self json is_up text home r targets
      → save w node request ≡ (
          if is_up node
          then (stored_at nodes json is_up laws self reliable trusted w node r, true)
          else (w, false))
  save_lem w node request r targets e known =
      rw e (net_save_lem nodes json is_up laws self reliable trusted w node r known.0)

  answer_lem :
      (w : Net B E) (node : Bytes) (request r : ChunkRequest) (targets : List Bytes)
      → request ≡ signed_chunk self json r
      → IsKnown self json is_up text home r targets
      → (save w node request).1 ≡ is_up node
  answer_lem w node request r targets e known =
      ap (λ t. t.1) (save_lem w node request r targets e known)
      ∙ elim (Bool-cases (is_up node)) [ inl up ↦ rw up refl | inr down ↦ rw down refl ]

  world_lem :
      (w : Net B E) (node : Bytes) (request r : ChunkRequest) (targets : List Bytes)
      → request ≡ signed_chunk self json r
      → IsKnown self json is_up text home r targets
      → (save w node request).0
        ≡ (if is_up node then stored_at nodes json is_up laws self reliable trusted w node r else w)
  world_lem w node request r targets e known =
      ap (λ t. t.0) (save_lem w node request r targets e known)
      ∙ elim (Bool-cases (is_up node)) [ inl up ↦ rw up refl | inr down ↦ rw down refl ]

  -- What a step of a worker keeps.
  pub Move-known :
      {s s' : Sent (Net B E)} {queue queue' : List UploadJob} {pc pc' : Pc}
      → Move save self json s queue pc s' queue' pc'
      → AllKnown self json is_up text home queue
      → IsKnownPc self json is_up text home pc
      → AllKnown self json is_up text home queue' × IsKnownPc self json is_up text home pc'
  Move-known (take {job = job} {signature = signature} e) known h = (
    known.1,
    (job.chunk_req, signed_lem save nodes json self trusted job signature known.0.0 e, known.0),
  )
  Move-known (skip e) known h = (known.1, tt)
  Move-known (saved {s = s} {request = request} {node = node} {nodes = targets} y) known (r, e, h) =
      let up = sym (answer_lem s.world node request r (node ∷ targets) e h) ∙ y in
      let first : first_up is_up (node ∷ targets) ≡ some node = rw up refl in
      (known, ap (λ t. home t.chunk_id) e ∙ sym h.2 ∙ first)
  Move-known (refused {s = s} {request = request} {node = node} {nodes = targets} n) known
        (r, e, h) =
      let down = sym (answer_lem s.world node request r (node ∷ targets) e h) ∙ n in
      let first : first_up is_up (node ∷ targets) ≡ first_up is_up targets = rw down refl in
      (known, (r, e, (h.0, h.1, sym first ∙ h.2)))
  Move-known note known h = (known, tt)
  Move-known give_up known h = (known, tt)

  -- A step of a worker leaves open what the whole upload comes to: the chunk of an identifier at
  -- a node, with the text it comes to have if `c` or a step to come puts it there.
  pub Move-stored :
      {s s' : Sent (Net B E)} {queue queue' : List UploadJob} {pc pc' : Pc}
      → Move save self json s queue pc s' queue' pc'
      → AllKnown self json is_up text home queue
      → IsKnownPc self json is_up text home pc
      → (a id : Bytes) (c : Bool)
      → (if c || (some_puts is_up a id queue' || will_put is_up a id pc')
          then some (text id)
          else stored laws (s'.world.nodes a) chunks id)
        ≡ (if c || (some_puts is_up a id queue || will_put is_up a id pc)
            then some (text id)
            else stored laws (s.world.nodes a) chunks id)
  Move-stored (take {job = job} e) known h a id c = ground arith
  Move-stored (skip {job = job} e) known h a id c =
      absurd (ground (arith, e, trusted.signs (json.chunk_request.marshal job.chunk_req)))
  Move-stored (saved {s = s} {request = request} {node = node} {nodes = targets} y) known (r, e, h)
        a id c =
      let up = sym (answer_lem s.world node request r (node ∷ targets) e h) ∙ y in
      let same : (r.chunk_id == id) ≡ true → text r.chunk_id ≡ text id =
        λ h. ap text ((eq_iff r.chunk_id id).0 h) in
      rw (world_lem s.world node request r (node ∷ targets) e h, up, ap (λ t. t.chunk_id) e)
        (rw (stored-stored_at nodes json is_up laws self reliable trusted s.world node a id r, h.1)
          (ground (arith, same)))
  Move-stored (refused {s = s} {request = request} {node = node} {nodes = targets} n) known
        (r, e, h) a id c =
      let down = sym (answer_lem s.world node request r (node ∷ targets) e h) ∙ n in
      rw (world_lem s.world node request r (node ∷ targets) e h) (rw down refl)
  Move-stored note known h a id c = refl
  Move-stored give_up known h a id c = refl

  pub Move-failed :
      {s s' : Sent (Net B E)} {queue queue' : List UploadJob} {pc pc' : Pc}
      → Move save self json s queue pc s' queue' pc'
      → AllKnown self json is_up text home queue
      → IsKnownPc self json is_up text home pc
      → (s'.failed || (some_fails is_up queue' || will_fail is_up pc'))
        ≡ (s.failed || (some_fails is_up queue || will_fail is_up pc))
  Move-failed (take {job = job} e) known h = ground arith
  Move-failed (skip {job = job} e) known h =
      absurd (ground (arith, e, trusted.signs (json.chunk_request.marshal job.chunk_req)))
  Move-failed (saved {s = s} {request = request} {node = node} {nodes = targets} y) known
        (r, e, h) =
      let up = sym (answer_lem s.world node request r (node ∷ targets) e h) ∙ y in rw up refl
  Move-failed (refused {s = s} {request = request} {node = node} {nodes = targets} n) known
        (r, e, h) =
      let down = sym (answer_lem s.world node request r (node ∷ targets) e h) ∙ n in rw down refl
  Move-failed note known h = refl
  Move-failed (give_up {s = s}) known h = ground arith

  pub Move-placed :
      {s s' : Sent (Net B E)} {queue queue' : List UploadJob} {pc pc' : Pc}
      → Move save self json s queue pc s' queue' pc'
      → AllKnown self json is_up text home queue
      → IsKnownPc self json is_up text home pc
      → (id : Bytes) (c : Bool)
      → (if c || (some_notes is_up id queue' || will_note is_up id pc')
          then home id
          else lookup id s'.placed)
        ≡ (if c || (some_notes is_up id queue || will_note is_up id pc)
            then home id
            else lookup id s.placed)
  Move-placed (take {job = job} e) known h id c = ground arith
  Move-placed (skip {job = job} e) known h id c =
      absurd (ground (arith, e, trusted.signs (json.chunk_request.marshal job.chunk_req)))
  Move-placed (saved {s = s} {request = request} {node = node} {nodes = targets} y) known (r, e, h)
        id c =
      let up = sym (answer_lem s.world node request r (node ∷ targets) e h) ∙ y in rw up refl
  Move-placed (refused {s = s} {request = request} {node = node} {nodes = targets} n) known
        (r, e, h) id c =
      let down = sym (answer_lem s.world node request r (node ∷ targets) e h) ∙ n in rw down refl
  Move-placed (note {s = s} {request = request} {node = node}) known h id c =
      let same : (request.chunk_id == id) ≡ true → home id ≡ some node =
        λ e. ap home (sym ((eq_iff request.chunk_id id).0 e)) ∙ h in
      rw (lookup-insert request.chunk_id id node s.placed) (ground (arith, same))
  Move-placed give_up known h id c = refl
