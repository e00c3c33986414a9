-- ===== src/Network/Notes.antt =====
-- The nodes that the upload workers note for the chunks.
use kairos_p2p_engine.Base.{
  ◌≡◌, refl, sym, ap, ◌∙◌, Bool, true, false, ◌&&◌, ◌||◌, Option, List, [], ◌∷◌, ℕ, Bytes, ◌==◌,
  eq_iff, elem, IsDistinct, keys, lookup, insert-IsDistinct, Bool-cases, Option-cases, inl, inr,
  arith,
}
use kairos_p2p_engine.Models.{ChunkRequest}
use kairos_p2p_engine.Process.{Process}
use kairos_p2p_engine.Process.Json.{Json}
use kairos_p2p_engine.Files.Encrypt.{UploadJob}
use kairos_p2p_engine.Files.Sending.{Sent}
use kairos_p2p_engine.Files.Workers.{
  Pc, Pipeline, Move, take, skip, saved, refused, note, give_up, Step, send, work, finish, close,
  stop, Run, start, later,
}
use kairos_p2p_engine.Network.Order.{first_up, is_node, puts, some_puts}
use kairos_p2p_engine.Network.Pending.{some_notes, AllKnown}

-- Whether the notes have the node for the identifier.
abbrev pub notes : Bytes → Bytes → List (Bytes × Bytes) → Bool
notes a id [] = false
notes a id ((j, node) ∷ placed) = ((node == a) && (j == id)) || notes a id placed

notes-unknown :
    (a id : Bytes) (placed : List (Bytes × Bytes))
    → elem id (keys placed) ≡ false
    → notes a id placed ≡ false
notes-unknown a id [] h = refl
notes-unknown a id ((j, node) ∷ placed) h =
    ground (arith, h, notes-unknown a id placed, eq_iff j id, eq_iff id j)

pub notes-lookup :
    (a id : Bytes) (placed : List (Bytes × Bytes))
    → IsDistinct (keys placed)
    → notes a id placed ≡ is_node a (lookup id placed)
notes-lookup a id [] d = refl
notes-lookup a id ((j, node) ∷ placed) d = elim (Bool-cases (j == id)) [
  | inl e ↦
      let out : elem id (keys placed) ≡ false =
        ap (λ t. elem t (keys placed)) (sym ((eq_iff j id).0 e)) ∙ d.0 in
      rw e (ground (arith, notes-unknown a id placed out))
  | inr e ↦ rw e (ground (arith, notes-lookup a id placed d.1))
]

module _ {W : Type 0} (save : W → Bytes → ChunkRequest → W × Bool) {D F : Type 0}
    (self : Process D F) (json : Json) where
  -- Every chunk has one note.
  Move-IsDistinct :
      {s s' : Sent W} {queue queue' : List UploadJob} {pc pc' : Pc}
      → Move save self json s queue pc s' queue' pc'
      → IsDistinct (keys s.placed)
      → IsDistinct (keys s'.placed)
  Move-IsDistinct (take _) d = d
  Move-IsDistinct (skip _) d = d
  Move-IsDistinct (saved _) d = d
  Move-IsDistinct (refused _) d = d
  Move-IsDistinct (note {s = s} {request = request} {node = node}) d =
      insert-IsDistinct request.chunk_id node s.placed d
  Move-IsDistinct give_up d = d

  Step-IsDistinct :
      {capacity : ℕ} {p q : Pipeline save self json}
      → Step save self json capacity p q
      → IsDistinct (keys p.sent.placed)
      → IsDistinct (keys q.sent.placed)
  Step-IsDistinct (send _ _) d = d
  Step-IsDistinct (work _ _ _ m) d = Move-IsDistinct m d
  Step-IsDistinct (close _ _) d = d
  Step-IsDistinct (stop _) d = d
  Step-IsDistinct (finish _ _ _ _ _) d = d

  pub Run-IsDistinct :
      {capacity : ℕ} {p : Pipeline save self json} {k : ℕ} {q : Pipeline save self json}
      → IsDistinct (keys p.sent.placed)
      → Run save self json capacity p k q
      → IsDistinct (keys q.sent.placed)
  Run-IsDistinct d (start e) = d
  Run-IsDistinct d (later r s e) = Step-IsDistinct s (Run-IsDistinct d r)

module _ (is_up : Bytes → Bool) where
  first_up-is_up :
      (a : Bytes) (targets : List Bytes)
      → is_node a (first_up is_up targets) ≡ true
      → is_up a ≡ true
  first_up-is_up a [] h = absurd (ground (arith, h))
  first_up-is_up a (node ∷ targets) h = elim (Bool-cases (is_up node)) [
    | inl e ↦ ground (arith, h, e, ap is_up ((eq_iff node a).0 (ground (arith, h, e))))
    | inr e ↦ first_up-is_up a targets (ground (arith, h, e))
  ]

  pub some_puts-is_up :
      (a id : Bytes) (jobs : List UploadJob) → some_puts is_up a id jobs ≡ true → is_up a ≡ true
  some_puts-is_up a id [] h = absurd (ground (arith, h))
  some_puts-is_up a id (job ∷ jobs) h = elim (Bool-cases (puts is_up a id job)) [
    | inl e ↦ first_up-is_up a job.target_nodes (ground (arith, e))
    | inr e ↦ some_puts-is_up a id jobs (ground (arith, h, e))
  ]

  -- A chunk is noted with the node that it is put at.
  pub some_puts-some_notes :
      {D F : Type 0} (self : Process D F) (json : Json) (text : Bytes → Bytes)
      (home : Bytes → Option Bytes) (a id : Bytes) (jobs : List UploadJob)
      → AllKnown self json is_up text home jobs
      → some_puts is_up a id jobs ≡ (some_notes is_up id jobs && is_node a (home id))
  some_puts-some_notes self json text home a id [] known = refl
  some_puts-some_notes self json text home a id (job ∷ jobs) known =
      let j = job.chunk_req.chunk_id in
      let first = first_up is_up job.target_nodes in
      let rest = some_puts-some_notes self json text home a id jobs known.1 in
      let at : (j == id) ≡ true → first ≡ home id = λ h. known.0.2 ∙ ap home ((eq_iff j id).0 h) in
      elim (Bool-cases (j == id)) [
        | inl e ↦ elim (Option-cases first) [
          | inl f ↦ rw (e, f) (ground (arith, rest))
          | inr (node, f) ↦
              let here : is_node a (home id) ≡ (node == a) = ap (is_node a) (sym (at e) ∙ f) in
              rw (e, f) (ground (arith, rest, here))
        ]
        | inr e ↦ rw e (ground (arith, rest))
      ]
