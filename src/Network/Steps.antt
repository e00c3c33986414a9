-- ===== src/Network/Steps.antt =====
-- A step of the upload workers, and what the whole upload comes to.
use kairos_p2p_engine.Base.{
  suc, ◌≡◌, refl, ◌∙◌, subst, Bool, false, ◌||◌, Option, some, List, [], ◌∷◌, ◌++◌, ℕ, zero, suc,
  Bytes, lookup, arith, if◌then◌else◌,
}
use kairos_p2p_engine.Models.{ChunkRequest}
use kairos_p2p_engine.Badger.{BadgerLaws, IsReliable}
use kairos_p2p_engine.Database.Laws.{stored}
use kairos_p2p_engine.Process.{Process, Trusts}
use kairos_p2p_engine.Process.Json.{Json}
use kairos_p2p_engine.Cleanup.{chunks}
use kairos_p2p_engine.Files.Encrypt.{UploadJob}
use kairos_p2p_engine.Files.Workers.{
  Pc, idle, ended, Pipeline, Step, send, work, finish, close, stop, Run, start, later, all_idle,
  AllEnded,
}
use kairos_p2p_engine.Network.{Net, net_save}
use kairos_p2p_engine.Network.Pending.{
  will_put, will_fail, will_note, some_notes, any, AllKnown, KnownPcs, AllKnown-append,
  KnownPcs-append, held_at,
}
use kairos_p2p_engine.Network.Moves.{Move-known, Move-stored, Move-failed, Move-placed}
use kairos_p2p_engine.Network.Order.{some_puts, some_fails}

any-append : (f : Pc → Bool) (xs ys : List Pc) → any f (xs ++ ys) ≡ (any f xs || any f ys)
any-append f [] ys = refl
any-append f (x ∷ xs) ys = ground (arith, any-append f xs ys)

pub any-ended : (f : Pc → Bool) (pcs : List Pc) → f ended ≡ false → AllEnded pcs → any f pcs ≡ false
any-ended f [] e h = refl
any-ended f (pc ∷ pcs) e h = rw (h.0, e) (any-ended f pcs e h.1)

pub any-all_idle : (f : Pc → Bool) (n : ℕ) → f idle ≡ false → any f (all_idle n) ≡ false
any-all_idle f zero e = refl
any-all_idle f (suc n) e = rw e (any-all_idle f n e)

module _ (is_up : Bytes → Bool) where
  some_puts-append :
      (a id : Bytes) (xs ys : List UploadJob)
      → some_puts is_up a id (xs ++ ys) ≡ (some_puts is_up a id xs || some_puts is_up a id ys)
  some_puts-append a id [] ys = refl
  some_puts-append a id (x ∷ xs) ys = ground (arith, some_puts-append a id xs ys)

  some_fails-append :
      (xs ys : List UploadJob)
      → some_fails is_up (xs ++ ys) ≡ (some_fails is_up xs || some_fails is_up ys)
  some_fails-append [] ys = refl
  some_fails-append (x ∷ xs) ys = ground (arith, some_fails-append xs ys)

  some_notes-append :
      (id : Bytes) (xs ys : List UploadJob)
      → some_notes is_up id (xs ++ ys) ≡ (some_notes is_up id xs || some_notes is_up id ys)
  some_notes-append id [] ys = refl
  some_notes-append id (x ∷ xs) ys = ground (arith, some_notes-append id xs ys)

module _ {B D E F G : Type 0} (nodes : Process E G) (json : Json) (is_up : Bytes → Bool)
    (laws : BadgerLaws nodes.badger) (self : Process D F) (reliable : IsReliable laws)
    (trusted : Trusts nodes self) (text : Bytes → Bytes) (home : Bytes → Option Bytes) where
  abbrev pub save : Net B E → Bytes → ChunkRequest → Net B E × Bool
  save = net_save nodes json is_up

  pub record IsKnownPipeline (p : Pipeline save self json) : Type 0 where
    pub unsent : AllKnown self json is_up text home p.unsent
    pub queued : AllKnown self json is_up text home p.queue
    pub held : KnownPcs self json is_up text home p.workers

  -- What the upload comes to, in a state of the pipeline.
  abbrev pub whole_stored : Pipeline save self json → Bytes → Bytes → Option Bytes
  whole_stored p a id =
      if some_puts is_up a id p.unsent
        || (some_puts is_up a id p.queue || any (will_put is_up a id) p.workers)
      then some (text id)
      else stored laws (p.sent.world.nodes a) chunks id

  abbrev pub whole_failed : Pipeline save self json → Bool
  whole_failed p =
      p.sent.failed
      || (some_fails is_up p.unsent
          || (some_fails is_up p.queue || any (will_fail is_up) p.workers))

  abbrev pub whole_placed : Pipeline save self json → Bytes → Option Bytes
  whole_placed p id =
      if some_notes is_up id p.unsent
        || (some_notes is_up id p.queue || any (will_note is_up id) p.workers)
      then home id
      else lookup id p.sent.placed

  abbrev pub IsSameWhole : Pipeline save self json → Pipeline save self json → Type 0
  IsSameWhole p q =
      (whole_failed q ≡ whole_failed p)
      × ((a id : Bytes) → whole_stored q a id ≡ whole_stored p a id)
      × ((id : Bytes) → whole_placed q id ≡ whole_placed p id)

  Step-IsKnownPipeline :
      {capacity : ℕ} {p q : Pipeline save self json}
      → Step save self json capacity p q
      → IsKnownPipeline p
      → IsKnownPipeline q
  Step-IsKnownPipeline {p = p} (send {job} {unsent} e room) inv =
      let known : AllKnown self json is_up text home (job ∷ unsent) =
        subst (AllKnown self json is_up text home) e inv.unsent in
      record {
        unsent = known.1;
        queued =
            AllKnown-append self json is_up text home p.queue (job ∷ []) inv.queued (known.0, tt);
        held = inv.held;
      }
  Step-IsKnownPipeline {p = p} (work before {pc} {pc'} after e m) inv =
      let held = held_at self json is_up text home p.workers before pc after inv.held e in
      let moved =
        Move-known nodes json is_up laws self reliable trusted text home m inv.queued held.1.0 in
      record {
        unsent = inv.unsent;
        queued = moved.0;
        held =
            (KnownPcs-append self json is_up text home before (pc' ∷ after)).1
              (held.0, (moved.1, held.1.1));
      }
  Step-IsKnownPipeline (close _ _) inv = record {
    unsent = inv.unsent;
    queued = inv.queued;
    held = inv.held;
  }
  Step-IsKnownPipeline (stop _) inv = record {
    unsent = inv.unsent;
    queued = inv.queued;
    held = inv.held;
  }
  Step-IsKnownPipeline {p = p} (finish before after e _ _) inv =
      let held = held_at self json is_up text home p.workers before idle after inv.held e in
      record {
        unsent = inv.unsent;
        queued = inv.queued;
        held =
            (KnownPcs-append self json is_up text home before (ended ∷ after)).1
              (held.0, (tt, held.1.1));
      }

  Step-failed :
      {capacity : ℕ} {p q : Pipeline save self json}
      → Step save self json capacity p q
      → IsKnownPipeline p
      → whole_failed q ≡ whole_failed p
  Step-failed {p = p} (send {job} e room) inv =
      ground (arith, e, some_fails-append is_up p.queue (job ∷ []))
  Step-failed {p = p} (work before {pc} {pc'} after e m) inv =
      let held = held_at self json is_up text home p.workers before pc after inv.held e in
      ground (
        arith,
        e,
        any-append (will_fail is_up) before (pc ∷ after),
        any-append (will_fail is_up) before (pc' ∷ after),
        Move-failed nodes json is_up laws self reliable trusted text home m inv.queued held.1.0,
      )
  Step-failed (close _ _) inv = refl
  Step-failed (stop _) inv = refl
  Step-failed (finish before after e _ _) inv = ground (
    arith,
    e,
    any-append (will_fail is_up) before (idle ∷ after),
    any-append (will_fail is_up) before (ended ∷ after),
  )

  Step-stored :
      {capacity : ℕ} {p q : Pipeline save self json}
      → Step save self json capacity p q
      → IsKnownPipeline p
      → (a id : Bytes) → whole_stored q a id ≡ whole_stored p a id
  Step-stored {p = p} (send {job} e room) inv a id =
      ground (arith, e, some_puts-append is_up a id p.queue (job ∷ []))
  Step-stored {p = p} (work before {pc} {pc'} after e m) inv a id =
      let held = held_at self json is_up text home p.workers before pc after inv.held e in
      let c : Bool =
        some_puts is_up a id p.unsent
        || (any (will_put is_up a id) before || any (will_put is_up a id) after) in
      ground (
        arith,
        e,
        any-append (will_put is_up a id) before (pc ∷ after),
        any-append (will_put is_up a id) before (pc' ∷ after),
        Move-stored nodes json is_up laws self reliable trusted text home m inv.queued held.1.0 a id
            c,
      )
  Step-stored (close _ _) inv a id = refl
  Step-stored (stop _) inv a id = refl
  Step-stored (finish before after e _ _) inv a id = ground (
    arith,
    e,
    any-append (will_put is_up a id) before (idle ∷ after),
    any-append (will_put is_up a id) before (ended ∷ after),
  )

  Step-placed :
      {capacity : ℕ} {p q : Pipeline save self json}
      → Step save self json capacity p q
      → IsKnownPipeline p
      → (id : Bytes) → whole_placed q id ≡ whole_placed p id
  Step-placed {p = p} (send {job} e room) inv id =
      ground (arith, e, some_notes-append is_up id p.queue (job ∷ []))
  Step-placed {p = p} (work before {pc} {pc'} after e m) inv id =
      let held = held_at self json is_up text home p.workers before pc after inv.held e in
      let c : Bool =
        some_notes is_up id p.unsent
        || (any (will_note is_up id) before || any (will_note is_up id) after) in
      ground (
        arith,
        e,
        any-append (will_note is_up id) before (pc ∷ after),
        any-append (will_note is_up id) before (pc' ∷ after),
        Move-placed nodes json is_up laws self reliable trusted text home m inv.queued held.1.0 id
            c,
      )
  Step-placed (close _ _) inv id = refl
  Step-placed (stop _) inv id = refl
  Step-placed (finish before after e _ _) inv id = ground (
    arith,
    e,
    any-append (will_note is_up id) before (idle ∷ after),
    any-append (will_note is_up id) before (ended ∷ after),
  )

  pub Run-IsSameWhole :
      {capacity : ℕ} {p : Pipeline save self json} {k : ℕ} {q : Pipeline save self json}
      → IsKnownPipeline p
      → Run save self json capacity p k q
      → IsKnownPipeline q × IsSameWhole p q
  Run-IsSameWhole inv (start e) = (inv, (refl, λ a id. refl, λ id. refl))
  Run-IsSameWhole inv (later r s e) =
      let (known, whole) = Run-IsSameWhole inv r in
      (
        Step-IsKnownPipeline s known,
        (
          Step-failed s known ∙ whole.0,
          λ a id. Step-stored s known a id ∙ whole.1 a id,
          λ id. Step-placed s known id ∙ whole.2 id,
        ),
      )
