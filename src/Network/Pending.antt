-- ===== src/Network/Pending.antt =====
-- What the upload workers have yet to do, and what is known of their requests.
use kairos_p2p_engine.Network.Order.{AllNamed}
use kairos_p2p_engine.Base.{
  zero, suc, ok-injective, ◌↔◌, ok, ◌≡◌, refl, sym, ap, ◌∙◌, subst, Bool, false, not, ◌&&◌, ◌||◌,
  Option, some, List, [], ◌∷◌, ◌++◌, ℕ, Bytes, ◌==◌, is_some,
}
use kairos_p2p_engine.Models.{ChunkRequest}
use kairos_p2p_engine.Process.{Process, sign_or_nil, Trusts}
use kairos_p2p_engine.Process.Json.{Json}
use kairos_p2p_engine.NodeServer.Chunks.{signed_chunk}
use kairos_p2p_engine.Files.Encrypt.{UploadJob}
use kairos_p2p_engine.Files.Workers.{
  Pc, idle, sending, noting, ended, all_idle, signed, request_with,
}
use kairos_p2p_engine.Network.Chunks.{IsOwn}
use kairos_p2p_engine.Network.Order.{first_up, is_node}

module _ (is_up : Bytes → Bool) where
  -- Whether what a worker is about to do puts the chunk of identifier `id` at node `a`, fails, or
  -- notes a node for `id`.
  abbrev pub will_put : Bytes → Bytes → Pc → Bool
  will_put a id (sending request nodes) =
      is_node a (first_up is_up nodes) && (request.chunk_id == id)
  will_put a id _ = false

  abbrev pub will_fail : Pc → Bool
  will_fail (sending request nodes) = not (is_some (first_up is_up nodes))
  will_fail _ = false

  abbrev pub will_note : Bytes → Pc → Bool
  will_note id (sending request nodes) = is_some (first_up is_up nodes) && (request.chunk_id == id)
  will_note id (noting request node) = request.chunk_id == id
  will_note id _ = false

  abbrev pub some_notes : Bytes → List UploadJob → Bool
  some_notes id [] = false
  some_notes id (job ∷ jobs) =
      (is_some (first_up is_up job.target_nodes) && (job.chunk_req.chunk_id == id))
      || some_notes id jobs

abbrev pub any : (Pc → Bool) → List Pc → Bool
any f [] = false
any f (pc ∷ pcs) = f pc || any f pcs

module _ {D F : Type 0} (self : Process D F) (json : Json) (is_up : Bytes → Bool)
    (text : Bytes → Bytes) (home : Bytes → Option Bytes) where
  -- A request of the process, whose identifier stands for one text, and its nodes, of which `home`
  -- is the first that is up.
  abbrev pub IsKnown : ChunkRequest → List Bytes → Type 0
  IsKnown request targets =
      IsOwn self request
      × (json.chunk_request.marshal request ≡ text request.chunk_id)
      × (first_up is_up targets ≡ home request.chunk_id)

  abbrev pub AllKnown : List UploadJob → Type 0
  AllKnown [] = Unit {0}
  AllKnown (job ∷ jobs) = IsKnown job.chunk_req job.target_nodes × AllKnown jobs

  abbrev pub IsKnownPc : Pc → Type 0
  IsKnownPc idle = Unit {0}
  IsKnownPc ended = Unit {0}
  IsKnownPc (noting request node) = home request.chunk_id ≡ some node
  IsKnownPc (sending request targets) =
      (r : ChunkRequest) × (request ≡ signed_chunk self json r) × IsKnown r targets

  abbrev pub KnownPcs : List Pc → Type 0
  KnownPcs [] = Unit {0}
  KnownPcs (pc ∷ pcs) = IsKnownPc pc × KnownPcs pcs

  pub AllKnown-append : (xs ys : List UploadJob) → AllKnown xs → AllKnown ys → AllKnown (xs ++ ys)
  AllKnown-append [] ys hx hy = hy
  AllKnown-append (x ∷ xs) ys hx hy = (hx.0, AllKnown-append xs ys hx.1 hy)

  pub KnownPcs-append : (xs ys : List Pc) → KnownPcs (xs ++ ys) ↔ (KnownPcs xs × KnownPcs ys)
  KnownPcs-append [] ys = (λ h. (tt, h), λ h. h.1)
  KnownPcs-append (x ∷ xs) ys = (
    λ h. let rest = (KnownPcs-append xs ys).0 h.1 in ((h.0, rest.0), rest.1),
    λ h. (h.0.0, (KnownPcs-append xs ys).1 (h.0.1, h.1)),
  )

  -- The workers before, at and after a position are as known as all of them.
  pub held_at :
      (pcs before : List Pc) (pc : Pc) (after : List Pc)
      → KnownPcs pcs
      → pcs ≡ before ++ (pc ∷ after)
      → KnownPcs before × KnownPcs (pc ∷ after)
  held_at pcs before pc after h e = (KnownPcs-append before (pc ∷ after)).0 (subst (KnownPcs) e h)

  pub AllNamed-AllKnown : (jobs : List UploadJob) → AllKnown jobs → AllNamed self json text jobs
  AllNamed-AllKnown [] h = tt
  AllNamed-AllKnown (job ∷ jobs) h = ((h.0.0, h.0.1), AllNamed-AllKnown jobs h.1)

  pub KnownPcs-all_idle : (count : ℕ) → KnownPcs (all_idle count)
  KnownPcs-all_idle zero = tt
  KnownPcs-all_idle (suc n) = (tt, KnownPcs-all_idle n)

module _ {W D E F G : Type 0} (save : W → Bytes → ChunkRequest → W × Bool) (nodes : Process E G)
    (json : Json) (self : Process D F) (trusted : Trusts nodes self) where
  pub signed_lem :
      (job : UploadJob) (signature : Bytes)
      → IsOwn self job.chunk_req
      → signed save self json job ≡ ok signature
      → request_with save self json job signature ≡ signed_chunk self json job.chunk_req
  signed_lem job signature own e =
      let message = json.chunk_request.marshal job.chunk_req in
      let chunk_signed : signed_chunk self json job.chunk_req
          ≡ record job.chunk_req { signature = sign_or_nil self message } =
        ap {A = ChunkRequest}
          (λ r. record r { signature = sign_or_nil self (json.chunk_request.marshal r) }) own in
      let same : sign_or_nil self message ≡ signature =
        ok-injective (sym (trusted.signs message) ∙ e) in
      rw chunk_signed (rw same refl)
