-- ===== src/NodeApi/Dropped.antt =====
-- The chunks that the deletions set off by `DeleteFile` remove from the nodes.
use kairos_p2p_engine.Base.{
  ℕ, ◌≡◌, refl, ap, ◌∙◌, Bool, false, ◌&&◌, ◌||◌, none, List, [], ◌∷◌, Bytes, ◌==◌, eq_iff, elem,
  arith, Bool-cases, inl, inr, if◌then◌else◌,
}
use kairos_p2p_engine.Models.{Chunk, FileBlock}
use kairos_p2p_engine.Badger.{BadgerLaws, IsReliable}
use kairos_p2p_engine.Database.{delete_key}
use kairos_p2p_engine.Database.Laws.{stored, stored-delete, delete_key_ok}
use kairos_p2p_engine.Process.{Process}
use kairos_p2p_engine.Process.Json.{Json}
use kairos_p2p_engine.Cleanup.{chunks}
use kairos_p2p_engine.NodeServer.{delete_chunk}
use kairos_p2p_engine.Network.{Net, net_delete}
use kairos_p2p_engine.NodeApi.Files.{delete_at, delete_chunks, delete_blocks}

-- Whether the manifest names the node for a chunk of that identifier.
abbrev pub names_chunk : Bytes → Bytes → List Chunk → Bool
names_chunk node id [] = false
names_chunk node id (c ∷ cs) = ((c.chunk_id == id) && elem node c.nodes) || names_chunk node id cs

abbrev pub names : Bytes → Bytes → List (ℕ × FileBlock) → Bool
names node id [] = false
names node id ((k, block) ∷ split) = names_chunk node id block.chunks || names node id split

chunk_deleted :
    {E G : Type 0} (nodes : Process E G) {laws : BadgerLaws nodes.badger}
    (reliable : IsReliable laws) (db : E) (id : Bytes)
    → (delete_chunk nodes db id).0 ≡ (delete_key nodes.badger db chunks id).0
unfolding delete_chunk
chunk_deleted nodes {laws} reliable db id =
    rw (delete_key_ok laws reliable db chunks id, delete_chunk) refl

module _ {B E G : Type 0} (nodes : Process E G) (json : Json) (is_up : Bytes → Bool)
    {laws : BadgerLaws nodes.badger} (reliable : IsReliable laws) where
  pub deleted_one :
      (w : Net B E) (node id a j : Bytes)
      → stored laws ((net_delete nodes json is_up w node id).nodes a) chunks j
        ≡ (if is_up a && ((node == a) && (id == j)) then none else stored laws (w.nodes a) chunks j)
  unfolding net_delete
  deleted_one w node id a j = elim (Bool-cases (is_up node)) [
    | inl up ↦ elim (Bool-cases (node == a)) [
      | inl e ↦
          rw (up, e)
            (rw (chunk_deleted nodes reliable (w.nodes node) id) (
              ground (
                arith,
                up,
                stored-delete laws (w.nodes node) chunks chunks id j refl refl,
                delete_key_ok laws reliable (w.nodes node) chunks id,
                ap is_up ((eq_iff node a).0 e),
                ap w.nodes ((eq_iff node a).0 e),
              )))
      | inr e ↦ rw (up, e) (ground arith)
    ]
    | inr down ↦ rw down (elim (Bool-cases (node == a)) [
      | inl e ↦ ground (arith, ap is_up ((eq_iff node a).0 e))
      | inr e ↦ rw e (ground arith)
    ])
  ]

  deleted_at :
      (w : Net B E) (id : Bytes) (targets : List Bytes) (a j : Bytes)
      → stored laws ((delete_at (net_delete nodes json is_up) w id targets).nodes a) chunks j ≡ (
          if is_up a && ((id == j) && elem a targets)
          then none
          else stored laws (w.nodes a) chunks j)
  deleted_at w id [] a j = ground arith
  deleted_at w id (node ∷ targets) a j =
      deleted_at (net_delete nodes json is_up w node id) id targets a j
      ∙ ground (arith, deleted_one w node id a j)

  deleted_chunks :
      (w : Net B E) (cs : List Chunk) (a j : Bytes)
      → stored laws ((delete_chunks (net_delete nodes json is_up) w cs).nodes a) chunks j
        ≡ (if is_up a && names_chunk a j cs then none else stored laws (w.nodes a) chunks j)
  deleted_chunks w [] a j = ground arith
  deleted_chunks w (c ∷ cs) a j =
      deleted_chunks (delete_at (net_delete nodes json is_up) w c.chunk_id c.nodes) cs a j
      ∙ ground (arith, deleted_at w c.chunk_id c.nodes a j)

  pub deleted_blocks :
      (w : Net B E) (split : List (ℕ × FileBlock)) (a j : Bytes)
      → stored laws ((delete_blocks (net_delete nodes json is_up) w split).nodes a) chunks j
        ≡ (if is_up a && names a j split then none else stored laws (w.nodes a) chunks j)
  deleted_blocks w [] a j = ground arith
  deleted_blocks w ((k, block) ∷ split) a j =
      deleted_blocks (delete_chunks (net_delete nodes json is_up) w block.chunks) split a j
      ∙ ground (arith, deleted_chunks w block.chunks a j)

module _ {B E G : Type 0} (nodes : Process E G) (json : Json) (is_up : Bytes → Bool) where
  bootstrap_kept_at :
      (w : Net B E) (id : Bytes) (targets : List Bytes)
      → (delete_at (net_delete nodes json is_up) w id targets).bootstrap ≡ w.bootstrap
  unfolding net_delete
  bootstrap_kept_at w id [] = refl
  bootstrap_kept_at w id (node ∷ targets) =
      bootstrap_kept_at (net_delete nodes json is_up w node id) id targets
      ∙ elim (Bool-cases (is_up node)) [ inl e ↦ rw e refl | inr e ↦ rw e refl ]

  bootstrap_kept_chunks :
      (w : Net B E) (cs : List Chunk)
      → (delete_chunks (net_delete nodes json is_up) w cs).bootstrap ≡ w.bootstrap
  bootstrap_kept_chunks w [] = refl
  bootstrap_kept_chunks w (c ∷ cs) =
      bootstrap_kept_chunks (delete_at (net_delete nodes json is_up) w c.chunk_id c.nodes) cs
      ∙ bootstrap_kept_at w c.chunk_id c.nodes

  pub bootstrap_kept :
      (w : Net B E) (split : List (ℕ × FileBlock))
      → (delete_blocks (net_delete nodes json is_up) w split).bootstrap ≡ w.bootstrap
  bootstrap_kept w [] = refl
  bootstrap_kept w ((k, block) ∷ split) =
      bootstrap_kept (delete_chunks (net_delete nodes json is_up) w block.chunks) split
      ∙ bootstrap_kept_chunks w block.chunks
