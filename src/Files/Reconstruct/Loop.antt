-- ===== src/Files/Reconstruct/Loop.antt =====
-- The loop that gathers the shards of a block.
use kairos_p2p_engine.Base.{
  ℕ, ◌+◌, ◌≡◌, refl, ◌∙◌, Bool, false, ◌||◌, Option, none, some, List, [], ◌∷◌, Bytes, eq_refl,
  elem, IsDistinct, Result, ok, is_some, get_elem?, lookup, insert, lookup-insert, arith,
  if◌then◌else◌, Option-cases, inl, inr,
}
use kairos_p2p_engine.Models.{Chunk, ChunkRequest}
use kairos_p2p_engine.Files.Encrypt.{UploadJob}
use kairos_p2p_engine.Files.Reconstruct.{
  Gather, GetError, chunk_infos, accept_shard, place_shard, try_nodes, zero_chunk, or_zero,
}

abbrev pub ids : List Chunk → List Bytes
ids [] = []
ids (c ∷ cs) = c.chunk_id ∷ ids cs

-- Each chunk is found under its identifier.
abbrev pub IsKnown : List (Bytes × Chunk) → List Chunk → Type 0
IsKnown infos [] = Unit {0}
IsKnown infos (c ∷ cs) = (lookup c.chunk_id infos ≡ some c) × IsKnown infos cs

chunk_infos-other :
    (id : Bytes) (cs : List Chunk) (m : List (Bytes × Chunk))
    → elem id (ids cs) ≡ false
    → lookup id (chunk_infos cs m) ≡ lookup id m
unfolding chunk_infos
chunk_infos-other id [] m h = refl
chunk_infos-other id (c ∷ cs) m h =
    chunk_infos-other id cs (insert c.chunk_id c m) (ground arith)
    ∙ ground (arith, lookup-insert c.chunk_id id c m)

pub chunk_infos-IsKnown :
    (cs : List Chunk) (m : List (Bytes × Chunk))
    → IsDistinct (ids cs)
    → IsKnown (chunk_infos cs m) cs
unfolding chunk_infos
chunk_infos-IsKnown [] m d = tt
chunk_infos-IsKnown (c ∷ cs) m d = (
  chunk_infos-other c.chunk_id cs (insert c.chunk_id c m) d.0
      ∙ ground (arith, lookup-insert c.chunk_id c.chunk_id c m, eq_refl c.chunk_id),
  chunk_infos-IsKnown cs (insert c.chunk_id c m) d.1,
)

place_shard_free :
    (g : Gather) (c : Chunk) (shard : Bytes) (rest : Result GetError Gather)
    → get_elem? g.shards c.shard_index ≡ some none
    → place_shard g c shard rest ≡ ok (accept_shard g c shard)
unfolding place_shard
place_shard_free g c shard rest free = rw (free, place_shard) refl

module _ (fetch : Bytes → Bytes → Option ChunkRequest) where
  -- Some node of the list answers with the chunk.
  abbrev pub reaches : Bytes → List Bytes → Bool
  reaches id [] = false
  reaches id (node ∷ nodes) = is_some (fetch node id) || reaches id nodes

  -- How many of the chunks can be had from one of their nodes.
  abbrev pub available : List Chunk → ℕ
  available [] = 0
  available (c ∷ cs) = (if reaches c.chunk_id c.nodes then 1 else 0) + available cs

  -- A node that answers for a chunk answers with what was uploaded.
  abbrev pub IsHonest : List UploadJob → Type 0
  IsHonest [] = Unit {0}
  IsHonest (job ∷ jobs) =
      ((node : Bytes) (reply : ChunkRequest)
        → fetch node job.chunk_req.chunk_id ≡ some reply
        → (reply.chunk_id ≡ job.chunk_req.chunk_id) × (reply.shard ≡ job.chunk_req.shard))
      × IsHonest jobs

  module _ (infos : List (Bytes × Chunk)) where
    pub try_nodes_lem :
        (g : Gather) (c : Chunk) (shard : Bytes) (nodes : List Bytes)
        → lookup c.chunk_id infos ≡ some c
        → get_elem? g.shards c.shard_index ≡ some none
        → ((node : Bytes) (reply : ChunkRequest)
            → fetch node c.chunk_id ≡ some reply
            → (reply.chunk_id ≡ c.chunk_id) × (reply.shard ≡ shard))
        → try_nodes fetch infos g c.chunk_id nodes
          ≡ ok (if reaches c.chunk_id nodes then accept_shard g c shard else g)
    unfolding try_nodes
    try_nodes_lem g c shard [] known free honest = refl
    try_nodes_lem g c shard (node ∷ nodes) known free honest =
        elim (Option-cases (fetch node c.chunk_id)) [
          | inl e ↦ rw (e, try_nodes) (try_nodes_lem g c shard nodes known free honest)
          | inr (reply, e) ↦
              let (i, s) = honest node reply e in
              let k : or_zero zero_chunk (lookup reply.chunk_id infos) ≡ c = rw (i, known) refl in
              rw (e, try_nodes) (rw (k, s) (place_shard_free g c shard _ free))
        ]
