-- ===== src/Examples/NodeLife.antt =====
-- A node that has one chunk, before the chunk's time is over.
use kairos_p2p_engine.Base.{◌≡◌, refl, none, some, List, [], ◌∷◌, codes, Option}
use kairos_p2p_engine.Badger.Memory.{Memory, memory_laws, memory-IsReliable}
use kairos_p2p_engine.Cleanup.{Clock, chunks, is_expired, is_old}
use kairos_p2p_engine.Base.{lt64, sub64}
use kairos_p2p_engine.Database.{make_key}
use kairos_p2p_engine.Database.Laws.{stored}
use kairos_p2p_engine.Process.{Response, method_delete}
use kairos_p2p_engine.NodeApi.{Request}
use kairos_p2p_engine.NodeServer.Chunks.{HasKeyedChunks}
use kairos_p2p_engine.NodeApi.Life.{
  Event, request, upload_end, save_call, delete_call, clean_tick, life,
}
use kairos_p2p_engine.NodeApi.Kept.{life-HasKeyedChunks}
use kairos_p2p_engine.Examples.Codecs.{plain_json}
use kairos_p2p_engine.Examples.Cleaning.{
  late, one_chunk, chunk_a, chunk_text, chunks_are_keyed, manifest_f,
}
use kairos_p2p_engine.Examples.Servers.{carol}
use kairos_p2p_engine.Examples.Api.{status_codec, posting, form}

abbrev in_time : Clock
in_time = record late { now = 0 }

abbrev removal : Request
removal = record { method = method_delete; query = (codes "id", codes "c") ∷ []; body = [] }

-- A call that saves another chunk, an upload's start and end, a request and a call that delete other
-- chunks, and a tick of the cleaner while the file's manifest is there.
abbrev one_day : List Event
one_day =
    save_call (record chunk_a { chunk_id = codes "b" })
    ∷ request (codes "/put") posting (some form) (codes "g")
    ∷ upload_end (codes "g") none
    ∷ request (codes "/chunk") removal none []
    ∷ delete_call (codes "d")
    ∷ clean_tick in_time (λ id. some manifest_f) 3
    ∷ []

abbrev silent : Memory → Request → Option Response
silent db r = none

life-HasKeyedChunks_example :
    HasKeyedChunks memory_laws plain_json
      (life carol plain_json status_codec silent silent silent one_chunk one_day)
    × (stored memory_laws
          (life carol plain_json status_codec silent silent silent one_chunk one_day)
          chunks
          (codes "a")
        ≡ some chunk_text)
unfolding make_key is_expired is_old lt64 sub64
life-HasKeyedChunks_example =
    life-HasKeyedChunks carol plain_json status_codec silent silent silent memory_laws one_chunk
      one_day (codes "a") chunk_text memory-IsReliable chunks_are_keyed refl refl
