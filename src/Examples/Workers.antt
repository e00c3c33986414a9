-- ===== src/Examples/Workers.antt =====
-- Two upload workers take two jobs at once; the first node of one job is down.
use kairos_p2p_engine.Base.{
  ◌≡◌, refl, ℕ, ◌+◌, Bool, Option, some, [], ◌∷◌, Bytes, codes, arith, lookup, ◌≤◌, ◌⊎◌,
}
use kairos_p2p_engine.Models.{ChunkRequest}
use kairos_p2p_engine.Process.{check, sign, sign_or_nil}
use kairos_p2p_engine.Crypto.{sign_message, check_signature, verify_signature}
use kairos_p2p_engine.Database.{put_data, make_key}
use kairos_p2p_engine.Database.Laws.{stored}
use kairos_p2p_engine.Config.{self_address}
use kairos_p2p_engine.Cleanup.{chunks}
use kairos_p2p_engine.NodeServer.{save_chunk}
use kairos_p2p_engine.Badger.Memory.{Memory, memory_laws, memory-IsReliable}
use kairos_p2p_engine.Files.Sending.{upload_jobs}
use kairos_p2p_engine.Files.Workers.{
  idle, sending, noting, ended, take, saved, refused, note, Pipeline, send, work, finish, close,
  Run, start, later, beginning, AllEnded,
}
use kairos_p2p_engine.Files.Workers.Measure.{job_steps}
use kairos_p2p_engine.Files.Workers.Progress.{Run-ends, IsOver, Next, IsStuck}
use kairos_p2p_engine.Network.{Net, net_save}
use kairos_p2p_engine.Network.Interleaving.{Run-upload_jobs}
use kairos_p2p_engine.Examples.Codecs.{plain_json}
use kairos_p2p_engine.Examples.Network.{
  sender, node, two_jobs, text_of, b_only, no_placed, Trusts-sender,
}

abbrev save : Net Memory Memory → Bytes → ChunkRequest → Net Memory Memory × Bool
save = net_save node plain_json b_only

abbrev home : Bytes → Option Bytes
home id = some (codes "b")

abbrev RunTo : ℕ → Pipeline save sender plain_json → Type 0
RunTo k p = Run save sender plain_json 1 (beginning save sender plain_json 2 no_placed two_jobs) k p

side_by_side : (p : Pipeline save sender plain_json) × RunTo 12 p
unfolding sign sign_message net_save save_chunk sign_or_nil check_signature verify_signature
    put_data make_key check self_address
side_by_side = (
  _,
  later {k = 11}
      (later {k = 10}
        (later {k = 9}
          (later {k = 8}
            (later {k = 7}
              (later {k = 6}
                (later {k = 5}
                  (later {k = 4}
                    (later {k = 3}
                      (later {k = 2}
                        (later {k = 1} (later {k = 0} (start refl) (send refl (omega arith)) refl)
                          (work (idle ∷ []) [] refl (take refl)) refl)
                        (send refl (omega arith)) refl)
                      (work [] (sending _ _ ∷ []) refl (take refl)) refl)
                    (work (sending _ _ ∷ []) [] refl (refused refl)) refl)
                  (work [] (sending _ _ ∷ []) refl (saved refl)) refl)
                (work (noting _ _ ∷ []) [] refl (saved refl)) refl)
              (work [] (noting _ _ ∷ []) refl note) refl)
            (work (idle ∷ []) [] refl note) refl)
          (close refl refl) refl)
        (finish (idle ∷ []) [] refl refl refl) refl)
      (finish [] (ended ∷ []) refl refl refl) refl,
)

side_by_side_ends : AllEnded side_by_side.0.workers
unfolding side_by_side
side_by_side_ends = (refl, (refl, tt))

Run-ends_example :
    (12 ≤ 3 + job_steps two_jobs)
    × (IsOver save sender plain_json side_by_side.0
        ⊎ (Next save sender plain_json 1 side_by_side.0
            ⊎ IsStuck save sender plain_json 2 side_by_side.0))
Run-ends_example =
    Run-ends save sender plain_json {count = 2} (omega arith) (omega arith) side_by_side.1

Run-upload_jobs_example :
    (side_by_side.0.sent.failed ≡ (upload_jobs save sender plain_json no_placed two_jobs).failed)
    × ((a id : Bytes)
        → stored memory_laws (side_by_side.0.sent.world.nodes a) chunks id
          ≡ stored memory_laws
              ((upload_jobs save sender plain_json no_placed two_jobs).world.nodes a)
              chunks
              id)
    × ((id : Bytes)
        → lookup id side_by_side.0.sent.placed
          ≡ lookup id (upload_jobs save sender plain_json no_placed two_jobs).placed)
Run-upload_jobs_example =
    Run-upload_jobs node plain_json b_only memory_laws sender memory-IsReliable
      (Trusts-sender (codes "n")) text_of home {count = 2} (omega arith)
      ((refl, refl, refl), ((refl, refl, refl), tt)) side_by_side.1 side_by_side_ends
