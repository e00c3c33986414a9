-- ===== src/Network/SideBySide.antt =====
-- A download after an upload whose workers ran side by side.
use mathlib.Core.List.{Perm}
use kairos_p2p_engine.Base.{
  ◌≡◌, Bool, true, false, none, some, List, [], ℕ, suc, ◌+◌, ◌<◌, Bytes, IsDistinct, length, ltb,
  arith, if◌then◌else◌,
}
use kairos_p2p_engine.Models.{FileManifest}
use kairos_p2p_engine.Badger.{BadgerLaws, IsReliable}
use kairos_p2p_engine.Crypto.Library.{Aead, AeadLaws}
use kairos_p2p_engine.Process.{Process, Trusts}
use kairos_p2p_engine.Process.Json.{Json}
use kairos_p2p_engine.Files.Coding.{Coding, CodingLaws}
use kairos_p2p_engine.Files.Blocks.{readable, read_blocks, total_blocks}
use kairos_p2p_engine.Files.Encrypt.{Upload, Draws, UploadJob, encrypt_blocks}
use kairos_p2p_engine.Files.Reconstruct.{unlock_failed, stream_reconstruct}
use kairos_p2p_engine.Files.Reconstruct.RoundTrip.{rs_config}
use kairos_p2p_engine.Files.Reconstruct.WholeFile.{stream_reconstruct-encrypt_blocks}
use kairos_p2p_engine.Files.Workers.{Pipeline, Run, beginning, AllEnded}
use kairos_p2p_engine.Network.{Net, net_save, net_fetch}
use kairos_p2p_engine.Network.Chunks.{job_ids, AllFresh, AllStored}
use kairos_p2p_engine.Network.Jobs.{encrypt_blocks-AllOwn}
use kairos_p2p_engine.Network.Blocks.{AllStored-IsHonest, encrypt_blocks-reachable}
use kairos_p2p_engine.Network.AnyOrder.{Run-AllStored}

module _ {coding : Coding} (codes : CodingLaws coding) {aead : Aead} (cipher : AeadLaws aead)
    {B E G H K : Type 0} (nodes : Process E G) (self : Process H K) (json : Json)
    (is_up : Bytes → Bool) {laws : BadgerLaws nodes.badger} (reliable : IsReliable laws)
    (trusted : Trusts nodes self)
    (total : self.config.total_shards ≡ self.config.data_shards + self.config.parity_shards)
    (upload : Upload) (draws : ℕ → Draws) (nonces : ℕ → Bytes)
    (fits : (k : ℕ) → length (nonces k) ≡ aead.nonce_size)
    (drawn : (k : ℕ) → (draws k).nonce ≡ some (nonces k)) where
  -- A file that is not empty is read in blocks of a positive size, which the crypto workers encrypt
  -- and put into the manifest without an error; the manifest has their number and the shard numbers
  -- of the configuration, which add up to the total and are accepted by the code; the nonces have
  -- the right length, and the chunks' identifiers are different and on no node. The upload workers,
  -- at least one, get the chunks in any order and make their steps in any order, until all have
  -- ended and no failure was reported. The stores do not fail and the nodes accept the signatures.
  -- Then a download with the manifest, from the nodes that were up, to a client that takes every
  -- write gives the file from the release round on, and before that round nothing and the failure
  -- to unlock the key.
  pub stream_reconstruct-Run :
      {capacity count k : ℕ} (block_size later : ℕ) (bytes : Bytes) (manifest : FileManifest)
      (made jobs : List UploadJob) (w : Net B E)
      (p : Pipeline (net_save {D = B} nodes json is_up) self json) (writes : ℕ → Bool)
      → 0 < block_size
      → 0 < length bytes
      → 0 < count
      → coding.rs_new self.config.data_shards self.config.parity_shards ≡ true
      → manifest.reed_solomon_config ≡ rs_config self.config
      → manifest.blocks ≡ total_blocks (length bytes) block_size
      → encrypt_blocks coding aead self.config upload draws
          (read_blocks (suc (length bytes)) block_size 0 (readable bytes)).0
          []
        ≡ (manifest.split, (made, false))
      → IsDistinct (job_ids made)
      → AllFresh nodes json is_up laws w made
      → Perm made jobs
      → Run
          (net_save {D = B} nodes json is_up)
          self
          json
          capacity
          (beginning
            (net_save {D = B} nodes json is_up)
            self
            json
            count
            (record { world = w; placed = []; failed = false })
            jobs)
          k
          p
      → AllEnded p.workers
      → p.sent.failed ≡ false
      → ((i : ℕ) → writes i ≡ true)
      → stream_reconstruct coding aead
          (net_fetch nodes json is_up p.sent.world)
          manifest
          later
          writes
          true
        ≡ (if ltb later upload.round then ([], some unlock_failed) else (bytes, none))
  stream_reconstruct-Run block_size later bytes manifest made jobs w p writes positive filled
        any_worker new rs number e distinct fresh perm r over fine written =
      let blocks = (read_blocks (suc (length bytes)) block_size 0 (readable bytes)).0 in
      let own =
        encrypt_blocks-AllOwn self coding aead upload draws blocks [] manifest.split made e in
      let placed : AllStored nodes json is_up laws p.sent.world made =
        Run-AllStored nodes json is_up laws self reliable trusted w made jobs p any_worker own
          distinct fresh perm r over fine in
      let reachable =
        encrypt_blocks-reachable nodes json is_up laws p.sent.world reliable self trusted upload
          coding aead draws blocks [] manifest.split made e distinct placed
          (λ i b l. absurd (ground (arith, l))) in
      stream_reconstruct-encrypt_blocks codes cipher self.config upload draws nonces total fits
        drawn (net_fetch nodes json is_up p.sent.world) manifest rs
        (λ i b l. let (d, a) = reachable i b l in (d, omega (arith, a, total))) later writes written
        (suc (length bytes)) block_size bytes made positive (omega arith) filled new number e
        (AllStored-IsHonest nodes json is_up laws p.sent.world reliable self trusted upload made
          placed)
