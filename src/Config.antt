-- ===== src/Config.antt =====
-- internal/config/config.go: the package's variables as one record. The database handle and the
-- HTTP client are arguments of the definitions that use them.
use kairos_p2p_engine.Base.{ℕ, ◌+◌, ◌*◌, List, [], ◌∷◌, ◌++◌, Bytes, codes}

pub record Config : Type 0 where
  pub advertised_address : Bytes
  pub port : Bytes
  pub bootstrap_servers : List Bytes
  pub public_key : Bytes
  pub private_key : Bytes
  pub public_key_dir : Bytes
  pub private_key_dir : Bytes
  pub target_chunk_size : ℕ
  pub data_shards : ℕ
  pub parity_shards : ℕ
  pub total_shards : ℕ
  pub chunks_tolerance : ℕ
  pub cron_sync : ℕ
  pub cron_clean : ℕ

-- The values that the variables start with. The port is kept as the decimal text that
-- `strconv.Itoa(config.Port)` makes of it.
abbrev pub default_config : Config
default_config = record {
  advertised_address = [];
  port = codes "8080";
  bootstrap_servers = [];
  public_key = [];
  private_key = [];
  public_key_dir = [];
  private_key_dir = [];
  target_chunk_size = 500 * 1024;
  data_shards = 3;
  parity_shards = 2;
  total_shards = 3 + 2;
  chunks_tolerance = 3;
  cron_sync = 10;
  cron_clean = 3600;
}

-- config.AdvertisedAddress + ":" + strconv.Itoa(config.Port)
unfoldable pub self_address : Config → Bytes
self_address c = c.advertised_address ++ (b':' ∷ c.port)
