-- ===== src/Startup.antt =====
-- How a node and a bootstrap server start: the configuration from the environment and the key pair,
-- in cmd/k-node/main.go and cmd/k-bootstrap/main.go, and `OpenDatabase` of
-- internal/database/badger.go. `getenv` gives "" for a variable that is not set; `atoi` is
-- `strconv.Atoi`, the decimal text of whose number is kept, that of 0 when it fails.
use kairos_p2p_engine.Base.{
  ℕ, ◌≡◌, refl, ap, ◌∙◌, Bool, true, false, Option, none, some, List, [], ◌∷◌, ◌++◌, Bytes, codes,
  nat_eq, length, Result, ok, err, if◌then◌else◌,
}
use kairos_p2p_engine.Config.{Config}
use kairos_p2p_engine.Crypto.Library.{Primitives, FileSystem}
use kairos_p2p_engine.Crypto.{
  CryptoError, get_public_key, get_private_key, keys_exist, generate_key_pair,
}
pub mod Restart

-- `strings.Split(text, ",")`
abbrev pub cons_first : ℕ → List Bytes → List Bytes
cons_first c [] = (c ∷ []) ∷ []
cons_first c (part ∷ parts) = (c ∷ part) ∷ parts

abbrev pub split_commas : Bytes → List Bytes
split_commas [] = [] ∷ []
split_commas (c ∷ text) =
    if nat_eq c b',' then [] ∷ split_commas text else cons_first c (split_commas text)

abbrev pub or_default : Bytes → Bytes → Bytes
or_default text default = if nat_eq (length text) 0 then default else text

-- The configuration and the directory of the database; `default_path` is that of the program.
unfoldable pub configured : (Bytes → Bytes) → (Bytes → Bytes) → Bytes → Config → Config × Bytes
configured getenv atoi default_path config =
    let port = getenv (codes "PORT") in
    let servers = getenv (codes "BOOTSTRAP_SERVERS") in
    let db_path = or_default (getenv (codes "KAIROS_DB_PATH")) default_path in
    (
      record config {
        port = if nat_eq (length port) 0 then config.port else atoi port;
        advertised_address = or_default (getenv (codes "POD_IP")) (codes "localhost");
        bootstrap_servers =
            if nat_eq (length servers) 0 then config.bootstrap_servers else split_commas servers;
        private_key_dir = db_path ++ codes "/keys/private_key.pem";
        public_key_dir = db_path ++ codes "/keys/public_key.pem";
      },
      db_path,
    )

-- `config.PublicKey, _ = …`: nil when reading fails.
abbrev pub or_nil : Result CryptoError Bytes → Bytes
or_nil (ok key) = key
or_nil (err e) = []

module _ {F : Type 0} (fs : FileSystem F) (crypto : Primitives) where
  -- The error of `GenerateKeyPair` is dropped.
  unfoldable pub start_keys : Config → F → Option (Bytes × Bytes) → F × Config
  start_keys config files drawn =
      if keys_exist fs config files
      then (
        files,
        record config {
          public_key = or_nil (get_public_key fs config files);
          private_key = or_nil (get_private_key fs config files);
        },
      )
      else (let (files', (config', e)) = generate_key_pair fs crypto config files drawn in
          (files', config'))

  -- `open_` is `badger.Open` of the directory.
  unfoldable pub open_database :
      {D : Type 0} → (F → Bytes → F × Option D) → F → Bytes → F × Option D
  open_database open_ files db_dir =
      let (files', made) = fs.mkdir_all files db_dir in
      if made then open_ files' db_dir else (files', none)

  -- A program without its database ends.
  unfoldable pub start :
      {D : Type 0}
      → (F → Bytes → F × Option D)
      → (Bytes → Bytes)
      → (Bytes → Bytes)
      → Bytes
      → Config
      → Option (Bytes × Bytes)
      → F
      → F × Option (Config × D)
  start open_ getenv atoi default_path config drawn files =
      let (config', db_path) = configured getenv atoi default_path config in
      let (files', db) = open_database open_ files db_path in
      elim db [
        | none ↦ (files', none)
        | some d ↦
            let (files'', config'') = start_keys config' files' drawn in
            (files'', some (config'', d))
      ]
