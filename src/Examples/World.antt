-- ===== src/Examples/World.antt =====
-- Processes on plain stand-ins for the cryptographic libraries and the file system.
use kairos_p2p_engine.Base.{
  ◌≡◌, refl, true, some, List, [], ◌∷◌, ◌++◌, Bytes, codes, ◌==◌, eq_refl, eq_iff, is_some, lookup,
  insert, lookup-insert, arith,
}
use kairos_p2p_engine.Badger.Memory.{Memory, memory}
use kairos_p2p_engine.Config.{Config, default_config}
use kairos_p2p_engine.Crypto.Library.{
  ed25519, Primitives, PrimitiveLaws, FileSystem, FileSystemLaws, Aead, AeadLaws,
}
use kairos_p2p_engine.Crypto.{sign_message, check_signature, verify_signature}
use kairos_p2p_engine.Process.{Process, sign, sign_or_nil, check, Trusts}

abbrev pub Files : Type 0
Files = List (Bytes × Bytes)

abbrev pub disk : FileSystem Files
disk = record {
  dir = λ path. path;
  mkdir_all = λ f path. (f, true);
  read_file = λ f path. lookup path f;
  write_file = λ f path body. (insert path body f, true);
  exists = λ f path. is_some (lookup path f);
}

pub disk_laws : FileSystemLaws disk
disk_laws = record {
  read-write = λ f path body e. ground (arith, lookup-insert path path body f, eq_refl path);
  read-write_ne = λ f path other_path body ne.
      ground (arith, lookup-insert path other_path body f, eq_iff path other_path, ne);
  exists-read = λ f path e. e;
}

-- A signature is the key followed by the message.
abbrev pub primitives : Primitives
primitives = record {
  pem_decode = λ text. some text;
  pem_encode = λ type body. body;
  parse_pkix_public_key = λ body. some (ed25519 body);
  marshal_pkix_public_key = λ key. some key;
  parse_pkcs8_private_key = λ body. some (ed25519 body);
  marshal_pkcs8_private_key = λ key. some key;
  ed25519_sign = λ key message. key ++ message;
  ed25519_verify = λ key message signature. signature == (key ++ message);
}

abbrev pub IsSame : Bytes → Bytes → Type 0
IsSame public private = public ≡ private

pub primitive_laws : PrimitiveLaws primitives IsSame
primitive_laws = record {
  pem_decode-pem_encode = λ type body. refl;
  parse-marshal_pkix = λ key body e. ground arith;
  parse-marshal_pkcs8 = λ key body e. ground arith;
  verify-sign = λ public private message e. rw e (eq_refl (private ++ message));
}

-- The sealed text is the plain one.
abbrev pub aead : Aead
aead = record {
  new_cipher = λ key. true;
  new_gcm = λ key. true;
  nonce_size = 2;
  seal = λ key nonce plain. plain;
  open_ = λ key nonce sealed. some sealed;
}

pub aead_laws : AeadLaws aead
aead_laws = record {
  nonce_pos = omega arith;
  accepts = λ key e. (refl, refl);
  open-seal = λ key nonce plain. refl;
}

abbrev pub named : Bytes → List Bytes → Config
named key servers = record default_config {
  advertised_address = key;
  bootstrap_servers = servers;
  public_key = key;
  public_key_dir = codes "public";
  private_key_dir = codes "private";
}

-- The process whose keys are both `key`.
abbrev pub process : Bytes → List Bytes → Process Memory Files
process key servers = record {
  badger = memory;
  fs = disk;
  crypto = primitives;
  config = named key servers;
  files = (codes "private", key) ∷ [];
}

pub trusts :
    (servers servers' : List Bytes) (key key' : Bytes)
    → Trusts (process key servers) (process key' servers')
unfolding sign sign_or_nil check sign_message check_signature verify_signature
trusts servers servers' key key' = record {
  signs = λ message. refl;
  accepts = λ message. eq_refl (key' ++ message);
}
