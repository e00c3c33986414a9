-- ===== src/Crypto/Library.antt =====
-- The parts of Go's standard library that internal/crypto calls: crypto/ed25519, crypto/x509,
-- encoding/pem, crypto/aes with crypto/cipher, and os. Each is an interface with the documented
-- laws that the program relies on.
use kairos_p2p_engine.Base.{ℕ, ◌<◌, ◌≡◌, ◌≢◌, Bool, true, Option, some, Bytes, length, is_some}

-- The dynamic type of a parsed key.
pub data ParsedKey : Type 0 where
  ed25519 : Bytes → ParsedKey
  other : ParsedKey

pub record Primitives : Type 0 where
  -- the bytes of the first block
  pub pem_decode : Bytes → Option Bytes
  pub pem_encode : Bytes → Bytes → Bytes
  pub parse_pkix_public_key : Bytes → Option ParsedKey
  pub marshal_pkix_public_key : Bytes → Option Bytes
  pub parse_pkcs8_private_key : Bytes → Option ParsedKey
  pub marshal_pkcs8_private_key : Bytes → Option Bytes
  pub ed25519_sign : Bytes → Bytes → Bytes
  pub ed25519_verify : Bytes → Bytes → Bytes → Bool

-- `IsPair public private` says that the two keys come from one call of the generator.
pub record PrimitiveLaws (p : Primitives) (IsPair : Bytes → Bytes → Type 0) : Type 0 where
  pub pem_decode-pem_encode :
      (type body : Bytes) → p.pem_decode (p.pem_encode type body) ≡ some body
  pub parse-marshal_pkix :
      (key body : Bytes)
      → p.marshal_pkix_public_key key ≡ some body
      → p.parse_pkix_public_key body ≡ some (ed25519 key)
  pub parse-marshal_pkcs8 :
      (key body : Bytes)
      → p.marshal_pkcs8_private_key key ≡ some body
      → p.parse_pkcs8_private_key body ≡ some (ed25519 key)
  pub verify-sign :
      (public private message : Bytes)
      → IsPair public private
      → p.ed25519_verify public message (p.ed25519_sign private message) ≡ true

pub record FileSystem (F : Type 0) : Type 0 where
  pub dir : Bytes → Bytes
  pub mkdir_all : F → Bytes → F × Bool
  pub read_file : F → Bytes → Option Bytes
  pub write_file : F → Bytes → Bytes → F × Bool
  pub exists : F → Bytes → Bool

-- A write that succeeds is read back, and leaves the other files alone.
pub record FileSystemLaws {F : Type 0} (fs : FileSystem F) : Type 0 where
  pub read-write :
      (f : F) (path body : Bytes)
      → (fs.write_file f path body).1 ≡ true
      → fs.read_file (fs.write_file f path body).0 path ≡ some body
  pub read-write_ne :
      (f : F) (path other_path body : Bytes)
      → path ≢ other_path
      → fs.read_file (fs.write_file f path body).0 other_path ≡ fs.read_file f other_path
  pub exists-read :
      (f : F) (path : Bytes) → is_some (fs.read_file f path) ≡ true → fs.exists f path ≡ true

pub record Aead : Type 0 where
  -- whether `aes.NewCipher`, `cipher.NewGCM` accept the key
  pub new_cipher : Bytes → Bool
  pub new_gcm : Bytes → Bool
  pub nonce_size : ℕ
  pub seal : Bytes → Bytes → Bytes → Bytes
  pub open_ : Bytes → Bytes → Bytes → Option Bytes

pub record AeadLaws (a : Aead) : Type 0 where
  pub nonce_pos : 0 < a.nonce_size
  -- AES keys of 32 bytes are accepted
  pub accepts : (key : Bytes) → length key ≡ 32 → (a.new_cipher key ≡ true) × (a.new_gcm key ≡ true)
  pub open-seal :
      (key nonce plain : Bytes) → a.open_ key nonce (a.seal key nonce plain) ≡ some plain
