-- ===== src/Crypto/Signing.antt =====
-- The key pair, and what a signature made with it is good for.
use kairos_p2p_engine.Base.{
  ◌≡◌, ◌≢◌, refl, ap, true, some, none, Bytes, ok, arith, Option-cases, inl, inr, codes,
}
use kairos_p2p_engine.Config.{Config}
use kairos_p2p_engine.Crypto.Library.{Primitives, PrimitiveLaws, FileSystem, FileSystemLaws}
use kairos_p2p_engine.Crypto.{
  verify_signature, sign_message, generate_key_pair, load_keys, keys_exist, get_public_key,
  get_private_key,
}

module _ {F : Type 0} {fs : FileSystem F} (disk : FileSystemLaws fs) (crypto : Primitives) where
  -- What a key generation that succeeds leaves on the disk and in the configuration.
  abbrev Generated : Config → Bytes → Bytes → F → Config → Type 0
  Generated config public private files' config' =
      (private_bytes public_bytes : Bytes) × (crypto.marshal_pkcs8_private_key private
        ≡ some private_bytes)
      × (crypto.marshal_pkix_public_key public ≡ some public_bytes)
      × (config'.private_key_dir ≡ config.private_key_dir)
      × (config'.public_key ≡ crypto.pem_encode (codes "PUBLIC KEY") public_bytes)
      × (fs.read_file files' config.private_key_dir
          ≡ some (crypto.pem_encode (codes "PRIVATE KEY") private_bytes))

  generated :
      (config : Config) (files : F) (public private : Bytes) (config' : Config)
      → config.public_key_dir ≢ config.private_key_dir
      → (generate_key_pair fs crypto config files (some (public, private))).1 ≡ (config', none)
      → Generated config public private
          (generate_key_pair fs crypto config files (some (public, private))).0
          config'
  unfolding generate_key_pair load_keys get_public_key get_private_key
  generated config files public private config' ne h =
      elim (Option-cases (crypto.marshal_pkcs8_private_key private)) [
        | inl e ↦ absurd (ground arith)
        | inr (sb, e) ↦ elim (Option-cases (crypto.marshal_pkix_public_key public)) [
          | inl e' ↦ absurd (ground arith)
          | inr (pb, e') ↦
              let files₁ = (fs.mkdir_all files (fs.dir config.private_key_dir)).0 in
              let spem = crypto.pem_encode (codes "PRIVATE KEY") sb in
              let ppem = crypto.pem_encode (codes "PUBLIC KEY") pb in
              let files₂ = (fs.write_file files₁ config.private_key_dir spem).0 in
              let r₁ = disk.read-write files₁ config.private_key_dir spem in
              let r₂ = disk.read-write files₂ config.public_key_dir ppem in
              let r₃ =
                disk.read-write_ne files₂ config.public_key_dir config.private_key_dir ppem ne in
              (
                sb,
                pb,
                e,
                e',
                ground (arith, r₁, r₂, r₃),
                ground (arith, r₁, r₂, r₃),
                ground (arith, r₁, r₂, r₃),
              )
        ]
      ]

  -- After a key generation that succeeds, with different paths for the two files: every message
  -- can be signed, the signature passes the check under the public key that the process announces,
  -- and a restart finds the keys.
  pub verify_signature-sign_message :
      {IsPair : Bytes → Bytes → Type 0} (laws : PrimitiveLaws crypto IsPair) (config : Config)
      (files : F) (public private : Bytes) (config' : Config) (message : Bytes)
      → IsPair public private
      → config.public_key_dir ≢ config.private_key_dir
      → (generate_key_pair fs crypto config files (some (public, private))).1 ≡ (config', none)
      → let files' = (generate_key_pair fs crypto config files (some (public, private))).0 in
        (signature : Bytes) × (sign_message fs crypto config' files' message ≡ ok signature)
        × (verify_signature crypto message signature config'.public_key ≡ ok true)
        × (keys_exist fs config' files' ≡ true)
  unfolding sign_message verify_signature keys_exist
  verify_signature-sign_message laws config files public private config' message pair ne h =
      let files' = (generate_key_pair fs crypto config files (some (public, private))).0 in
      let (sb, pb, e, e', d, k, r) = generated config files public private config' ne h in
      let p₁ = laws.pem_decode-pem_encode (codes "PRIVATE KEY") sb in
      let p₂ = laws.pem_decode-pem_encode (codes "PUBLIC KEY") pb in
      let x₁ = laws.parse-marshal_pkcs8 private sb e in
      let x₂ = laws.parse-marshal_pkix public pb e' in
      (
        crypto.ed25519_sign private message,
        rw (d, r, p₁, x₁) refl,
        rw (k, p₂, x₂) (ap ok (laws.verify-sign public private message pair)),
        rw d (disk.exists-read files' config.private_key_dir (rw r refl)),
      )
