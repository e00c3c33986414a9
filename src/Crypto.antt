-- ===== src/Crypto.antt =====
-- internal/crypto/keys_management.go: the key pair of a process, signatures, and AES-GCM. The
-- standard library's cryptography, PEM and X.509 codecs and the file system are parameters.
pub mod Library
pub mod Signing
pub mod Gcm
use kairos_p2p_engine.Base.{
  ℕ, ◌≡◌, Bool, true, false, Option, none, some, List, [], ◌∷◌, ◌++◌, Bytes, codes, Result, ok, err,
  ◌>>=◌, or_fail, ltb, length, take, drop, is_some, if◌then◌else◌,
}
use kairos_p2p_engine.Config.{Config}
use Library.{ParsedKey, ed25519, other, Primitives, FileSystem, Aead}

-- One constructor for each `fmt.Errorf` of the file.
pub data CryptoError : Type 0 where
  creating_keys_folder generating_keys marshaling_private_key saving_private_key : CryptoError
  marshaling_public_key saving_public_key reading_public_key reading_private_key : CryptoError
  no_pem_block parsing_key not_ed25519 : CryptoError
  new_cipher_error new_gcm_error reading_nonce ciphertext_too_short authentication_failed :
      CryptoError

-- `key, ok := parsed.(ed25519.PrivateKey)`
abbrev pub as_ed25519 : ParsedKey → Result CryptoError Bytes
as_ed25519 (ed25519 k) = ok k
as_ed25519 other = err not_ed25519

module _ {F : Type 0} (fs : FileSystem F) where
  unfoldable pub get_public_key : Config → F → Result CryptoError Bytes
  get_public_key config files =
      or_fail (fs.read_file files config.public_key_dir) reading_public_key

  unfoldable pub get_private_key : Config → F → Result CryptoError Bytes
  get_private_key config files =
      or_fail (fs.read_file files config.private_key_dir) reading_private_key

  -- `os.IsNotExist` of the private key's file.
  unfoldable pub keys_exist : Config → F → Bool
  keys_exist config files = fs.exists files config.private_key_dir

module _ (crypto : Primitives) where
  unfoldable pub verify_signature : Bytes → Bytes → Bytes → Result CryptoError Bool
  verify_signature message signature public_key = do
    block ← or_fail (crypto.pem_decode public_key) no_pem_block
    parsed ← or_fail (crypto.parse_pkix_public_key block) parsing_key
    key ← as_ed25519 parsed
    ok (crypto.ed25519_verify key message signature)

  -- `check, _ := VerifySignature(…)`: an error leaves `check` false.
  unfoldable pub check_signature : Bytes → Bytes → Bytes → Bool
  check_signature message signature public_key =
      elim (verify_signature message signature public_key) [ ok b ↦ b | err e ↦ false ]

module _ {F : Type 0} (fs : FileSystem F) (crypto : Primitives) where
  unfoldable pub sign_message : Config → F → Bytes → Result CryptoError Bytes
  sign_message config files message = do
    pem ← or_fail (fs.read_file files config.private_key_dir) reading_private_key
    block ← or_fail (crypto.pem_decode pem) no_pem_block
    parsed ← or_fail (crypto.parse_pkcs8_private_key block) parsing_key
    key ← as_ed25519 parsed
    ok (crypto.ed25519_sign key message)

  -- The last step of `GenerateKeyPair`: both files are read back into the configuration, the public
  -- key first.
  unfoldable pub load_keys : Config → F → Config × Option CryptoError
  load_keys config files = elim (get_public_key fs config files) [
    | err e ↦ (config, some e)
    | ok public_key ↦
        let config' = record config { public_key = public_key } in
        elim (get_private_key fs config' files) [
          | err e ↦ (config', some e)
          | ok private_key ↦ (record config' { private_key = private_key }, none)
        ]
  ]

  -- A file that was written stays when a later step fails; `drawn` is what
  -- `ed25519.GenerateKey(rand.Reader)` returns, a public and a private key.
  unfoldable pub generate_key_pair :
      Config → F → Option (Bytes × Bytes) → F × (Config × Option CryptoError)
  generate_key_pair config files drawn =
      let (files₁, made) = fs.mkdir_all files (fs.dir config.private_key_dir) in
      if made
      then elim drawn [
        | none ↦ (files₁, (config, some generating_keys))
        | some (public_key, private_key) ↦ elim (crypto.marshal_pkcs8_private_key private_key) [
          | none ↦ (files₁, (config, some marshaling_private_key))
          | some private_bytes ↦
              (let private_pem = crypto.pem_encode (codes "PRIVATE KEY") private_bytes in
                let (files₂, saved) = fs.write_file files₁ config.private_key_dir private_pem in
                if saved
                then elim (crypto.marshal_pkix_public_key public_key) [
                  | none ↦ (files₂, (config, some marshaling_public_key))
                  | some public_bytes ↦
                      (let public_pem = crypto.pem_encode (codes "PUBLIC KEY") public_bytes in
                        let (files₃, saved') =
                          fs.write_file files₂ config.public_key_dir public_pem in
                        if saved'
                        then (files₃, load_keys config files₃)
                        else (files₃, (config, some saving_public_key)))
                ]
                else (files₂, (config, some saving_private_key)))
        ]
      ]
      else (files₁, (config, some creating_keys_folder))

-- 32 bytes from the system's generator, which the stream stands for.
unfoldable pub random_bytes : ℕ → (ℕ → ℕ) → Bytes
random_bytes ℕ.zero stream = []
random_bytes (ℕ.suc n) stream = stream 0 ∷ random_bytes n (λ i. stream (ℕ.suc i))

unfoldable pub generate_random_aes_key : (ℕ → ℕ) → Bytes
generate_random_aes_key stream = random_bytes 32 stream

module _ (aead : Aead) where
  -- `nonce` is what `rand.Read` fills the slice with, or nothing when it fails. `Seal` appends to
  -- its first argument, the nonce.
  unfoldable pub encrypt_gcm : Bytes → Bytes → Option Bytes → Result CryptoError Bytes
  encrypt_gcm plain key nonce =
      if aead.new_cipher key
      then if aead.new_gcm key
        then elim nonce [ none ↦ err reading_nonce | some n ↦ ok (n ++ aead.seal key n plain) ]
        else err new_gcm_error
      else err new_cipher_error

  unfoldable pub decrypt_gcm : Bytes → Bytes → Result CryptoError Bytes
  decrypt_gcm sealed key =
      if aead.new_cipher key
      then if aead.new_gcm key
        then if ltb (length sealed) aead.nonce_size
          then err ciphertext_too_short
          else or_fail (aead.open_ key (take aead.nonce_size sealed) (drop aead.nonce_size sealed))
              authentication_failed
        else err new_gcm_error
      else err new_cipher_error
