-- ===== src/Crypto/Gcm.antt =====
-- AES-GCM with the nonce in front.
use kairos_p2p_engine.Base.{
  ℕ, zero, suc, ◌≡◌, ◌<◌, ◌∙◌, sym, subst, ok-injective, ◌++◌, refl, ap, some, Bytes, length,
  length-append, take-append_left, drop-append_left, ok, arith,
}
use kairos_p2p_engine.Crypto.Library.{Aead, AeadLaws}
use kairos_p2p_engine.Crypto.{encrypt_gcm, decrypt_gcm, random_bytes, generate_random_aes_key}

length-random_bytes : (n : ℕ) (stream : ℕ → ℕ) → length (random_bytes n stream) ≡ n
unfolding random_bytes
length-random_bytes zero stream = refl
length-random_bytes (suc n) stream = ap suc (length-random_bytes n (λ i. stream (suc i)))

module _ {aead : Aead} (laws : AeadLaws aead) where
  -- With a key of the generator and a nonce of the cipher's size the encryption succeeds, and
  -- decryption gives the data back.
  pub decrypt_gcm-encrypt_gcm :
      (plain : Bytes) (stream : ℕ → ℕ) (nonce : Bytes)
      → length nonce ≡ aead.nonce_size
      → (sealed : Bytes) × (encrypt_gcm aead plain (generate_random_aes_key stream) (some nonce)
          ≡ ok sealed)
        × (decrypt_gcm aead sealed (generate_random_aes_key stream) ≡ ok plain)
  unfolding encrypt_gcm decrypt_gcm
  decrypt_gcm-encrypt_gcm plain stream nonce h =
      let key = generate_random_aes_key stream in
      let box = aead.seal key nonce plain in
      let accepted =
        laws.accepts key (unfold generate_random_aes_key in length-random_bytes 32 stream) in
      (
        nonce ++ box,
        ground (arith, accepted),
        ground (
          arith,
          accepted,
          laws.open-seal key nonce plain,
          length-append nonce box,
          take-append_left nonce box,
          drop-append_left nonce box,
        ),
      )

  -- What was encrypted with a key of the generator is not empty and decrypts to the data.
  pub decrypt_gcm_of :
      (plain : Bytes) (stream : ℕ → ℕ) (nonce sealed : Bytes)
      → length nonce ≡ aead.nonce_size
      → encrypt_gcm aead plain (generate_random_aes_key stream) (some nonce) ≡ ok sealed
      → (0 < length sealed) × (decrypt_gcm aead sealed (generate_random_aes_key stream) ≡ ok plain)
  decrypt_gcm_of plain stream nonce sealed h e =
      let key = generate_random_aes_key stream in
      let box = aead.seal key nonce plain in
      let (sealed', e', d) = decrypt_gcm-encrypt_gcm plain stream nonce h in
      let same : sealed' ≡ sealed = ok-injective (sym e' ∙ e) in
      let accepted =
        laws.accepts key (unfold generate_random_aes_key in length-random_bytes 32 stream) in
      let shape : sealed ≡ nonce ++ box = unfold encrypt_gcm in ground (arith, accepted) in
      (
        rw shape (omega (arith, length-append nonce box, laws.nonce_pos)),
        subst (λ t. decrypt_gcm aead t key ≡ ok plain) same d,
      )
