-- ===== src/Startup/Restart.antt =====
-- A restart finds what the first start left, and the list of servers that it was given.
use kairos_p2p_engine.Base.{
  ◌≡◌, refl, sym, ap, ◌∙◌, true, false, Option, none, Bytes, arith, Option-cases, inl, inr,
}
use kairos_p2p_engine.Config.{Config}
use kairos_p2p_engine.Crypto.Library.{Primitives, FileSystem, FileSystemLaws}
use kairos_p2p_engine.Crypto.{
  get_public_key, get_private_key, keys_exist, load_keys, generate_key_pair,
}
use kairos_p2p_engine.Startup.{or_nil, start_keys}

module _ {F : Type 0} {fs : FileSystem F} (disk : FileSystemLaws fs) (crypto : Primitives) where
  generate_key_pair-load_keys :
      (config config' : Config) (files : F) (drawn : Option (Bytes × Bytes))
      → (generate_key_pair fs crypto config files drawn).1 ≡ (config', none)
      → load_keys fs crypto config (generate_key_pair fs crypto config files drawn).0
        ≡ (config', none)
  unfolding generate_key_pair
  generate_key_pair-load_keys config config' files drawn h = ground arith

  loaded :
      (config config' : Config) (files : F)
      → load_keys fs crypto config files ≡ (config', none)
      → (keys_exist fs config files ≡ true)
        × (config' ≡ record config {
          public_key = or_nil (get_public_key fs config files);
          private_key = or_nil (get_private_key fs config files);
        })
  unfolding load_keys get_public_key get_private_key keys_exist
  loaded config config' files h = elim (Option-cases (fs.read_file files config.public_key_dir)) [
    | inl e ↦ absurd (ground arith)
    | inr (p, e) ↦ elim (Option-cases (fs.read_file files config.private_key_dir)) [
      | inl e' ↦ absurd (ground arith)
      | inr (q, e') ↦ (disk.exists-read files config.private_key_dir (rw e' refl), ground arith)
    ]
  ]

  -- When there are no keys yet and their generation succeeds, the program starts with the keys that
  -- were generated; started again on the files that this leaves, it makes no new ones, leaves the
  -- files alone, and has the same configuration.
  pub start_keys_again :
      (config config' : Config) (files : F) (drawn later_drawn : Option (Bytes × Bytes))
      → keys_exist fs config files ≡ false
      → (generate_key_pair fs crypto config files drawn).1 ≡ (config', none)
      → (start_keys fs crypto config files drawn).1 ≡ config'
        × (start_keys fs crypto config (start_keys fs crypto config files drawn).0 later_drawn
            ≡ start_keys fs crypto config files drawn)
  unfolding start_keys
  start_keys_again config config' files drawn later_drawn new h =
      let files' = (generate_key_pair fs crypto config files drawn).0 in
      let (found, same) =
        loaded config config' files' (generate_key_pair-load_keys config config' files drawn h) in
      let made : (generate_key_pair fs crypto config files drawn).1.0 ≡ config' = ap (λ t. t.0) h in
      rw (new, start_keys)
        (made, rw (found, start_keys) (ap (λ c. (files', c)) (sym (made ∙ same))))
