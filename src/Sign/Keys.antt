-- ===== src/Sign/Keys.antt =====
-- bootcfg/sign/signer.go. The package `openpgp` is a record of its functions; decrypting a private
-- key changes the entity, so it returns the new one.
use coreos_baremetal.Prelude.{
  ◌≡◌, arith, inl, inr, Bool-cases, Bool, false, ◌&&◌, List, [], ◌∷◌, if◌then◌else◌,
}
use coreos_baremetal.Prelude.Text.{Text, ◌==◌}
use coreos_baremetal.Golang.Errors.{
  Result, ok, err, ◌>>=◌, >>=-eq-ok, empty_keyring, missing_passphrase,
}
use coreos_baremetal.Sign.Writer.{Signer}

pub record Openpgp : Type 1 where
  pub Entity : Type 0
  pub read_key_ring : Text → Result (List Entity)
  -- `entity.PrivateKey != nil`, and `entity.PrivateKey.Encrypted`
  pub has_private_key : Entity → Bool
  pub is_encrypted : Entity → Bool
  pub decrypt : Entity → Text → Result Entity
  -- `DetachSignText` and `ArmoredDetachSignText`
  pub detach_sign_text : Entity → Text → Result Text
  pub armored_detach_sign_text : Entity → Text → Result Text

module _ (pgp : Openpgp) where
  open pgp use {Entity}

  -- What it does with the keys that were read.
  unfoldable pub unlock_first : List Entity → Text → Result Entity
  unlock_first [] passphrase = err empty_keyring
  unlock_first (entity ∷ rest) passphrase =
      if pgp.has_private_key entity && pgp.is_encrypted entity
      then (if passphrase == [] then err missing_passphrase else pgp.decrypt entity passphrase)
      else ok entity

  -- `unlockKeyRingEntity`
  unfoldable pub unlock_key_ring_entity : Text → Text → Result Entity
  unlock_key_ring_entity ring passphrase = do
    entities ← pgp.read_key_ring ring
    unlock_first entities passphrase

  -- `LoadGPGEntity`, given what opening the file returns.
  unfoldable pub load_gpg_entity : (Text → Result Text) → Text → Text → Result Entity
  load_gpg_entity open_file key_ring_path passphrase = do
    kring ← open_file key_ring_path
    unlock_key_ring_entity kring passphrase

  -- `NewGPGSigner` with its `Sign`
  unfoldable pub gpg_signer : Entity → Signer
  gpg_signer entity message = pgp.detach_sign_text entity message

  -- `NewArmoredGPGSigner` with its `Sign`
  unfoldable pub armored_gpg_signer : Entity → Signer
  armored_gpg_signer entity message = pgp.armored_detach_sign_text entity message

  unlock_first_lem :
      ((entity opened : Entity) (passphrase : Text)
        → pgp.decrypt entity passphrase ≡ ok opened
        → pgp.is_encrypted opened ≡ false)
      → (es : List Entity) (passphrase : Text) (entity : Entity)
      → unlock_first es passphrase ≡ ok entity
      → (pgp.has_private_key entity && pgp.is_encrypted entity) ≡ false
  unfolding unlock_first
  unlock_first_lem law [] passphrase entity e = cc
  unlock_first_lem law (first ∷ rest) passphrase entity e =
      elim (Bool-cases (pgp.has_private_key first && pgp.is_encrypted first)) [
        | inr f ↦ ground arith
        | inl f ↦ elim (Bool-cases (passphrase == [])) [
          | inl g ↦ ground arith
          | inr g ↦ ground (arith, law first entity passphrase)
        ]
      ]

  -- If decrypting leaves a key that is not encrypted, then no entity that is loaded has a private
  -- key that is still encrypted.
  pub load_gpg_entity_lem :
      ((entity opened : Entity) (passphrase : Text)
        → pgp.decrypt entity passphrase ≡ ok opened
        → pgp.is_encrypted opened ≡ false)
      → (open_file : Text → Result Text) (path passphrase : Text) (entity : Entity)
      → load_gpg_entity open_file path passphrase ≡ ok entity
      → (pgp.has_private_key entity && pgp.is_encrypted entity) ≡ false
  unfolding load_gpg_entity unlock_key_ring_entity
  load_gpg_entity_lem law open_file path passphrase entity h =
      let (kring, p, k) = >>=-eq-ok (open_file path) _ h in
      let (entities, q, l) = >>=-eq-ok (pgp.read_key_ring kring) _ k in
      unlock_first_lem law entities passphrase entity l
