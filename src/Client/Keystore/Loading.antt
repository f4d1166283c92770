-- ===== src/Client/Keystore/Loading.antt =====
-- client/keystore.go: reading the file of a keystore, with the migration of the first version.
use sneakernet.Prelude.{
  ℕ, suc, Bool, true, false, not, ◌&&◌, ◌||◌, Option, none, some, ◌⊎◌, inl, inr, List, [], ◌∷◌, ltb,
  leb, ◌==◌, bytes_eq, if◌then◌else◌, length, take, drop,
}
use sneakernet.Integers.{pos, ltb_ℤ}
use sneakernet.Client.Keystore.{
  Identity, Channel, Contact, Keystore, Services, Fault, no_file, bad_file, unsupported_version,
  truncated_verify, wrong_password, bad_channel_key, no_random, not_saved, ◌>>!◌, or_fault,
  derive_key,
}
use sneakernet.Client.Keystore.Files.{
  IdentityRecord, ChannelRecord, ContactRecord, KeystoreFile, Json, Disk, Ends, Source, is_version,
  keystore_version, keystore_canary, nonce_size_x, ks_decrypt, save,
}

abbrev pub contact_key : ContactRecord → List ℕ
contact_key rec =
    if length rec.signing_public_key == 32 then rec.signing_public_key else rec.public_key

unfoldable pub load_contacts : List ContactRecord → List Contact
load_contacts [] = []
load_contacts (rec ∷ recs) =
    let contacts = load_contacts recs in
    if length (contact_key rec) == 32
    then record { name = rec.name; public_key = contact_key rec } ∷ contacts
    else contacts

-- The keystore as it is when the identities are read.
abbrev pub half_loaded : KeystoreFile → (master_key : List ℕ) → List Identity → Keystore
half_loaded f key ids = record {
  master_key = key;
  salt = f.salt;
  kdf_time = f.kdf_time;
  kdf_memory = f.kdf_memory;
  kdf_threads = f.kdf_threads;
  identities = ids;
  channels = [];
  contacts = [];
}

module _ (p : Services) where
  -- The key of one record, and whether it was made for it.
  unfoldable pub load_key :
      (master_key : List ℕ) → Option (List ℕ) → IdentityRecord → Fault ⊎ List ℕ × Bool
  load_key key draw rec =
      if ltb 0 (length rec.sign_nonce) && ltb 0 (length rec.sign_ciphertext)
      then (or_fault wrong_password (ks_decrypt p key rec.sign_nonce rec.sign_ciphertext)
          >>! λ sign_key. inr (sign_key, false))
      else (or_fault no_random draw >>! λ seed. inr (p.new_key seed, true))

  -- The loop over the identities, from the n-th draw on: the identities, and whether a key was made.
  unfoldable pub load_identities :
      (master_key : List ℕ) → Source → ℕ → List IdentityRecord → Fault ⊎ List Identity × Bool
  unfolding load_key
  load_identities key draws n [] = inr ([], false)
  load_identities key draws n (rec ∷ recs) = load_key key (draws n) rec >>! λ got.
      load_identities key draws (if got.1 then suc n else n) recs >>! λ rest. inr (
        record { name = rec.name; sign_key = got.0; id_pow_stamp = rec.id_pow_stamp } ∷ rest.0,
        got.1 || rest.1,
      )

  unfoldable pub load_channels : (master_key : List ℕ) → List ChannelRecord → Fault ⊎ List Channel
  load_channels key [] = inr []
  load_channels key (rec ∷ recs) =
      or_fault wrong_password (ks_decrypt p key rec.nonce rec.ciphertext) >>! λ key_bytes.
      (if length key_bytes == 32
        then (load_channels key recs >>! λ channels.
            inr (record { name = rec.name; key = key_bytes } ∷ channels))
        else inl bad_channel_key)

  -- The checks in front of the identities: the master key of a file that the password opens.
  unfoldable pub open_file : (password : List ℕ) → KeystoreFile → Fault ⊎ List ℕ
  open_file password f =
      if not (is_version f.version 1) && not (is_version f.version keystore_version)
      then inl unsupported_version
      else (let key = derive_key p password f.salt f.kdf_time f.kdf_memory f.kdf_threads in
          if leb (length f.verify) nonce_size_x
          then inl truncated_verify
          else (or_fault wrong_password
                (ks_decrypt p key (take nonce_size_x f.verify) (drop nonce_size_x f.verify))
              >>! λ canary.
                  if bytes_eq canary keystore_canary then inr key else inl wrong_password))

  -- The channels and the contacts behind the identities.
  unfoldable pub load_rest : KeystoreFile → Keystore → Fault ⊎ Keystore
  unfolding load_channels load_contacts
  load_rest f k = load_channels k.master_key f.channels >>! λ channels.
      inr (record k { channels = channels; contacts = load_contacts f.contacts })

  -- From the master key on. `draws` makes the missing keys, `save_draws` is for `Save`.
  unfoldable pub load_file :
      Json
      → (draws save_draws : Source) → Ends
      → KeystoreFile
      → (master_key : List ℕ) → Disk
      → (Fault ⊎ Keystore) × Disk
  unfolding load_identities load_rest save
  load_file json draws save_draws ends f key disk =
      elim (load_identities key draws 0 f.identities) [
        | inl e ↦ (inl e, disk)
        | inr got ↦
            let k = half_loaded f key got.0 in
            let saved =
              if ltb_ℤ f.version (pos keystore_version) || got.1
              then save p json save_draws ends k disk
              else (none, disk) in
            (elim saved.0 [ some e ↦ inl not_saved | none ↦ load_rest f k ], saved.1)
      ]

  unfoldable pub load_keystore :
      Json
      → (draws save_draws : Source) → Ends
      → (password : List ℕ) → Disk
      → (Fault ⊎ Keystore) × Disk
  unfolding open_file load_file
  load_keystore json draws save_draws ends password disk =
      elim (or_fault no_file disk.file >>! λ raw. or_fault bad_file (json.unmarshal raw)) [
        | inl e ↦ (inl e, disk)
        | inr f ↦ elim (open_file password f) [
          | inl e ↦ (inl e, disk)
          | inr key ↦ load_file json draws save_draws ends f key disk
        ]
      ]
