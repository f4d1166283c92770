-- ===== src/Client/Keystore/Reload.antt =====
-- `LoadKeystore` on what `Save` wrote.
use sneakernet.Prelude.{
  ℕ, suc, ◌+◌, ◌<◌, ◌≡◌, refl, sym, ap, Bool, true, false, Option, none, some, ◌⊎◌, inl, inr, List,
  [], ◌∷◌, ◌++◌, arith, leb, bytes_eq, length, length-append, map, take-append, drop-append, All,
  subst,
}
use sneakernet.Integers.{pos}
use sneakernet.Client.Keystore.{Identity, Channel, Contact, Keystore, Services, Fault, derive_key}
use sneakernet.Client.Keystore.Chain.{>>!-eq-inr, inr_injective}
use sneakernet.Client.Keystore.Files.{
  IdentityRecord, ChannelRecord, KeystoreFile, Json, Disk, Ends, Source, nonce_size_x,
  keystore_canary, contact_record, ks_encrypt, save_identities, save_channels, file_of, save,
}
use sneakernet.Client.Keystore.Loading.{open_file, load_rest, load_file, load_keystore}
use sneakernet.Client.Keystore.Saved.{
  HasNonces, IsSealing, ks_encrypt-inr, load_identities-save_identities,
  load_channels-save_channels, load_contacts-map, Untouched, save_atomic,
}

-- The names of a file are texts, for a test such as `utf8.ValidString`.
pub record IsText (valid : List ℕ → Bool) (f : KeystoreFile) : Type 0 where
  pub identity_texts : All (λ r. valid r.name ≡ true) f.identities
  pub channel_texts : All (λ r. valid r.name ≡ true) f.channels
  pub contact_texts : All (λ r. valid r.name ≡ true) f.contacts

-- What encoding/json writes of a file whose names are texts, it reads back.
abbrev pub IsJson : (List ℕ → Bool) → Json → Type 0
IsJson valid json =
    (f : KeystoreFile) (raw : List ℕ)
    → IsText valid f
    → json.marshal f ≡ some raw
    → json.unmarshal raw ≡ some f

-- A keystore under the master key of a password, with keys of their sizes and names that are texts.
pub record IsSavable (p : Services) (valid : List ℕ → Bool) (password : List ℕ) (k : Keystore)
    : Type 0 where
  pub keyed : k.master_key ≡ derive_key p password k.salt k.kdf_time k.kdf_memory k.kdf_threads
  pub channel_sizes : All (λ ch. length ch.key ≡ 32) k.channels
  pub contact_sizes : All (λ c. length c.public_key ≡ 32) k.contacts
  pub identity_texts : All (λ id. valid id.name ≡ true) k.identities
  pub channel_texts : All (λ ch. valid ch.name ≡ true) k.channels
  pub contact_texts : All (λ c. valid c.name ≡ true) k.contacts

module _ (p : Services) (valid : List ℕ → Bool) (key : List ℕ) (draws : Source) where
  save_identities_texts :
      (ids : List Identity) (n : ℕ) (recs : List IdentityRecord)
      → save_identities p key draws n ids ≡ inr recs
      → All (λ id. valid id.name ≡ true) ids
      → All (λ r. valid r.name ≡ true) recs
  unfolding save_identities
  save_identities_texts [] n recs h texts = subst (All _) (inr_injective h) tt
  save_identities_texts (id ∷ ids) n recs h texts =
      let (sealed, made, h) = >>!-eq-inr (ks_encrypt p key id.sign_key (draws n)) _ h in
      let (records, rest, h) = >>!-eq-inr (save_identities p key draws (suc n) ids) _ h in
      subst (All _) (inr_injective h)
        (texts.0, save_identities_texts ids (suc n) records rest texts.1)

  save_channels_texts :
      (chs : List Channel) (n : ℕ) (recs : List ChannelRecord)
      → save_channels p key draws n chs ≡ inr recs
      → All (λ ch. valid ch.name ≡ true) chs
      → All (λ r. valid r.name ≡ true) recs
  unfolding save_channels
  save_channels_texts [] n recs h texts = subst (All _) (inr_injective h) tt
  save_channels_texts (ch ∷ chs) n recs h texts =
      let (sealed, made, h) = >>!-eq-inr (ks_encrypt p key ch.key (draws n)) _ h in
      let (records, rest, h) = >>!-eq-inr (save_channels p key draws (suc n) chs) _ h in
      subst (All _) (inr_injective h)
        (texts.0, save_channels_texts chs (suc n) records rest texts.1)

contact_records_texts :
    (valid : List ℕ → Bool) (cs : List Contact)
    → All (λ c. valid c.name ≡ true) cs
    → All (λ r. valid r.name ≡ true) (map contact_record cs)
contact_records_texts valid [] texts = tt
contact_records_texts valid (c ∷ cs) texts = (texts.0, contact_records_texts valid cs texts.1)

more_than : (a b : ℕ) → b < a → leb a b ≡ false
more_than a b h = ground arith

module _ (p : Services) (laws : IsSealing p) (valid : List ℕ → Bool) (draws : Source)
    (sized : HasNonces draws) (password : List ℕ) (k : Keystore)
    (h : IsSavable p valid password k) where
  -- The file has names that are texts, its password opens it, and it loads as the keystore.
  abbrev Opens : KeystoreFile → Type 0
  Opens f =
      IsText valid f
      × (open_file p password f ≡ inr k.master_key)
      × ((json : Json) (other save_draws : Source) (ends : Ends) (disk : Disk)
          → load_file p json other save_draws ends f k.master_key disk ≡ (inr k, disk))

  canary_opens :
      (v : List ℕ × List ℕ) (f : KeystoreFile)
      → ks_encrypt p k.master_key keystore_canary (draws 0) ≡ inr v
      → f.version ≡ pos 2
      → derive_key p password f.salt f.kdf_time f.kdf_memory f.kdf_threads ≡ k.master_key
      → f.verify ≡ v.0 ++ v.1
      → open_file p password f ≡ inr k.master_key
  unfolding open_file bytes_eq
  canary_opens v f made version keyed verify =
      let (drawn, text) = ks_encrypt-inr p k.master_key keystore_canary (draws 0) v made in
      let size = sized 0 v.0 drawn in
      let sealed = laws.seal_size k.master_key v.0 keystore_canary in
      let long : leb (length (v.0 ++ v.1)) nonce_size_x ≡ false =
        more_than _ _ (omega (arith, length-append v.0 v.1, size, ap length text, sealed)) in
      rw
        (
          version,
          verify,
          long,
          keyed,
          take-append v.0 v.1 size,
          drop-append v.0 v.1 size,
          text,
          laws.open-seal k.master_key v.0 keystore_canary,
        )
        refl

  -- The file of the keystore opens to it.
  file_of-Opens : (f : KeystoreFile) → file_of p draws k ≡ inr f → Opens f
  unfolding file_of load_file load_rest
  file_of-Opens f e =
      let (v, made, e) = >>!-eq-inr (ks_encrypt p k.master_key keystore_canary (draws 0)) _ e in
      let (ids, ids_made, e) =
        >>!-eq-inr (save_identities p k.master_key draws 1 k.identities) _ e in
      let (chs, chs_made, e) =
        >>!-eq-inr (save_channels p k.master_key draws (1 + length k.identities) k.channels) _ e in
      subst Opens (inr_injective e) (
        record {
          identity_texts =
              save_identities_texts p valid k.master_key draws k.identities 1 ids ids_made
                h.identity_texts;
          channel_texts =
              save_channels_texts p valid k.master_key draws k.channels _ chs chs_made
                h.channel_texts;
          contact_texts = contact_records_texts valid k.contacts h.contact_texts;
        },
        canary_opens v _ made refl (sym h.keyed) refl,
        λ json other save_draws ends disk.
            rw
              (
                load_identities-save_identities p laws k.master_key draws sized k.identities 1 ids
                    other 0 ids_made,
                load_file,
                load_channels-save_channels p laws k.master_key draws sized k.channels _ chs
                    h.channel_sizes chs_made,
                load_rest,
                load_contacts-map k.contacts h.contact_sizes,
              )
              refl,
      )

  module _ (json : Json) (json_laws : IsJson valid json) (ends : Ends) (disk : Disk) where
    -- What `LoadKeystore` gives of the disk behind `Save`, whatever it draws itself.
    abbrev Reloads : Option Fault × Disk → Type 0
    Reloads saved =
        (saved.0 ≡ none)
        × ((other save_draws : Source) (ends : Ends)
            → load_keystore p json other save_draws ends password saved.1 ≡ (inr k, saved.1))

    -- With sealing that opens again, JSON that reads back texts, and nonces of their size: saving a
    -- keystore, that is under the master key of a password, whose keys have their sizes and whose
    -- names are texts, either returns an error and leaves the file as it was, or returns none, and
    -- then loading with the password returns the same keystore and changes nothing on the disk.
    pub load_keystore-save :
        Reloads (save p json draws ends k disk)
        ⊎ Untouched p json draws ends k disk (save p json draws ends k disk)
    unfolding load_keystore
    load_keystore-save = elim (save_atomic p json draws ends k disk) [
      | inr failed ↦ inr failed
      | inl (f, raw, made, encoded, result) ↦
          let (texts, opened, loaded) = file_of-Opens f made in
          inl (
            subst Reloads (sym result) (
              refl,
              λ other save_draws ends.
                  rw
                    (
                      json_laws f raw texts encoded,
                      load_keystore,
                      opened,
                      loaded json other save_draws ends _,
                    )
                    refl,
            ))
    ]
