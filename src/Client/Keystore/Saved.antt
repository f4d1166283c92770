-- ===== src/Client/Keystore/Saved.antt =====
-- `Save` replaces the file as a whole or not at all, and its loops are undone by those that load.
use sneakernet.Prelude.{
  ℕ, suc, ◌+◌, ◌≡◌, refl, sym, ap, ◌∙◌, true, false, Option, none, some, ◌⊎◌, inl, inr, List, [],
  ◌∷◌, arith, ltb, lt→ltb, if_elim, length, map, All,
}
use sneakernet.Client.Keystore.{
  Identity, Channel, Contact, Keystore, Services, Fault, not_saved, ◌>>!◌, or_fault,
}
use sneakernet.Client.Keystore.Chain.{>>!-eq-inr, or_fault-eq-inr, inr_injective}
use sneakernet.Client.Keystore.Files.{
  IdentityRecord, ChannelRecord, KeystoreFile, Json, Disk, Ends, Source, nonce_size_x,
  contact_record, ks_encrypt, save_identities, save_channels, file_of, write_file, save,
}
use sneakernet.Client.Keystore.Loading.{load_key, load_identities, load_channels, load_contacts}

module _ (p : Services) (json : Json) (draws : Source) (ends : Ends) (k : Keystore)
    (disk : Disk) where
  -- The whole file is in place, and nothing is left beside it.
  abbrev pub Replaced : Option Fault × Disk → Type 0
  Replaced r =
      (f : KeystoreFile) × (raw : List ℕ) × (file_of p draws k ≡ inr f)
      × (json.marshal f ≡ some raw)
      × (r ≡ (none, record { file = some raw; tmp = none }))

  -- There is an error, and the old file.
  abbrev pub Untouched : Option Fault × Disk → Type 0
  Untouched r = (e : Fault) × (r.0 ≡ some e) × (r.1.file ≡ disk.file)

  write_file_cases :
      (raw : List ℕ)
      → (write_file ends raw disk ≡ (none, record { file = some raw; tmp = none }))
        ⊎ Untouched (write_file ends raw disk)
  unfolding write_file
  write_file_cases raw =
      let end : Option Fault × Disk → Type 0 =
        λ r. (r ≡ (none, record { file = some raw; tmp = none })) ⊎ Untouched r in
      if_elim end ends.written _ _
        (λ e. if_elim end ends.renamed _ _ (λ e. inl refl) (λ e. inr (not_saved, refl, refl)))
        (λ e. inr (not_saved, refl, refl))

  save_cases :
      (step : Fault ⊎ List ℕ)
      → (file_of p draws k >>! λ f. or_fault not_saved (json.marshal f)) ≡ step
      → (let r : Option Fault × Disk = elim step [
        | inl e ↦ (some e, disk)
        | inr raw ↦ write_file ends raw disk
      ] in
          Replaced r ⊎ Untouched r)
  save_cases (inl e) h = inr (e, refl, refl)
  save_cases (inr raw) h = elim (write_file_cases raw) [
    | inl done ↦
        let (f, made, encoded) = >>!-eq-inr (file_of p draws k) _ h in
        inl (f, raw, made, or_fault-eq-inr not_saved _ encoded, done)
    | inr failed ↦ inr failed
  ]

  -- `Save` either returns no error, and the file is the encoding of the keystore with no temporary
  -- file beside it, or it returns an error, and the file is what it was: whichever of the draws, the
  -- encoding, the write and the renaming fails.
  pub save_atomic :
      Replaced (save p json draws ends k disk) ⊎ Untouched (save p json draws ends k disk)
  unfolding save
  save_atomic = save_cases _ refl

-- The nonces that are drawn have their size.
abbrev pub HasNonces : Source → Type 0
HasNonces draws = (n : ℕ) (nonce : List ℕ) → draws n ≡ some nonce → length nonce ≡ nonce_size_x

-- A sealed text is longer than the tag, and opens under its key and nonce.
pub record IsSealing (p : Services) : Type 0 where
  pub seal_size : (key nonce plain : List ℕ) → length (p.seal key nonce plain) ≡ length plain + 16
  pub open-seal :
      (key nonce plain : List ℕ) → p.open_sealed key nonce (p.seal key nonce plain) ≡ some plain

pub ks_encrypt-inr :
    (p : Services) (key plain : List ℕ) (draw : Option (List ℕ)) (sealed : List ℕ × List ℕ)
    → ks_encrypt p key plain draw ≡ inr sealed
    → (draw ≡ some sealed.0) × (sealed.1 ≡ p.seal key sealed.0 plain)
ks_encrypt-inr p key plain none sealed h = cc
ks_encrypt-inr p key plain (some n) sealed h =
    let e : ◌≡◌ {A = List ℕ × List ℕ} (n, p.seal key n plain) sealed = inr_injective h in
    (ap (λ t. some t.0) e, sym (ap (λ t. t.1) e) ∙ ap (λ t. p.seal key t.0 plain) e)

module _ (p : Services) (laws : IsSealing p) (key : List ℕ) (draws : Source)
    (sized : HasNonces draws) where
  load_key-sealed :
      (plain : List ℕ) (draw : Option (List ℕ)) (rec : IdentityRecord)
      → length rec.sign_nonce ≡ nonce_size_x
      → rec.sign_ciphertext ≡ p.seal key rec.sign_nonce plain
      → load_key p key draw rec ≡ inr (plain, false)
  unfolding load_key
  load_key-sealed plain draw rec size sealed =
      let some_nonce : ltb 0 (length rec.sign_nonce) ≡ true = lt→ltb _ _ (omega (arith, size)) in
      let some_text : ltb 0 (length (p.seal key rec.sign_nonce plain)) ≡ true =
        lt→ltb _ _ (omega (arith, laws.seal_size key rec.sign_nonce plain)) in
      rw (some_nonce, sealed, some_text, laws.open-seal key rec.sign_nonce plain) refl

  -- The loop over the saved identities gives the identities.
  pub load_identities-save_identities :
      (ids : List Identity) (n : ℕ) (recs : List IdentityRecord) (other : Source) (m : ℕ)
      → save_identities p key draws n ids ≡ inr recs
      → load_identities p key other m recs ≡ inr (ids, false)
  unfolding save_identities load_identities load_key
  load_identities-save_identities [] n recs other m h =
      ap (load_identities p key other m) (sym (inr_injective h))
  load_identities-save_identities (id ∷ ids) n recs other m h =
      let (sealed, made, h) = >>!-eq-inr (ks_encrypt p key id.sign_key (draws n)) _ h in
      let (records, rest, h) = >>!-eq-inr (save_identities p key draws (suc n) ids) _ h in
      let (drawn, text) = ks_encrypt-inr p key id.sign_key (draws n) sealed made in
      let size = sized n sealed.0 drawn in
      let rec : IdentityRecord = record {
        name = id.name;
        nonce = [];
        ciphertext = [];
        sign_nonce = sealed.0;
        sign_ciphertext = sealed.1;
        id_pow_stamp = id.id_pow_stamp;
      } in
      ap (load_identities p key other m) (sym (inr_injective h))
      ∙ rw
          (
            load_key-sealed id.sign_key (other m) rec size text,
            load_identities-save_identities ids (suc n) records other m rest,
          )
          refl

  pub load_channels-save_channels :
      (chs : List Channel) (n : ℕ) (recs : List ChannelRecord)
      → All (λ ch. length ch.key ≡ 32) chs
      → save_channels p key draws n chs ≡ inr recs
      → load_channels p key recs ≡ inr chs
  unfolding save_channels load_channels
  load_channels-save_channels [] n recs sizes h = ap (load_channels p key) (sym (inr_injective h))
  load_channels-save_channels (ch ∷ chs) n recs sizes h =
      let (sealed, made, h) = >>!-eq-inr (ks_encrypt p key ch.key (draws n)) _ h in
      let (records, rest, h) = >>!-eq-inr (save_channels p key draws (suc n) chs) _ h in
      let (drawn, text) = ks_encrypt-inr p key ch.key (draws n) sealed made in
      ap (load_channels p key) (sym (inr_injective h))
      ∙ rw
          (
            text,
            laws.open-seal key sealed.0 ch.key,
            sizes.0,
            load_channels-save_channels chs (suc n) records sizes.1 rest,
          )
          refl

pub load_contacts-map :
    (cs : List Contact)
    → All (λ c. length c.public_key ≡ 32) cs
    → load_contacts (map contact_record cs) ≡ cs
unfolding load_contacts
load_contacts-map [] sizes = refl
load_contacts-map (c ∷ cs) sizes = rw (sizes.0) (ap (λ t. c ∷ t) (load_contacts-map cs sizes.1))
