-- ===== src/Client/Keystore/Migration.antt =====
-- When `LoadKeystore` writes, and what it writes.
use sneakernet.Prelude.{
  ℕ, ◌≡◌, refl, sym, ap, ◌∙◌, Bool, true, ◌||◌, Bool-cases, Option, none, some, ◌⊎◌, inl, inr, List,
  [],
}
use sneakernet.Integers.{ltb_ℤ, pos}
use sneakernet.Client.Keystore.{
  Identity, Keystore, Services, Fault, no_file, bad_file, not_saved, ◌>>!◌, or_fault,
}
use sneakernet.Client.Keystore.Chain.{>>!-eq-inr, or_fault-eq-inr, inr_injective, Fault-cases}
use sneakernet.Client.Keystore.Files.{
  KeystoreFile, Json, Disk, Ends, Source, keystore_version, file_of, save, ks_encrypt,
  save_identities, save_channels, keystore_canary,
}
use sneakernet.Client.Keystore.Loading.{
  load_identities, half_loaded, open_file, load_rest, load_file, load_keystore,
}
use sneakernet.Client.Keystore.Saved.{save_atomic}

differ : (e : Fault) (k : Keystore) → ◌≡◌ {A = Fault ⊎ Keystore} (inl e) (inr k) → ⊥
differ e k h = cc

-- An error of `Save` is what the loading returns.
unsaved :
    (o : Option Fault) (rest : Fault ⊎ Keystore) {e : Fault}
    → o ≡ some e
    → inl not_saved ≡ elim o as (λ _. Fault ⊎ Keystore) [ some e ↦ inl not_saved | none ↦ rest ]
unsaved none rest h = cc
unsaved (some e) rest h = refl

module _ (p : Services) (json : Json) (draws save_draws : Source) (ends : Ends) (password : List ℕ)
    (disk : Disk) where
  -- The file that the password opens has the first version, or lacks a key that is made for it.
  abbrev pub Migrates : Type 0
  Migrates =
      (raw : List ℕ) × (f : KeystoreFile) × (key : List ℕ) × (got : List Identity × Bool)
      × (disk.file ≡ some raw)
      × (json.unmarshal raw ≡ some f)
      × (open_file p password f ≡ inr key)
      × (load_identities p key draws 0 f.identities ≡ inr got)
      × ((ltb_ℤ f.version (pos keystore_version) || got.1) ≡ true)

  load_file_keeps :
      (f : KeystoreFile) (key : List ℕ)
      → ((load_file p json draws save_draws ends f key disk).1 ≡ disk)
        ⊎ ((got : List Identity × Bool) × (load_identities p key draws 0 f.identities ≡ inr got)
            × ((ltb_ℤ f.version (pos keystore_version) || got.1) ≡ true))
  load_file_keeps f key = elim (Fault-cases (load_identities p key draws 0 f.identities)) [
    | inl (e, failed) ↦ inl (unfold load_file in rw (failed, load_file) refl)
    | inr (got, loaded) ↦ elim (Bool-cases (ltb_ℤ f.version (pos keystore_version) || got.1)) [
      | inl needs ↦ inr (got, loaded, needs)
      | inr current ↦ inl (unfold load_file in rw (loaded, load_file, current) refl)
    ]
  ]

  -- Loading changes nothing on the disk, with one exception: the file decodes, its password is right,
  -- the identities load, and the file has the first version or an identity without a sealed key.
  pub load_keystore_keeps :
      ((load_keystore p json draws save_draws ends password disk).1 ≡ disk) ⊎ Migrates
  load_keystore_keeps =
      elim (Fault-cases
        (or_fault no_file disk.file >>! λ raw. or_fault bad_file (json.unmarshal raw))) [
          | inl (e, failed) ↦ inl (unfold load_keystore in rw (failed, load_keystore) refl)
          | inr (f, read) ↦ elim (Fault-cases (open_file p password f)) [
            | inl (e, refused) ↦
                inl (unfold load_keystore in rw (read, load_keystore, refused) refl)
            | inr (key, opened) ↦ elim (load_file_keeps f key) [
              | inl kept ↦ inl (unfold load_keystore in rw (read, load_keystore, opened) kept)
              | inr (got, loaded, needs) ↦
                  let (raw, stored, decoded) = >>!-eq-inr (or_fault no_file disk.file) _ read in
                  inr (
                    raw,
                    f,
                    key,
                    got,
                    or_fault-eq-inr no_file disk.file stored,
                    or_fault-eq-inr bad_file (json.unmarshal raw) decoded,
                    opened,
                    loaded,
                    needs,
                  )
            ]
          ]
        ]

  -- What the migration leaves of the file.
  abbrev Emptied : Disk → Type 0
  Emptied after =
      (g : KeystoreFile) × (new : List ℕ) × (after.file ≡ some new)
      × (json.marshal g ≡ some new)
      × (g.version ≡ pos 2)
      × (g.channels ≡ [])
      × (g.contacts ≡ [])

  file_of_half :
      (f g : KeystoreFile) (key : List ℕ) (ids : List Identity)
      → file_of p save_draws (half_loaded f key ids) ≡ inr g
      → (g.version ≡ pos 2) × (g.channels ≡ []) × (g.contacts ≡ [])
  unfolding file_of save_channels
  file_of_half f g key ids e =
      let (v, made, e) = >>!-eq-inr (ks_encrypt p key keystore_canary (save_draws 0)) _ e in
      let (recs, saved, e) = >>!-eq-inr (save_identities p key save_draws 1 ids) _ e in
      let same = inr_injective e in
      (
        sym (ap KeystoreFile.version same),
        sym (ap KeystoreFile.channels same),
        sym (ap KeystoreFile.contacts same),
      )

  load_file_migrates :
      (f : KeystoreFile) (key : List ℕ) (k : Keystore) (after : Disk)
      → f.version ≡ pos 1
      → load_file p json draws save_draws ends f key disk ≡ (inr k, after)
      → Emptied after
  load_file_migrates f key k after version loaded =
      elim (Fault-cases (load_identities p key draws 0 f.identities)) [
        | inl (e, failed) ↦
            let stopped : load_file p json draws save_draws ends f key disk ≡ (inl e, disk) =
              unfold load_file in rw (failed, load_file) refl in
            absurd (differ e k (ap (λ r. r.0) (sym stopped ∙ loaded)))
        | inr (got, read) ↦
            let half = half_loaded f key got.0 in
            let saved = save p json save_draws ends half disk in
            let made : load_file p json draws save_draws ends f key disk
                ≡ (elim saved.0 [ some e ↦ inl not_saved | none ↦ load_rest p f half ], saved.1) =
              unfold load_file in rw (read, load_file, version) refl in
            let result = sym made ∙ loaded in
            elim (save_atomic p json save_draws ends half disk) [
              | inl (g, new, built, encoded, done) ↦
                  let (at_two, no_channels, no_contacts) = file_of_half f g key got.0 built in
                  (
                    g,
                    new,
                    ap (λ r. r.1.file) (sym result) ∙ ap (λ r. r.1.file) done,
                    encoded,
                    at_two,
                    no_channels,
                    no_contacts,
                  )
              | inr (e, failed, kept) ↦
                  let first = ap (λ r. r.0) result in
                  absurd (differ not_saved k (unsaved saved.0 (load_rest p f half) failed ∙ first))
            ]
      ]

  -- Loading a file of version 1 with success leaves a file of version 2 without channels and without
  -- contacts, whatever it had of them.
  pub load_keystore_migrates :
      (raw : List ℕ) (f : KeystoreFile) (k : Keystore) (after : Disk)
      → disk.file ≡ some raw
      → json.unmarshal raw ≡ some f
      → f.version ≡ pos 1
      → load_keystore p json draws save_draws ends password disk ≡ (inr k, after)
      → (g : KeystoreFile) × (new : List ℕ) × (after.file ≡ some new)
        × (json.marshal g ≡ some new)
        × (g.version ≡ pos 2)
        × (g.channels ≡ [])
        × (g.contacts ≡ [])
  load_keystore_migrates raw f k after stored decoded version loaded =
      let read : (or_fault no_file disk.file >>! λ raw. or_fault bad_file (json.unmarshal raw))
          ≡ inr f =
        rw (stored, decoded) refl in
      elim (Fault-cases (open_file p password f)) [
        | inl (e, refused) ↦
            let stopped : load_keystore p json draws save_draws ends password disk ≡ (inl e, disk) =
              unfold load_keystore in rw (read, load_keystore, refused) refl in
            absurd (differ e k (ap (λ r. r.0) (sym stopped ∙ loaded)))
        | inr (key, opened) ↦
            let made : load_keystore p json draws save_draws ends password disk
                ≡ load_file p json draws save_draws ends f key disk =
              unfold load_keystore in rw (read, load_keystore, opened) refl in
            load_file_migrates f key k after version (sym made ∙ loaded)
      ]
