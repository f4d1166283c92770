-- ===== src/Tests/Keys.antt =====
-- Runs of the keystore, over stand-ins for the libraries.
use sneakernet.Prelude.{
  ℕ, ◌≡◌, refl, sym, ap, ◌∙◌, Bool, true, none, some, ◌⊎◌, inl, inr, List, [], ◌∷◌, ◌++◌, ltb,
  bytes_eq, length, length-replicate, replicate, take, drop, get_or,
}
use sneakernet.Integers.{pos}
use sneakernet.Client.Keystore.{
  Identity, Channel, Contact, Keystore, Services, Fault, get, validate_name, find,
}
use sneakernet.Client.Keystore.Files.{
  KeystoreFile, Disk, Ends, Source, save, save_identities, save_channels, file_of, write_file,
  keystore_canary,
}
use sneakernet.Client.Keystore.Loading.{
  load_key, load_identities, load_channels, load_contacts, load_rest, load_file, open_file,
  load_keystore,
}
use sneakernet.Client.Keystore.Saved.{HasNonces, IsSealing, Untouched}
use sneakernet.Client.Keystore.Reload.{IsSavable, load_keystore-save}
use sneakernet.Client.Keystore.Migration.{Migrates, load_keystore_keeps, load_keystore_migrates}
use sneakernet.Client.Keystore.Valid.{IsValid}
use sneakernet.Client.Keystore.Invariant.{
  Op, run, run-IsValid, add_op, add_channel_op, add_contact_op, rename_contact_op, set_pow_op,
  change_password_op,
}
use sneakernet.Client.Keystore.Transfer.{
  export_identity, import_identity, import_identity-export_identity,
}
use sneakernet.Tests.Sealed.{toy_primitives, toy_primitives-IsLawful}
use sneakernet.Tests.Codec.{toy_json, toy_json_reads, toy_export_json, toy_export_json_reads}

abbrev toy_services : Services
toy_services = record {
  runes = λ text. text;
  is_control = λ c. ltb c 32;
  sha256 = λ input. replicate 32 (length input);
  argon2 = λ password salt time memory threads. password ++ salt;
  seal = toy_primitives.seal;
  open_sealed = toy_primitives.open_sealed;
  new_key = λ seed. seed ++ seed;
}

toy_services-IsSealing : IsSealing toy_services
toy_services-IsSealing = record {
  seal_size = toy_primitives-IsLawful.seal_size;
  open-seal = toy_primitives-IsLawful.open-seal;
}

abbrev alice : Identity
alice = record { name = b'a' ∷ []; sign_key = replicate 64 4; id_pow_stamp = 7 ∷ [] }

abbrev bob : Contact
bob = record { name = b'b' ∷ []; public_key = replicate 32 3 }

abbrev club : Channel
club = record { name = b'c' ∷ []; key = replicate 32 8 }

abbrev password : List ℕ
password = 1 ∷ 2 ∷ []

abbrev keys : Keystore
keys = record {
  master_key = password ++ replicate 32 5;
  salt = replicate 32 5;
  kdf_time = 2;
  kdf_memory = 65536;
  kdf_threads = 4;
  identities = alice ∷ [];
  channels = club ∷ [];
  contacts = bob ∷ [];
}

abbrev blank : Keystore
blank = record keys { identities = []; channels = []; contacts = [] }

blank-IsValid : IsValid toy_services blank
blank-IsValid = record {
  identity_names = tt;
  names_allowed = tt;
  channel_names = tt;
  contact_keys = tt;
  contact_names = tt;
  contact_sizes = tt;
}

abbrev ops : List Op
ops =
    add_op (b'a' ∷ []) (some (replicate 32 4))
    ∷ add_op (b'a' ∷ []) (some (replicate 32 5))
    ∷ add_channel_op (b'c' ∷ []) (b'x' ∷ [])
    ∷ add_contact_op (b'b' ∷ []) (replicate 32 3)
    ∷ rename_contact_op (replicate 32 3) (b'/' ∷ [])
    ∷ set_pow_op (b'a' ∷ []) (1 ∷ [])
    ∷ change_password_op password none
    ∷ []

run-IsValid_example : IsValid toy_services (run toy_services toy_export_json ops blank)
run-IsValid_example = run-IsValid toy_services toy_export_json ops blank blank-IsValid

abbrev draws : Source
draws = λ n. some (replicate 24 n)

draws-HasNonces : HasNonces draws
draws-HasNonces n nonce h =
    ap (λ o. elim o as (λ _. ℕ) [ none ↦ 24 | some b ↦ length b ]) (sym h)
    ∙ length-replicate {A = ℕ} 24 n

abbrev ends : Ends
ends = record { written = true; left = none; renamed = true; removed = true }

abbrev empty_disk : Disk
empty_disk = record { file = none; tmp = none }

abbrev any_text : List ℕ → Bool
any_text text = true

keys-IsSavable : IsSavable toy_services any_text password keys
keys-IsSavable = record {
  keyed = refl;
  channel_sizes = (length-replicate 32 8, tt);
  contact_sizes = (length-replicate 32 3, tt);
  identity_texts = (refl, tt);
  channel_texts = (refl, tt);
  contact_texts = (refl, tt);
}

load_keystore-save_example :
    (let saved = save toy_services toy_json draws ends keys empty_disk in
      (saved.0 ≡ none)
        × ((other save_draws : Source) (ends : Ends)
            → load_keystore toy_services toy_json other save_draws ends password saved.1
              ≡ (inr keys, saved.1))
      ⊎ Untouched toy_services toy_json draws ends keys empty_disk saved)
load_keystore-save_example =
    load_keystore-save toy_services toy_services-IsSealing any_text draws draws-HasNonces password
      keys keys-IsSavable toy_json (λ f raw text h. toy_json_reads f raw h) ends empty_disk

-- A file of version 1 with a channel, a contact, and an identity that has no signing key.
abbrev old_file : KeystoreFile
old_file = record {
  version = pos 1;
  salt = replicate 32 5;
  kdf_time = 2;
  kdf_memory = 65536;
  kdf_threads = 4;
  verify =
      replicate 24 6
      ++ toy_services.seal (password ++ replicate 32 5) (replicate 24 6) keystore_canary;
  identities =
      record {
        name = b'a' ∷ [];
        nonce = [];
        ciphertext = [];
        sign_nonce = [];
        sign_ciphertext = [];
        id_pow_stamp = [];
      }
      ∷ [];
  channels =
      record {
        name = b'c' ∷ [];
        nonce = replicate 24 6;
        ciphertext =
            toy_services.seal (password ++ replicate 32 5) (replicate 24 6) (replicate 32 8);
      }
      ∷ [];
  contacts =
      record { name = b'b' ∷ []; public_key = replicate 32 2; signing_public_key = replicate 32 3 }
      ∷ [];
}

abbrev old_disk : Disk
old_disk = record { file = toy_json.marshal old_file; tmp = none }

load_keystore_keeps_example :
    ((load_keystore toy_services toy_json draws draws ends password old_disk).1 ≡ old_disk)
    ⊎ Migrates toy_services toy_json draws draws ends password old_disk
load_keystore_keeps_example =
    load_keystore_keeps toy_services toy_json draws draws ends password old_disk

abbrev loaded : (Fault ⊎ Keystore) × Disk
loaded = load_keystore toy_services toy_json draws draws ends password old_disk

abbrev migrated : Keystore
migrated = record keys {
  identities =
      record { name = b'a' ∷ []; sign_key = replicate 24 0 ++ replicate 24 0; id_pow_stamp = [] }
      ∷ [];
}

loads : loaded.0 ≡ inr migrated
unfolding load_keystore open_file load_file load_identities load_key load_rest load_channels
    load_contacts save file_of save_identities save_channels write_file replicate take drop bytes_eq
    get_or
loads = refl

load_keystore_migrates_example :
    (g : KeystoreFile) × (new : List ℕ) × (loaded.1.file ≡ some new)
    × (toy_json.marshal g ≡ some new)
    × (g.version ≡ pos 2)
    × (g.channels ≡ [])
    × (g.contacts ≡ [])
load_keystore_migrates_example =
    load_keystore_migrates toy_services toy_json draws draws ends password old_disk _ old_file
      migrated loaded.1 refl (toy_json_reads old_file _ refl) refl (ap (λ r. (r, loaded.1)) loads)

abbrev secret : List ℕ
secret = b's' ∷ []

abbrev exported : Fault ⊎ List ℕ
exported =
    export_identity toy_services toy_export_json (b'a' ∷ []) secret (some (replicate 32 1))
      (some (replicate 24 2)) keys

abbrev bundle : List ℕ
bundle = elim exported [ inl e ↦ [] | inr raw ↦ raw ]

bundled : exported ≡ inr bundle
unfolding export_identity find bytes_eq
bundled = refl

import_identity-export_identity_example :
    (let moved : Identity = record alice { id_pow_stamp = [] } in
      let grown : Keystore = record blank { identities = moved ∷ [] } in
      (import_identity toy_services toy_export_json bundle secret blank ≡ inr grown)
      × (get grown (b'a' ∷ []) ≡ some moved))
import_identity-export_identity_example =
    import_identity-export_identity toy_services toy_export_json toy_services-IsSealing any_text
      (λ b raw text h. toy_export_json_reads b raw h) (b'a' ∷ []) secret (some (replicate 32 1))
      (some (replicate 24 2)) keys blank alice bundle (unfold find bytes_eq in refl) bundled refl
      (unfold validate_name in refl) (length-replicate 64 4) (unfold find in refl)
