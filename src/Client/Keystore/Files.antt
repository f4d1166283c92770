-- ===== src/Client/Keystore/Files.antt =====
-- client/keystore.go: the file of a keystore. The n-th read of crypto/rand in an operation is an
-- argument, as are the ends of the two steps that write the file.
use sneakernet.Prelude.{
  ℕ, suc, ◌+◌, Bool, false, Option, none, some, ◌⊎◌, inl, inr, List, [], ◌∷◌, ◌++◌, ◌==◌,
  if◌then◌else◌, length, map,
}
use sneakernet.Integers.{ℤ, pos, negsuc}
use sneakernet.Client.Keystore.{
  Identity, Channel, Contact, Keystore, Services, Fault, no_random, not_saved, ◌>>!◌, or_fault,
}

abbrev pub keystore_version : ℕ
keystore_version = 2

abbrev pub keystore_canary : List ℕ
keystore_canary =
    b's' ∷ b'n' ∷ b'e' ∷ b'a' ∷ b'k' ∷ b'e' ∷ b'r' ∷ b'n' ∷ b'e' ∷ b't' ∷ b'-' ∷ b'k' ∷ b'e' ∷ b'y'
    ∷ b's' ∷ b't' ∷ b'o' ∷ b'r' ∷ b'e' ∷ b'-' ∷ b'v' ∷ b'1' ∷ []

-- `chacha20poly1305.NonceSizeX`.
abbrev pub nonce_size_x : ℕ
nonce_size_x = 24

pub record IdentityRecord : Type 0 where
  pub name : List ℕ
  pub nonce : List ℕ
  pub ciphertext : List ℕ
  pub sign_nonce : List ℕ
  pub sign_ciphertext : List ℕ
  pub id_pow_stamp : List ℕ

pub record ChannelRecord : Type 0 where
  pub name : List ℕ
  pub nonce : List ℕ
  pub ciphertext : List ℕ

pub record ContactRecord : Type 0 where
  pub name : List ℕ
  pub public_key : List ℕ
  pub signing_public_key : List ℕ

pub record KeystoreFile : Type 0 where
  pub version : ℤ
  pub salt : List ℕ
  pub kdf_time : ℕ
  pub kdf_memory : ℕ
  pub kdf_threads : ℕ
  pub verify : List ℕ
  pub identities : List IdentityRecord
  pub channels : List ChannelRecord
  pub contacts : List ContactRecord

-- encoding/json, on the format of the file.
pub record Json : Type 0 where
  pub marshal : KeystoreFile → Option (List ℕ)
  pub unmarshal : List ℕ → Option KeystoreFile

-- The file and the temporary file beside it.
pub record Disk : Type 0 where
  pub file : Option (List ℕ)
  pub tmp : Option (List ℕ)

-- Whether `os.WriteFile`, `os.Rename` and `os.Remove` succeed, and what a failed write leaves.
pub record Ends : Type 0 where
  pub written : Bool
  pub left : Option (List ℕ)
  pub renamed : Bool
  pub removed : Bool

abbrev pub Source : Type 0
Source = ℕ → Option (List ℕ)

abbrev pub is_version : ℤ → ℕ → Bool
is_version (pos n) m = n == m
is_version (negsuc n) m = false

abbrev pub contact_record : Contact → ContactRecord
contact_record c = record { name = c.name; public_key = c.public_key; signing_public_key = [] }

-- The temporary file is written, then it takes the place of the file.
unfoldable pub write_file : Ends → List ℕ → Disk → Option Fault × Disk
write_file ends raw disk =
    if ends.written
    then (if ends.renamed
        then (none, record { file = some raw; tmp = none })
        else (some not_saved, record disk { tmp = if ends.removed then none else some raw }))
    else (some not_saved, record disk { tmp = ends.left })

module _ (p : Services) where
  abbrev pub ks_encrypt :
      (master_key plaintext : List ℕ) (draw : Option (List ℕ)) → Fault ⊎ List ℕ × List ℕ
  ks_encrypt master_key plaintext draw =
      or_fault no_random draw >>! λ n. inr (n, p.seal master_key n plaintext)

  abbrev pub ks_decrypt : (master_key nonce ciphertext : List ℕ) → Option (List ℕ)
  ks_decrypt master_key nonce ciphertext = p.open_sealed master_key nonce ciphertext

  -- The loops of `Save`, from the n-th draw on.
  unfoldable pub save_identities :
      (master_key : List ℕ) → Source → ℕ → List Identity → Fault ⊎ List IdentityRecord
  save_identities key draws n [] = inr []
  save_identities key draws n (id ∷ ids) = ks_encrypt key id.sign_key (draws n) >>! λ sealed.
      save_identities key draws (suc n) ids >>! λ records. inr (
        record {
          name = id.name;
          nonce = [];
          ciphertext = [];
          sign_nonce = sealed.0;
          sign_ciphertext = sealed.1;
          id_pow_stamp = id.id_pow_stamp;
        }
        ∷ records)

  unfoldable pub save_channels :
      (master_key : List ℕ) → Source → ℕ → List Channel → Fault ⊎ List ChannelRecord
  save_channels key draws n [] = inr []
  save_channels key draws n (ch ∷ chs) = ks_encrypt key ch.key (draws n) >>! λ sealed.
      save_channels key draws (suc n) chs >>! λ records.
      inr (record { name = ch.name; nonce = sealed.0; ciphertext = sealed.1 } ∷ records)

  -- The file that `Save` writes.
  unfoldable pub file_of : Source → Keystore → Fault ⊎ KeystoreFile
  file_of draws k = ks_encrypt k.master_key keystore_canary (draws 0) >>! λ v.
      save_identities k.master_key draws 1 k.identities >>! λ identities.
      save_channels k.master_key draws (1 + length k.identities) k.channels >>! λ channels.
      inr (record {
        version = pos keystore_version;
        salt = k.salt;
        kdf_time = k.kdf_time;
        kdf_memory = k.kdf_memory;
        kdf_threads = k.kdf_threads;
        verify = v.0 ++ v.1;
        identities = identities;
        channels = channels;
        contacts = map contact_record k.contacts;
      })

  unfoldable pub save : Json → Source → Ends → Keystore → Disk → Option Fault × Disk
  unfolding file_of write_file
  save json draws ends k disk =
      elim (file_of draws k >>! λ f. or_fault not_saved (json.marshal f)) [
        | inl e ↦ (some e, disk)
        | inr raw ↦ write_file ends raw disk
      ]
