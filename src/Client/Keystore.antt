-- ===== src/Client/Keystore.antt =====
-- client/keystore.go: the identities, channels and contacts of a user, in memory. A pointer to an
-- entry is its place in the list.
pub mod Named
pub mod Valid
pub mod Invariant
pub mod Files
pub mod Loading
pub mod Chain
pub mod Saved
pub mod Reload
pub mod Migration
pub mod Transfer
use sneakernet.Prelude.{
  ℕ, ◌+◌, ◌*◌, ◌≡◌, Bool, true, false, ◌&&◌, ◌||◌, Option, none, some, ◌⊎◌, inl, inr, List, [], ◌∷◌,
  ◌++◌, ltb, ◌==◌, bytes_eq, if◌then◌else◌, length, map,
}
use sneakernet.Integers.{ℤ}

abbrev pub kdf_salt_size : ℕ
kdf_salt_size = 32

abbrev pub kdf_time_default : ℕ
kdf_time_default = 2

abbrev pub kdf_memory_default : ℕ
kdf_memory_default = 64 * 1024

abbrev pub kdf_threads_default : ℕ
kdf_threads_default = 4

pub record Identity : Type 0 where
  pub name : List ℕ
  pub sign_key : List ℕ
  pub id_pow_stamp : List ℕ

pub record Channel : Type 0 where
  pub name : List ℕ
  pub key : List ℕ

pub record Contact : Type 0 where
  pub name : List ℕ
  pub public_key : List ℕ

pub record Keystore : Type 0 where
  pub master_key : List ℕ
  pub salt : List ℕ
  pub kdf_time : ℕ
  pub kdf_memory : ℕ
  pub kdf_threads : ℕ
  pub identities : List Identity
  pub channels : List Channel
  pub contacts : List Contact

-- What an operation fails with.
pub data Fault : Type 0 where
  no_file bad_file unsupported_version truncated_verify wrong_password bad_channel_key : Fault
  no_random not_saved invalid_name taken not_found bad_key_size bad_bundle : Fault

infixl 5 ◌>>!◌
abbrev pub ◌>>!◌ {ℓ κ} : {A : Type ℓ} {B : Type κ} → Fault ⊎ A → (A → Fault ⊎ B) → Fault ⊎ B
inl e >>! f = inl e
inr a >>! f = f a

-- A value that a library may fail to give, with the error that the code returns for it.
abbrev pub or_fault {ℓ} : {A : Type ℓ} → Fault → Option A → Fault ⊎ A
or_fault e none = inl e
or_fault e (some a) = inr a

-- What Go's libraries provide: the conversion of a string to its characters and the test for control
-- characters, SHA-256, argon2id with keys of 32 bytes, XChaCha20-Poly1305, and the private key that
-- Ed25519 makes of random bytes.
pub record Services : Type 0 where
  pub runes : List ℕ → List ℕ
  pub is_control : ℕ → Bool
  pub sha256 : List ℕ → List ℕ
  pub argon2 : (password salt : List ℕ) (time memory threads : ℕ) → List ℕ
  pub seal : (key nonce plain : List ℕ) → List ℕ
  pub open_sealed : (key nonce ct : List ℕ) → Option (List ℕ)
  pub new_key : List ℕ → List ℕ

-- The loops over a list of entries that stop at the first with the given name or key.
module _ {A : Type 0} (field : A → List ℕ) (key : List ℕ) where
  unfoldable pub find : List A → Option A
  find [] = none
  find (x ∷ xs) = if bytes_eq (field x) key then some x else find xs

  unfoldable pub remove : List A → List A
  remove [] = []
  remove (x ∷ xs) = if bytes_eq (field x) key then xs else x ∷ remove xs

  unfoldable pub update : (A → A) → List A → List A
  update change [] = []
  update change (x ∷ xs) = if bytes_eq (field x) key then change x ∷ xs else x ∷ update change xs

abbrev pub found : {A : Type 0} → Option A → Bool
found none = false
found (some a) = true

abbrev pub get : Keystore → List ℕ → Option Identity
get k name = find Identity.name name k.identities

abbrev pub get_channel : Keystore → List ℕ → Option Channel
get_channel k name = find Channel.name name k.channels

abbrev pub get_contact : Keystore → List ℕ → Option Contact
get_contact k pub_key = find Contact.public_key pub_key k.contacts

module _ (p : Services) where
  abbrev pub has_invalid : List ℕ → Bool
  has_invalid [] = false
  has_invalid (r ∷ rs) = ((r == b'/') || p.is_control r) || has_invalid rs

  unfoldable pub validate_name : List ℕ → Bool
  validate_name name =
      let runes = p.runes name in
      if length runes == 0
      then false
      else (if ltb 64 (length runes) then false else (if has_invalid runes then false else true))

  abbrev pub derive_key : (password salt : List ℕ) (time memory threads : ℕ) → List ℕ
  derive_key password salt time memory threads = p.argon2 password salt time memory threads

  -- `draw` is what crypto/rand gave.
  unfoldable pub new_keystore : (password : List ℕ) (draw : Option (List ℕ)) → Fault ⊎ Keystore
  new_keystore password draw = or_fault no_random draw >>! λ salt. inr (record {
    master_key = derive_key password salt kdf_time_default kdf_memory_default kdf_threads_default;
    salt = salt;
    kdf_time = kdf_time_default;
    kdf_memory = kdf_memory_default;
    kdf_threads = kdf_threads_default;
    identities = [];
    channels = [];
    contacts = [];
  })

  unfoldable pub add : (name : List ℕ) (draw : Option (List ℕ)) → Keystore → Fault ⊎ Keystore
  unfolding validate_name find
  add name draw k =
      if validate_name name
      then (if found (get k name)
          then inl taken
          else or_fault no_random draw >>! λ seed.
              (let id : Identity = record {
                name = name;
                sign_key = p.new_key seed;
                id_pow_stamp = [];
              } in
                inr (record k { identities = k.identities ++ id ∷ [] })))
      else inl invalid_name

  unfoldable pub add_channel : (name passphrase : List ℕ) → Keystore → Fault ⊎ Keystore
  unfolding find
  add_channel name passphrase k =
      if found (get_channel k name)
      then inl taken
      else (let ch : Channel = record { name = name; key = p.sha256 passphrase } in
          inr (record k { channels = k.channels ++ ch ∷ [] }))

  unfoldable pub add_contact : (name pub_key : List ℕ) → Keystore → Fault ⊎ Keystore
  unfolding validate_name find
  add_contact name pub_key k =
      if validate_name name
      then (if length pub_key == 32
          then (if found (get_contact k pub_key)
              then inl taken
              else (let c : Contact = record { name = name; public_key = pub_key } in
                  inr (record k { contacts = k.contacts ++ c ∷ [] })))
          else inl bad_key_size)
      else inl invalid_name

  unfoldable pub rename_contact : (pub_key new_name : List ℕ) → Keystore → Fault ⊎ Bool × Keystore
  unfolding validate_name find update
  rename_contact pub_key new_name k =
      if validate_name new_name
      then inr (
        found (get_contact k pub_key),
        record k {
          contacts =
              update Contact.public_key pub_key (λ c. record c { name = new_name }) k.contacts;
        },
      )
      else inl invalid_name

  unfoldable pub change_password :
      (new_password : List ℕ) (draw : Option (List ℕ)) → Keystore → Fault ⊎ Keystore
  change_password new_password draw k = or_fault no_random draw >>! λ salt. inr (record k {
    salt = salt;
    master_key = derive_key new_password salt k.kdf_time k.kdf_memory k.kdf_threads;
  })

  unfoldable pub verify_password : List ℕ → Keystore → Bool
  verify_password password k =
      bytes_eq (derive_key password k.salt k.kdf_time k.kdf_memory k.kdf_threads) k.master_key

unfoldable pub set_identity_pow : (name stamp : List ℕ) → Keystore → Fault ⊎ Keystore
unfolding find update
set_identity_pow name stamp k =
    if found (get k name)
    then inr (record k {
      identities =
          update Identity.name name (λ id. record id { id_pow_stamp = stamp }) k.identities;
    })
    else inl not_found

unfoldable pub remove_identity : (name : List ℕ) → Keystore → Bool × Keystore
unfolding find remove
remove_identity name k =
    (found (get k name), record k { identities = remove Identity.name name k.identities })

unfoldable pub remove_channel : (name : List ℕ) → Keystore → Bool × Keystore
unfolding find remove
remove_channel name k =
    (found (get_channel k name), record k { channels = remove Channel.name name k.channels })

unfoldable pub remove_contact : (pub_key : List ℕ) → Keystore → Bool × Keystore
unfolding find remove
remove_contact pub_key k = (
  found (get_contact k pub_key),
  record k { contacts = remove Contact.public_key pub_key k.contacts },
)
