-- ===== src/Client/Keystore/Transfer.antt =====
-- client/keystore.go: the export of one identity under a password, and its import.
use sneakernet.Prelude.{
  ℕ, ◌≡◌, refl, sym, ap, ◌∙◌, Bool, true, false, Option, some, ◌⊎◌, inl, inr, List, [], ◌∷◌, ◌++◌,
  ◌==◌, if◌then◌else◌, if_elim, length,
}
use sneakernet.Integers.{ℤ, pos}
use sneakernet.Client.Keystore.{
  Identity, Keystore, Services, Fault, no_random, not_found, bad_bundle, unsupported_version,
  wrong_password, bad_key_size, invalid_name, taken, ◌>>!◌, or_fault, derive_key, validate_name,
  find, found, get, kdf_time_default, kdf_memory_default, kdf_threads_default,
}
use sneakernet.Client.Keystore.Chain.{>>!-eq-inr, or_fault-eq-inr}
use sneakernet.Client.Keystore.Files.{ks_encrypt, ks_decrypt, is_version}
use sneakernet.Client.Keystore.Named.{Lacks-found, find-append}
use sneakernet.Client.Keystore.Saved.{IsSealing, ks_encrypt-inr}
use sneakernet.Client.Keystore.Valid.{IsValid, after, more-IsValid}

pub record IdentityExport : Type 0 where
  pub version : ℤ
  pub name : List ℕ
  pub salt : List ℕ
  pub kdf_time : ℕ
  pub kdf_memory : ℕ
  pub kdf_threads : ℕ
  pub nonce : List ℕ
  pub ciphertext : List ℕ

-- encoding/json, on the format of an export.
pub record ExportJson : Type 0 where
  pub marshal : IdentityExport → Option (List ℕ)
  pub unmarshal : List ℕ → Option IdentityExport

-- `ed25519.PrivateKeySize`.
abbrev pub private_key_size : ℕ
private_key_size = 64

-- What is exported of an identity.
abbrev pub bundle_of : Identity → (salt : List ℕ) → List ℕ × List ℕ → IdentityExport
bundle_of id salt sealed = record {
  version = pos 1;
  name = id.name;
  salt = salt;
  kdf_time = kdf_time_default;
  kdf_memory = kdf_memory_default;
  kdf_threads = kdf_threads_default;
  nonce = sealed.0;
  ciphertext = sealed.1;
}

module _ (p : Services) (json : ExportJson) where
  unfoldable pub export_identity :
      (name export_password : List ℕ) (salt_draw nonce_draw : Option (List ℕ))
      → Keystore
      → Fault ⊎ List ℕ
  unfolding find
  export_identity name export_password salt_draw nonce_draw k =
      or_fault not_found (get k name) >>! λ id. or_fault no_random salt_draw >>! λ salt.
      (let export_key =
          derive_key p export_password salt kdf_time_default kdf_memory_default
            kdf_threads_default in
        ks_encrypt p export_key id.sign_key nonce_draw >>! λ sealed.
        or_fault bad_bundle (json.marshal (bundle_of id salt sealed)))

  -- Behind the opening of the bundle.
  unfoldable pub import_key : IdentityExport → (priv_bytes : List ℕ) → Keystore → Fault ⊎ Keystore
  unfolding validate_name find
  import_key b priv_bytes k =
      if length priv_bytes == private_key_size
      then (if validate_name p b.name
          then (if found (get k b.name)
              then inl taken
              else (let id : Identity = record {
                name = b.name;
                sign_key = priv_bytes;
                id_pow_stamp = [];
              } in
                  inr (record k { identities = k.identities ++ id ∷ [] })))
          else inl invalid_name)
      else inl bad_key_size

  unfoldable pub import_identity : (bundle export_password : List ℕ) → Keystore → Fault ⊎ Keystore
  unfolding import_key
  import_identity bundle export_password k = or_fault bad_bundle (json.unmarshal bundle) >>! λ b.
      (if is_version b.version 1
        then (let export_key =
              derive_key p export_password b.salt b.kdf_time b.kdf_memory b.kdf_threads in
            or_fault wrong_password (ks_decrypt p export_key b.nonce b.ciphertext) >>! λ priv_bytes.
            import_key b priv_bytes k)
        else inl unsupported_version)

  module _ (k : Keystore) (v : IsValid p k) where
    import_key-IsValid :
        (b : IdentityExport) (priv_bytes : List ℕ) → IsValid p (after k (import_key b priv_bytes k))
    unfolding import_key
    import_key-IsValid b priv_bytes =
        let kept : Fault ⊎ Keystore → Type 0 = λ r. IsValid p (after k r) in
        if_elim kept (length priv_bytes == private_key_size) _ _
          (λ size.
            if_elim kept (validate_name p b.name) _ _
              (λ allowed.
                if_elim kept (found (get k b.name)) _ _ (λ e. v)
                  (λ free.
                    more-IsValid p k v
                      (record { name = b.name; sign_key = priv_bytes; id_pow_stamp = [] }) allowed
                      free))
              (λ e. v))
          (λ e. v)

    bound-IsValid :
        {A : Type 0} (m : Fault ⊎ A) (f : A → Fault ⊎ Keystore)
        → ((a : A) → IsValid p (after k (f a)))
        → IsValid p (after k (m >>! f))
    bound-IsValid (inl e) f h = v
    bound-IsValid (inr a) f h = h a

    pub import_identity-IsValid :
        (bundle export_password : List ℕ)
        → IsValid p (after k (import_identity bundle export_password k))
    unfolding import_identity
    import_identity-IsValid bundle export_password =
        bound-IsValid (or_fault bad_bundle (json.unmarshal bundle)) _ (λ b.
          if_elim (λ r. IsValid p (after k r)) (is_version b.version 1) _ _
            (λ e.
              bound-IsValid
                (or_fault wrong_password (
                  ks_decrypt p
                    (derive_key p export_password b.salt b.kdf_time b.kdf_memory b.kdf_threads)
                    b.nonce b.ciphertext))
                (λ priv_bytes. import_key b priv_bytes k)
                (λ priv_bytes. import_key-IsValid b priv_bytes))
            (λ e. v))

  abbrev export_key_of : (password salt : List ℕ) → List ℕ
  export_key_of password salt =
      derive_key p password salt kdf_time_default kdf_memory_default kdf_threads_default

  -- The bundle of an export that succeeds.
  export_identity-inr :
      (name export_password : List ℕ) (salt_draw nonce_draw : Option (List ℕ))
      → (k : Keystore) (id : Identity) (bundle : List ℕ) → get k name ≡ some id
      → export_identity name export_password salt_draw nonce_draw k ≡ inr bundle
      → (salt : List ℕ) × (sealed : List ℕ × List ℕ) × (json.marshal (bundle_of id salt sealed)
          ≡ some bundle)
        × (sealed.1 ≡ p.seal (export_key_of export_password salt) sealed.0 id.sign_key)
  unfolding export_identity
  export_identity-inr name export_password salt_draw nonce_draw k id bundle here exported =
      let steps : Option Identity → Fault ⊎ List ℕ = λ got. or_fault not_found got >>! λ id.
      or_fault no_random salt_draw >>! λ salt.
      ks_encrypt p (export_key_of export_password salt) id.sign_key nonce_draw >>! λ sealed.
      or_fault bad_bundle (json.marshal (bundle_of id salt sealed)) in
      let e = ap steps (sym here) ∙ exported in
      let (salt, drawn, e) = >>!-eq-inr (or_fault no_random salt_draw) _ e in
      let (sealed, made, e) = >>!-eq-inr (ks_encrypt p _ id.sign_key nonce_draw) _ e in
      (
        salt,
        sealed,
        or_fault-eq-inr bad_bundle _ e,
        (ks_encrypt-inr p _ id.sign_key nonce_draw sealed made).1,
      )

  import_identity_bundle :
      (laws : IsSealing p) (export_password : List ℕ) (other : Keystore) (id : Identity)
      → (salt : List ℕ) (sealed : List ℕ × List ℕ) (bundle : List ℕ)
      → json.unmarshal bundle ≡ some (bundle_of id salt sealed)
      → sealed.1 ≡ p.seal (export_key_of export_password salt) sealed.0 id.sign_key
      → validate_name p id.name ≡ true
      → length id.sign_key ≡ private_key_size
      → found (get other id.name) ≡ false
      → (let moved : Identity = record id { id_pow_stamp = [] } in
          import_identity bundle export_password other
          ≡ inr (record other { identities = other.identities ++ moved ∷ [] }))
  unfolding import_identity import_key
  import_identity_bundle laws export_password other id salt sealed bundle read text allowed size
        free =
      rw
        (
          read,
          text,
          laws.open-seal (export_key_of export_password salt) sealed.0 id.sign_key,
          size,
          allowed,
          free,
        )
        refl

  -- With sealing that opens again and JSON that reads back bundles whose names are texts: if exporting
  -- an identity under a password gives a bundle, and the identity has an allowed name that is a text
  -- and a key of 64 bytes, then importing the bundle with the password into a keystore that has no
  -- identity of that name adds, behind the identities it has, the identity without its proof of work,
  -- which is then found under its name.
  pub import_identity-export_identity :
      (laws : IsSealing p) (valid : List ℕ → Bool)
      → ((b : IdentityExport) (raw : List ℕ)
          → valid b.name ≡ true
          → json.marshal b ≡ some raw
          → json.unmarshal raw ≡ some b)
      → (name export_password : List ℕ) (salt_draw nonce_draw : Option (List ℕ))
      → (k other : Keystore) (id : Identity) (bundle : List ℕ) → get k name ≡ some id
      → export_identity name export_password salt_draw nonce_draw k ≡ inr bundle
      → valid id.name ≡ true
      → validate_name p id.name ≡ true
      → length id.sign_key ≡ private_key_size
      → found (get other id.name) ≡ false
      → (let moved : Identity = record id { id_pow_stamp = [] } in
          let grown : Keystore = record other { identities = other.identities ++ moved ∷ [] } in
          (import_identity bundle export_password other ≡ inr grown)
          × (get grown id.name ≡ some moved))
  import_identity-export_identity laws valid reads name export_password salt_draw nonce_draw k other
        id bundle here exported text allowed size free =
      let (salt, sealed, encoded, made) =
        export_identity-inr name export_password salt_draw nonce_draw k id bundle here exported in
      (
        import_identity_bundle laws export_password other id salt sealed bundle
            (reads (bundle_of id salt sealed) bundle text encoded) made allowed size free,
        find-append Identity.name id.name other.identities _
            (Lacks-found Identity.name id.name other.identities free) refl,
      )
