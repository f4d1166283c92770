-- ===== src/Client/Crypto/Direct.antt =====
-- `tryDecrypt` on what `Encrypt` and `EncryptSigned` made.
use sneakernet.Prelude.{
  ℕ, ◌≤◌, ◌≡◌, refl, sym, ap, ◌∙◌, true, false, some, List, ◌++◌, arith, Bool-cases, inl, inr,
  bytes_eq, length, length-set, take, take_all, get_or, replicate, All-get_or,
}
use sneakernet.Bytes.{IsByte}
use sneakernet.Client.MessageFormat.{
  MessagePayload, v3_max_content, plaintext_size, is_anonymous, verify_signature,
}
use sneakernet.Client.MessageFormat.Layout.{IsPayload, wire, whole, encode_payload-cat, whole_size}
use sneakernet.Client.MessageFormat.RoundTrip.{decode_payload-whole}
use sneakernet.Client.MessageFormat.Signed.{
  signed, signed-IsPayload, sign_payload-whole, verify_signature-whole,
}
use sneakernet.Client.Crypto.{
  Primitives, Draws, nonce_size, ed_priv_to_x25519, encrypt_plain, encrypt, encrypt_signed, checked,
  decode_plain, try_decrypt,
}
use sneakernet.Client.Crypto.Laws.{IsLawful}
use sneakernet.Client.Crypto.Buffer.{
  noisy, fill_payload-fields, mask-noisy, read_first, read_nonce, read_sealed, fields_size,
}

module _ (c : Primitives) where
  -- What passes the checks behind the opening.
  pub checked_anonymous :
      (p : MessagePayload) (plain : List ℕ)
      → is_anonymous p ≡ true
      → checked c plain (wire p) ≡ some (wire p)
  unfolding checked
  checked_anonymous p plain h = rw h refl

  pub checked_signed :
      (p : MessagePayload) (plain : List ℕ)
      → verify_signature c.ed plain ≡ true
      → checked c plain (wire p) ≡ some (wire p)
  unfolding checked
  checked_signed p plain h = elim (Bool-cases (is_anonymous p)) [
    | inl e ↦ rw e refl
    | inr e ↦ rw (e, h) refl
  ]

  decode_plain-whole :
      (p : MessagePayload)
      → IsPayload p
      → length p.content ≤ v3_max_content
      → decode_plain c (whole p) ≡ checked c (whole p) (wire p)
  unfolding decode_plain take bytes_eq
  decode_plain-whole p h fits =
      rw
        (
          whole_size p h fits,
          take_all (whole p) (whole_size p h fits),
          decode_payload-whole p h fits,
        )
        refl

module _ (c : Primitives) (laws : IsLawful c) (key : c.ed.PrivateKey) (draws : Draws) where
  -- All draws succeed and have their sizes, and the exchange of keys gives a secret.
  pub record Drawn : Type 0 where
    pub ephemeral : List ℕ
    pub nonce : List ℕ
    pub noise : ℕ
    pub shared : List ℕ
    pub ephemeral_drawn : draws.ephemeral ≡ some ephemeral
    pub nonce_drawn : draws.nonce ≡ some nonce
    pub noise_drawn : draws.noise ≡ some noise
    pub agreed : c.ecdh ephemeral (c.x_public (ed_priv_to_x25519 c key)) ≡ some shared
    pub nonce_length : length nonce ≡ nonce_size
    pub noise-IsByte : IsByte noise

  -- The payload that is made from a plaintext opens to it.
  pub encrypt_plain_opens :
      (plain : List ℕ)
      → Drawn
      → length plain ≡ plaintext_size
      → (payload : List ℕ) × (encrypt_plain c draws (c.x_public (ed_priv_to_x25519 c key)) plain
          ≡ some payload)
        × (length payload ≡ 4096)
        × (try_decrypt c key payload ≡ decode_plain c plain)
  unfolding encrypt_plain try_decrypt
  encrypt_plain_opens plain d size =
      let scalar = ed_priv_to_x25519 c key in
      let public_key = c.x_public d.ephemeral in
      let row = laws.x_public-IsBytes d.ephemeral in
      let ct = c.seal (c.sha256 d.shared) d.nonce plain in
      let sealed_size : length ct ≡ 4040 =
        laws.seal_size (c.sha256 d.shared) d.nonce plain ∙ omega (arith, size) in
      let first = noisy public_key d.noise in
      let first_size : length first ≡ 32 = length-set public_key 31 _ ∙ row.size in
      let top : IsByte (get_or public_key 31 0) =
        All-get_or IsByte public_key 31 0 (omega (arith, row.size)) row.bytes in
      let same_secret : c.ecdh scalar first ≡ some d.shared =
        sym (laws.ecdh_mask scalar first first_size)
        ∙ ap (c.ecdh scalar) (mask-noisy public_key d.noise row.size top d.noise-IsByte)
        ∙ laws.ecdh_mask scalar public_key row.size
        ∙ laws.ecdh_comm scalar d.ephemeral
        ∙ d.agreed in
      (
        first ++ (d.nonce ++ ct),
        rw
            (
              d.ephemeral_drawn,
              d.agreed,
              d.nonce_drawn,
              d.noise_drawn,
              fill_payload-fields public_key d.nonce ct d.noise row.size d.nonce_length sealed_size,
            )
            refl,
        fields_size first d.nonce ct first_size d.nonce_length sealed_size,
        rw
            (
              read_first first d.nonce ct first_size d.nonce_length sealed_size,
              same_secret,
              read_nonce first d.nonce ct first_size d.nonce_length sealed_size,
              read_sealed first d.nonce ct first_size d.nonce_length sealed_size,
              laws.open-seal (c.sha256 d.shared) d.nonce plain,
            )
            refl,
      )

  -- With lawful primitives, draws that succeed and an exchange of keys that gives a secret: encrypting
  -- an anonymous payload, whose fields have the sizes of their types and whose content is within the
  -- limit, for a recipient's public key gives a payload of 4096 bytes, from which the recipient's
  -- private key decrypts the payload that was sent, less the fields that the wire does not carry.
  pub try_decrypt-encrypt :
      (p : MessagePayload)
      → Drawn
      → IsPayload p
      → length p.content ≤ v3_max_content
      → is_anonymous p ≡ true
      → (payload : List ℕ) × (encrypt c draws (c.ed.public key) p ≡ some payload)
        × (length payload ≡ 4096)
        × (try_decrypt c key payload ≡ some (wire p))
  unfolding encrypt
  try_decrypt-encrypt p d h fits anonymous =
      let (payload, made, size, opened) = encrypt_plain_opens (whole p) d (whole_size p h fits) in
      (
        payload,
        rw (laws.montgomery-public key, encode_payload-cat p h fits) made,
        size,
        opened ∙ decode_plain-whole c p h fits ∙ checked_anonymous c p (whole p) anonymous,
      )

  -- With lawful primitives, draws that succeed and an exchange of keys that gives a secret: encrypting
  -- with a signature a payload whose sender is the signing key's public key, not the zero key, whose
  -- fields have the sizes of their types and whose content is within the limit, for a recipient's
  -- public key gives a payload of 4096 bytes, from which the recipient's private key decrypts the
  -- payload that was sent with a new signature: the one over its encoding with the signature zeroed.
  pub try_decrypt-encrypt_signed :
      (p : MessagePayload) (sig_key : c.ed.PrivateKey)
      → Drawn
      → IsPayload p
      → length p.content ≤ v3_max_content
      → p.sender_pub ≡ c.ed.public sig_key
      → bytes_eq (c.ed.public sig_key) (replicate 32 0) ≡ false
      → (payload : List ℕ) × (encrypt_signed c draws (c.ed.public key) p sig_key ≡ some payload)
        × (length payload ≡ 4096)
        × (try_decrypt c key payload ≡ some (wire (signed c.ed sig_key p)))
  unfolding encrypt_signed
  try_decrypt-encrypt_signed p sig_key d h fits sender named =
      let q = signed c.ed sig_key p in
      let hq = signed-IsPayload c.ed sig_key p h fits in
      let (payload, made, size, opened) = encrypt_plain_opens (whole q) d (whole_size q hq fits) in
      (
        payload,
        rw
            (
              laws.montgomery-public key,
              encode_payload-cat p h fits,
              sign_payload-whole c.ed sig_key p h fits,
            )
            made,
        size,
        opened
            ∙ decode_plain-whole c q hq fits
            ∙ checked_signed c q (whole q)
                (verify_signature-whole c.ed sig_key p h fits sender named),
      )
