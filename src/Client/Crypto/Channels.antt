-- ===== src/Client/Crypto/Channels.antt =====
-- `tryDecryptChannel` on what `EncryptChannel` and `EncryptChannelSigned` made.
use sneakernet.Prelude.{
  ℕ, ◌≤◌, ◌≡◌, refl, ◌∙◌, true, false, some, List, ◌++◌, arith, bytes_eq, length, replicate,
}
use sneakernet.Client.MessageFormat.{MessagePayload, v3_max_content, is_anonymous}
use sneakernet.Client.MessageFormat.Layout.{IsPayload, wire, whole, encode_payload-cat, whole_size}
use sneakernet.Client.MessageFormat.RoundTrip.{decode_payload-whole}
use sneakernet.Client.MessageFormat.Signed.{
  signed, signed-IsPayload, sign_payload-whole, verify_signature-whole,
}
use sneakernet.Client.Crypto.{
  Primitives, Draws, pub_key_size, nonce_size, encrypt_channel_plain, encrypt_channel,
  encrypt_channel_signed, checked, try_decrypt_channel,
}
use sneakernet.Client.Crypto.Laws.{IsLawful}
use sneakernet.Client.Crypto.Buffer.{
  fill_channel_payload-fields, read_first, read_nonce, read_sealed, fields_size,
}
use sneakernet.Client.Crypto.Direct.{checked_anonymous, checked_signed}

module _ (c : Primitives) (laws : IsLawful c) (channel_key : List ℕ) (draws : Draws) where
  -- Both draws succeed and have their sizes.
  pub record Salted : Type 0 where
    pub salt : List ℕ
    pub nonce : List ℕ
    pub salt_drawn : draws.salt ≡ some salt
    pub nonce_drawn : draws.nonce ≡ some nonce
    pub salt_length : length salt ≡ pub_key_size
    pub nonce_length : length nonce ≡ nonce_size

  encrypt_channel_plain_opens :
      (p : MessagePayload)
      → Salted
      → IsPayload p
      → length p.content ≤ v3_max_content
      → checked c (whole p) (wire p) ≡ some (wire p)
      → (payload : List ℕ) × (encrypt_channel_plain c draws channel_key (whole p) ≡ some payload)
        × (length payload ≡ 4096)
        × (try_decrypt_channel c channel_key payload ≡ some (wire p))
  unfolding encrypt_channel_plain try_decrypt_channel
  encrypt_channel_plain_opens p d h fits passes =
      let plain = whole p in
      let key = c.sha256 (channel_key ++ d.salt) in
      let ct = c.seal key d.nonce plain in
      let sealed_size : length ct ≡ 4040 =
        laws.seal_size key d.nonce plain ∙ omega (arith, whole_size p h fits) in
      (
        d.salt ++ (d.nonce ++ ct),
        rw
            (
              d.salt_drawn,
              d.nonce_drawn,
              fill_channel_payload-fields d.salt d.nonce ct d.salt_length d.nonce_length
                  sealed_size,
            )
            refl,
        fields_size d.salt d.nonce ct d.salt_length d.nonce_length sealed_size,
        rw
            (
              read_first d.salt d.nonce ct d.salt_length d.nonce_length sealed_size,
              read_nonce d.salt d.nonce ct d.salt_length d.nonce_length sealed_size,
              read_sealed d.salt d.nonce ct d.salt_length d.nonce_length sealed_size,
              laws.open-seal key d.nonce plain,
              whole_size p h fits,
              decode_payload-whole p h fits,
            )
            passes,
      )

  -- With lawful primitives and draws that succeed: encrypting an anonymous payload, whose fields have
  -- the sizes of their types and whose content is within the limit, under a channel's key gives a
  -- payload of 4096 bytes, from which the same key decrypts the payload that was sent, less the
  -- fields that the wire does not carry.
  pub try_decrypt_channel-encrypt_channel :
      (p : MessagePayload)
      → Salted
      → IsPayload p
      → length p.content ≤ v3_max_content
      → is_anonymous p ≡ true
      → (payload : List ℕ) × (encrypt_channel c draws channel_key p ≡ some payload)
        × (length payload ≡ 4096)
        × (try_decrypt_channel c channel_key payload ≡ some (wire p))
  unfolding encrypt_channel
  try_decrypt_channel-encrypt_channel p d h fits anonymous =
      let (payload, made, size, opened) =
        encrypt_channel_plain_opens p d h fits (checked_anonymous c p (whole p) anonymous) in
      (payload, rw (encode_payload-cat p h fits) made, size, opened)

  -- With lawful primitives and draws that succeed: encrypting with a signature a payload whose sender
  -- is the signing key's public key, not the zero key, whose fields have the sizes of their types and
  -- whose content is within the limit, under a channel's key gives a payload of 4096 bytes, from which
  -- the same key decrypts the payload that was sent with a new signature.
  pub try_decrypt_channel-encrypt_channel_signed :
      (p : MessagePayload) (sig_key : c.ed.PrivateKey)
      → Salted
      → IsPayload p
      → length p.content ≤ v3_max_content
      → p.sender_pub ≡ c.ed.public sig_key
      → bytes_eq (c.ed.public sig_key) (replicate 32 0) ≡ false
      → (payload : List ℕ) × (encrypt_channel_signed c draws channel_key p sig_key ≡ some payload)
        × (length payload ≡ 4096)
        × (try_decrypt_channel c channel_key payload ≡ some (wire (signed c.ed sig_key p)))
  unfolding encrypt_channel_signed
  try_decrypt_channel-encrypt_channel_signed p sig_key d h fits sender named =
      let q = signed c.ed sig_key p in
      let (payload, made, size, opened) =
        encrypt_channel_plain_opens q d (signed-IsPayload c.ed sig_key p h fits) fits (
          checked_signed c q (whole q)
            (verify_signature-whole c.ed sig_key p h fits sender named)) in
      (
        payload,
        rw (encode_payload-cat p h fits, sign_payload-whole c.ed sig_key p h fits) made,
        size,
        opened,
      )
