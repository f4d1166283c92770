-- ===== src/Client/Crypto/Authentic.antt =====
-- What `tryDecrypt` and `tryDecryptChannel` accept.
use sneakernet.Prelude.{
  some_injective, ℕ, ◌≡◌, refl, sym, ap, ◌∙◌, Bool, true, false, not, ◌&&◌, Option, none, some,
  ◌>>=◌, >>=-eq-some, ◌⊎◌, inl, inr, List, ◌++◌, ◌||◌, ltb, ◌==◌, if◌then◌else◌, Bool-cases,
  bytes_eq, bytes_eq_refl, ◌+◌, length, slice, take, drop, replicate,
}
use sneakernet.Bytes.{get_le}
use sneakernet.Client.MessageFormat.{
  MessagePayload, Result, ok, not_v3, malformed, content_too_large, magic_v3, plaintext_size,
  decode_payload, verify_signature, is_anonymous,
}
use sneakernet.Client.Crypto.{
  Primitives, to_option, pub_key_size, ciphertext_offset, magic_v1, decode_v1, v1_header_size,
  v1_magic_size, v1_max_content, checked, decode_plain, try_decrypt, try_decrypt_channel,
  ed_priv_to_x25519,
}

to_option-some : {A : Type 0} (r : Result A) (a : A) → to_option r ≡ some a → r ≡ ok a
to_option-some (ok b) a h = cc
to_option-some not_v3 a h = cc
to_option-some malformed a h = cc
to_option-some content_too_large a h = cc

if_some :
    {A : Type 0} (b : Bool) (o : Option A) (a : A)
    → (if b then none else o) ≡ some a
    → (b ≡ false) × (o ≡ some a)
if_some true o a h = cc
if_some false o a h = (refl, h)

if_then :
    {A : Type 0} (b : Bool) (o : Option A) (a : A) → (if b then o else none) ≡ some a → o ≡ some a
if_then true o a h = h
if_then false o a h = cc

if_cases :
    {A : Type 0} (b : Bool) (o p : Option A) (a : A)
    → (if b then o else p) ≡ some a
    → (o ≡ some a) ⊎ (p ≡ some a)
if_cases true o p a h = inl h
if_cases false o p a h = inr h

one_holds : (a b : Bool) → not a && not b ≡ false → a ≡ false → b ≡ true
one_holds a true h e = refl
one_holds true false h e = cc
one_holds false false h e = cc

decode_v1_anonymous :
    (plain : List ℕ) (mp : MessagePayload) → decode_v1 plain ≡ some mp → is_anonymous mp ≡ true
unfolding decode_v1
decode_v1_anonymous plain mp h =
    let (_, rest) = if_some (ltb (length plain) v1_header_size) _ mp h in
    let msg_len = get_le (slice v1_magic_size v1_header_size plain) in
    let (_, made) =
      if_some (ltb v1_max_content msg_len || ltb (length plain) (v1_header_size + msg_len)) _ mp
        rest in
    ap (λ o. elim o [ none ↦ false | some m ↦ is_anonymous m ]) (sym made)
    ∙ bytes_eq_refl (replicate 32 0)

module _ (c : Primitives) where
  -- The message is anonymous, or it decodes from a plaintext with a valid signature.
  abbrev pub IsAuthentic : List ℕ → MessagePayload → Type 1
  IsAuthentic plain mp =
      (is_anonymous mp ≡ true)
      ⊎ (decode_payload plain ≡ ok mp) × (verify_signature c.ed plain ≡ true)

  checked-IsAuthentic :
      (plain : List ℕ) (mp : MessagePayload)
      → (to_option (decode_payload plain) >>= checked c plain) ≡ some mp
      → IsAuthentic plain mp
  unfolding checked
  checked-IsAuthentic plain mp h =
      let (got, decoded, passed) =
        >>=-eq-some (to_option (decode_payload plain)) (checked c plain) h in
      let decodes = to_option-some (decode_payload plain) got decoded in
      let (accepted, same) =
        if_some (not (is_anonymous got) && not (verify_signature c.ed plain)) (some got) mp
          passed in
      let equal : got ≡ mp = some_injective same in
      elim (Bool-cases (is_anonymous got)) [
        | inl e ↦ inl (ap is_anonymous (sym equal) ∙ e)
        | inr e ↦ inr (decodes ∙ ap ok equal, one_holds (is_anonymous got) _ accepted e)
      ]

  decode_plain-IsAuthentic :
      (plain : List ℕ) (mp : MessagePayload)
      → decode_plain c plain ≡ some mp
      → IsAuthentic (take plaintext_size plain) mp
  unfolding decode_plain
  decode_plain-IsAuthentic plain mp h =
      let (_, rest) = if_some (ltb (length plain) 4) _ mp h in
      elim (if_cases (bytes_eq (take 4 plain) magic_v3) _ _ mp rest) [
        | inl v3 ↦ checked-IsAuthentic (take plaintext_size plain) mp v3
        | inr v1 ↦ inl (
            decode_v1_anonymous plain mp
              (if_then (bytes_eq (take 4 plain) magic_v1) (decode_v1 plain) mp v1))
      ]

  -- Whatever `tryDecryptChannel` accepts is anonymous, or it decodes from a plaintext with a valid
  -- signature: what the rest of the payload opens to under the hash of the channel's key and the salt.
  pub try_decrypt_channel-IsAuthentic :
      (channel_key payload : List ℕ) (mp : MessagePayload)
      → try_decrypt_channel c channel_key payload ≡ some mp
      → (plain : List ℕ) × (c.open_sealed
            (c.sha256 (channel_key ++ slice 0 pub_key_size payload))
            (slice pub_key_size ciphertext_offset payload)
            (drop ciphertext_offset payload)
          ≡ some plain)
        × IsAuthentic plain mp
  unfolding try_decrypt_channel
  try_decrypt_channel-IsAuthentic channel_key payload mp h =
      let (plain, opened, rest) = >>=-eq-some (c.open_sealed _ _ _) _ h in
      (
        plain,
        opened,
        checked-IsAuthentic plain mp (if_then (length plain == plaintext_size) _ mp rest),
      )

  -- Whatever `tryDecrypt` accepts is anonymous, or it decodes from a plaintext with a valid
  -- signature: the first 4024 bytes of what the rest of the payload opens to under the hash of a secret
  -- that the private key shares with the payload's ephemeral key.
  pub try_decrypt-IsAuthentic :
      (key : c.ed.PrivateKey) (payload : List ℕ) (mp : MessagePayload)
      → try_decrypt c key payload ≡ some mp
      → (shared plain : List ℕ) × (c.ecdh (ed_priv_to_x25519 c key) (slice 0 pub_key_size payload)
          ≡ some shared)
        × (c.open_sealed
              (c.sha256 shared)
              (slice pub_key_size ciphertext_offset payload)
              (drop ciphertext_offset payload)
            ≡ some plain)
        × IsAuthentic (take plaintext_size plain) mp
  unfolding try_decrypt
  try_decrypt-IsAuthentic key payload mp h =
      let (shared, agreed, rest) = >>=-eq-some (c.ecdh _ _) _ h in
      let (plain, opened, decoded) = >>=-eq-some (c.open_sealed _ _ _) _ rest in
      (shared, plain, agreed, opened, decode_plain-IsAuthentic plain mp decoded)
