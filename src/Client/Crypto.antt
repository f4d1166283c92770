-- ===== src/Client/Crypto.antt =====
-- client/crypto.go: the encryption of a plaintext into the payload of a block, for a recipient's key
-- and for a channel's key. An error is `none`: the callers only test for one.
pub mod Laws
pub mod Buffer
pub mod Direct
pub mod Channels
pub mod Authentic
use sneakernet.Prelude.{
  ℕ, ◌+◌, ◌-◌, ◌≡◌, Bool, true, false, not, ◌&&◌, ◌||◌, Option, none, some, ◌>>=◌, List, [], ◌∷◌,
  ◌++◌, ltb, ◌==◌, bytes_eq, if◌then◌else◌, length, get_or, set, take, drop, slice, copy_at,
  replicate,
}
use Prim.Native.Nat.{bit_and, bit_or}
use sneakernet.Integers.{pos}
use sneakernet.Bytes.{get_le}
use sneakernet.Client.MessageFormat.{
  Ed25519, MessagePayload, Result, ok, not_v3, malformed, content_too_large, plaintext_size,
  magic_v3, encode_payload, decode_payload, sign_payload, verify_signature, is_anonymous,
}

abbrev pub pub_key_size : ℕ
pub_key_size = 32

-- XChaCha20-Poly1305's nonce and tag.
abbrev pub nonce_size : ℕ
nonce_size = 24

abbrev pub tag_size : ℕ
tag_size = 16

abbrev pub ciphertext_offset : ℕ
ciphertext_offset = pub_key_size + nonce_size

abbrev pub magic_v1 : List ℕ
magic_v1 = b'S' ∷ b'N' ∷ b'K' ∷ 1 ∷ []

abbrev pub v1_magic_size : ℕ
v1_magic_size = 4

abbrev pub v1_header_size : ℕ
v1_header_size = v1_magic_size + 2

abbrev pub v1_max_content : ℕ
v1_max_content = plaintext_size - v1_header_size

-- What Go's libraries provide. `montgomery` is `Point.SetBytes` followed by `BytesMontgomery`,
-- `x_public` is `PrivateKey.PublicKey().Bytes()`, `ecdh` is `PrivateKey.ECDH`; keys of 32 bytes are
-- what the constructors of crypto/ecdh and chacha20poly1305 accept.
pub record Primitives : Type 1 where
  pub ed : Ed25519
  pub seed : ed.PrivateKey → List ℕ
  pub sha256 : List ℕ → List ℕ
  pub sha512 : List ℕ → List ℕ
  pub montgomery : List ℕ → Option (List ℕ)
  pub x_public : List ℕ → List ℕ
  pub ecdh : List ℕ → List ℕ → Option (List ℕ)
  pub seal : List ℕ → List ℕ → List ℕ → List ℕ
  pub open_sealed : List ℕ → List ℕ → List ℕ → Option (List ℕ)

-- What an encryption draws from crypto/rand: each draw may fail.
pub record Draws : Type 0 where
  pub ephemeral : Option (List ℕ)
  pub nonce : Option (List ℕ)
  pub noise : Option ℕ
  pub salt : Option (List ℕ)

abbrev pub to_option : {A : Type 0} → Result A → Option A
to_option (ok a) = some a
to_option not_v3 = none
to_option malformed = none
to_option content_too_large = none

-- The three assignments to `scalar`.
unfoldable pub clamp : List ℕ → List ℕ
clamp scalar =
    let scalar = set scalar 0 (bit_and (get_or scalar 0 0) 248) in
    let scalar = set scalar 31 (bit_and (get_or scalar 31 0) 127) in
    set scalar 31 (bit_or (get_or scalar 31 0) 64)

-- Bit 255 from the noise, the others from the key.
unfoldable pub blend : ℕ → ℕ → ℕ
blend key noise = bit_or (bit_and key 127) (bit_and noise 128)

unfoldable pub fill_payload : List ℕ → ℕ → List ℕ → List ℕ → List ℕ
unfolding blend
fill_payload key noise nonce ct =
    let payload = copy_at 0 (replicate 4096 0) key in
    let payload = set payload 31 (blend (get_or payload 31 0) noise) in
    let payload = copy_at pub_key_size payload nonce in copy_at ciphertext_offset payload ct

unfoldable pub fill_channel_payload : List ℕ → List ℕ → List ℕ → List ℕ
fill_channel_payload salt nonce ct =
    let payload = copy_at 0 (replicate 4096 0) salt in
    let payload = copy_at pub_key_size payload nonce in copy_at ciphertext_offset payload ct

-- The message of a plaintext of version 1.
abbrev pub text_message : List ℕ → MessagePayload
text_message body = record {
  msg_type = 0;
  flags = 0;
  timestamp = pos 0;
  sender_pub = replicate 32 0;
  signature = replicate 64 0;
  thread_refs = replicate 8 (replicate 32 0);
  content = body;
  channel = [];
  sent_to = [];
  decrypted_by = [];
}

unfoldable pub decode_v1 : List ℕ → Option MessagePayload
decode_v1 plain =
    let msg_len = get_le (slice v1_magic_size v1_header_size plain) in
    if ltb (length plain) v1_header_size
    then none
    else (if ltb v1_max_content msg_len || ltb (length plain) (v1_header_size + msg_len)
        then none
        else some (text_message (slice v1_header_size (v1_header_size + msg_len) plain)))

module _ (c : Primitives) where
  abbrev pub ed_pub_to_x25519 : List ℕ → Option (List ℕ)
  ed_pub_to_x25519 ed_pub = c.montgomery ed_pub

  abbrev pub ed_priv_to_x25519 : c.ed.PrivateKey → List ℕ
  ed_priv_to_x25519 key = clamp (take 32 (c.sha512 (c.seed key)))

  unfoldable pub encrypt_plain : Draws → List ℕ → List ℕ → Option (List ℕ)
  encrypt_plain draws recipient_pub plain = draws.ephemeral >>= λ ephemeral.
      c.ecdh ephemeral recipient_pub >>= λ shared. draws.nonce >>= λ nonce. draws.noise >>= λ noise.
      some (fill_payload (c.x_public ephemeral) noise nonce (c.seal (c.sha256 shared) nonce plain))

  unfoldable pub encrypt : Draws → List ℕ → MessagePayload → Option (List ℕ)
  encrypt draws recipient mp = ed_pub_to_x25519 recipient >>= λ recipient_pub.
      to_option (encode_payload mp) >>= λ plain. encrypt_plain draws recipient_pub plain

  unfoldable pub encrypt_signed :
      Draws → List ℕ → MessagePayload → c.ed.PrivateKey → Option (List ℕ)
  encrypt_signed draws recipient mp sig_key = ed_pub_to_x25519 recipient >>= λ recipient_pub.
      to_option (encode_payload mp) >>= λ plain.
      encrypt_plain draws recipient_pub (sign_payload c.ed plain sig_key)

  unfoldable pub encrypt_channel_plain : Draws → List ℕ → List ℕ → Option (List ℕ)
  encrypt_channel_plain draws channel_key plain = draws.salt >>= λ salt. draws.nonce >>= λ nonce.
      some (fill_channel_payload salt nonce (c.seal (c.sha256 (channel_key ++ salt)) nonce plain))

  unfoldable pub encrypt_channel : Draws → List ℕ → MessagePayload → Option (List ℕ)
  encrypt_channel draws channel_key mp =
      to_option (encode_payload mp) >>= λ plain. encrypt_channel_plain draws channel_key plain

  unfoldable pub encrypt_channel_signed :
      Draws → List ℕ → MessagePayload → c.ed.PrivateKey → Option (List ℕ)
  encrypt_channel_signed draws channel_key mp sig_key = to_option (encode_payload mp) >>= λ plain.
      encrypt_channel_plain draws channel_key (sign_payload c.ed plain sig_key)

  -- A message that claims a sender counts only with a valid signature.
  unfoldable pub checked : List ℕ → MessagePayload → Option MessagePayload
  checked buf mp =
      if not (is_anonymous mp) && not (verify_signature c.ed buf) then none else some mp

  unfoldable pub try_decrypt_channel : List ℕ → List ℕ → Option MessagePayload
  unfolding checked
  try_decrypt_channel channel_key payload =
      let block_key = c.sha256 (channel_key ++ slice 0 pub_key_size payload) in
      c.open_sealed block_key (slice pub_key_size ciphertext_offset payload)
        (drop ciphertext_offset payload)
      >>= λ plain.
          if length plain == plaintext_size
          then to_option (decode_payload plain) >>= checked plain
          else none

  -- The conversion of the plaintext to an array takes its first 4024 bytes; what a payload of 4096
  -- bytes opens to has no others.
  unfoldable pub decode_plain : List ℕ → Option MessagePayload
  unfolding checked
  decode_plain plain =
      let magic = take 4 plain in
      if ltb (length plain) 4
      then none
      else (if bytes_eq magic magic_v3
          then (let buf = take plaintext_size plain in
              to_option (decode_payload buf) >>= checked buf)
          else (if bytes_eq magic magic_v1 then decode_v1 plain else none))

  unfoldable pub try_decrypt : c.ed.PrivateKey → List ℕ → Option MessagePayload
  unfolding decode_plain
  try_decrypt key payload =
      c.ecdh (ed_priv_to_x25519 key) (slice 0 pub_key_size payload) >>= λ shared.
      c.open_sealed (c.sha256 shared) (slice pub_key_size ciphertext_offset payload)
        (drop ciphertext_offset payload)
      >>= decode_plain
