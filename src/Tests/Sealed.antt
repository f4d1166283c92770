-- ===== src/Tests/Sealed.antt =====
-- Runs of the encryption, over stand-ins for the cryptographic primitives.
use sneakernet.Prelude.{
  ℕ, ◌-◌, ◌*◌, ◌%◌, ◌≡◌, refl, sym, ap, false, none, some, List, [], ◌∷◌, ◌++◌, arith,
  if◌then◌else◌, bytes_eq, bytes_eq_refl, length, length-append, length-replicate, get_or,
  get_or-set_ne, set, take, drop, slice, replicate, take-append, drop-append,
}
use sneakernet.Bytes.{IsBytes, zeros-IsBytes}
use sneakernet.Client.MessageFormat.{MessagePayload}
use sneakernet.Client.MessageFormat.Layout.{IsPayload, wire}
use sneakernet.Client.MessageFormat.Signed.{signed}
use sneakernet.Client.Crypto.{
  Primitives, Draws, encrypt_signed, encrypt_channel_signed, try_decrypt, try_decrypt_channel,
  clamp, ed_priv_to_x25519, pub_key_size, ciphertext_offset,
}
use sneakernet.Client.Crypto.Laws.{IsLawful}
use sneakernet.Client.Crypto.Direct.{Drawn, try_decrypt-encrypt_signed}
use sneakernet.Client.Crypto.Channels.{Salted, try_decrypt_channel-encrypt_channel_signed}
use sneakernet.Client.Crypto.Authentic.{IsAuthentic, try_decrypt-IsAuthentic}
use sneakernet.Tests.Messages.{toy, note, note-IsPayload}

abbrev toy_public : List ℕ → List ℕ
toy_public scalar = get_or scalar 0 0 % 128 ∷ replicate 31 0

-- A tag of 16 bytes of the key.
abbrev toy_tag : List ℕ → List ℕ
toy_tag key = replicate 16 (get_or key 0 0)

-- The first byte of a key stands for the key: a shared secret is the product of two.
abbrev pub toy_primitives : Primitives
toy_primitives = record {
  ed = toy;
  seed = λ k. k ∷ [];
  sha256 = λ input. input;
  sha512 = λ input. input;
  montgomery = λ key. some (toy_public (clamp (get_or key 0 0 ∷ [])));
  x_public = toy_public;
  ecdh = λ a key. some ((get_or a 0 0 % 128) * get_or key 0 0 ∷ []);
  seal = λ key nonce plain. plain ++ toy_tag key;
  open_sealed = λ key nonce ct.
      if bytes_eq (drop (length ct - 16) ct) (toy_tag key)
      then some (take (length ct - 16) ct)
      else none;
}

tagged : (plain tag : List ℕ) → length tag ≡ 16 → length (plain ++ tag) - 16 ≡ length plain
tagged plain tag h = omega (arith, h, length-append plain tag)

commutes : (a b : ℕ) → a * b ≡ b * a
commutes a b = omega arith

pub toy_open-seal :
    (key nonce plain : List ℕ)
    → toy_primitives.open_sealed key nonce (toy_primitives.seal key nonce plain) ≡ some plain
toy_open-seal key nonce plain =
    let tag_length : length (toy_tag key) ≡ 16 = length-replicate 16 (get_or key 0 0) in
    let front : length plain ≡ length (plain ++ toy_tag key) - 16 =
      sym (tagged plain (toy_tag key) tag_length) in
    rw
      (
        drop-append plain (toy_tag key) front,
        take-append plain (toy_tag key) front,
        bytes_eq_refl (toy_tag key),
      )
      refl

pub toy_primitives-IsLawful : IsLawful toy_primitives
unfolding take replicate get_or
toy_primitives-IsLawful = record {
  seal_size = λ key nonce plain.
      omega (arith, length-append plain (toy_tag key), length-replicate 16 (get_or key 0 0));
  open-seal = toy_open-seal;
  x_public-IsBytes =
      λ scalar. record { size = refl; bytes = (omega arith, IsBytes.bytes (zeros-IsBytes 31)) };
  ecdh_comm = λ a b. ap (λ v. some (v ∷ [])) (commutes _ _);
  ecdh_mask = λ a key size.
      ap (λ v. some ((get_or a 0 0 % 128) * v ∷ [])) (get_or-set_ne key 31 0 _ 0 (omega arith));
  montgomery-public = λ key. refl;
}

abbrev pub draws : Draws
draws = record {
  ephemeral = some (5 ∷ []);
  nonce = some (replicate 24 3);
  noise = some 255;
  salt = some (replicate 32 9);
}

pub drawn : Drawn toy_primitives toy_primitives-IsLawful 12 draws
unfolding take clamp get_or set replicate
drawn = record {
  ephemeral = 5 ∷ [];
  nonce = replicate 24 3;
  noise = 255;
  shared = 40 ∷ [];
  ephemeral_drawn = refl;
  nonce_drawn = refl;
  noise_drawn = refl;
  agreed = refl;
  nonce_length = refl;
  noise-IsByte = omega arith;
}

salted : Salted toy_primitives toy_primitives-IsLawful (1 ∷ []) draws
unfolding replicate
salted = record {
  salt = replicate 32 9;
  nonce = replicate 24 3;
  salt_drawn = refl;
  nonce_drawn = refl;
  salt_length = refl;
  nonce_length = refl;
}

-- The note of the message tests without its sender.
abbrev leaflet : MessagePayload
leaflet = record note { sender_pub = replicate 32 0 }

leaflet-IsPayload : IsPayload leaflet
leaflet-IsPayload = record {
  stamped = note-IsPayload.stamped;
  sender_size = length-replicate 32 0;
  signature_size = note-IsPayload.signature_size;
  refs_count = note-IsPayload.refs_count;
  ref_sizes = note-IsPayload.ref_sizes;
}

pub named : bytes_eq (replicate 32 7) (replicate 32 0) ≡ false
unfolding bytes_eq replicate
named = refl

try_decrypt-encrypt_signed_example :
    (payload : List ℕ) × (encrypt_signed toy_primitives draws (replicate 32 12) note 7
      ≡ some payload)
    × (length payload ≡ 4096)
    × (try_decrypt toy_primitives 12 payload ≡ some (wire (signed toy 7 note)))
try_decrypt-encrypt_signed_example =
    try_decrypt-encrypt_signed toy_primitives toy_primitives-IsLawful 12 draws note 7 drawn
      note-IsPayload (omega arith) refl named

try_decrypt_channel-encrypt_channel_signed_example :
    (payload : List ℕ) × (encrypt_channel_signed toy_primitives draws (1 ∷ []) note 7
      ≡ some payload)
    × (length payload ≡ 4096)
    × (try_decrypt_channel toy_primitives (1 ∷ []) payload ≡ some (wire (signed toy 7 note)))
try_decrypt_channel-encrypt_channel_signed_example =
    try_decrypt_channel-encrypt_channel_signed toy_primitives toy_primitives-IsLawful (1 ∷ []) draws
      note 7 salted note-IsPayload (omega arith) refl named

-- The payload that the signed note was made into.
abbrev pub parcel : List ℕ
parcel =
    (try_decrypt-encrypt_signed toy_primitives toy_primitives-IsLawful 12 draws note 7 drawn
      note-IsPayload (omega arith) refl named).0

try_decrypt-IsAuthentic_example :
    (shared plain : List ℕ) × (toy_primitives.ecdh
        (ed_priv_to_x25519 toy_primitives 12)
        (slice 0 pub_key_size parcel)
      ≡ some shared)
    × (toy_primitives.open_sealed shared
          (slice pub_key_size ciphertext_offset parcel)
          (drop ciphertext_offset parcel)
        ≡ some plain)
    × IsAuthentic toy_primitives (take 4024 plain) (wire (signed toy 7 note))
try_decrypt-IsAuthentic_example =
    try_decrypt-IsAuthentic toy_primitives 12 parcel (wire (signed toy 7 note)) (
      (try_decrypt-encrypt_signed toy_primitives toy_primitives-IsLawful 12 draws note 7 drawn
        note-IsPayload (omega arith) refl named).3)
