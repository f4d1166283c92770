-- ===== src/Client/MessageFormat.antt =====
-- client/message_format.go: the plaintext of a message, its signature and its thread references.
pub mod Fields
pub mod Layout
pub mod RoundTrip
pub mod Signature
pub mod Signed
pub mod Threads
use sneakernet.Prelude.{
  ℕ, zero, suc, ◌+◌, ◌-◌, ◌^◌, ◌%◌, ◌≡◌, Bool, true, false, List, [], ◌∷◌, ltb, bytes_eq,
  if◌then◌else◌, length, get_or, set, take, slice, copy_at, copy, replicate,
}
use sneakernet.Integers.{ℤ, to_u64, from_u64}
use sneakernet.Bytes.{put_le, get_le, IsBytes}

-- `blockstore.PayloadSize` less the ephemeral key, the nonce and the authentication tag.
abbrev pub plaintext_size : ℕ
plaintext_size = 4024

abbrev pub thread_count : ℕ
thread_count = 8

abbrev pub v3_header_size : ℕ
v3_header_size = 368

abbrev pub v3_max_content : ℕ
v3_max_content = plaintext_size - v3_header_size

abbrev pub magic_v3 : List ℕ
magic_v3 = b'S' ∷ b'N' ∷ b'K' ∷ 3 ∷ []

pub record MessagePayload : Type 0 where
  pub msg_type : ℕ
  pub flags : ℕ
  pub timestamp : ℤ
  pub sender_pub : List ℕ
  pub signature : List ℕ
  pub thread_refs : List (List ℕ)
  pub content : List ℕ
  pub channel : List ℕ
  pub sent_to : List ℕ
  pub decrypted_by : List ℕ

-- `IsAnonymous`: the sender is the zero key.
abbrev pub is_anonymous : MessagePayload → Bool
is_anonymous p = bytes_eq p.sender_pub (replicate 32 0)

pub data Result : Type 0 → Type 1 where
  ok : {A : Type 0} → A → Result A
  not_v3 malformed content_too_large : {A : Type 0} → Result A

-- The loop that writes the references, from the offset on.
unfoldable pub put_refs : List ℕ → ℕ → List (List ℕ) → List ℕ
put_refs buf off [] = buf
put_refs buf off (ref ∷ refs) = put_refs (copy_at off buf ref) (off + 32) refs

unfoldable pub encode_payload : MessagePayload → Result (List ℕ)
encode_payload p =
    if ltb v3_max_content (length p.content)
    then content_too_large
    else (let buf = replicate plaintext_size 0 in
        let buf = copy_at 0 buf magic_v3 in
        let buf = set buf 4 p.msg_type in
        let buf = set buf 5 p.flags in
        let buf = copy_at 6 buf (put_le 8 (to_u64 p.timestamp)) in
        let buf = copy_at 14 buf p.sender_pub in
        let buf = copy_at 46 buf p.signature in
        let buf = put_refs buf 110 p.thread_refs in
        let buf = copy_at 366 buf (put_le 2 (length p.content % 2 ^ 16)) in
        let buf = copy_at 368 buf p.content in ok buf)

-- The loop that reads `n` references.
unfoldable pub get_refs : List ℕ → ℕ → ℕ → List (List ℕ)
get_refs plain off zero = []
get_refs plain off (suc n) = slice off (off + 32) plain ∷ get_refs plain (off + 32) n

unfoldable pub decode_payload : List ℕ → Result MessagePayload
decode_payload plain =
    let content_len = get_le (slice 366 368 plain) in
    if bytes_eq (slice 0 4 plain) magic_v3
    then (if ltb v3_max_content content_len
        then malformed
        else ok (record {
          msg_type = get_or plain 4 0;
          flags = get_or plain 5 0;
          timestamp = from_u64 (get_le (slice 6 14 plain));
          sender_pub = slice 14 46 plain;
          signature = slice 46 110 plain;
          thread_refs = get_refs plain 110 thread_count;
          content = slice 368 (368 + content_len) plain;
          channel = [];
          sent_to = [];
          decrypted_by = [];
        }))
    else not_v3

-- crypto/ed25519: a signature verifies under the key that belongs to the signing key.
pub record Ed25519 : Type 1 where
  pub PrivateKey : Type 0
  pub public : PrivateKey → List ℕ
  pub sign : PrivateKey → List ℕ → List ℕ
  pub verify : List ℕ → List ℕ → List ℕ → Bool
  pub sign_size : (k : PrivateKey) (m : List ℕ) → length (sign k m) ≡ 64
  pub verify-sign : (k : PrivateKey) (m : List ℕ) → verify (public k) m (sign k m) ≡ true

-- The loop that zeroes `n` bytes from `i` on.
unfoldable pub clear : List ℕ → ℕ → ℕ → List ℕ
clear plain i zero = plain
clear plain i (suc n) = clear (set plain i 0) (suc i) n

module _ (ed : Ed25519) where
  unfoldable pub sign_payload : List ℕ → ed.PrivateKey → List ℕ
  unfolding clear
  sign_payload plain sig_key =
      let plain = clear plain 46 64 in copy_at 46 plain (ed.sign sig_key plain)

  unfoldable pub verify_signature : List ℕ → Bool
  verify_signature plain =
      if bytes_eq (slice 14 46 plain) (replicate 32 0)
      then false
      else (let sig = slice 46 110 plain in
          let plain = clear plain 46 64 in ed.verify (slice 14 46 plain) plain sig)

-- The new reference in front of all but the last of the old ones.
unfoldable pub build_thread_refs : List ℕ → List (List ℕ) → List (List ℕ)
build_thread_refs target prev_refs = target ∷ take (thread_count - 1) prev_refs
