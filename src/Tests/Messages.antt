-- ===== src/Tests/Messages.antt =====
-- Runs of the message format.
use sneakernet.Prelude.{
  ℕ, ◌≡◌, ◌∙◌, length-append, ◌≤◌, ◌<◌, refl, true, List, [], ◌∷◌, ◌++◌, ◌⊎◌, arith, length,
  length-replicate, take, drop, slice, replicate, bytes_eq, bytes_eq_refl,
}
use sneakernet.Integers.{negsuc}
use sneakernet.Client.MessageFormat.{
  Ed25519, MessagePayload, ok, content_too_large, v3_max_content, plaintext_size, encode_payload,
  decode_payload, sign_payload, verify_signature,
}
use sneakernet.Client.MessageFormat.Layout.{IsPayload, wire}
use sneakernet.Client.MessageFormat.RoundTrip.{decode_payload-encode_payload}
use sneakernet.Client.MessageFormat.Signature.{verify_signature-sign_payload}
use sneakernet.Client.MessageFormat.Threads.{reply_refs, zero_ref, reply_refs-take}

abbrev pub note : MessagePayload
note = record {
  msg_type = 3;
  flags = 0;
  timestamp = negsuc 9;
  sender_pub = replicate 32 7;
  signature = replicate 64 1;
  thread_refs = replicate 8 (replicate 32 2);
  content = b'h' ∷ b'i' ∷ [];
  channel = b'c' ∷ [];
  sent_to = [];
  decrypted_by = [];
}

pub note-IsPayload : IsPayload note
unfolding replicate
note-IsPayload = record {
  stamped = omega arith;
  sender_size = refl;
  signature_size = refl;
  refs_count = refl;
  ref_sizes = (refl, (refl, (refl, (refl, (refl, (refl, (refl, (refl, tt))))))));
}

decode_payload-encode_payload_example :
    (v3_max_content < length note.content) × (encode_payload note ≡ content_too_large)
    ⊎ (length note.content ≤ v3_max_content)
      × (plain : List ℕ) × (encode_payload note ≡ ok plain)
      × (length plain ≡ plaintext_size)
      × (decode_payload plain ≡ ok (wire note))
decode_payload-encode_payload_example = decode_payload-encode_payload note note-IsPayload

-- A stand-in for Ed25519: the signature is 64 bytes of the key, and verifying compares it.
abbrev pub toy : Ed25519
toy = record {
  PrivateKey = ℕ;
  public = λ k. replicate 32 k;
  sign = λ k m. replicate 32 k ++ replicate 32 k;
  verify = λ pub_key m sig. bytes_eq sig (pub_key ++ pub_key);
  sign_size =
      λ k m. length-append (replicate 32 k) (replicate 32 k) ∙ omega (arith, length-replicate 32 k);
  verify-sign = λ k m. bytes_eq_refl (replicate 32 k ++ replicate 32 k);
}

abbrev plain : List ℕ
plain = replicate 14 0 ++ (replicate 32 6 ++ replicate 3978 1)

plain_size : length plain ≡ plaintext_size
unfolding replicate
plain_size = refl

plain_sender : slice 14 46 plain ≡ replicate 32 6
unfolding replicate slice take drop
plain_sender = refl

verify_signature-sign_payload_example : verify_signature toy (sign_payload toy plain 6) ≡ true
verify_signature-sign_payload_example =
    verify_signature-sign_payload toy plain 6 plain_size plain_sender
      (unfold replicate bytes_eq in refl)

reply_refs-take_example :
    reply_refs (replicate 32 1 ∷ replicate 32 2 ∷ [])
    ≡ take 8 ((replicate 32 1 ∷ replicate 32 2 ∷ []) ++ replicate 8 zero_ref)
reply_refs-take_example = reply_refs-take (replicate 32 1 ∷ replicate 32 2 ∷ [])
