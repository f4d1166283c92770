-- ===== src/Client/MessageFormat/Signed.antt =====
-- `SignPayload` on what `EncodePayload` wrote: the encoding of the payload with the new signature.
use sneakernet.Prelude.{
  ℕ, ◌≤◌, ◌≡◌, sym, ap, ◌∙◌, true, false, List, [], ◌∷◌, ◌++◌, arith, length, bytes_eq, copy_at,
  copy_at-append, append_assoc, length-replicate, replicate,
}
use sneakernet.Client.MessageFormat.{
  Ed25519, MessagePayload, v3_max_content, magic_v3, clear, sign_payload, verify_signature,
}
use sneakernet.Client.MessageFormat.Fields.{cat, cat-append, length-cat}
use sneakernet.Client.MessageFormat.Layout.{
  IsPayload, time, tail, padding, whole, time_size, whole_size,
}
use sneakernet.Client.MessageFormat.RoundTrip.{read_sender}
use sneakernet.Client.MessageFormat.Signature.{clear-append, verify_signature-sign_payload}

module _ (p : MessagePayload) where
  abbrev before : List (List ℕ)
  before = magic_v3 ∷ (p.msg_type ∷ []) ∷ (p.flags ∷ []) ∷ time p ∷ p.sender_pub ∷ []

  abbrev behind : List ℕ
  behind = cat (p.thread_refs ++ tail p) ++ padding p

  whole_parts : whole p ≡ cat before ++ (p.signature ++ behind)
  whole_parts =
      ap (λ t. t ++ padding p) (cat-append before (p.signature ∷ (p.thread_refs ++ tail p)))
      ∙ append_assoc (cat before) (p.signature ++ cat (p.thread_refs ++ tail p)) (padding p)
      ∙ ap (λ t. cat before ++ t)
          (append_assoc p.signature (cat (p.thread_refs ++ tail p)) (padding p))

module _ (ed : Ed25519) (key : ed.PrivateKey) (p : MessagePayload) where
  -- The payload with the signature that `SignPayload` writes.
  abbrev pub signed : MessagePayload
  signed = record p { signature = ed.sign key (clear (whole p) 46 64) }

  module _ (h : IsPayload p) (fits : length p.content ≤ v3_max_content) where
    pub signed-IsPayload : IsPayload signed
    signed-IsPayload = record {
      stamped = h.stamped;
      sender_size = h.sender_size;
      signature_size = ed.sign_size key (clear (whole p) 46 64);
      refs_count = h.refs_count;
      ref_sizes = h.ref_sizes;
    }

    before_size : length (cat (before p)) ≡ 46
    before_size = omega (arith, length-cat (before p), time_size p h fits, h.sender_size)

    pub sign_payload-whole : sign_payload ed (whole p) key ≡ whole signed
    unfolding sign_payload
    sign_payload-whole =
        let sig = ed.sign key (clear (whole p) 46 64) in
        let cleared =
          ap (λ t. clear t 46 64) (whole_parts p)
          ∙ clear-append (cat (before p)) p.signature (behind p) 46 64 before_size
              h.signature_size in
        ap (λ t. copy_at 46 t sig) cleared
        ∙ copy_at-append (cat (before p)) (replicate 64 0) sig (behind p) 46 before_size
            (length-replicate {A = ℕ} 64 0 ∙ sym (ed.sign_size key (clear (whole p) 46 64)))
        ∙ sym (whole_parts signed)

    pub verify_signature-whole :
        p.sender_pub ≡ ed.public key
        → bytes_eq (ed.public key) (replicate 32 0) ≡ false
        → verify_signature ed (whole signed) ≡ true
    verify_signature-whole sender named =
        ap (verify_signature ed) (sym sign_payload-whole)
        ∙ verify_signature-sign_payload ed (whole p) key (whole_size p h fits)
            (read_sender p h fits ∙ sender) named
