-- ===== src/Client/MessageFormat/RoundTrip.antt =====
-- `DecodePayload` on what `EncodePayload` wrote.
use sneakernet.Prelude.{
  ℕ, ◌+◌, ◌%◌, ◌^◌, ◌≤◌, ◌<◌, ◌≡◌, refl, sym, ap, ◌∙◌, false, List, [], ◌∷◌, ◌++◌, arith, ltb, ◌⊎◌,
  inl, inr, Bool-cases, ltb→lt, bytes_eq_congr, length, get_or, slice, append_assoc,
}
use sneakernet.Integers.{to_u64, from_u64, to_u64-lt, from_u64-to_u64}
use sneakernet.Bytes.{get_le, length-put_le, get_le-put_le}
use sneakernet.Client.MessageFormat.{
  MessagePayload, ok, content_too_large, plaintext_size, v3_max_content, magic_v3, get_refs,
  encode_payload, decode_payload, thread_count,
}
use sneakernet.Client.MessageFormat.Fields.{cat, total-snoc, field, get_refs-cat}
use sneakernet.Client.MessageFormat.Layout.{
  IsPayload, wire, time, size_field, head, tail, padding, whole, time_size, head_size, refs_size,
  encode_payload-cat, whole_size,
}

module _ (p : MessagePayload) (h : IsPayload p) (fits : length p.content ≤ v3_max_content) where
  read_size : get_le (slice 366 368 (whole p)) ≡ length p.content
  read_size =
      ap (λ fs. get_le (slice 366 368 (cat fs ++ (padding p))))
        (sym (append_assoc (head p) p.thread_refs (tail p)))
      ∙ ap get_le (
          field ((head p) ++ p.thread_refs) 366 (refs_size p h fits) (size_field p) (padding p)
            (p.content ∷ []) 368 (omega (arith, length-put_le 2 (length p.content % 2 ^ 16))))
      ∙ get_le-put_le 2 (length p.content % 2 ^ 16) (omega arith)
      ∙ omega arith

  read_content : slice 368 (368 + length p.content) (whole p) ≡ p.content
  read_content =
      let nested : (head p) ++ (p.thread_refs ++ (tail p))
          ≡ (((head p) ++ p.thread_refs) ++ (size_field p) ∷ []) ++ p.content ∷ [] =
        sym (
          append_assoc ((head p) ++ p.thread_refs) ((size_field p) ∷ []) (p.content ∷ [])
          ∙ append_assoc (head p) p.thread_refs (tail p)) in
      ap (λ fs. slice 368 (368 + length p.content) (cat fs ++ (padding p))) nested
      ∙ field (((head p) ++ p.thread_refs) ++ (size_field p) ∷ []) 368
          (omega (
            arith,
            total-snoc ((head p) ++ p.thread_refs) (size_field p),
            (refs_size p h fits),
            length-put_le 2 (length p.content % 2 ^ 16),
          ))
          p.content (padding p) [] (368 + length p.content) (omega arith)

  read_time : from_u64 (get_le (slice 6 14 (whole p))) ≡ p.timestamp
  read_time =
      ap (λ b. from_u64 (get_le b))
        (field (magic_v3 ∷ (p.msg_type ∷ []) ∷ (p.flags ∷ []) ∷ []) 6 refl (time p) (padding p)
          (p.sender_pub ∷ p.signature ∷ (p.thread_refs ++ (tail p))) 14
          (omega (arith, (time_size p h fits))))
      ∙ ap from_u64 (get_le-put_le 8 (to_u64 p.timestamp) (omega (arith, to_u64-lt p.timestamp)))
      ∙ from_u64-to_u64 p.timestamp h.stamped

  pub read_sender : slice 14 46 (whole p) ≡ p.sender_pub
  read_sender =
      field (magic_v3 ∷ (p.msg_type ∷ []) ∷ (p.flags ∷ []) ∷ (time p) ∷ []) 14
        (omega (arith, (time_size p h fits))) p.sender_pub (padding p)
        (p.signature ∷ (p.thread_refs ++ (tail p))) 46 (omega (arith, h.sender_size))

  read_signature : slice 46 110 (whole p) ≡ p.signature
  read_signature =
      field (magic_v3 ∷ (p.msg_type ∷ []) ∷ (p.flags ∷ []) ∷ (time p) ∷ p.sender_pub ∷ []) 46
        (omega (arith, (time_size p h fits), h.sender_size)) p.signature (padding p)
        (p.thread_refs ++ (tail p)) 110 (omega (arith, h.signature_size))

  read_refs : get_refs (whole p) 110 thread_count ≡ p.thread_refs
  read_refs =
      ap (get_refs (whole p) 110) (sym h.refs_count)
      ∙ get_refs-cat p.thread_refs (head p) (tail p) (padding p) 110 (head_size p h fits)
          h.ref_sizes

  pub decode_payload-whole : decode_payload (whole p) ≡ ok (wire p)
  unfolding decode_payload get_or
  decode_payload-whole =
      let magic : slice 0 4 (whole p) ≡ magic_v3 =
        field [] 0 refl magic_v3 (padding p)
          ((p.msg_type ∷ [])
            ∷ (p.flags ∷ [])
            ∷ (time p)
            ∷ p.sender_pub
            ∷ p.signature
            ∷ (p.thread_refs ++ (tail p)))
          4 refl in
      let small : ltb v3_max_content (length p.content) ≡ false = ground arith in
      rw (
        read_size,
        read_time,
        read_sender,
        read_signature,
        read_refs,
        read_content,
        bytes_eq_congr _ _ magic,
        small,
      )

-- For a payload whose fields have the sizes of their types: encoding it fails with the error for
-- too large a content when the content is longer than the limit, and otherwise returns a buffer of
-- the size of the plaintext that decodes to the payload, less the fields that the wire does not
-- carry.
pub decode_payload-encode_payload :
    (p : MessagePayload)
    → IsPayload p
    → (v3_max_content < length p.content) × (encode_payload p ≡ content_too_large)
      ⊎ (length p.content ≤ v3_max_content)
        × (plain : List ℕ) × (encode_payload p ≡ ok plain)
        × (length plain ≡ plaintext_size)
        × (decode_payload plain ≡ ok (wire p))
decode_payload-encode_payload p h = elim (Bool-cases (ltb v3_max_content (length p.content))) [
  | inl big ↦ inl (ltb→lt _ _ big, unfold encode_payload in rw big)
  | inr small ↦
      let fits : length p.content ≤ v3_max_content = ground arith in
      inr (
        fits,
        whole p,
        encode_payload-cat p h fits,
        whole_size p h fits,
        decode_payload-whole p h fits,
      )
]
