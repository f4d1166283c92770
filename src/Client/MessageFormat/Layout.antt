-- ===== src/Client/MessageFormat/Layout.antt =====
-- What `EncodePayload` writes, field by field.
use sneakernet.Prelude.{
  ℕ, ◌-◌, ◌%◌, ◌^◌, ◌≤◌, ◌≡◌, refl, ap, ◌∙◌, false, List, [], ◌∷◌, ◌++◌, arith, ltb,
  length-replicate, length, length-append, All, set, copy_at, append_assoc, replicate,
}
use sneakernet.Integers.{IsI64, to_u64}
use sneakernet.Bytes.{put_le, length-put_le}
use sneakernet.Client.MessageFormat.{
  MessagePayload, ok, plaintext_size, v3_max_content, magic_v3, put_refs, encode_payload,
}
use sneakernet.Client.MessageFormat.Fields.{
  cat, length-cat, total, total-append, total-snoc, fill, set-copy_at, IsRef, total_refs,
  put_refs_fill,
}

-- The wire fields have the sizes and the ranges of their types.
pub record IsPayload (p : MessagePayload) : Type 0 where
  pub stamped : IsI64 p.timestamp
  pub sender_size : length p.sender_pub ≡ 32
  pub signature_size : length p.signature ≡ 64
  pub refs_count : length p.thread_refs ≡ 8
  pub ref_sizes : All IsRef p.thread_refs

-- A payload as the wire carries it, without the fields that the client adds.
abbrev pub wire : MessagePayload → MessagePayload
wire p = record {
  msg_type = p.msg_type;
  flags = p.flags;
  timestamp = p.timestamp;
  sender_pub = p.sender_pub;
  signature = p.signature;
  thread_refs = p.thread_refs;
  content = p.content;
  channel = [];
  sent_to = [];
  decrypted_by = [];
}

module _ (p : MessagePayload) where
  abbrev pub time : List ℕ
  time = put_le 8 (to_u64 p.timestamp)

  abbrev pub size_field : List ℕ
  size_field = put_le 2 (length p.content % 2 ^ 16)

  -- The fields in front of the references.
  abbrev pub head : List (List ℕ)
  head = magic_v3 ∷ (p.msg_type ∷ []) ∷ (p.flags ∷ []) ∷ time ∷ p.sender_pub ∷ p.signature ∷ []

  abbrev pub tail : List (List ℕ)
  tail = size_field ∷ p.content ∷ []

  abbrev pub padding : List ℕ
  padding = replicate (v3_max_content - length p.content) 0

  abbrev pub whole : List ℕ
  whole = cat (head ++ (p.thread_refs ++ tail)) ++ padding

module _ (p : MessagePayload) (h : IsPayload p) (fits : length p.content ≤ v3_max_content) where
  pub time_size : length (time p) ≡ 8
  time_size = length-put_le 8 (to_u64 p.timestamp)

  pub head_size : total (head p) ≡ 110
  head_size = omega (arith, time_size, h.sender_size, h.signature_size)

  pub refs_size : total ((head p) ++ p.thread_refs) ≡ 366
  refs_size = omega (
    arith,
    head_size,
    total_refs p.thread_refs h.ref_sizes,
    total-append (head p) p.thread_refs,
    h.refs_count,
  )

  -- The buffer in front of the references.
  head_written :
      (let buf = replicate plaintext_size 0 in
        let buf = copy_at 0 buf magic_v3 in
        let buf = set buf 4 p.msg_type in
        let buf = set buf 5 p.flags in
        let buf = copy_at 6 buf (time p) in
        let buf = copy_at 14 buf p.sender_pub in copy_at 46 buf p.signature)
      ≡ cat (head p) ++ replicate 3914 0
  head_written =
      let magic = fill [] 0 refl magic_v3 4024 4020 refl in
      let ty = fill (magic_v3 ∷ []) 4 refl (p.msg_type ∷ []) 4020 4019 refl in
      let fl = fill (magic_v3 ∷ (p.msg_type ∷ []) ∷ []) 5 refl (p.flags ∷ []) 4019 4018 refl in
      let ti =
        fill (magic_v3 ∷ (p.msg_type ∷ []) ∷ (p.flags ∷ []) ∷ []) 6 refl (time p) 4018 4010
          (omega (arith, time_size)) in
      let se =
        fill (magic_v3 ∷ (p.msg_type ∷ []) ∷ (p.flags ∷ []) ∷ (time p) ∷ []) 14
          (omega (arith, time_size)) p.sender_pub 4010 3978 (omega (arith, h.sender_size)) in
      let si =
        fill (magic_v3 ∷ (p.msg_type ∷ []) ∷ (p.flags ∷ []) ∷ (time p) ∷ p.sender_pub ∷ []) 46
          (omega (arith, time_size, h.sender_size)) p.signature 3978 3914
          (omega (arith, h.signature_size)) in
      let step : (a b : List ℕ) (i : ℕ) (f : List ℕ) → a ≡ b → copy_at i a f ≡ copy_at i b f =
        λ a b i f e. ap (λ t. copy_at i t f) e in
      let upto5 =
        set-copy_at _ 5 p.flags
        ∙ step _ _ 5 (p.flags ∷ [])
            (set-copy_at _ 4 p.msg_type ∙ step _ _ 4 (p.msg_type ∷ []) magic ∙ ty)
        ∙ fl in
      step _ _ 46 p.signature (step _ _ 14 p.sender_pub (step _ _ 6 (time p) upto5 ∙ ti) ∙ se) ∙ si

  -- The encoded buffer, field by field.
  pub encode_payload-cat : encode_payload p ≡ ok (whole p)
  unfolding encode_payload
  encode_payload-cat =
      let small : ltb v3_max_content (length p.content) ≡ false = ground arith in
      let refs =
        put_refs_fill p.thread_refs (head p) 110 3914 3658 head_size h.ref_sizes
          (omega (arith, h.refs_count)) in
      let size =
        fill ((head p) ++ p.thread_refs) 366 refs_size (size_field p) 3658 3656
          (omega (arith, length-put_le 2 (length p.content % 2 ^ 16))) in
      let body =
        fill (((head p) ++ p.thread_refs) ++ (size_field p) ∷ []) 368
          (omega (
            arith,
            total-snoc ((head p) ++ p.thread_refs) (size_field p),
            refs_size,
            length-put_le 2 (length p.content % 2 ^ 16),
          ))
          p.content 3656 (v3_max_content - length p.content) (omega arith) in
      let nested : (((head p) ++ p.thread_refs) ++ (size_field p) ∷ []) ++ p.content ∷ []
          ≡ (head p) ++ (p.thread_refs ++ (tail p)) =
        append_assoc ((head p) ++ p.thread_refs) ((size_field p) ∷ []) (p.content ∷ [])
        ∙ append_assoc (head p) p.thread_refs (tail p) in
      rw (small) (
        ap ok (
          ap
            (λ b. copy_at 368 (copy_at 366 (put_refs b 110 p.thread_refs) (size_field p)) p.content)
            head_written
          ∙ ap (λ b. copy_at 368 (copy_at 366 b (size_field p)) p.content) refs
          ∙ ap (λ b. copy_at 368 b p.content) size
          ∙ body
          ∙ ap (λ fs. cat fs ++ (padding p)) nested))

  pub whole_size : length (whole p) ≡ plaintext_size
  whole_size = omega (
    arith,
    length-append (cat ((head p) ++ (p.thread_refs ++ (tail p)))) (padding p),
    length-cat ((head p) ++ (p.thread_refs ++ (tail p))),
    total-append (head p) (p.thread_refs ++ (tail p)),
    total-append p.thread_refs (tail p),
    head_size,
    total_refs p.thread_refs h.ref_sizes,
    h.refs_count,
    length-put_le 2 (length p.content % 2 ^ 16),
    length-replicate {A = ℕ} (v3_max_content - length p.content) 0,
  )
