-- ===== src/Blockstore/Badger/Values.antt =====
-- The layout of the stored values, and what a read of each field returns.
use sneakernet.Prelude.{
  ℕ, ◌^◌, ◌<◌, ◌≡◌, refl, sym, ap, ◌∙◌, List, [], ◌∷◌, ◌++◌, arith, length, length-append,
  append-nil, append_assoc, take, slice, replicate, copy_at_fill, take-append, slice_field,
}
use sneakernet.Integers.{ℤ, IsI64, to_u64, from_u64, to_u64-lt, from_u64-to_u64}
use sneakernet.Bytes.{put_be, get_be, length-put_be, get_be-put_be}
use sneakernet.Blockstore.{IsStamp, IsPayload}
use sneakernet.Blockstore.Badger.{encode_block_val, wf_of, created_at_of}

module _ (stamp : List ℕ) (wf : ℕ) (t : ℤ) (tag : ℕ) (payload : List ℕ) (hs : IsStamp stamp)
    (hp : IsPayload payload) where
  -- The fields in order.
  encode_block_val-append :
      encode_block_val stamp wf t tag payload
      ≡ (((stamp ++ put_be 4 wf) ++ put_be 8 (to_u64 t)) ++ tag ∷ []) ++ payload
  unfolding encode_block_val
  encode_block_val-append =
      let f = put_be 4 wf in
      let c = put_be 8 (to_u64 t) in
      let lf : length f ≡ 4 = length-put_be 4 wf in
      let lc : length c ≡ 8 = length-put_be 8 (to_u64 t) in
      let l2 = length-append stamp f in
      let l3 = length-append (stamp ++ f) c in
      let l4 = length-append ((stamp ++ f) ++ c) (tag ∷ []) in
      rw
        (
          copy_at_fill [] stamp 0 4113 4109 0 refl (omega (arith, hs.size)),
          copy_at_fill stamp f 0 4109 4105 4 hs.size (omega arith),
          copy_at_fill (stamp ++ f) c 0 4105 4097 8 (omega (arith, hs.size)) (omega arith),
          copy_at_fill ((stamp ++ f) ++ c) (tag ∷ []) 0 4097 4096 16 (omega (arith, hs.size))
              (omega arith),
          copy_at_fill (((stamp ++ f) ++ c) ++ tag ∷ []) payload 0 4096 0 17
              (omega (arith, hs.size)) (omega (arith, hp.size)),
        )
        (unfold replicate in append-nil _)

  size : length (encode_block_val stamp wf t tag payload) ≡ 4113
  size =
      rw encode_block_val-append
        (simp (length-append, length-put_be) (omega (arith, hs.size, hp.size)))

  pub length-encode_block_val : length (encode_block_val stamp wf t tag payload) ≡ 4113
  length-encode_block_val = size

  -- The stamp and what is behind it.
  front :
      encode_block_val stamp wf t tag payload
      ≡ stamp ++ (put_be 4 wf ++ (put_be 8 (to_u64 t) ++ tag ∷ payload))
  front = encode_block_val-append ∙ simp append_assoc

  pub take-encode_block_val : take 4 (encode_block_val stamp wf t tag payload) ≡ stamp
  take-encode_block_val = rw front (take-append stamp _ hs.size)

  pub wf_of-encode_block_val : wf < 2 ^ 32 → wf_of (encode_block_val stamp wf t tag payload) ≡ wf
  wf_of-encode_block_val small = rw front (
      ap get_be (slice_field stamp (put_be 4 wf) _ 4 8 hs.size (omega (arith, length-put_be 4 wf)))
      ∙ get_be-put_be 4 wf (omega arith))

  pub created_at_of-encode_block_val :
      IsI64 t → created_at_of (encode_block_val stamp wf t tag payload) ≡ t
  created_at_of-encode_block_val small =
      let c = put_be 8 (to_u64 t) in
      let behind : encode_block_val stamp wf t tag payload
          ≡ (stamp ++ put_be 4 wf) ++ (c ++ tag ∷ payload) =
        encode_block_val-append ∙ simp append_assoc in
      rw behind (
        ap (λ b. from_u64 (get_be b))
          (slice_field (stamp ++ put_be 4 wf) c (tag ∷ payload) 8 16
            (length-append stamp (put_be 4 wf) ∙ omega (arith, hs.size, length-put_be 4 wf))
            (omega (arith, length-put_be 8 (to_u64 t))))
        ∙ ap from_u64 (get_be-put_be 8 _ (to_u64-lt t))
        ∙ from_u64-to_u64 t small)

  pub slice-encode_block_val : slice 17 4113 (encode_block_val stamp wf t tag payload) ≡ payload
  slice-encode_block_val =
      let pre = ((stamp ++ put_be 4 wf) ++ put_be 8 (to_u64 t)) ++ tag ∷ [] in
      let pre_size : length pre ≡ 17 =
        simp (length-append, length-put_be) (omega (arith, hs.size)) in
      rw encode_block_val-append (
        ap (λ p. slice 17 4113 (pre ++ p)) (sym (append-nil payload))
        ∙ slice_field pre payload [] 17 4113 pre_size (omega (arith, hp.size)))
