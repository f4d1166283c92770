-- ===== src/Blockstore/Index/Format.antt =====
-- `OpenIndex` on what `encodeIndex` wrote.
use sneakernet.Prelude.{
  ℕ, zero, suc, ◌+◌, ◌-◌, ◌*◌, ◌%◌, ◌^◌, ◌≤◌, ◌<◌, ◌≡◌, refl, sym, ap, ◌∙◌, false, some, List, [],
  ◌∷◌, ◌++◌, append-nil, append_assoc, arith, ltb, bytes_eq_congr, length, length-append, get_or,
  set, take, drop, slice, copy_at, All, drop-append, slice-append, slice_field,
}
use sneakernet.Bytes.{put_be, get_be, length-put_be, get_be-put_be}
use sneakernet.Client.MessageFormat.Fields.{
  cat, total, cat-append, total-append, length-cat, fill, field, set-copy_at, ended,
}
use sneakernet.Blockstore.Index.{
  IndexRecord, index_magic, encode_record, encode_records, encode_header, parse_records,
  parse_index, Zlib, encode_index, open_index,
}

-- The fields have the sizes and the ranges of their types.
pub record IsRecord (r : IndexRecord) : Type 0 where
  pub id_length : length r.id ≡ 32
  pub expires_u32 : r.expires_at < 2 ^ 32

-- The fields of the records, one behind the other.
abbrev fields : List IndexRecord → List (List ℕ)
fields [] = []
fields (r ∷ records) =
    r.id ∷ (r.work_factor ∷ []) ∷ put_be 4 r.expires_at ∷ (0 ∷ []) ∷ fields records

encode_record-cat : (r : IndexRecord) → IsRecord r → encode_record r ≡ cat (fields (r ∷ []))
unfolding encode_record
encode_record-cat r h =
    let wf = r.work_factor ∷ [] in
    let time = put_be 4 r.expires_at in
    let size = length-put_be 4 r.expires_at in
    ap (λ t. set (copy_at 33 (set t 32 r.work_factor) time) 37 0)
      (fill [] 0 refl r.id 38 6 (omega (arith, h.id_length)))
    ∙ ap (λ t. set (copy_at 33 t time) 37 0)
        (set-copy_at _ 32 r.work_factor
          ∙ fill (r.id ∷ []) 32 (omega (arith, h.id_length)) wf 6 5 refl)
    ∙ ap (λ t. set t 37 0)
        (fill (r.id ∷ wf ∷ []) 33 (omega (arith, h.id_length)) time 5 1 (omega (arith, size)))
    ∙ set-copy_at _ 37 0
    ∙ fill (r.id ∷ wf ∷ time ∷ []) 37 (omega (arith, h.id_length, size)) (0 ∷ []) 1 0 refl
    ∙ ended (cat (fields (r ∷ [])))

encode_records-cat : (rs : List IndexRecord) → All IsRecord rs → encode_records rs ≡ cat (fields rs)
encode_records-cat [] h = refl
encode_records-cat (r ∷ rs) h =
    ap (λ t. t ++ encode_records rs) (encode_record-cat r h.0)
    ∙ ap (λ t. cat (fields (r ∷ [])) ++ t) (encode_records-cat rs h.1)
    ∙ sym (cat-append (fields (r ∷ [])) (fields rs))

-- The field behind two lists of fields.
piece :
    (fs gs post : List (List ℕ)) (f rest : List ℕ) (i j : ℕ)
    → total fs + total gs ≡ i
    → length f + i ≡ j
    → slice i j (cat (fs ++ (gs ++ f ∷ post)) ++ rest) ≡ f
piece fs gs post f rest i j start size =
    ap (λ t. slice i j (cat t ++ rest)) (sym (append_assoc fs gs (f ∷ post)))
    ∙ field (fs ++ gs) i (omega (arith, start, total-append fs gs)) f rest post j size

get_or-drop : (b : List ℕ) (i : ℕ) → get_or b i 0 ≡ get_or (take 1 (drop i b)) 0 0
unfolding get_or take drop
get_or-drop [] zero = refl
get_or-drop [] (suc i) = refl
get_or-drop (x ∷ b) zero = refl
get_or-drop (x ∷ b) (suc i) = get_or-drop b i

get_or-slice : (b : List ℕ) (i v : ℕ) → slice i (i + 1) b ≡ v ∷ [] → get_or b i 0 ≡ v
unfolding slice get_or
get_or-slice b i v h =
    get_or-drop b i
    ∙ ap (λ n. get_or (take n (drop i b)) 0 0) (let e : 1 ≡ i + 1 - i = omega arith in e)
    ∙ ap (λ t. get_or t 0 0) h

record_size : (r : IndexRecord) → IsRecord r → total (fields (r ∷ [])) ≡ 38
record_size r h = omega (arith, h.id_length, length-put_be 4 r.expires_at)

parse_records-cat :
    (rs : List IndexRecord) (fs : List (List ℕ)) (rest : List ℕ) (off : ℕ)
    → total fs ≡ off
    → All IsRecord rs
    → parse_records (cat (fs ++ fields rs) ++ rest) off (length rs) ≡ rs
unfolding parse_records
parse_records-cat [] fs rest off start h = refl
parse_records-cat (r ∷ rs) fs rest off start h =
    let wf = r.work_factor ∷ [] in
    let time = put_be 4 r.expires_at in
    let size = length-put_be 4 r.expires_at in
    let raw = cat (fs ++ fields (r ∷ rs)) ++ rest in
    let is_id =
      piece fs [] (wf ∷ time ∷ (0 ∷ []) ∷ fields rs) r.id rest off (off + 32) (omega (arith, start))
        (omega (arith, h.0.id_length)) in
    let is_wf = get_or-slice raw (off + 32) r.work_factor (
      piece fs (r.id ∷ []) (time ∷ (0 ∷ []) ∷ fields rs) wf rest (off + 32) (off + 32 + 1)
        (omega (arith, start, h.0.id_length)) (omega arith)) in
    let is_time =
      ap get_be (
        piece fs (r.id ∷ wf ∷ []) ((0 ∷ []) ∷ fields rs) time rest (off + 32 + 1) (off + 32 + 5)
          (omega (arith, start, h.0.id_length)) (omega (arith, size)))
      ∙ get_be-put_be 4 r.expires_at h.0.expires_u32 in
    let others =
      ap (λ t. parse_records (cat t ++ rest) (off + 38) (length rs))
        (sym (append_assoc fs (fields (r ∷ [])) (fields rs)))
      ∙ parse_records-cat rs (fs ++ fields (r ∷ [])) rest (off + 38)
          (omega (arith, start, total-append fs (fields (r ∷ [])), record_size r h.0)) h.1 in
    rw (is_id, is_wf, is_time, others) refl

total-fields : (rs : List IndexRecord) → All IsRecord rs → total (fields rs) ≡ length rs * 38
total-fields [] h = refl
total-fields (r ∷ rs) h = omega (arith, total-fields rs h.1, record_size r h.0)

encode_header-fields : (count : ℕ) → encode_header count ≡ index_magic ++ put_be 4 (count % 2 ^ 32)
unfolding encode_header
encode_header-fields count =
    let number = put_be 4 (count % 2 ^ 32) in
    ap (λ t. copy_at 4 t number) (fill [] 0 refl index_magic 8 4 refl)
    ∙ fill (index_magic ∷ []) 4 refl number 4 0 (omega (arith, length-put_be 4 (count % 2 ^ 32)))
    ∙ ended _
    ∙ ap (λ t. index_magic ++ t) (append-nil number)

not_less : (a b : ℕ) → b ≤ a → ltb a b ≡ false
not_less a b h = ground arith

parse_index-fields :
    (records : List IndexRecord)
    → All IsRecord records
    → length records < 2 ^ 32
    → parse_index ((index_magic ++ put_be 4 (length records % 2 ^ 32)) ++ cat (fields records))
      ≡ some records
unfolding parse_index
parse_index-fields records h few =
    let count = length records in
    let number = put_be 4 (count % 2 ^ 32) in
    let size = length-put_be 4 (count % 2 ^ 32) in
    let body = cat (fields records) in
    let raw = (index_magic ++ number) ++ body in
    let head : length (index_magic ++ number) ≡ 8 =
      omega (arith, size, length-append index_magic number) in
    let read : get_be (slice 4 8 raw) ≡ count =
      ap get_be (slice_field index_magic number body 4 8 refl (omega (arith, size)))
      ∙ get_be-put_be 4 (count % 2 ^ 32) (omega arith)
      ∙ omega (arith, few) in
    let body_size : length body ≡ count * 38 =
      length-cat (fields records) ∙ total-fields records h in
    let magic : slice 0 4 raw ≡ index_magic = slice-append index_magic (number ++ body) 4 refl in
    rw
      (
        not_less (length raw) 8 (omega (arith, head, length-append (index_magic ++ number) body)),
        read,
        bytes_eq_congr _ _ magic,
        drop-append (index_magic ++ number) body head,
        not_less (length body) (count * 38) (omega (arith, body_size)),
        sym (append-nil body),
        parse_records-cat records [] [] 0 refl h,
      )
      refl

-- With a compression that is undone: opening the index that was encoded of fewer than 2 ^ 32 records,
-- whose IDs have 32 bytes and whose expiry times have 32 bits, gives the records in their order.
pub open_index-encode_index :
    (z : Zlib) (records : List IndexRecord)
    → ((raw : List ℕ) → z.inflate (z.deflate raw) ≡ some raw)
    → All IsRecord records
    → length records < 2 ^ 32
    → open_index z (encode_index z records) ≡ some records
unfolding open_index encode_index
open_index-encode_index z records undone h few =
    let whole : encode_header (length records) ++ encode_records records
        ≡ (index_magic ++ put_be 4 (length records % 2 ^ 32)) ++ cat (fields records) =
      ap (λ t. t ++ encode_records records) (encode_header-fields (length records))
      ∙ ap (λ t. (index_magic ++ put_be 4 (length records % 2 ^ 32)) ++ t)
          (encode_records-cat records h) in
    rw (undone (encode_header (length records) ++ encode_records records), whole)
      (parse_index-fields records h few)
