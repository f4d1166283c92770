-- ===== src/Bluetooth/Frames.antt =====
-- A frame that is written is read back.
use sneakernet.Prelude.{
  ℕ, ◌%◌, ◌^◌, ◌≤◌, ◌≡◌, refl, sym, ap, ◌∙◌, true, false, some, List, [], ◌∷◌, ◌++◌, arith, inl,
  inr, Bool-cases, ltb, leb, le→leb, ◌==◌, length, length-append, get_or, set, drop, take-append,
  drop-append, copy_at, copy_at_fill, append-nil, append_assoc, replicate,
}
use sneakernet.Bytes.{put_be, get_be, length-put_be, get_be-put_be}
use sneakernet.Bluetooth.{max_frame_len, write_frame, read_full, read_body, read_frame}

read_full-append : (xs ys : List ℕ) (n : ℕ) → length xs ≡ n → read_full n (xs ++ ys) ≡ some (xs, ys)
unfolding read_full
read_full-append xs ys n h =
    let fits : leb n (length (xs ++ ys)) ≡ true = le→leb _ _ (omega (arith, length-append xs ys)) in
    rw (fits, take-append xs ys h, drop-append xs ys h)

abbrev header : ℕ → List ℕ → List ℕ
header ftype body = ftype ∷ put_be 4 (length body % 2 ^ 32)

write_frame-append :
    (ftype : ℕ) (body : List ℕ) → write_frame ftype body ≡ header ftype body ++ body
unfolding write_frame set replicate
write_frame-append ftype body =
    let size : length (put_be 4 (length body % 2 ^ 32)) ≡ 4 = length-put_be 4 _ in
    let filled : copy_at 1 (ftype ∷ replicate 4 0) (put_be 4 (length body % 2 ^ 32))
        ≡ header ftype body =
      copy_at_fill (ftype ∷ []) (put_be 4 (length body % 2 ^ 32)) 0 4 0 1 refl (omega (arith, size))
      ∙ append-nil _ in
    elim (Bool-cases (ltb 0 (length body))) [
      | inl e ↦ rw e (ap (λ t. t ++ body) filled)
      | inr e ↦ rw e (
          filled
          ∙ sym (ap (λ t. header ftype body ++ t) (empty_of body (ground arith)) ∙ append-nil _))
    ]
  where
    empty_of : (xs : List ℕ) → length xs ≡ 0 → xs ≡ []
    empty_of [] h = refl
    empty_of (x ∷ xs) h = absurd (omega arith)

read_body-append :
    (ftype : ℕ) (body rest : List ℕ)
    → length body ≤ max_frame_len
    → read_body ftype (length body) (body ++ rest)
      ≡ some (record { ftype = ftype; body = body; rest = rest })
read_body-append ftype [] rest small = refl
read_body-append ftype (c ∷ body) rest small =
    let fits : ltb max_frame_len (length (c ∷ body)) ≡ false = ground arith in
    let some_bytes : (length (c ∷ body) == 0) ≡ false = ground arith in
    rw (fits, some_bytes, read_full-append (c ∷ body) rest (length (c ∷ body)) refl)

-- Reading a stream that starts with a written frame of at most the maximal size gives the frame back,
-- and the stream behind it.
pub read_frame-write_frame :
    (ftype : ℕ) (body rest : List ℕ)
    → length body ≤ max_frame_len
    → read_frame (write_frame ftype body ++ rest)
      ≡ some (record { ftype = ftype; body = body; rest = rest })
unfolding read_frame get_or drop
read_frame-write_frame ftype body rest small =
    let size : length (header ftype body) ≡ 5 =
      omega (arith, length-put_be 4 (length body % 2 ^ 32)) in
    let read : get_be (put_be 4 (length body % 2 ^ 32)) ≡ length body =
      get_be-put_be 4 (length body % 2 ^ 32) (omega arith) ∙ omega arith in
    rw
      (
        write_frame-append ftype body,
        append_assoc (header ftype body) body rest,
        read_full-append (header ftype body) (body ++ rest) 5 size,
        read,
      )
      (read_body-append ftype body rest small)
