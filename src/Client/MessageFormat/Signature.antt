-- ===== src/Client/MessageFormat/Signature.antt =====
-- `VerifySignature` on what `SignPayload` signed.
use sneakernet.Prelude.{
  ℕ, zero, suc, ◌-◌, ◌≤◌, ◌≡◌, refl, sym, ap, ◌∙◌, true, false, List, [], ◌∷◌, ◌++◌, arith,
  bytes_eq, length, length-append, length-take, length-drop, length-replicate, set, take, drop,
  slice, copy_at, copy_at-append, slice_field, take-append, drop-append, take-append-drop,
  append_assoc, replicate,
}
use sneakernet.Client.MessageFormat.{Ed25519, plaintext_size, clear, sign_payload, verify_signature}

set-append :
    (pre : List ℕ) (o : ℕ) (rest : List ℕ) (i v : ℕ)
    → length pre ≡ i
    → set (pre ++ o ∷ rest) i v ≡ pre ++ v ∷ rest
unfolding set
set-append [] o rest zero v h = refl
set-append [] o rest (suc i) v h = absurd (omega arith)
set-append (p ∷ pre) o rest zero v h = absurd (omega arith)
set-append (p ∷ pre) o rest (suc i) v h = ap (λ t. p ∷ t) (set-append pre o rest i v (omega arith))

-- Zeroing the field that stands behind `pre`.
pub clear-append :
    (pre old rest : List ℕ) (i n : ℕ)
    → length pre ≡ i
    → length old ≡ n
    → clear (pre ++ (old ++ rest)) i n ≡ pre ++ (replicate n 0 ++ rest)
unfolding clear replicate
clear-append pre [] rest i zero hp h = refl
clear-append pre [] rest i (suc n) hp h = absurd (omega arith)
clear-append pre (o ∷ old) rest i zero hp h = absurd (omega arith)
clear-append pre (o ∷ old) rest i (suc n) hp h =
    ap (λ t. clear t (suc i) n)
      (set-append pre o (old ++ rest) i 0 hp ∙ sym (append_assoc pre (0 ∷ []) (old ++ rest)))
    ∙ clear-append (pre ++ 0 ∷ []) old rest (suc i) n (omega (arith, length-append pre (0 ∷ [])))
        (omega arith)
    ∙ append_assoc pre (0 ∷ []) (replicate n 0 ++ rest)

take_front : (n : ℕ) (xs ys : List ℕ) → n ≤ length xs → take n (xs ++ ys) ≡ take n xs
unfolding take
take_front zero xs ys h = refl
take_front (suc n) [] ys h = absurd (omega arith)
take_front (suc n) (x ∷ xs) ys h = ap (λ t. x ∷ t) (take_front n xs ys (omega arith))

drop_front : (n : ℕ) (xs ys : List ℕ) → n ≤ length xs → drop n (xs ++ ys) ≡ drop n xs ++ ys
unfolding drop
drop_front zero xs ys h = refl
drop_front (suc n) [] ys h = absurd (omega arith)
drop_front (suc n) (x ∷ xs) ys h = drop_front n xs ys (omega arith)

slice_front :
    (i j : ℕ) (xs ys : List ℕ) → i ≤ j → j ≤ length xs → slice i j (xs ++ ys) ≡ slice i j xs
unfolding slice
slice_front i j xs ys hi hj =
    ap (take (j - i)) (drop_front i xs ys (omega arith))
    ∙ take_front (j - i) (drop i xs) ys (omega (arith, length-drop i xs))

module _ (plain : List ℕ) (size : length plain ≡ plaintext_size) where
  abbrev front : List ℕ
  front = take 46 plain

  abbrev old : List ℕ
  old = take 64 (drop 46 plain)

  abbrev back : List ℕ
  back = drop 64 (drop 46 plain)

  parts : plain ≡ front ++ (old ++ back)
  parts =
      sym (ap (λ t. front ++ t) (take-append-drop 64 (drop 46 plain)) ∙ take-append-drop 46 plain)

  front_size : length front ≡ 46
  front_size = omega (arith, length-take 46 plain)

  old_size : length old ≡ 64
  old_size = omega (arith, length-take 64 (drop 46 plain), length-drop 46 plain)

  abbrev cleared : List ℕ
  cleared = front ++ (replicate 64 0 ++ back)

  clear-plain : clear plain 46 64 ≡ cleared
  clear-plain =
      ap (λ t. clear t 46 64) parts ∙ clear-append front old back 46 64 front_size old_size

  module _ (sig : List ℕ) (sig_size : length sig ≡ 64) where
    signed : copy_at 46 (clear plain 46 64) sig ≡ front ++ (sig ++ back)
    signed =
        ap (λ t. copy_at 46 t sig) clear-plain
        ∙ copy_at-append front (replicate 64 0) sig back 46 front_size
            (length-replicate {A = ℕ} 64 0 ∙ sym sig_size)

    sender_kept : (rest : List ℕ) → slice 14 46 (front ++ rest) ≡ slice 14 46 plain
    sender_kept rest =
        slice_front 14 46 front rest (omega arith) (omega (arith, front_size))
        ∙ sym (
            ap (slice 14 46) parts
            ∙ slice_front 14 46 front (old ++ back) (omega arith) (omega (arith, front_size)))

    read_sig : slice 46 110 (front ++ (sig ++ back)) ≡ sig
    read_sig = slice_field front sig back 46 110 front_size (omega arith)

    clear-signed : clear (front ++ (sig ++ back)) 46 64 ≡ cleared
    clear-signed = clear-append front sig back 46 64 front_size sig_size

drop_behind :
    (xs ys zs : List ℕ) → length xs ≡ 46 → length ys ≡ 64 → drop 110 (xs ++ (ys ++ zs)) ≡ zs
drop_behind xs ys zs hx hy =
    ap (drop 110) (sym (append_assoc xs ys zs))
    ∙ drop-append (xs ++ ys) zs (omega (arith, length-append xs ys))

module _ (ed : Ed25519) where
  -- A plaintext of the right size that names a signer other than the zero key verifies after that
  -- signer has signed it.
  pub verify_signature-sign_payload :
      (plain : List ℕ) (key : ed.PrivateKey)
      → length plain ≡ plaintext_size
      → slice 14 46 plain ≡ ed.public key
      → bytes_eq (ed.public key) (replicate 32 0) ≡ false
      → verify_signature ed (sign_payload ed plain key) ≡ true
  unfolding verify_signature sign_payload
  verify_signature-sign_payload plain key size sender named =
      let sig = ed.sign key (clear plain 46 64) in
      let sig_size = ed.sign_size key (clear plain 46 64) in
      let front = take 46 plain in
      let back = drop 64 (drop 46 plain) in
      let checks : ed.verify (ed.public key) (clear plain 46 64) sig ≡ true =
        ed.verify-sign key (clear plain 46 64) in
      rw
        (
          signed plain size sig sig_size,
          sender_kept plain size sig sig_size (sig ++ back),
          sender,
          named,
          read_sig plain size sig sig_size,
          clear-signed plain size sig sig_size,
          sender_kept plain size sig sig_size (replicate 64 0 ++ back),
          sender,
          sym (clear-plain plain size),
        )
        checks

  -- Signing a plaintext of the right size changes nothing outside the signature field, the bytes 46
  -- to 109.
  pub sign_payload_keeps :
      (plain : List ℕ) (key : ed.PrivateKey)
      → length plain ≡ plaintext_size
      → (take 46 (sign_payload ed plain key) ≡ take 46 plain)
        × (drop 110 (sign_payload ed plain key) ≡ drop 110 plain)
        × (length (sign_payload ed plain key) ≡ plaintext_size)
  unfolding sign_payload
  sign_payload_keeps plain key size =
      let sig = ed.sign key (clear plain 46 64) in
      let sig_size = ed.sign_size key (clear plain 46 64) in
      let head = front_size plain size in
      let middle = old_size plain size in
      let whole = signed plain size sig sig_size in
      let behind : length (drop 64 (drop 46 plain)) ≡ 3914 =
        omega (arith, length-drop 64 (drop 46 plain), length-drop 46 plain) in
      (
        ap (take 46) whole ∙ take-append (take 46 plain) _ head,
        ap (drop 110) whole
            ∙ drop_behind (take 46 plain) sig (drop 64 (drop 46 plain)) head sig_size
            ∙ sym (
                ap (drop 110) (parts plain size)
                ∙ drop_behind (take 46 plain) (take 64 (drop 46 plain)) (drop 64 (drop 46 plain))
                    head middle),
        ap length whole
            ∙ omega (
              arith,
              head,
              sig_size,
              behind,
              length-append (take 46 plain) (sig ++ drop 64 (drop 46 plain)),
              length-append sig (drop 64 (drop 46 plain)),
            ),
      )
