-- ===== src/Prelude/Slices.antt =====
-- Go's slices over byte buffers: `b[i:j]`, `copy(dst[i:], src)`, and how they act on a buffer that
-- is filled from the left.
use Prim.Native.Nat.{ℕ, zero, suc, ◌+◌, ◌-◌, ◌≤◌}
use mathlib.Core.Path.{◌≡◌, refl, ap, ◌∙◌, sym}
use mathlib.Core.List.{List, [], ◌∷◌, ◌++◌, append_assoc}
use native.Mathlib.Omega.{arith}
use sneakernet.Prelude.Lists.{
  length, take, drop, replicate, take-append, drop-append, length-replicate,
}

module _ {ℓ} {A : Type ℓ} where
  -- `b[i:j]`, for `i ≤ j ≤ len(b)`.
  unfoldable pub slice : ℕ → ℕ → List A → List A
  slice i j b = take (j - i) (drop i b)

  -- `copy(dst, src)`: as many elements as both have.
  unfoldable pub copy : List A → List A → List A
  copy [] src = []
  copy (d ∷ ds) [] = d ∷ ds
  copy (d ∷ ds) (s ∷ ss) = s ∷ copy ds ss

  -- `copy(dst[i:], src)`.
  unfoldable pub copy_at : ℕ → List A → List A → List A
  unfolding copy
  copy_at zero dst src = copy dst src
  copy_at (suc i) [] src = []
  copy_at (suc i) (d ∷ ds) src = d ∷ copy_at i ds src

  drop-append_skip :
      (xs ys : List A) (i : ℕ) → length xs ≤ i → drop i (xs ++ ys) ≡ drop (i - length xs) ys
  unfolding drop
  drop-append_skip [] ys i h = let e : i - 0 ≡ i = omega arith in ap (λ k. drop k ys) (sym e)
  drop-append_skip (x ∷ xs) ys zero h = absurd (omega arith)
  drop-append_skip (x ∷ xs) ys (suc i) h =
      drop-append_skip xs ys i (omega arith)
      ∙ ap (λ k. drop k ys) (let e : i - length xs ≡ suc i - suc (length xs) = omega arith in e)

  -- A slice behind the first field is a slice of the rest.
  pub slice-append_skip :
      (xs ys : List A) (i j : ℕ)
      → length xs ≤ i
      → slice i j (xs ++ ys) ≡ slice (i - length xs) (j - length xs) ys
  unfolding slice
  slice-append_skip xs ys i j h =
      ap (take (j - i)) (drop-append_skip xs ys i h)
      ∙ ap (λ k. take k (drop (i - length xs) ys))
          (let e : j - i ≡ (j - length xs) - (i - length xs) = omega arith in e)

  pub slice-append : (xs ys : List A) (j : ℕ) → length xs ≡ j → slice 0 j (xs ++ ys) ≡ xs
  unfolding slice drop
  slice-append xs ys j h = take-append xs ys (omega arith)

  -- The field that stands between `xs` and `zs`.
  pub slice_field :
      (xs ys zs : List A) (i j : ℕ)
      → length xs ≡ i
      → length ys + i ≡ j
      → slice i j (xs ++ (ys ++ zs)) ≡ ys
  unfolding slice
  slice_field xs ys zs i j hx hy =
      ap (take (j - i)) (drop-append xs (ys ++ zs) hx) ∙ take-append ys zs (omega arith)

  pub copy-append :
      (old src rest : List A) → length old ≡ length src → copy (old ++ rest) src ≡ src ++ rest
  unfolding copy
  copy-append [] [] [] h = refl
  copy-append [] [] (r ∷ rest) h = refl
  copy-append [] (s ∷ src) rest h = absurd (omega arith)
  copy-append (o ∷ old) [] rest h = absurd (omega arith)
  copy-append (o ∷ old) (s ∷ src) rest h = ap (λ t. s ∷ t) (copy-append old src rest (omega arith))

  -- Overwriting the field that stands behind `pre`.
  pub copy_at-append :
      (pre old src rest : List A) (i : ℕ)
      → length pre ≡ i
      → length old ≡ length src
      → copy_at i (pre ++ (old ++ rest)) src ≡ pre ++ (src ++ rest)
  unfolding copy_at
  copy_at-append [] old src rest zero hp h = copy-append old src rest h
  copy_at-append [] old src rest (suc i) hp h = absurd (omega arith)
  copy_at-append (p ∷ pre) old src rest zero hp h = absurd (omega arith)
  copy_at-append (p ∷ pre) old src rest (suc i) hp h =
      ap (λ t. p ∷ t) (copy_at-append pre old src rest i (omega arith) h)

  replicate-append : (n m : ℕ) (a : A) → replicate n a ++ replicate m a ≡ replicate (n + m) a
  unfolding replicate
  replicate-append zero m a = let e : m ≡ 0 + m = omega arith in ap (λ k. replicate k a) e
  replicate-append (suc n) m a =
      ap (λ t. a ∷ t) (replicate-append n m a)
      ∙ ap (λ k. replicate k a) (let e : suc (n + m) ≡ suc n + m = omega arith in e)

  -- Filling the next bytes of a buffer whose rest is still the initial value.
  pub copy_at_fill :
      (pre src : List A) (a : A) (n m i : ℕ)
      → length pre ≡ i
      → length src + m ≡ n
      → copy_at i (pre ++ replicate n a) src ≡ (pre ++ src) ++ replicate m a
  copy_at_fill pre src a n m i hp hn =
      let whole : replicate n a ≡ replicate (length src) a ++ replicate m a =
        ap (λ k. replicate k a) (sym hn) ∙ sym (replicate-append (length src) m a) in
      ap (λ t. copy_at i (pre ++ t) src) whole
      ∙ copy_at-append pre (replicate (length src) a) src (replicate m a) i hp
          (length-replicate (length src) a)
      ∙ sym (append_assoc pre src (replicate m a))
