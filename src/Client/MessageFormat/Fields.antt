-- ===== src/Client/MessageFormat/Fields.antt =====
-- A buffer as the list of its fields: writing the next field, and reading one.
use sneakernet.Prelude.{
  ℕ, zero, suc, ◌+◌, ◌*◌, ◌≡◌, refl, sym, ap, ◌∙◌, List, [], ◌∷◌, ◌++◌, arith, length,
  length-append, All, set, slice, copy, copy_at, copy_at_fill, slice_field, append_assoc,
  append-nil, replicate,
}
use sneakernet.Client.MessageFormat.{put_refs, get_refs}

abbrev pub cat : List (List ℕ) → List ℕ
cat [] = []
cat (f ∷ fs) = f ++ cat fs

abbrev pub total : List (List ℕ) → ℕ
total [] = 0
total (f ∷ fs) = length f + total fs

pub length-cat : (fs : List (List ℕ)) → length (cat fs) ≡ total fs
length-cat [] = refl
length-cat (f ∷ fs) = omega (arith, length-append f (cat fs), length-cat fs)

pub cat-append : (fs gs : List (List ℕ)) → cat (fs ++ gs) ≡ cat fs ++ cat gs
cat-append [] gs = refl
cat-append (f ∷ fs) gs =
    ap (λ t. f ++ t) (cat-append fs gs) ∙ sym (append_assoc f (cat fs) (cat gs))

pub set-copy_at : (xs : List ℕ) (i v : ℕ) → set xs i v ≡ copy_at i xs (v ∷ [])
unfolding set copy_at copy
set-copy_at [] zero v = refl
set-copy_at [] (suc i) v = refl
set-copy_at (x ∷ []) zero v = refl
set-copy_at (x ∷ y ∷ xs) zero v = refl
set-copy_at (x ∷ xs) (suc i) v = ap (λ t. x ∷ t) (set-copy_at xs i v)

-- A buffer that is full.
pub ended : (xs : List ℕ) → xs ++ replicate 0 0 ≡ xs
unfolding replicate
ended xs = append-nil xs

module _ (fs : List (List ℕ)) (i : ℕ) (start : total fs ≡ i) where
  -- The next field into a buffer that is zero from there on.
  pub fill :
      (f : List ℕ) (n m : ℕ)
      → length f + m ≡ n
      → copy_at i (cat fs ++ replicate n 0) f ≡ cat (fs ++ f ∷ []) ++ replicate m 0
  fill f n m h =
      copy_at_fill (cat fs) f 0 n m i (length-cat fs ∙ start) h
      ∙ ap (λ t. t ++ replicate m 0)
          (ap (λ t. cat fs ++ t) (sym (append-nil f)) ∙ sym (cat-append fs (f ∷ [])))

  -- The field that stands behind the first ones.
  pub field :
      (f rest : List ℕ) (post : List (List ℕ)) (j : ℕ)
      → length f + i ≡ j
      → slice i j (cat (fs ++ f ∷ post) ++ rest) ≡ f
  field f rest post j h =
      ap (slice i j) (
        ap (λ t. t ++ rest) (cat-append fs (f ∷ post))
        ∙ append_assoc (cat fs) (f ++ cat post) rest
        ∙ ap (λ t. cat fs ++ t) (append_assoc f (cat post) rest))
      ∙ slice_field (cat fs) f (cat post ++ rest) i j (length-cat fs ∙ start) h

abbrev pub IsRef : List ℕ → Type 0
IsRef r = length r ≡ 32

pub total_refs : (refs : List (List ℕ)) → All IsRef refs → total refs ≡ length refs * 32
total_refs [] h = refl
total_refs (r ∷ refs) h = omega (arith, h.0, total_refs refs h.1)

pub total-append : (fs gs : List (List ℕ)) → total (fs ++ gs) ≡ total fs + total gs
total-append [] gs = omega arith
total-append (f ∷ fs) gs = omega (arith, total-append fs gs)

pub total-snoc : (fs : List (List ℕ)) (f : List ℕ) → total (fs ++ f ∷ []) ≡ total fs + length f
total-snoc [] f = omega arith
total-snoc (g ∷ fs) f = omega (arith, total-snoc fs f)

-- The loop over the references writes them one behind the other.
pub put_refs_fill :
    (refs fs : List (List ℕ)) (off n m : ℕ)
    → total fs ≡ off
    → All IsRef refs
    → length refs * 32 + m ≡ n
    → put_refs (cat fs ++ replicate n 0) off refs ≡ cat (fs ++ refs) ++ replicate m 0
unfolding put_refs
put_refs_fill [] fs off n m start h size =
    let e : n ≡ m = omega arith in
    ap (λ t. t ++ replicate n 0) (ap cat (sym (append-nil fs)))
    ∙ ap (λ k. cat (fs ++ []) ++ replicate k 0) e
put_refs_fill (r ∷ refs) fs off n m start h size =
    let k = length refs * 32 + m in
    ap (λ t. put_refs t (off + 32) refs) (fill fs off start r n k (omega (arith, h.0)))
    ∙ put_refs_fill refs (fs ++ r ∷ []) (off + 32) k m (omega (arith, total-snoc fs r, h.0)) h.1
        refl
    ∙ ap (λ t. cat t ++ replicate m 0) (append_assoc fs (r ∷ []) refs)

pub get_refs-cat :
    (refs fs post : List (List ℕ)) (rest : List ℕ) (off : ℕ)
    → total fs ≡ off
    → All IsRef refs
    → get_refs (cat (fs ++ (refs ++ post)) ++ rest) off (length refs) ≡ refs
unfolding get_refs
get_refs-cat [] fs post rest off start h = refl
get_refs-cat (r ∷ refs) fs post rest off start h =
    let first = field fs off start r rest (refs ++ post) (off + 32) (omega (arith, h.0)) in
    let again =
      get_refs-cat refs (fs ++ r ∷ []) post rest (off + 32) (omega (arith, total-snoc fs r, h.0))
        h.1 in
    ap (λ t. t ∷ get_refs (cat (fs ++ r ∷ (refs ++ post)) ++ rest) (off + 32) (length refs)) first
    ∙ ap (λ t. r ∷ t)
        (ap (λ t. get_refs (cat t ++ rest) (off + 32) (length refs))
            (sym (append_assoc fs (r ∷ []) (refs ++ post)))
          ∙ again)
