-- ===== src/Bytes/Order.antt =====
-- `bytes.Compare`, and that it orders big-endian numbers by their value.
use Prim.Native.Nat.{compare, Ordering}
use sneakernet.Prelude.{
  ℕ, ◌+◌, ◌*◌, ◌^◌, ◌<◌, ◌≡◌, refl, zero, suc, List, [], ◌∷◌, ◌++◌, replicate, arith, length, All,
  true, bytes_eq,
}
use sneakernet.Bytes.{IsByte, get_be, get_be-lt}

unfoldable pub bytes_compare : List ℕ → List ℕ → Ordering
bytes_compare [] [] = Ordering.eq
bytes_compare [] (y ∷ ys) = Ordering.lt
bytes_compare (x ∷ xs) [] = Ordering.gt
bytes_compare (x ∷ xs) (y ∷ ys) = elim (compare x y) [
  | Ordering.lt ↦ Ordering.lt
  | Ordering.gt ↦ Ordering.gt
  | Ordering.eq ↦ bytes_compare xs ys
]

high_digit : (x y p a b : ℕ) → a < p → b < p → x < y → x * p + a < y * p + b
high_digit x y p a b ha hb h = grind arith

-- On byte strings of one length `bytes.Compare` is the order of the big-endian numbers.
pub bytes_compare-get_be :
    (xs ys : List ℕ)
    → length xs ≡ length ys
    → All IsByte xs
    → All IsByte ys
    → bytes_compare xs ys ≡ compare (get_be xs) (get_be ys)
unfolding bytes_compare get_be
bytes_compare-get_be [] [] h hx hy = refl
bytes_compare-get_be [] (y ∷ ys) h hx hy = absurd (omega arith)
bytes_compare-get_be (x ∷ xs) [] h hx hy = absurd (omega arith)
bytes_compare-get_be (x ∷ xs) (y ∷ ys) h hx hy =
    let same : length ys ≡ length xs = omega arith in
    rw same (
      ground (
        arith,
        bytes_compare-get_be xs ys (omega arith) hx.1 hy.1,
        high_digit x y (256 ^ length xs) (get_be xs) (get_be ys) (get_be-lt xs hx.1)
            (rw same at (get_be-lt ys hy.1)),
        high_digit y x (256 ^ length xs) (get_be ys) (get_be xs) (rw same at (get_be-lt ys hy.1))
            (get_be-lt xs hx.1),
      ))

-- `bytes.Compare` as an order.
infix 50 ◌≺◌
abbrev pub ◌≺◌ : List ℕ → List ℕ → Type 0
xs ≺ ys = bytes_compare xs ys ≡ Ordering.lt

pub bytes_compare-eq→bytes_eq :
    (xs ys : List ℕ) → bytes_compare xs ys ≡ Ordering.eq → bytes_eq xs ys ≡ true
unfolding bytes_compare bytes_eq
bytes_compare-eq→bytes_eq [] [] h = refl
bytes_compare-eq→bytes_eq [] (y ∷ ys) h = cc
bytes_compare-eq→bytes_eq (x ∷ xs) [] h = cc
bytes_compare-eq→bytes_eq (x ∷ xs) (y ∷ ys) h = ground (arith, bytes_compare-eq→bytes_eq xs ys)

pub bytes_compare_refl : (xs : List ℕ) → bytes_compare xs xs ≡ Ordering.eq
unfolding bytes_compare
bytes_compare_refl [] = refl
bytes_compare_refl (x ∷ xs) = ground (arith, bytes_compare_refl xs)

pub bytes_compare-gt→lt : (xs ys : List ℕ) → bytes_compare xs ys ≡ Ordering.gt → ys ≺ xs
unfolding bytes_compare
bytes_compare-gt→lt [] [] h = cc
bytes_compare-gt→lt [] (y ∷ ys) h = cc
bytes_compare-gt→lt (x ∷ xs) [] h = refl
bytes_compare-gt→lt (x ∷ xs) (y ∷ ys) h = ground (arith, bytes_compare-gt→lt xs ys)

pub ≺_trans : (xs ys zs : List ℕ) → xs ≺ ys → ys ≺ zs → xs ≺ zs
unfolding bytes_compare
≺_trans [] [] zs h k = cc
≺_trans [] (y ∷ ys) [] h k = cc
≺_trans [] (y ∷ ys) (z ∷ zs) h k = refl
≺_trans (x ∷ xs) [] zs h k = cc
≺_trans (x ∷ xs) (y ∷ ys) [] h k = cc
≺_trans (x ∷ xs) (y ∷ ys) (z ∷ zs) h k = ground (arith, ≺_trans xs ys zs)

-- The keys of the items ascend strictly.
abbrev pub Ascending {ℓ} : {A : Type ℓ} → List (List ℕ × A) → Type ℓ
Ascending [] = Unit
Ascending (x ∷ xs) = All (λ y. x.0 ≺ y.0) xs × Ascending xs

-- Strings with fronts of one length compare by their fronts first.
pub bytes_compare-append :
    (xs ys u v : List ℕ)
    → length xs ≡ length ys
    → bytes_compare (xs ++ u) (ys ++ v) ≡ elim (bytes_compare xs ys) [
      | Ordering.lt ↦ Ordering.lt
      | Ordering.gt ↦ Ordering.gt
      | Ordering.eq ↦ bytes_compare u v
    ]
unfolding bytes_compare
bytes_compare-append [] [] u v h = refl
bytes_compare-append [] (y ∷ ys) u v h = absurd (omega arith)
bytes_compare-append (x ∷ xs) [] u v h = absurd (omega arith)
bytes_compare-append (x ∷ xs) (y ∷ ys) u v h = ground (arith, bytes_compare-append xs ys u v)

-- No string of `n` bytes is below the zero string.
pub not-≺-zeros : (xs : List ℕ) (n : ℕ) → length xs ≡ n → ¬ (xs ≺ replicate n 0)
unfolding bytes_compare replicate
not-≺-zeros [] zero h = λ e. cc
not-≺-zeros [] (suc n) h = absurd (omega arith)
not-≺-zeros (x ∷ xs) zero h = absurd (omega arith)
not-≺-zeros (x ∷ xs) (suc n) h = ground (arith, not-≺-zeros xs n)
