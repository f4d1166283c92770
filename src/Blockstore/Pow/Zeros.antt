-- ===== src/Blockstore/Pow/Zeros.antt =====
-- `leadingZeroBits` counts the leading zero bits of the hash, read as a big-endian number.
use native.Mathlib.Nat.{pow-suc, mul-le-mul_right, one-le-pow}
use native.Mathlib.Numerals.{towards_suc}
use sneakernet.Prelude.{
  ℕ, zero, suc, ◌+◌, ◌*◌, ◌^◌, ◌≤◌, ◌<◌, ◌≡◌, refl, ap, ◌∙◌, List, [], ◌∷◌, arith, length, All, ltb,
  leb, lt→ltb, ◌==◌, ◌&&◌, ◌||◌, Bool, true, tabulate, tabulate_at, if◌then◌else◌,
}
use sneakernet.Bytes.{IsByte, get_be, get_be-lt}
use sneakernet.Blockstore.Pow.{leading_zeros8, count_zeros, leading_zero_bits}

zeros : List ℕ → ℕ
zeros [] = 0
zeros (v ∷ b) = if ltb (leading_zeros8 v) 8 then leading_zeros8 v else 8 + zeros b

leading_zeros8-le : (v : ℕ) → leading_zeros8 v ≤ 8
unfolding leading_zeros8
leading_zeros8-le v = ground arith

count_zeros-zeros : (count : ℕ) (b : List ℕ) → count_zeros count b ≡ count + zeros b
unfolding count_zeros zeros
count_zeros-zeros count [] = omega arith
count_zeros-zeros count (v ∷ b) =
    ground (arith, count_zeros-zeros (count + leading_zeros8 v) b, leading_zeros8-le v)

abbrev fits : ℕ → ℕ → Bool
fits v z = ltb z 8 && (leb ((v + 1) * 2 ^ z) 256 && leb 256 (v * 2 ^ (z + 1)))

fits_table : tabulate (λ v. (v == 0) || fits v (leading_zeros8 v)) 256 ≡ true
unfolding tabulate leading_zeros8
fits_table = refl

fits→bounds :
    (v z : ℕ) → fits v z ≡ true → (z < 8) × ((v + 1) * 2 ^ z ≤ 256) × (256 ≤ v * 2 ^ (z + 1))
fits→bounds v z h = ground arith

-- The bits of a non-zero byte.
positive_row : (v z : ℕ) → 0 < v → ((v == 0) || fits v z) ≡ true → fits v z ≡ true
positive_row v z h row = ground arith

leading_zeros8_bounds :
    (v : ℕ)
    → 0 < v
    → v < 256
    → (leading_zeros8 v < 8)
      × ((v + 1) * 2 ^ leading_zeros8 v ≤ 256)
      × (256 ≤ v * 2 ^ (leading_zeros8 v + 1))
leading_zeros8_bounds v h k =
    let row = tabulate_at (λ v. (v == 0) || fits v (leading_zeros8 v)) 256 v fits_table k in
    fits→bounds v (leading_zeros8 v) (positive_row v (leading_zeros8 v) h row)

leading_zeros8-zero : leading_zeros8 0 ≡ 8
unfolding leading_zeros8
leading_zeros8-zero = refl

-- `z` is the number of leading zero bits of an `n`-byte number `x`.
pub record IsZeroCount (n x z : ℕ) : Type 0 where
  pub below : x * 2 ^ z < 256 ^ n
  pub above : z < 8 * n → 256 ^ n ≤ x * 2 ^ (z + 1)
  pub within : z ≤ 8 * n

-- A first byte that is not zero decides.
nonzero_case :
    (v r p t u : ℕ)
    → r < p
    → 0 < t
    → (v + 1) * t ≤ 256
    → 256 ≤ v * u
    → ((v * p + r) * t < 256 * p) × (256 * p ≤ (v * p + r) * u)
nonzero_case v r p t u hr ht lo hi =
    let up : suc (v * p + r) * t ≤ (v + 1) * p * t = mul-le-mul_right t (omega arith) in
    let top : (v + 1) * t * p ≤ 256 * p = mul-le-mul_right p lo in
    let bottom : 256 * p ≤ v * u * p = mul-le-mul_right p hi in (omega arith, omega arith)

pow_shift : (z : ℕ) → 2 ^ (8 + z) ≡ 256 * 2 ^ z
pow_shift z =
    ap (λ k. 2 ^ k) (let e : 8 + z ≡ z + 8 = omega arith in e) ∙ simp towards_suc (omega arith)

-- A zero byte in front adds eight.
zero_case : (n x z : ℕ) → IsZeroCount n x z → IsZeroCount (suc n) (0 * 256 ^ n + x) (8 + z)
zero_case n x z c =
    let one_more : 8 + z + 1 ≡ 8 + (z + 1) = omega arith in
    let shift : x * 2 ^ (8 + z) ≡ x * (256 * 2 ^ z) = ap (λ t. x * t) (pow_shift z) in
    let shift_one : x * 2 ^ (8 + z + 1) ≡ x * (256 * 2 ^ (z + 1)) =
      ap (λ t. x * t) (ap (λ k. 2 ^ k) one_more ∙ pow_shift (z + 1)) in
    let same : 0 * 256 ^ n + x ≡ x = omega arith in
    rw same (record {
      below = omega (arith, c.below, shift, pow-suc 256 n);
      above = λ k. omega (arith, c.above (omega arith), shift_one, pow-suc 256 n);
      within = omega (arith, c.within);
    })

zeros-IsZeroCount : (b : List ℕ) → All IsByte b → IsZeroCount (length b) (get_be b) (zeros b)
unfolding zeros get_be
zeros-IsZeroCount [] h = record {
  below = omega arith;
  above = λ k. absurd (omega arith);
  within = omega arith;
}
zeros-IsZeroCount (zero ∷ b) h =
    rw leading_zeros8-zero (zero_case (length b) (get_be b) (zeros b) (zeros-IsZeroCount b h.1))
zeros-IsZeroCount (suc v ∷ b) h =
    let z = leading_zeros8 (suc v) in
    let (small, lo, hi) = leading_zeros8_bounds (suc v) (omega arith) h.0 in
    let (below, above) =
      nonzero_case (suc v) (get_be b) (256 ^ length b) (2 ^ z) (2 ^ (z + 1)) (get_be-lt b h.1)
        (one-le-pow z 2 (omega arith)) lo hi in
    rw (lt→ltb z 8 small) (record {
      below = omega (arith, below, pow-suc 256 (length b));
      above = λ k. omega (arith, above, pow-suc 256 (length b));
      within = omega arith;
    })

-- For a list of bytes the result is the number of leading zero bits of the bytes as one big-endian
-- number: the number stays below `256 ^ n`, for `n` bytes, after a shift by that much, and, unless it
-- is all zeros, not after one more.
pub leading_zero_bits-IsZeroCount :
    (b : List ℕ) → All IsByte b → IsZeroCount (length b) (get_be b) (leading_zero_bits b)
unfolding leading_zero_bits
leading_zero_bits-IsZeroCount b h =
    rw (let e : count_zeros 0 b ≡ zeros b = count_zeros-zeros 0 b ∙ omega arith in e)
      (zeros-IsZeroCount b h)
