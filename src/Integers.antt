-- ===== src/Integers.antt =====
-- `int` and `int64` values: the integers, their order, and the conversions between `int64` and the
-- `uint64` bit patterns that are stored.
use sneakernet.Prelude.{
  ℕ, ◌+◌, ◌-◌, ◌%◌, ◌^◌, ◌<◌, ◌≡◌, Bool, true, false, arith, ltb, leb, ◌==◌, if◌then◌else◌,
}

-- `negsuc n` is -(n + 1).
pub data ℤ : Type 0 where
  pos : ℕ → ℤ
  negsuc : ℕ → ℤ

abbrev pub ltb_ℤ : ℤ → ℤ → Bool
ltb_ℤ (pos a) (pos b) = ltb a b
ltb_ℤ (pos a) (negsuc b) = false
ltb_ℤ (negsuc a) (pos b) = true
ltb_ℤ (negsuc a) (negsuc b) = ltb b a

-- `a - b` for two counts.
abbrev pub sub_ℕ : ℕ → ℕ → ℤ
sub_ℕ a b = if leb b a then pos (a - b) else negsuc (b - a - 1)

-- `uint64(x)` and `int64(w)`.
unfoldable pub to_u64 : ℤ → ℕ
to_u64 (pos n) = n % 2 ^ 64
to_u64 (negsuc n) = 2 ^ 64 - 1 - n % 2 ^ 64

unfoldable pub from_u64 : ℕ → ℤ
from_u64 w = if ltb w (2 ^ 63) then pos w else negsuc (2 ^ 64 - 1 - w)

-- The values of an `int64`.
abbrev pub IsI64 : ℤ → Type 0
IsI64 (pos n) = n < 2 ^ 63
IsI64 (negsuc n) = n < 2 ^ 63

pub to_u64-lt : (x : ℤ) → to_u64 x < 256 ^ 8
unfolding to_u64
to_u64-lt (pos n) = omega arith
to_u64-lt (negsuc n) = omega arith

pub from_u64-to_u64 : (x : ℤ) → IsI64 x → from_u64 (to_u64 x) ≡ x
unfolding from_u64 to_u64
from_u64-to_u64 (pos n) h = ground arith
from_u64-to_u64 (negsuc n) h = ground arith

pub from_u64-IsI64 : (w : ℕ) → w < 256 ^ 8 → IsI64 (from_u64 w)
unfolding from_u64
from_u64-IsI64 w h = ground arith

pub to_u64-from_u64 : (w : ℕ) → w < 256 ^ 8 → to_u64 (from_u64 w) ≡ w
unfolding from_u64 to_u64
to_u64-from_u64 w h = ground arith

abbrev pub eq_ℤ : ℤ → ℤ → Bool
eq_ℤ (pos a) (pos b) = a == b
eq_ℤ (pos a) (negsuc b) = false
eq_ℤ (negsuc a) (pos b) = false
eq_ℤ (negsuc a) (negsuc b) = a == b

pub eq_ℤ-refl : (x : ℤ) → eq_ℤ x x ≡ true
eq_ℤ-refl (pos n) = ground arith
eq_ℤ-refl (negsuc n) = ground arith

-- `a + b` and `a - b` of two `int64` values wrap around.
unfoldable pub add_i64 : ℤ → ℤ → ℤ
unfolding to_u64 from_u64
add_i64 a b = from_u64 ((to_u64 a + to_u64 b) % 2 ^ 64)

unfoldable pub sub_i64 : ℤ → ℤ → ℤ
unfolding to_u64 from_u64
sub_i64 a b = from_u64 ((to_u64 a + 2 ^ 64 - to_u64 b) % 2 ^ 64)
