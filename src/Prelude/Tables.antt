-- ===== src/Prelude/Tables.antt =====
-- Facts about every value below a bound, checked by evaluation.
use Prim.Native.Nat.{ℕ, zero, suc, ◌<◌}
use mathlib.Core.Path.{◌≡◌, refl}
use mathlib.Core.Bool.{Bool, true, false, ◌&&◌}
use native.Mathlib.Omega.{arith}

-- The test on the values from `n` down to 0, without `n`.
unfoldable pub tabulate : (ℕ → Bool) → ℕ → Bool
tabulate test zero = true
tabulate test (suc n) = tabulate test n && test n

last_of_two :
    (test : ℕ → Bool) (n i : ℕ) (rest : Bool)
    → rest && test n ≡ true
    → i < suc n
    → (i < n → test i ≡ true)
    → test i ≡ true
last_of_two test n i rest h lt earlier = ground arith

rest_of_two : (a b : Bool) → a && b ≡ true → a ≡ true
rest_of_two true b h = refl
rest_of_two false b h = cc

pub tabulate_at : (test : ℕ → Bool) (n i : ℕ) → tabulate test n ≡ true → i < n → test i ≡ true
unfolding tabulate
tabulate_at test zero i h lt = absurd (omega arith)
tabulate_at test (suc n) i h lt =
    last_of_two test n i (tabulate test n) h lt
      (tabulate_at test n i (rest_of_two (tabulate test n) (test n) h))
