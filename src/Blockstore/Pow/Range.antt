-- ===== src/Blockstore/Pow/Range.antt =====
-- A work factor is at most the number of bits of the hash.
use sneakernet.Prelude.{ℕ, ◌≤◌, List, arith, copy_at, replicate}
use sneakernet.Blockstore.Pow.{Hashes, work_factor}
use sneakernet.Blockstore.Pow.Zeros.{leading_zero_bits-IsZeroCount}

-- A work factor is at most 256, the number of bits of the hash.
pub work_factor-le :
    (hashes : Hashes) (stamp payload : List ℕ) → work_factor hashes stamp payload ≤ 256
unfolding work_factor
work_factor-le hashes stamp payload =
    let input = copy_at 4 (copy_at 0 (replicate 4100 0) stamp) payload in
    let digest = hashes.argon2-IsBytes input in
    omega (
      arith,
      digest.size,
      (leading_zero_bits-IsZeroCount (hashes.argon2 input) digest.bytes).within,
    )
