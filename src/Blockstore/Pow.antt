-- ===== src/Blockstore/Pow.antt =====
-- blockstore/pow.go: block IDs, work factors and mining.
pub mod Zeros
pub mod Mining
pub mod Range
use sneakernet.Prelude.{
  ℕ, ◌+◌, ◌≡◌, Option, none, some, List, [], ◌∷◌, replicate, copy_at, ltb, leb, ◌==◌, if◌then◌else◌,
}
use sneakernet.Integers.{ℤ, pos, negsuc, ltb_ℤ}
use sneakernet.Bytes.{IsBytes}

-- SHA-256 and argon2id (with the program's salt and cost): functions from byte strings to 32 bytes.
pub record Hashes : Type 0 where
  pub sha256 : List ℕ → List ℕ
  pub argon2 : List ℕ → List ℕ
  pub sha256-IsBytes : (input : List ℕ) → IsBytes 32 (sha256 input)
  pub argon2-IsBytes : (input : List ℕ) → IsBytes 32 (argon2 input)

-- `bits.LeadingZeros8`.
unfoldable pub leading_zeros8 : ℕ → ℕ
leading_zeros8 v =
    if v == 0
    then 8
    else if ltb v 2
    then 7
    else if ltb v 4
    then 6
    else if ltb v 8
    then 5
    else if ltb v 16
    then 4
    else if ltb v 32
    then 3
    else if ltb v 64
    then 2
    else if ltb v 128
    then 1
    else 0

count_zeros : ℕ → List ℕ → ℕ
count_zeros count [] = count
count_zeros count (v ∷ b) =
    let lz = leading_zeros8 v in
    let rest = count_zeros (count + lz) b in if ltb lz 8 then count + lz else rest

unfoldable pub leading_zero_bits : List ℕ → ℕ
unfolding leading_zeros8 count_zeros
leading_zero_bits b = count_zeros 0 b

-- What became of one round of the mining loop: the context was cancelled, the random source failed,
-- or it gave a stamp.
pub data Round : Type 0 where
  cancelled no_entropy : Round
  drew : List ℕ → Round

pub data Mined : Type 0 where
  mined : List ℕ → ℕ → Mined
  failed : Mined

module _ (hashes : Hashes) where
  unfoldable pub compute_id : List ℕ → List ℕ
  compute_id payload = hashes.sha256 payload

  unfoldable pub work_factor : List ℕ → List ℕ → ℕ
  work_factor stamp payload =
      let input = replicate 4100 0 in
      let input = copy_at 0 input stamp in
      let input = copy_at 4 input payload in leading_zero_bits (hashes.argon2 input)

  -- The `for` loop over the rounds that have run; `none` when it is still running after them.
  mine : List ℕ → ℤ → List Round → Option Mined
  mine payload target [] = none
  mine payload target (cancelled ∷ rounds) = some failed
  mine payload target (no_entropy ∷ rounds) = some failed
  mine payload target (drew stamp ∷ rounds) =
      let wf = work_factor stamp payload in
      let rest = mine payload target rounds in
      if ltb_ℤ (pos wf) target then rest else some (mined stamp wf)

  unfoldable pub mine_stamp : List ℕ → ℤ → List Round → Option Mined
  unfolding mine
  mine_stamp payload target rounds =
      if ltb_ℤ (pos 0) target
      then mine payload target rounds
      else some (mined (replicate 4 0) (work_factor (replicate 4 0) payload))
