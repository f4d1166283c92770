-- ===== src/Tests/Median.antt =====
-- Runs of the median work factor.
use sneakernet.Prelude.{
  ℕ, ◌≡◌, refl, none, some, List, [], ◌∷◌, replicate, take, copy, copy_at, get_or, slice, drop,
}
use sneakernet.Bytes.{put_be, get_be}
use sneakernet.Integers.{to_u64}
use sneakernet.Blockstore.Pow.{compute_id, work_factor, leading_zero_bits}
use sneakernet.Blockstore.Kv.Table.Scan.{table, empty}
use sneakernet.Blockstore.Badger.{
  block_key, trav_key, tomb_key, encode_block_val, trav_val, store_block,
}
use sneakernet.Tests.{toy}
use sneakernet.Tests.Store.{stored}
use sneakernet.Blockstore.Badger.Median.{
  run_median_updater, refresh_median, keep_median, work_factors, sort_ints, insert, median_of,
}

abbrev factors : List ℕ
factors = 3 ∷ 1 ∷ 2 ∷ 9 ∷ 4 ∷ []

median_run : median_of 32904 factors ≡ some 2
unfolding median_of sort_ints insert
median_run = refl

-- Of nine work factors in a store for nine blocks the sixth is taken, not the fifth.
odd_run : median_of 37017 (1 ∷ 2 ∷ 3 ∷ 4 ∷ 5 ∷ 6 ∷ 7 ∷ 8 ∷ 9 ∷ []) ≡ some 6
unfolding median_of sort_ints insert
odd_run = refl

-- A store for ten blocks that holds eight, as in badger_test.go: the fourth of them is taken, where
-- that test and blockstore/design.md expect the sixth.
eight_run : median_of 41130 (8 ∷ 7 ∷ 6 ∷ 5 ∷ 4 ∷ 3 ∷ 2 ∷ 1 ∷ []) ≡ some 4
unfolding median_of sort_ints insert
eight_run = refl

-- A store for one block: the index is out of range.
tiny_run : median_of 4113 (7 ∷ []) ≡ none
unfolding median_of sort_ints insert
tiny_run = refl

-- Over a store of one block, fewer than half of what fits, the median becomes 0.
updater_run : run_median_updater table ((stored, 6_000_000_000) ∷ []) 32904 5 ≡ some 0
unfolding run_median_updater refresh_median keep_median work_factors median_of sort_ints insert
    stored store_block empty table toy compute_id work_factor leading_zero_bits trav_key block_key
    tomb_key encode_block_val trav_val put_be get_be take replicate copy copy_at get_or slice drop
    to_u64
updater_run = refl
