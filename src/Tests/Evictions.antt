-- ===== src/Tests/Evictions.antt =====
-- Runs of eviction.
use mathlib.Core.List.{Perm}
use sneakernet.Prelude.{
  ℕ, ◌≤◌, ◌≡◌, ◌==◌, if◌then◌else◌, refl, Option, none, some, true, List, [], ◌∷◌, arith, length,
  min, All, take, drop, slice, replicate, copy, copy_at, get_or,
}
use sneakernet.Integers.{ℤ, pos, to_u64, from_u64, add_i64, sub_i64}
use sneakernet.Bytes.{put_be, get_be}
use sneakernet.Blockstore.Pow.{compute_id, work_factor, leading_zero_bits}
use sneakernet.Blockstore.Kv.{update}
use sneakernet.Blockstore.Kv.Table.Scan.{table, empty}
use sneakernet.Blockstore.Badger.{
  block_key, trav_key, tomb_key, encode_block_val, trav_val, store_block, get_block, has, answer,
  not_found,
}
use sneakernet.Blockstore.Badger.Listing.{list_ids, ids_of}
use sneakernet.Blockstore.Badger.Indexed.{IsIndexed}
use sneakernet.Blockstore.Badger.Evict.{
  EvictCandidate, Settings, candidate, candidates, evict, evict_one, enforce_limit, put, better,
  furthest, over_of, pop_tag, add_candidate, per_tag, insert_candidate, sort_candidates,
  logical_expiry, evict_loop,
}
use sneakernet.Blockstore.Badger.Evict.Removed.{Early, Names}
use sneakernet.Blockstore.Badger.Evict.Stored.{IsStored, limit_of}
use sneakernet.Blockstore.Badger.Evict.Result.{AllLast, put-IsIndexed, evict-Removed}
use sneakernet.Blockstore.Badger.Evict.Refine.{Follows, AllCommit, evict-Follows, evict_count}
use sneakernet.Tests.{toy, stamp, weak_stamp, payload, stamp-IsStamp, payload-IsPayload}
use sneakernet.Tests.Store.{or_empty, stored, stored-IsIndexed}

-- Every block lives five seconds.
abbrev pub settings : Settings
settings = record {
  lifetime = λ wf. pos 5_000_000_000;
  reservations = λ t. if t == 1 then pos 5000 else pos 0;
  clock = λ i. 6_000_000_000;
  order = λ i gs. gs;
  order-sound = λ i gs g m. m;
  order-complete = λ i gs g m. m;
}

abbrev ttl : ℕ → ℕ
ttl wf = 10_000_000_000

all_last : (db : table.Db) (now : ℕ) → AllLast table settings ttl db now
unfolding add_i64
all_last db now j val e = refl

abbrev after : ℤ → table.Db
after n = (evict table settings stored 6_000_000_000 n).db

-- The store's only block is evicted.
evicted_run : (evict table settings stored 6_000_000_000 (pos 3)).count ≡ 1
unfolding stored store_block empty table toy compute_id work_factor leading_zero_bits trav_key
    block_key tomb_key encode_block_val trav_val put_be get_be take replicate copy copy_at get_or
    slice drop to_u64 from_u64 evict candidates candidate evict_one evict_loop better furthest
    over_of pop_tag add_candidate per_tag insert_candidate sort_candidates logical_expiry add_i64
    sub_i64
evicted_run = refl

evict-Removed_example :
    (cs : List EvictCandidate) × ((evict table settings stored 6_000_000_000 (pos 3)).count
      ≡ length cs)
    × (length cs ≤ limit_of (pos 3))
    × All (IsStored table stored 6_000_000_000) cs
    × ((at : ℕ) (j : List ℕ)
        → Names j cs
        → (get_block table toy (after (pos 3)) at j ≡ not_found)
          × (All (λ c. c.id ≡ j → Early table settings ttl at c) cs
              → has table toy (after (pos 3)) at j ≡ answer true))
    × ((at : ℕ) (j : List ℕ)
        → ¬ Names j cs
        → (get_block table toy (after (pos 3)) at j ≡ get_block table toy stored at j)
          × (has table toy (after (pos 3)) at j ≡ has table toy stored at j))
evict-Removed_example =
    evict-Removed table settings ttl toy stored 6_000_000_000 (pos 3) stored-IsIndexed
      (all_last stored 6_000_000_000)

unfoldable put_limited : table.Db
unfolding put enforce_limit
put_limited = or_empty (put table settings toy 100 stored 7_000_000_000 stamp payload 0)

put_run : put table settings toy 100 stored 7_000_000_000 stamp payload 0 ≡ some put_limited
unfolding put_limited put enforce_limit stored store_block empty table toy compute_id work_factor
    leading_zero_bits trav_key block_key tomb_key encode_block_val trav_val put_be get_be take
    replicate copy copy_at get_or slice drop to_u64 from_u64
put_run = refl

put-IsIndexed_example : IsIndexed table put_limited
put-IsIndexed_example =
    put-IsIndexed table settings toy 100 stored put_limited 7_000_000_000 stamp payload 0
      stamp-IsStamp payload-IsPayload (omega arith) stored-IsIndexed put_run

abbrev or_none : Option (List EvictCandidate) → List EvictCandidate
or_none none = []
or_none (some cs) = cs

-- A second block, of another tag, which has no reservation.
unfoldable pair : table.Db
unfolding store_block
pair = or_empty (store_block table toy stored 5_500_000_000 weak_stamp (replicate 4096 1) 3)

unfoldable left : List EvictCandidate
left = or_none (candidates (table.scan pair 6_000_000_000 (b'b' ∷ [])))

-- The second block goes first.
first_run :
    has table toy
      (evict table settings pair 6_000_000_000 (pos 1)).db
      6_000_000_000
      (compute_id toy payload)
    ≡ answer true
unfolding pair has stored store_block empty table toy compute_id work_factor leading_zero_bits
    trav_key block_key tomb_key encode_block_val trav_val put_be get_be take replicate copy copy_at
    get_or slice drop to_u64 from_u64 evict candidates candidate evict_one evict_loop better
    furthest over_of pop_tag add_candidate per_tag insert_candidate sort_candidates logical_expiry
    add_i64 sub_i64
first_run = refl

gone_run :
    get_block table toy
      (evict table settings pair 6_000_000_000 (pos 1)).db
      6_000_000_000
      (compute_id toy (replicate 4096 1))
    ≡ not_found
unfolding pair get_block stored store_block empty table toy compute_id work_factor leading_zero_bits
    trav_key block_key tomb_key encode_block_val trav_val put_be get_be take replicate copy copy_at
    get_or slice drop to_u64 from_u64 evict candidates candidate evict_one evict_loop better
    furthest over_of pop_tag add_candidate per_tag insert_candidate sort_candidates logical_expiry
    add_i64 sub_i64
gone_run = refl

listed_run :
    list_ids table pair 6_000_000_000
    ≡ compute_id toy payload ∷ compute_id toy (replicate 4096 1) ∷ []
unfolding list_ids ids_of pair stored store_block empty table toy compute_id work_factor
    leading_zero_bits trav_key block_key tomb_key encode_block_val trav_val put_be get_be take
    replicate copy copy_at get_or slice drop to_u64 from_u64
listed_run = refl

left_run : candidates (table.scan pair 6_000_000_000 (b'b' ∷ [])) ≡ some left
unfolding left pair stored store_block empty table toy compute_id work_factor leading_zero_bits
    trav_key block_key tomb_key encode_block_val trav_val put_be get_be take replicate copy copy_at
    get_or slice drop to_u64 from_u64 candidates candidate
left_run = refl

evict-Follows_example :
    (cs : List EvictCandidate) × Perm cs left
    × Follows table settings
        (limit_of (pos 1))
        0
        pair
        cs
        (evict table settings pair 6_000_000_000 (pos 1))
evict-Follows_example = evict-Follows table settings pair 6_000_000_000 (pos 1) left left_run

commits : AllCommit table settings
unfolding table evict_one update
commits db now c e = cc

evict_count_example :
    ((evict table settings pair 6_000_000_000 (pos 1)).count ≡ min (limit_of (pos 1)) (length left))
    × ((evict table settings pair 6_000_000_000 (pos 1)).ok ≡ true)
evict_count_example = evict_count table settings pair 6_000_000_000 (pos 1) left left_run commits
