-- ===== src/Tests/Filter.antt =====
-- Runs of the Bloom filter.
use sneakernet.Prelude.{ℕ, ◌≤◌, ◌≡◌, true, some, arith, All, replicate}
use sneakernet.Integers.{pos}
use sneakernet.Blockstore.Badger.Listing.{list_page}
use sneakernet.Bytes.{put_be}
use sneakernet.Relay.Bloom.{Bloom, new_bloom, add, has, bloom_of_store, zero_time}
use sneakernet.Relay.Bloom.Member.{new_bloom-IsBloom, has-add}
use sneakernet.Relay.Bloom.Store.{bloom_of_store-Holds}
use sneakernet.Tests.Listing.{entries, three, three-Ascending, entries-IsEntry}

has-add_example : has (add new_bloom (put_be 32 77) 20) (put_be 32 77) 18 ≡ true
has-add_example = has-add new_bloom new_bloom-IsBloom (put_be 32 77) 20 18 (omega arith)

abbrev one : Bloom
one = add new_bloom (replicate 32 5) 2

bloom_of_store-Holds_example :
    (b : Bloom) × (bloom_of_store (λ token. list_page three token 500 (pos 0) zero_time) 4 ≡ some b)
    × All (λ e. (wf : ℕ) → wf ≤ e.work_factor → has b e.id wf ≡ true) entries
bloom_of_store-Holds_example =
    bloom_of_store-Holds entries 4 three-Ascending entries-IsEntry (omega arith)
