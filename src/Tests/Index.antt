-- ===== src/Tests/Index.antt =====
-- Runs of the index.
use sneakernet.Prelude.{
  ℕ, ◌≡◌, refl, some, List, [], ◌∷◌, arith, replicate, length-replicate, get_or, All,
}
use sneakernet.Bytes.Order.{bytes_compare}
use sneakernet.Blockstore.Index.{IndexRecord, Zlib, search, encode_index, open_index, shards}
use sneakernet.Blockstore.Index.Search.{Sorted, lookup, search-lookup}
use sneakernet.Blockstore.Index.Format.{open_index-encode_index}
use sneakernet.Blockstore.Index.Shards.{Placed, joined, IsSized, shards-Placed}

abbrev entry : ℕ → IndexRecord
entry n = record { id = replicate 32 n; work_factor = 4; expires_at = 77 }

abbrev entries : List IndexRecord
entries = entry 1 ∷ entry 5 ∷ entry 255 ∷ []

entries-Sorted : Sorted entries
unfolding bytes_compare replicate
entries-Sorted = ((refl, (refl, tt)), ((refl, tt), (tt, tt)))

search-lookup_example : search entries (replicate 32 5) ≡ some (lookup entries (replicate 32 5))
search-lookup_example = search-lookup entries (replicate 32 5) entries-Sorted

-- A stand-in for zlib, which does not compress.
abbrev store_only : Zlib
store_only = record { deflate = λ raw. raw; inflate = λ raw. some raw }

open_index-encode_index_example :
    open_index store_only (encode_index store_only entries) ≡ some entries
open_index-encode_index_example =
    open_index-encode_index store_only entries (λ raw. refl)
      (
        record { id_length = length-replicate {A = ℕ} 32 1; expires_u32 = omega arith },
        (
          record { id_length = length-replicate {A = ℕ} 32 5; expires_u32 = omega arith },
          (record { id_length = length-replicate {A = ℕ} 32 255; expires_u32 = omega arith }, tt),
        ),
      )
      (omega arith)

entries-IsSized : All IsSized entries
unfolding replicate get_or
entries-IsSized = ((refl, omega arith), ((refl, omega arith), ((refl, omega arith), tt)))

shards-Placed_example : Placed 0 (shards 0 256 entries) × (joined (shards 0 256 entries) ≡ entries)
shards-Placed_example = shards-Placed entries entries-Sorted entries-IsSized
