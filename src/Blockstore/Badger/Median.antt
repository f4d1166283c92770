-- ===== src/Blockstore/Badger/Median.antt =====
-- blockstore/badger.go: `computeMedianWorkFactor`, and the number that is kept of it.
pub mod Padded
use sneakernet.Prelude.{
  ℕ, zero, suc, ◌*◌, ◌-◌, ◌/◌, Option, none, some, ◌>>=◌, List, [], ◌∷◌, leb, ◌==◌, if◌then◌else◌,
  length, take, get_elem?, Bool, true, false,
}
use sneakernet.Bytes.{get_be}
use sneakernet.Blockstore.Kv.{Kv, found, missing, fault}
use sneakernet.Blockstore.Badger.Listing.{Item}

abbrev pub default_storage_limit : ℕ
default_storage_limit = 10 * 1024 * 1024 * 1024

-- `sort.Ints`.
unfoldable pub insert : ℕ → List ℕ → List ℕ
insert x [] = x ∷ []
insert x (y ∷ ys) = if leb x y then x ∷ y ∷ ys else y ∷ insert x ys

unfoldable pub sort_ints : List ℕ → List ℕ
sort_ints [] = []
sort_ints (x ∷ xs) = insert x (sort_ints xs)

-- The work factors of the traversal entries; a value under four bytes is passed over, and a value
-- that cannot be read is an error.
unfoldable pub work_factors : List Item → Option (List ℕ)
work_factors [] = some []
work_factors ((k, found val) ∷ items) = work_factors items >>= λ wfs.
    some (if leb 4 (length val) then get_be (take 4 val) ∷ wfs else wfs)
work_factors ((k, missing) ∷ items) = none
work_factors ((k, fault) ∷ items) = none

-- `limit / (blockValHeaderSize + PayloadSize)`, for a limit that is not negative; 0 is the default.
abbrev pub capacity : ℕ → ℕ
capacity limit = (if limit == 0 then default_storage_limit else limit) / 4113

abbrev pub half_capacity : ℕ → ℕ
half_capacity limit = capacity limit / 2

-- The index is the code's, not the `halfCapacity` of blockstore/design.md. `none` is an index out of
-- range.
unfoldable pub median_of : ℕ → List ℕ → Option ℕ
median_of limit wfs =
    if leb (length wfs) (half_capacity limit)
    then some 0
    else get_elem? (sort_ints wfs) (length wfs - half_capacity limit)

-- What becomes of the kept number, and whether there was an error; `none` is an index out of range,
-- which ends the program.
unfoldable pub keep_median : ℕ → ℕ → Option (List ℕ) → Option (ℕ × Bool)
keep_median limit kept none = some (kept, false)
keep_median limit kept (some wfs) = median_of limit wfs >>= λ wf. some (wf, true)

-- `none` is an error, or an index out of range.
module _ (kv : Kv) where
  open kv use {Db, scan}

  unfoldable pub compute_median : Db → ℕ → ℕ → Option ℕ
  compute_median db now limit =
      work_factors (scan db now (b't' ∷ [])) >>= λ wfs. median_of limit wfs

  unfoldable pub refresh_median : Db → ℕ → ℕ → ℕ → Option (ℕ × Bool)
  unfolding keep_median
  refresh_median db now limit kept = keep_median limit kept (work_factors (scan db now (b't' ∷ [])))

  -- The updater's loop, over the store and the time of each round until the store is closed.
  unfoldable pub run_median_updater : List (Db × ℕ) → ℕ → ℕ → Option ℕ
  run_median_updater [] limit kept = some kept
  run_median_updater ((db, now) ∷ rounds) limit kept =
      refresh_median db now limit kept >>= λ r. run_median_updater rounds limit r.0
