-- ===== src/Blockstore/Kv.antt =====
-- The key-value database under blockstore/badger.go (BadgerDB): its operations as the store calls
-- them, and what the store relies on. The database is not part of the repository.
pub mod Table
use sneakernet.Prelude.{
  ℕ, ◌+◌, ◌/◌, ◌≡◌, Option, none, some, Bool, true, false, List, [], ◌∷◌, All, Elem, ◌==◌, ◌&&◌,
  arith, ltb, bytes_eq, if◌then◌else◌,
}
use sneakernet.Integers.{ℤ, pos}
use sneakernet.Bytes.Order.{Ascending}

-- The outcome of a read: a value, `ErrKeyNotFound`, or any other error.
pub data Fetch : Type 0 where
  found : List ℕ → Fetch
  missing fault : Fetch

unfoldable pub starts_with : List ℕ → List ℕ → Bool
starts_with [] k = true
starts_with (p ∷ ps) [] = false
starts_with (p ∷ ps) (c ∷ k) = (p == c) && starts_with ps k

abbrev pub second : ℕ
second = 1_000_000_000

-- Times are nanoseconds since 1970. A transaction is a database that is written step by step;
-- `none` is an error of the step. `commits` says whether the commit of the second over the first
-- succeeds.
pub record Kv : Type 1 where
  pub Db : Type 0
  pub get : Db → ℕ → List ℕ → Fetch
  pub set : Db → List ℕ → List ℕ → Option Db
  pub set_ttl : Db → ℕ → List ℕ → List ℕ → ℤ → Option Db
  pub delete : Db → List ℕ → Option Db
  pub commits : Db → Db → Bool
  -- The items under a prefix, in the iterator's order, each with the outcome of reading its value.
  pub scan : Db → ℕ → List ℕ → List (List ℕ × Fetch)
  -- The sum of the two sizes that `DB.Size` reports.
  pub size : Db → ℕ
  pub get-set :
      (db db' : Db) (now : ℕ) (k v j : List ℕ)
      → set db k v ≡ some db'
      → get db' now j ≡ (if bytes_eq k j then found v else get db now j)
  -- An entry with a time to live that is not negative expires by whole seconds.
  pub get-set_ttl :
      (db db' : Db) (at now : ℕ) (k v : List ℕ) (ttl : ℕ) (j : List ℕ)
      → set_ttl db at k v (pos ttl) ≡ some db'
      → get db' now j ≡ (
          if bytes_eq k j
          then (if ltb (now / second) ((at + ttl) / second) then found v else missing)
          else get db now j)
  -- Whatever the time to live, other entries stay.
  pub get-set_ttl_other :
      (db db' : Db) (at now : ℕ) (k v : List ℕ) (ttl : ℤ) (j : List ℕ)
      → set_ttl db at k v ttl ≡ some db'
      → bytes_eq k j ≡ false
      → get db' now j ≡ get db now j
  pub get-delete :
      (db db' : Db) (now : ℕ) (k j : List ℕ)
      → delete db k ≡ some db'
      → get db' now j ≡ (if bytes_eq k j then missing else get db now j)
  -- The iterator gives the keys in order, and exactly those under the prefix that are there.
  pub scan-Ascending : (db : Db) (now : ℕ) (prefix : List ℕ) → Ascending (scan db now prefix)
  pub scan-sound :
      (db : Db) (now : ℕ) (prefix : List ℕ)
      → All
          (λ item. (get db now item.0 ≡ item.1) × (starts_with prefix item.0 ≡ true))
          (scan db now prefix)
  pub scan-complete :
      (db : Db) (now : ℕ) (prefix k v : List ℕ)
      → get db now k ≡ found v
      → starts_with prefix k ≡ true
      → Elem (k, found v) (scan db now prefix)

module _ (kv : Kv) where
  open kv use {Db, commits}

  abbrev settle : Db → Option Db → Option Db
  settle db none = none
  settle db (some db') = if commits db db' then some db' else none

  -- `db.Update`: the outcome of the transaction, committed. `none` is an error, and changes nothing.
  unfoldable pub update : Db → Option Db → Option Db
  update db body = settle db body

  pub update-eq-some :
      (db : Db) (body : Option Db) {db' : Db} → update db body ≡ some db' → body ≡ some db'
  unfolding update
  update-eq-some db none h = h
  update-eq-some db (some e) h = ground arith
