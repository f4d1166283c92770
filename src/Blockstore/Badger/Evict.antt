-- ===== src/Blockstore/Badger/Evict.antt =====
-- blockstore/badger.go: `Evict`, and `Put` with the storage limit enforced behind it.
pub mod Erased
pub mod Rounds
pub mod Removed
pub mod Stored
pub mod Result
pub mod Sorted
pub mod Groups
pub mod Policy
pub mod Covers
pub mod Choice
pub mod Refine
use sneakernet.Prelude.{
  ℕ, zero, suc, ◌+◌, ◌-◌, ◌/◌, Option, none, some, ◌>>=◌, Bool, List, [], ◌∷◌, ◌++◌, map, Elem, ltb,
  leb, ◌==◌, ◌&&◌, true, false, if◌then◌else◌, length, drop, get_or,
}
use sneakernet.Integers.{ℤ, pos, negsuc, ltb_ℤ, sub_ℕ, add_i64, sub_i64}
use sneakernet.Blockstore.Pow.{Hashes}
use sneakernet.Blockstore.Kv.{Kv, Fetch, found, second, update}
use sneakernet.Blockstore.Badger.{block_key, trav_key, tomb_key, wf_of, created_at_of, store_block}
use sneakernet.Blockstore.Badger.Listing.{Item}

-- `blockValHeaderSize + PayloadSize`, and `legacyBlockValHeaderSize + PayloadSize`.
abbrev pub block_size : ℕ
block_size = 4113

abbrev pub legacy_block_size : ℕ
legacy_block_size = 4112

abbrev pub evict_batch : ℕ
evict_batch = 10

pub record EvictCandidate : Type 0 where
  pub id : List ℕ
  pub created_at : ℤ
  pub wf : ℕ
  pub tag : ℕ

-- The fields that a value is too short for are 0.
unfoldable pub candidate : List ℕ → List ℕ → EvictCandidate
candidate key val = record {
  id = drop 1 key;
  created_at = if leb legacy_block_size (length val) then created_at_of val else pos 0;
  wf = if leb legacy_block_size (length val) then wf_of val else 0;
  tag = if leb block_size (length val) then get_or val 16 0 else 0;
}

abbrev pub candidate_value : List ℕ → Fetch → Option (List EvictCandidate)
candidate_value key (found val) = some (candidate key val ∷ [])
candidate_value key _ = none

-- An item of the scan: a key of another length is passed over, a value that cannot be read is an
-- error.
abbrev pub scan_item : Item → Option (List EvictCandidate)
scan_item (key, f) = if length key == 33 then candidate_value key f else some []

unfoldable pub candidates : List Item → Option (List EvictCandidate)
candidates [] = some []
candidates (x ∷ items) = scan_item x >>= λ c. candidates items >>= λ all. some (c ++ all)

-- What the two maps hold under a tag: the bytes in use, and the candidates that are left.
pub record TagGroup : Type 0 where
  pub tag : ℕ
  pub usage : ℕ
  pub queue : List EvictCandidate

unfoldable pub add_candidate : List TagGroup → EvictCandidate → List TagGroup
add_candidate [] c = record { tag = c.tag; usage = block_size; queue = c ∷ [] } ∷ []
add_candidate (g ∷ gs) c =
    if g.tag == c.tag
    then record g { usage = g.usage + block_size; queue = g.queue ++ c ∷ [] } ∷ gs
    else g ∷ add_candidate gs c

unfoldable pub per_tag : List TagGroup → List EvictCandidate → List TagGroup
per_tag gs [] = gs
per_tag gs (c ∷ all) = per_tag (add_candidate gs c) all

-- A `time.Duration` in whole seconds, towards 0.
abbrev pub whole_seconds : ℤ → ℤ
whole_seconds (pos n) = pos (n / second)
whole_seconds (negsuc n) = sub_ℕ 0 (suc n / second)

-- The tag to evict from, by how much it is over its reservation, and its first candidate.
pub record Target : Type 0 where
  pub over : ℤ
  pub tag : ℕ
  pub first : EvictCandidate

-- Takes the first candidate of a tag off its list. The usage counts the list, so it does not fall
-- below 0.
unfoldable pub pop_tag : ℕ → List TagGroup → List TagGroup
pop_tag t [] = []
pop_tag t (g ∷ gs) =
    if g.tag == t
    then record g { usage = g.usage - block_size; queue = drop 1 g.queue } ∷ gs
    else g ∷ pop_tag t gs

-- `lifetime wf` is `time.Duration(float64(24*time.Hour) * math.Pow(phi, float64(wf)/2))`.
module _ (lifetime : ℕ → ℤ) where
  -- A negative work factor counts as 0.
  abbrev pub ttl_from_work_factor : ℤ → ℤ
  ttl_from_work_factor (pos wf) = lifetime wf
  ttl_from_work_factor (negsuc n) = lifetime 0

  unfoldable pub logical_expiry : EvictCandidate → ℤ
  logical_expiry c = add_i64 c.created_at (whole_seconds (ttl_from_work_factor (pos c.wf)))

  -- `sort.Slice`, which leaves the order of candidates with one expiry open.
  unfoldable pub insert_candidate : EvictCandidate → List EvictCandidate → List EvictCandidate
  insert_candidate c [] = c ∷ []
  insert_candidate c (d ∷ ds) =
      if ltb_ℤ (logical_expiry d) (logical_expiry c) then d ∷ insert_candidate c ds else c ∷ d ∷ ds

  unfoldable pub sort_candidates : List EvictCandidate → List EvictCandidate
  sort_candidates [] = []
  sort_candidates (c ∷ cs) = insert_candidate c (sort_candidates cs)

  abbrev pub sort_group : TagGroup → TagGroup
  sort_group g = record g { queue = sort_candidates g.queue }

-- `reservations t` is 0 for a tag that has none.
module _ (reservations : ℕ → ℤ) where
  unfoldable pub over_of : TagGroup → ℤ
  over_of g = sub_i64 (pos g.usage) (reservations g.tag)

  -- One round of the range over the tags, of which the empty ones are passed over.
  abbrev pub further : Option Target → Target → Option Target
  further none this = some this
  further (some t) this = if ltb_ℤ t.over this.over then some this else some t

  -- One round of the range over the tags, of which the empty ones are passed over.
  unfoldable pub better : Option Target → TagGroup → Option Target
  better best g = elim (g.queue) [
    | [] ↦ best
    | c ∷ queue ↦ further best (record { over = over_of g; tag = g.tag; first = c })
  ]

  unfoldable pub furthest : Option Target → List TagGroup → Option Target
  furthest best [] = best
  furthest best (g ∷ gs) = furthest (better best g) gs

-- The number of evictions, the database after them, and whether all transactions succeeded.
pub record Eviction (D : Type 0) : Type 0 where
  pub count : ℕ
  pub db : D
  pub ok : Bool

pub record Settings : Type 0 where
  pub lifetime : ℕ → ℤ
  pub reservations : ℕ → ℤ
  -- `time.Now()` in the round of a number.
  pub clock : ℕ → ℕ
  -- The order in which the range of the round visits the tags.
  pub order : ℕ → List TagGroup → List TagGroup
  pub order-sound : (i : ℕ) (gs : List TagGroup) (g : TagGroup) → Elem g (order i gs) → Elem g gs
  pub order-complete : (i : ℕ) (gs : List TagGroup) (g : TagGroup) → Elem g gs → Elem g (order i gs)

module _ (kv : Kv) (s : Settings) where
  open kv use {Db, set_ttl, delete, scan, size}
  open s use {lifetime, reservations, clock, order}

  -- `2 * TTLFromWorkFactor(c.wf)`.
  abbrev pub tomb_ttl : ℕ → ℤ
  tomb_ttl wf = let ttl = ttl_from_work_factor lifetime (pos wf) in add_i64 ttl ttl

  -- The transaction for one block. That a key is not there is no error of `Delete`.
  unfoldable pub evict_one : Db → ℕ → EvictCandidate → Option Db
  unfolding update
  evict_one db now c = update kv db (do
    db ← delete db (block_key c.id)
    db ← delete db (trav_key c.created_at c.id)
    set_ttl db now (tomb_key c.id) [] (tomb_ttl c.wf))

  -- The loop, with `left` rounds to go and `evicted` behind it.
  unfoldable pub evict_loop : ℕ → ℕ → Db → List TagGroup → Eviction Db
  evict_loop zero evicted db gs = record { count = evicted; db = db; ok = true }
  evict_loop (suc left) evicted db gs = elim (furthest reservations none (order evicted gs)) [
    | none ↦ record { count = evicted; db = db; ok = true }
    | some t ↦ elim (evict_one db (clock evicted) t.first) [
      | none ↦ record { count = evicted; db = db; ok = false }
      | some db' ↦ evict_loop left (suc evicted) db' (pop_tag t.tag gs)
    ]
  ]

  unfoldable pub evict_all : Db → ℕ → Option (List EvictCandidate) → Eviction Db
  evict_all db n none = record { count = 0; db = db; ok = false }
  evict_all db n (some all) = evict_loop n 0 db (map (sort_group lifetime) (per_tag [] all))

  -- `Evict`; `now` is the time of the scan.
  unfoldable pub evict : Db → ℕ → ℤ → Eviction Db
  unfolding evict_all
  evict db now (pos zero) = record { count = 0; db = db; ok = true }
  evict db now (negsuc n) = record { count = 0; db = db; ok = true }
  evict db now (pos (suc n)) = evict_all db (suc n) (candidates (scan db now (b'b' ∷ [])))

  -- The number of blocks that `Put` evicts over the limit.
  abbrev pub needed : ℕ → ℕ → ℕ
  needed used limit = let n = (used - limit) / block_size + evict_batch in if ltb n 1 then 1 else n

  -- What `Put` does behind the transaction; a limit of 0 is none.
  unfoldable pub enforce_limit : ℕ → Db → ℕ → Db
  enforce_limit limit db now =
      if ltb 0 limit && ltb limit (size db)
      then (evict db now (pos (needed (size db) limit))).db
      else db

  -- `Put` with its storage limit: the new database, or `none` for an error.
  unfoldable pub put : Hashes → ℕ → Db → ℕ → List ℕ → List ℕ → ℕ → Option Db
  unfolding enforce_limit
  put hashes limit db now stamp payload tag =
      store_block kv hashes db now stamp payload tag >>= λ db. some (enforce_limit limit db now)
