-- ===== src/Blockstore/Badger.antt =====
-- blockstore/badger.go: `BadgerStore`, its keys and values, and the operations on one block.
pub mod Values
pub mod Keys
pub mod Writes
pub mod Puts
pub mod Indexed
pub mod Listing
pub mod Median
pub mod Evict
use sneakernet.Prelude.{
  ℕ, zero, suc, ◌+◌, ◌-◌, ◌/◌, ◌≡◌, Option, none, some, Bool, true, false, List, [], ◌∷◌, ◌++◌, ltb,
  leb, ◌==◌, ◌&&◌, length, take, drop, slice, replicate, copy_at, ◌>>=◌, if◌then◌else◌,
}
use sneakernet.Integers.{ℤ, pos, negsuc, to_u64, from_u64}
use sneakernet.Bytes.{put_be, get_be}
use sneakernet.Blockstore.Pow.{Hashes, compute_id, work_factor}
use sneakernet.Blockstore.Kv.{Kv, Fetch, found, missing, fault, second, update}

-- The keys: 'b' and an ID, 't', a time and an ID, 'x' and an ID.
unfoldable pub block_key : List ℕ → List ℕ
block_key id = b'b' ∷ id

abbrev from_epoch : ℤ → ℕ
from_epoch (pos n) = to_u64 (pos n)
from_epoch (negsuc n) = 0

-- A time before 1970 counts as 1970.
unfoldable pub trav_key : ℤ → List ℕ → List ℕ
trav_key created_at id = b't' ∷ put_be 8 (from_epoch created_at) ++ id

unfoldable pub tomb_key : List ℕ → List ℕ
tomb_key id = b'x' ∷ id

abbrev pub block_val_header_size : ℕ
block_val_header_size = 17

abbrev pub legacy_block_val_header_size : ℕ
legacy_block_val_header_size = 16

unfoldable pub encode_block_val : List ℕ → ℕ → ℤ → ℕ → List ℕ → List ℕ
encode_block_val stamp wf created_at tag payload =
    let val = replicate 4113 0 in
    let val = copy_at 0 val stamp in
    let val = copy_at 4 val (put_be 4 wf) in
    let val = copy_at 8 val (put_be 8 (to_u64 created_at)) in
    let val = copy_at 16 val (tag ∷ []) in copy_at 17 val payload

-- The value under a traversal key.
unfoldable pub trav_val : ℕ → ℕ → List ℕ
trav_val wf tag = copy_at 4 (copy_at 0 (replicate 5 0) (put_be 4 wf)) (tag ∷ [])

-- The fields of a block value.
abbrev pub wf_of : List ℕ → ℕ
wf_of val = get_be (slice 4 8 val)

abbrev pub created_at_of : List ℕ → ℤ
created_at_of val = from_u64 (get_be (slice 8 16 val))

-- A stored value keeps its place if its work factor is no lower.
abbrev pub keeps : ℕ → List ℕ → Bool
keeps wf existing = leb 16 (length existing) && leb wf (wf_of existing)

abbrev pub old_created_at : List ℕ → ℤ
old_created_at existing = if leb 16 (length existing) then created_at_of existing else pos 0

-- `now.Unix()`.
abbrev pub unix : ℕ → ℤ
unix now = pos (now / second)

-- The answers of the reading operations: a value, `ErrNotFound`, or another error.
pub data Answer {ℓ} (A : Type ℓ) : Type ℓ where
  answer : A → Answer A
  not_found failed : Answer A

module _ (kv : Kv) (hashes : Hashes) where
  open kv use {Db, get, set, delete}

  -- The two entries that `Put` sets, both without a time to live: a block does not expire.
  write_block : Db → List ℕ → List ℕ → ℕ → ℤ → ℕ → List ℕ → Option Db
  write_block db id stamp wf created_at tag payload = do
    db ← set db (block_key id) (encode_block_val stamp wf created_at tag payload)
    set db (trav_key created_at id) (trav_val wf tag)

  -- The transaction of `Put`, behind the test for a tombstone.
  put_block : Db → ℕ → List ℕ → ℕ → List ℕ → ℕ → List ℕ → Option Db
  unfolding write_block
  put_block db now id wf stamp tag payload = elim (get db now (block_key id)) [
    | fault ↦ none
    | missing ↦ write_block db id stamp wf (unix now) tag payload
    | found existing ↦
        if keeps wf existing
        then some db
        else delete db (trav_key (old_created_at existing) id) >>= λ db.
            write_block db id stamp wf (unix now) tag payload
  ]

  put_txn : Db → ℕ → List ℕ → ℕ → List ℕ → ℕ → List ℕ → Option Db
  unfolding put_block
  put_txn db now id wf stamp tag payload = elim (get db now (tomb_key id)) [
    | found _ ↦ some db
    | fault ↦ none
    | missing ↦ put_block db now id wf stamp tag payload
  ]

  -- `Put` up to the storage limit: the new database, or `none` for an error, which changes nothing.
  unfoldable pub store_block : Db → ℕ → List ℕ → List ℕ → ℕ → Option Db
  unfolding put_txn update
  store_block db now stamp payload tag = update kv db (
      put_txn db now (compute_id hashes payload) (work_factor hashes stamp payload) stamp tag
        payload)

  abbrev wf_answer : Fetch → Answer ℕ
  wf_answer missing = not_found
  wf_answer fault = failed
  wf_answer (found val) = if ltb (length val) 8 then failed else answer (wf_of val)

  unfoldable pub get_work_factor : Db → ℕ → List ℕ → Answer ℕ
  get_work_factor db now id = wf_answer (get db now (block_key id))

  abbrev block_answer : Fetch → Answer (List ℕ × List ℕ)
  block_answer missing = not_found
  block_answer fault = failed
  block_answer (found val) =
      if length val == 4112
      then answer (take 4 val, slice 16 4112 val)
      else if ltb (length val) 4113
      then failed
      else answer (take 4 val, slice 17 4113 val)

  unfoldable pub get_block : Db → ℕ → List ℕ → Answer (List ℕ × List ℕ)
  get_block db now id = block_answer (get db now (block_key id))

  abbrev pub tomb_answer : Fetch → Answer Bool
  tomb_answer (found _) = answer true
  tomb_answer missing = answer false
  tomb_answer fault = failed

  -- A tombstone counts as present.
  unfoldable pub has : Db → ℕ → List ℕ → Answer Bool
  has db now id = elim (get db now (block_key id)) [
    | found _ ↦ answer true
    | fault ↦ failed
    | missing ↦ tomb_answer (get db now (tomb_key id))
  ]
