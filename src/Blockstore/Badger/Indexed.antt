-- ===== src/Blockstore/Badger/Indexed.antt =====
-- The traversal entries, by which blocks are listed, stay in step with the blocks.
use sneakernet.Prelude.{
  ℕ, ◌^◌, ◌/◌, ◌<◌, ◌≤◌, ◌≡◌, refl, ◌∙◌, some, List, true, false, Bool-cases, arith, inl, inr,
  length, le→leb, bytes_eq, bytes_eq→eq, if◌then◌else◌,
}
use sneakernet.Blockstore.{IsStamp, IsPayload}
use sneakernet.Blockstore.Pow.{Hashes, work_factor}
use sneakernet.Blockstore.Pow.Range.{work_factor-le}
use sneakernet.Blockstore.Kv.{Kv, found, second}
use sneakernet.Blockstore.Badger.{
  block_key, encode_block_val, trav_val, unix, from_epoch, store_block, wf_of, created_at_of,
}
use sneakernet.Blockstore.Badger.Keys.{
  time_key, trav_key-time_key, from_epoch-lt, time_key_apart, time_key_same, time_key-injective,
}
use sneakernet.Blockstore.Badger.Values.{
  length-encode_block_val, wf_of-encode_block_val, created_at_of-encode_block_val,
}
use sneakernet.Blockstore.Badger.Writes.{Written, store_block_cases}
use sneakernet.Blockstore.Badger.Puts.{Written-block_key, Written-time_key}

-- Every block has its 16-byte header and its payload, and a traversal entry under its time with its work
-- factor; every traversal entry belongs to a block with that time. Blocks do not expire.
pub record IsIndexed (kv : Kv) (db : kv.Db) : Type 0 where
  pub steady : (a b : ℕ) (j : List ℕ) → kv.get db a (block_key j) ≡ kv.get db b (block_key j)
  pub whole : (at : ℕ) (j val : List ℕ) → kv.get db at (block_key j) ≡ found val → 4112 ≤ length val
  pub listed :
      (at : ℕ) (j val : List ℕ)
      → kv.get db at (block_key j) ≡ found val
      → (tag : ℕ) × (kv.get db at (time_key (from_epoch (created_at_of val)) j)
          ≡ found (trav_val (wf_of val) tag))
  pub backed :
      (at t : ℕ) (j v : List ℕ)
      → t < 256 ^ 8
      → kv.get db at (time_key t j) ≡ found v
      → (val : List ℕ) × (kv.get db at (block_key j) ≡ found val)
        × (from_epoch (created_at_of val) ≡ t)

module _ (kv : Kv) (hashes : Hashes) where
  open kv use {Db, get}

  module _ {db db' : Db} {now : ℕ} {id stamp : List ℕ} {wf tag : ℕ} {payload : List ℕ}
      (w : Written kv hashes db db' now id stamp wf tag payload) (hs : IsStamp stamp)
      (hp : IsPayload payload) (small : wf < 2 ^ 32) (era : now / second < 2 ^ 63)
      (ix : IsIndexed kv db) where
    abbrev epoch : ℕ
    epoch = from_epoch (unix now)

    block_at :
        (at : ℕ) (j : List ℕ)
        → get db' at (block_key j) ≡ (
            if bytes_eq id j
            then found (encode_block_val stamp wf (unix now) tag payload)
            else get db at (block_key j))
    block_at = Written-block_key kv hashes w

    new_value :
        (at : ℕ) (j val : List ℕ)
        → bytes_eq id j ≡ true
        → get db' at (block_key j) ≡ found val
        → encode_block_val stamp wf (unix now) tag payload ≡ val
    new_value at j val this e = cc (rw (block_at at j, this) at e)

    new_time : created_at_of (encode_block_val stamp wf (unix now) tag payload) ≡ unix now
    new_time = created_at_of-encode_block_val stamp wf (unix now) tag payload hs hp era

    -- The traversal entries of other blocks stay.
    other_entry :
        (at t : ℕ) (j : List ℕ)
        → t < 256 ^ 8
        → bytes_eq id j ≡ false
        → get db' at (time_key t j) ≡ get db at (time_key t j)
    other_entry at t j ht other =
        let kept : w.removed (time_key t j) ≡ false = elim (w.older) [
          | inl (absent, none_removed) ↦ none_removed (time_key t j)
          | inr (existing, present, lower, removed) ↦
              removed (time_key t j)
              ∙ rw trav_key-time_key (time_key_apart _ t id j (from_epoch-lt _) ht other)
        ] in
        rw (
          Written-time_key kv hashes w at t j,
          time_key_apart epoch t id j (from_epoch-lt (unix now)) ht other,
          kept,
        )

    entry_at :
        (at : ℕ) (j : List ℕ)
        → bytes_eq id j ≡ true
        → get db' at (time_key epoch j) ≡ found (trav_val wf tag)
    entry_at at j this =
        rw (Written-time_key kv hashes w at epoch j, time_key_same epoch epoch id j refl this)

    Written-steady : (a b : ℕ) (j : List ℕ) → get db' a (block_key j) ≡ get db' b (block_key j)
    Written-steady a b j = rw (block_at a j, block_at b j, ix.steady a b j)

    Written-whole :
        (at : ℕ) (j val : List ℕ) → get db' at (block_key j) ≡ found val → 4112 ≤ length val
    Written-whole at j val e = elim (Bool-cases (bytes_eq id j)) [
      | inr other ↦ ix.whole at j val (rw (block_at at j, other) at e)
      | inl this ↦
          rw (← new_value at j val this e)
            (omega (arith, length-encode_block_val stamp wf (unix now) tag payload hs hp))
    ]

    Written-listed :
        (at : ℕ) (j val : List ℕ)
        → get db' at (block_key j) ≡ found val
        → (g : ℕ) × (get db' at (time_key (from_epoch (created_at_of val)) j)
            ≡ found (trav_val (wf_of val) g))
    Written-listed at j val e = elim (Bool-cases (bytes_eq id j)) [
      | inr other ↦
          let (g, entry) = ix.listed at j val (rw (block_at at j, other) at e) in
          (g, other_entry at _ j (from_epoch-lt _) other ∙ entry)
      | inl this ↦
          let wfs = wf_of-encode_block_val stamp wf (unix now) tag payload hs hp small in
          (tag, rw (← new_value at j val this e, new_time, wfs) (entry_at at j this))
    ]

    -- An older copy has lost its traversal entry.
    old_entry :
        (at t : ℕ) (j v val : List ℕ)
        → bytes_eq id j ≡ true
        → get db at (block_key j) ≡ found val
        → from_epoch (created_at_of val) ≡ t
        → w.removed (time_key t j) ≡ true
    old_entry at t j v val this present same =
        let mine : get db now (block_key id) ≡ found val =
          ix.steady now at id ∙ rw (← bytes_eq→eq id j this) at present in
        elim (w.older) [
          | inl (absent, none_removed) ↦ absurd (cc (absent, mine))
          | inr (existing, old, lower, removed) ↦
              let values : existing ≡ val = cc (old, mine) in
              removed (time_key t j)
              ∙ rw (
                trav_key-time_key,
                values,
                le→leb 16 (length val) (omega (arith, ix.whole now id val mine)),
                time_key_same (from_epoch (created_at_of val)) t id j same this,
              )
        ]

    -- The only traversal entry of the block is the new one.
    own_time :
        (at t : ℕ) (j v : List ℕ)
        → t < 256 ^ 8
        → bytes_eq id j ≡ true
        → get db' at (time_key t j) ≡ found v
        → epoch ≡ t
    own_time at t j v ht this e =
        let reads = Written-time_key kv hashes w at t j in
        elim (Bool-cases (bytes_eq (time_key epoch id) (time_key t j))) [
          | inl new ↦ (time_key-injective epoch t id j (from_epoch-lt (unix now)) ht new).0
          | inr not_new ↦ elim (Bool-cases (w.removed (time_key t j))) [
            | inl gone ↦ absurd (cc (rw (reads, not_new, gone) at e))
            | inr kept ↦
                let (val, present, same) = ix.backed at t j v ht (rw (reads, not_new, kept) at e) in
                absurd (cc (old_entry at t j v val this present same, kept))
          ]
        ]

    Written-backed :
        (at t : ℕ) (j v : List ℕ)
        → t < 256 ^ 8
        → get db' at (time_key t j) ≡ found v
        → (val : List ℕ) × (get db' at (block_key j) ≡ found val)
          × (from_epoch (created_at_of val) ≡ t)
    Written-backed at t j v ht e = elim (Bool-cases (bytes_eq id j)) [
      | inr other ↦
          let (val, present, same) =
            ix.backed at t j v ht (rw (other_entry at t j ht other) at e) in
          (val, rw (block_at at j, other) present, same)
      | inl this ↦ (
        encode_block_val stamp wf (unix now) tag payload,
        rw (block_at at j, this),
        rw new_time (own_time at t j v ht this e),
      )
    ]

  -- A `Put` that succeeds, of a stamp and a payload of their sizes and at a time that an `int64`
  -- holds, keeps blocks and traversal entries in step: `IsIndexed` holds after it if it held before.
  pub store_block-IsIndexed :
      (db db' : Db) (now : ℕ) (stamp payload : List ℕ) (tag : ℕ)
      → IsStamp stamp
      → IsPayload payload
      → now / second < 2 ^ 63
      → IsIndexed kv db
      → store_block kv hashes db now stamp payload tag ≡ some db'
      → IsIndexed kv db'
  store_block-IsIndexed db db' now stamp payload tag hs hp era ix done =
      let wf = work_factor hashes stamp payload in
      let small : wf < 2 ^ 32 = omega (arith, work_factor-le hashes stamp payload) in
      elim (store_block_cases kv hashes db db' now stamp payload tag done) [
        | inl (same, _) ↦ rw same ix
        | inr (_, w) ↦ record {
          steady = Written-steady w hs hp small era ix;
          whole = Written-whole w hs hp small era ix;
          listed = Written-listed w hs hp small era ix;
          backed = Written-backed w hs hp small era ix;
        }
      ]
