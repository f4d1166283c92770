-- ===== src/Blockstore/Badger/Puts.antt =====
-- What `Put` does to reads: it never lowers a work factor, and touches no other block.
use sneakernet.Prelude.{
  ℕ, ◌≡◌, ◌≤◌, sym, ◌∙◌, some, List, true, false, Bool-cases, arith, inl, inr, length, bytes_eq,
  bytes_eq→eq, ltb, if◌then◌else◌,
}
use sneakernet.Blockstore.{IsStamp, IsPayload}
use sneakernet.Blockstore.Pow.{Hashes, compute_id, work_factor}
use sneakernet.Blockstore.Pow.Range.{work_factor-le}
use sneakernet.Blockstore.Kv.{Kv, found, missing}
use sneakernet.Blockstore.Badger.{
  block_key, tomb_key, encode_block_val, trav_val, unix, from_epoch, Answer, answer, failed,
  store_block, get_block, get_work_factor, wf_of, keeps,
}
use sneakernet.Blockstore.Badger.Keys.{
  time_key, trav_key-time_key, time_key-ne-block_key, time_key-ne-tomb_key, block_key-ne-tomb_key,
  block_key-ne-time_key, block_key-bytes_eq,
}
use sneakernet.Blockstore.Badger.Values.{
  length-encode_block_val, take-encode_block_val, wf_of-encode_block_val, slice-encode_block_val,
}
use sneakernet.Blockstore.Badger.Writes.{Written, Refuses, store_block_cases}

abbrev answered : List ℕ → Answer ℕ
answered val = if ltb (length val) 8 then failed else answer (wf_of val)

found_work_factor :
    (val : List ℕ) (wf before : ℕ)
    → 16 ≤ length val
    → keeps wf val ≡ false
    → answered val ≡ answer before
    → before ≤ wf
found_work_factor val wf before size lower e = ground arith

module _ (kv : Kv) (hashes : Hashes) where
  open kv use {Db, get}

  module _ {db db' : Db} {now : ℕ} {id stamp : List ℕ} {wf tag : ℕ} {payload : List ℕ}
      (w : Written kv hashes db db' now id stamp wf tag payload) where
    removed-block_key : (j : List ℕ) → w.removed (block_key j) ≡ false
    removed-block_key j = elim (w.older) [
      | inl (e, none_removed) ↦ none_removed (block_key j)
      | inr (existing, e, lower, removed) ↦
          removed (block_key j) ∙ rw trav_key-time_key (time_key-ne-block_key _ id j)
    ]

    removed-tomb_key : (j : List ℕ) → w.removed (tomb_key j) ≡ false
    removed-tomb_key j = elim (w.older) [
      | inl (e, none_removed) ↦ none_removed (tomb_key j)
      | inr (existing, e, lower, removed) ↦
          removed (tomb_key j) ∙ rw trav_key-time_key (time_key-ne-tomb_key _ id j)
    ]

    pub Written-block_key :
        (at : ℕ) (j : List ℕ)
        → get db' at (block_key j) ≡ (
            if bytes_eq id j
            then found (encode_block_val stamp wf (unix now) tag payload)
            else get db at (block_key j))
    Written-block_key at j = rw (
      w.reads at (block_key j),
      trav_key-time_key,
      time_key-ne-block_key _ id j,
      block_key-bytes_eq,
      removed-block_key j,
    )

    pub Written-tomb_key : (at : ℕ) (j : List ℕ) → get db' at (tomb_key j) ≡ get db at (tomb_key j)
    Written-tomb_key at j = rw (
      w.reads at (tomb_key j),
      trav_key-time_key,
      time_key-ne-tomb_key _ id j,
      block_key-ne-tomb_key,
      removed-tomb_key j,
    )

    pub Written-time_key :
        (at t : ℕ) (j : List ℕ)
        → get db' at (time_key t j) ≡ (
            if bytes_eq (time_key (from_epoch (unix now)) id) (time_key t j)
            then found (trav_val wf tag)
            else if w.removed (time_key t j)
            then missing
            else get db at (time_key t j))
    Written-time_key at t j =
        rw (w.reads at (time_key t j), trav_key-time_key, block_key-ne-time_key t j id)

    -- The copy that a write replaces has a lower work factor.
    older_work_factor :
        (j : List ℕ) (before : ℕ)
        → bytes_eq id j ≡ true
        → ((j val : List ℕ) → get db now (block_key j) ≡ found val → 16 ≤ length val)
        → get_work_factor kv hashes db now j ≡ answer before
        → before ≤ wf
    unfolding get_work_factor
    older_work_factor j before this whole e =
        let asked = rw (sym (bytes_eq→eq id j this)) at e in
        elim (w.older) [
          | inl (absent, _) ↦ absurd (cc (rw absent at asked))
          | inr (existing, present, lower, _) ↦
              found_work_factor existing wf before (whole id existing present) lower
                (rw present at asked)
        ]

  module _ (db db' : Db) (now : ℕ) (stamp payload : List ℕ) (tag : ℕ)
      (done : store_block kv hashes db now stamp payload tag ≡ some db') where
    id : List ℕ
    id = compute_id hashes payload

    wf : ℕ
    wf = work_factor hashes stamp payload

    -- A `Put` that succeeds and that neither a tombstone nor a copy with at least its work factor
    -- refuses stores the block: afterwards `Get` of its ID returns the stamp and
    -- the payload, at any time, and `Get` of any other ID returns what it returned before.
    pub get_block-store_block :
        IsStamp stamp
        → IsPayload payload
        → ¬ Refuses kv hashes db now (compute_id hashes payload) (work_factor hashes stamp payload)
        → (at : ℕ) (j : List ℕ)
        → get_block kv hashes db' at j ≡ (
            if bytes_eq (compute_id hashes payload) j
            then answer (stamp, payload)
            else get_block kv hashes db at j)
    unfolding get_block
    get_block-store_block hs hp accepted at j =
        elim (store_block_cases kv hashes db db' now stamp payload tag done) [
          | inl (same, refused) ↦ absurd (accepted refused)
          | inr (clear, w) ↦ elim (Bool-cases (bytes_eq (compute_id hashes payload) j)) [
            | inr other ↦ rw (Written-block_key w at j, other)
            | inl this ↦ rw (
              Written-block_key w at j,
              this,
              length-encode_block_val stamp _ (unix now) tag payload hs hp,
              take-encode_block_val stamp _ (unix now) tag payload hs hp,
              slice-encode_block_val stamp _ (unix now) tag payload hs hp,
            )
          ]
        ]

    -- A `Put` that succeeds lowers no work factor: what `GetWorkFactor` answers for an ID before, it answers at
    -- least as much after, if the values that are stored have their 16-byte header.
    pub get_work_factor_mono :
        IsStamp stamp
        → IsPayload payload
        → ((j val : List ℕ) → get db now (block_key j) ≡ found val → 16 ≤ length val)
        → (j : List ℕ) (before : ℕ) → get_work_factor kv hashes db now j ≡ answer before
        → (after : ℕ) × (get_work_factor kv hashes db' now j ≡ answer after) × (before ≤ after)
    unfolding get_work_factor
    get_work_factor_mono hs hp whole j before e =
        elim (store_block_cases kv hashes db db' now stamp payload tag done) [
          | inl (same, refused) ↦ (before, rw same e, omega arith)
          | inr (clear, w) ↦ elim (Bool-cases (bytes_eq (compute_id hashes payload) j)) [
            | inr other ↦ (before, rw (Written-block_key w now j, other) e, omega arith)
            | inl this ↦ (
              work_factor hashes stamp payload,
              rw (
                Written-block_key w now j,
                this,
                length-encode_block_val stamp _ (unix now) tag payload hs hp,
                wf_of-encode_block_val stamp (work_factor hashes stamp payload) (unix now) tag
                    payload hs hp (omega (arith, work_factor-le hashes stamp payload)),
              ),
              older_work_factor w j before this whole e,
            )
          ]
        ]
