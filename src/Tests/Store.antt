-- ===== src/Tests/Store.antt =====
-- Runs of the block store.
use sneakernet.Prelude.{
  ℕ, ◌≡◌, ◌≤◌, refl, sym, ap, ◌∙◌, Option, none, some, true, false, List, [], ◌∷◌, inl, inr, arith,
  length, replicate, bytes_eq, take, drop, slice, copy, copy_at, get_or, if◌then◌else◌,
}
use sneakernet.Integers.{pos, negsuc, to_u64, from_u64, ltb_ℤ}
use sneakernet.Bytes.{put_be, get_be, zeros-IsBytes}
use sneakernet.Blockstore.{encode_cursor, decode_cursor}
use sneakernet.Blockstore.Cursor.{decode_cursor-encode_cursor}
use sneakernet.Blockstore.Pow.{compute_id, work_factor, leading_zero_bits, mine_stamp, mined, drew}
use sneakernet.Blockstore.Pow.Zeros.{IsZeroCount, leading_zero_bits-IsZeroCount}
use sneakernet.Blockstore.Pow.Mining.{mine_stamp_first}
use sneakernet.Blockstore.Kv.{found, missing}
use sneakernet.Blockstore.Kv.Table.Scan.{table, empty}
use sneakernet.Blockstore.Badger.{
  block_key, trav_key, tomb_key, encode_block_val, trav_val, keeps, store_block, get_block,
  get_work_factor, has, answer,
}
use sneakernet.Blockstore.Badger.Writes.{Refuses}
use sneakernet.Blockstore.Badger.Puts.{get_block-store_block, get_work_factor_mono}
use sneakernet.Blockstore.Badger.Indexed.{IsIndexed, store_block-IsIndexed}
use sneakernet.Tests.{
  toy, stamp, weak_stamp, payload, stamp-IsStamp, weak_stamp-IsStamp, payload-IsPayload,
}

abbrev pub or_empty : Option table.Db → table.Db
or_empty none = empty
or_empty (some db) = db

-- The same payload twice: with a weak stamp, then with a better one.
unfoldable pub stored : table.Db
unfolding store_block
stored = or_empty (store_block table toy empty 5_000_000_000 weak_stamp payload 1)

unfoldable replaced : table.Db
unfolding store_block
replaced = or_empty (store_block table toy stored 7_000_000_000 stamp payload 0)

stored_run : store_block table toy empty 5_000_000_000 weak_stamp payload 1 ≡ some stored
unfolding stored store_block empty table toy compute_id work_factor leading_zero_bits trav_key
    block_key tomb_key encode_block_val trav_val put_be get_be take replicate copy copy_at get_or
    slice drop to_u64 from_u64
stored_run = refl

replaced_run : store_block table toy stored 7_000_000_000 stamp payload 0 ≡ some replaced
unfolding replaced stored store_block empty table toy compute_id work_factor leading_zero_bits
    trav_key block_key tomb_key encode_block_val trav_val put_be get_be take replicate copy copy_at
    get_or slice drop to_u64 from_u64
replaced_run = refl

-- A third `Put`, with the weak stamp again, changes nothing.
kept_run : store_block table toy replaced 8_000_000_000 weak_stamp payload 0 ≡ some replaced
unfolding replaced stored store_block empty table toy compute_id work_factor leading_zero_bits
    trav_key block_key tomb_key encode_block_val trav_val put_be get_be take replicate copy copy_at
    get_or slice drop to_u64 from_u64
kept_run = refl

factor_run : get_work_factor table toy replaced 8_000_000_000 (compute_id toy payload) ≡ answer 55
unfolding replaced stored store_block empty table toy compute_id work_factor leading_zero_bits
    trav_key block_key tomb_key encode_block_val trav_val put_be get_be take replicate copy copy_at
    get_or slice drop to_u64 from_u64 get_work_factor
factor_run = refl

has_run : has table toy replaced 8_000_000_000 (replicate 32 1) ≡ answer false
unfolding replaced stored store_block empty table toy compute_id work_factor leading_zero_bits
    trav_key block_key tomb_key encode_block_val trav_val put_be get_be take replicate copy copy_at
    get_or slice drop to_u64 from_u64 has
has_run = refl

empty-IsIndexed : IsIndexed table empty
unfolding empty table
empty-IsIndexed = record {
  steady = λ a b j. refl;
  whole = λ at j val e. absurd (cc e);
  listed = λ at j val e. absurd (cc e);
  backed = λ at t j v small e. absurd (cc e);
}

pub stored-IsIndexed : IsIndexed table stored
stored-IsIndexed =
    store_block-IsIndexed table toy empty stored 5_000_000_000 weak_stamp payload 1
      weak_stamp-IsStamp payload-IsPayload (omega arith) empty-IsIndexed stored_run

abbrev block_id : List ℕ
block_id = compute_id toy payload

unfoldable first_value : List ℕ
unfolding stored store_block empty table toy compute_id work_factor leading_zero_bits trav_key
    block_key tomb_key encode_block_val trav_val put_be get_be take replicate copy copy_at get_or
    slice drop to_u64 from_u64
first_value = elim (table.get stored 7_000_000_000 (block_key block_id)) [ found v ↦ v | _ ↦ [] ]

first_read : table.get stored 7_000_000_000 (block_key block_id) ≡ found first_value
unfolding first_value stored store_block empty table toy compute_id work_factor leading_zero_bits
    trav_key block_key tomb_key encode_block_val trav_val put_be get_be take replicate copy copy_at
    get_or slice drop to_u64 from_u64
first_read = refl

tomb_read : table.get stored 7_000_000_000 (tomb_key block_id) ≡ missing
unfolding stored store_block empty table toy compute_id work_factor leading_zero_bits trav_key
    block_key tomb_key encode_block_val trav_val put_be get_be take replicate copy copy_at get_or
    slice drop to_u64 from_u64
tomb_read = refl

not_kept : keeps (work_factor toy stamp payload) first_value ≡ false
unfolding first_value stored store_block empty table toy compute_id work_factor leading_zero_bits
    trav_key block_key tomb_key encode_block_val trav_val put_be get_be take replicate copy copy_at
    get_or slice drop to_u64 from_u64
not_kept = refl

accepted : ¬ Refuses table toy stored 7_000_000_000 block_id (work_factor toy stamp payload)
accepted (inl (v, e)) = cc (tomb_read, e)
accepted (inr (existing, e, kept)) =
    let same : found first_value ≡ found existing = sym first_read ∙ e in
    let values : first_value ≡ existing = cc same in
    cc (ap (keeps (work_factor toy stamp payload)) values, kept, not_kept)

get_block-store_block_example : get_block table toy replaced 9 block_id ≡ (
    if bytes_eq block_id block_id
    then answer (stamp, payload)
    else get_block table toy stored 9 block_id)
get_block-store_block_example =
    get_block-store_block table toy stored replaced 7_000_000_000 stamp payload 0 replaced_run
      stamp-IsStamp payload-IsPayload accepted 9 block_id

weak_factor : get_work_factor table toy stored 7_000_000_000 block_id ≡ answer 46
unfolding first_value stored store_block empty table toy compute_id work_factor leading_zero_bits
    trav_key block_key tomb_key encode_block_val trav_val put_be get_be take replicate copy copy_at
    get_or slice drop to_u64 from_u64 get_work_factor
weak_factor = refl

stored_whole :
    (j val : List ℕ) → table.get stored 7_000_000_000 (block_key j) ≡ found val → 16 ≤ length val
stored_whole j val e = omega (arith, stored-IsIndexed.whole 7_000_000_000 j val e)

get_work_factor_mono_example :
    (after : ℕ) × (get_work_factor table toy replaced 7_000_000_000 block_id ≡ answer after)
    × (46 ≤ after)
get_work_factor_mono_example =
    get_work_factor_mono table toy stored replaced 7_000_000_000 stamp payload 0 replaced_run
      stamp-IsStamp payload-IsPayload stored_whole block_id 46 weak_factor

falls_short : ltb_ℤ (pos (work_factor toy weak_stamp payload)) (pos 50) ≡ true
unfolding toy work_factor leading_zero_bits put_be get_be take replicate copy copy_at get_or
falls_short = refl

reaches : ltb_ℤ (pos (work_factor toy stamp payload)) (pos 50) ≡ false
unfolding toy work_factor leading_zero_bits put_be get_be take replicate copy copy_at get_or
reaches = refl

mine_run :
    mine_stamp toy payload (pos 50) (drew weak_stamp ∷ drew stamp ∷ []) ≡ some (mined stamp 55)
unfolding toy work_factor leading_zero_bits put_be get_be take replicate copy copy_at get_or
    mine_stamp
mine_run = refl

leading_zero_bits-IsZeroCount_example :
    IsZeroCount 3 (get_be (0 ∷ 5 ∷ 1 ∷ [])) (leading_zero_bits (0 ∷ 5 ∷ 1 ∷ []))
leading_zero_bits-IsZeroCount_example =
    leading_zero_bits-IsZeroCount (0 ∷ 5 ∷ 1 ∷ []) (omega arith, (omega arith, (omega arith, tt)))

mine_stamp_first_example :
    mine_stamp toy payload (pos 50) (drew weak_stamp ∷ drew stamp ∷ [])
    ≡ some (mined stamp (work_factor toy stamp payload))
mine_stamp_first_example =
    mine_stamp_first toy payload (pos 50) (drew weak_stamp ∷ []) stamp [] refl (falls_short, tt)
      reaches

decode_cursor-encode_cursor_example :
    decode_cursor (encode_cursor (record { created_at = negsuc 4; id = replicate 32 0 }))
    ≡ some (record { created_at = negsuc 4; id = replicate 32 0 })
decode_cursor-encode_cursor_example =
    decode_cursor-encode_cursor (record { created_at = negsuc 4; id = replicate 32 0 })
      (omega arith) (zeros-IsBytes 32)
