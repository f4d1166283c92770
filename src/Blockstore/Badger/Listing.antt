-- ===== src/Blockstore/Badger/Listing.antt =====
-- blockstore/badger.go: `ListBlocks`, over the traversal entries in the iterator's order, and
-- `ListIDs`.
pub mod Rows
pub mod Entries
pub mod Collect
pub mod Pages
pub mod Complete
use Prim.Native.Nat.{Ordering}
use sneakernet.Prelude.{
  ℕ, zero, suc, Option, none, some, ◌&&◌, ◌>>=◌, List, [], ◌∷◌, leb, ◌==◌, bytes_eq, length, get_or,
  take, drop, slice, replicate, if◌then◌else◌,
}
use sneakernet.Integers.{ℤ, pos, negsuc, ltb_ℤ, eq_ℤ, from_u64}
use sneakernet.Bytes.{get_be}
use sneakernet.Bytes.Order.{bytes_compare}
use sneakernet.Blockstore.{BlockRef, PageCursor, encode_cursor, decode_cursor}
use sneakernet.Blockstore.Kv.{Kv, Fetch, found}
use sneakernet.Blockstore.Badger.{trav_key}

abbrev pub Item : Type 0
Item = List ℕ × Fetch

-- `it.Seek`: the first item whose key is not below `k`.
pub seek : List ℕ → List Item → List Item
seek k [] = []
seek k ((j, f) ∷ items) = elim (bytes_compare j k) [
  | Ordering.lt ↦ seek k items
  | Ordering.eq ↦ (j, f) ∷ items
  | Ordering.gt ↦ (j, f) ∷ items
]

abbrev pub key_created_at : List ℕ → ℤ
key_created_at key = from_u64 (get_be (slice 1 9 key))

-- Past the entry of the cursor itself.
pub skip_cursor : PageCursor → List Item → List Item
skip_cursor c [] = []
skip_cursor c ((k, f) ∷ items) =
    if (length k == 41) && (eq_ℤ (key_created_at k) c.created_at && bytes_eq (drop 9 k) c.id)
    then items
    else (k, f) ∷ items

-- What the loop does with an item: passes over it, stops with an error, or takes it.
pub data Verdict : Type 0 where
  skipped broken : Verdict
  taken : BlockRef → Verdict

abbrev trav_ref : List ℕ → List ℕ → BlockRef
trav_ref k val = record {
  work_factor = if leb 4 (length val) then get_be (take 4 val) else 0;
  id = drop 9 k;
  created_at = key_created_at k;
  tag = if leb 5 (length val) then get_or val 4 0 else 0;
}

abbrev judge_value : ℤ → List ℕ → Fetch → Verdict
judge_value floor k (found val) =
    if ltb_ℤ (pos (trav_ref k val).work_factor) floor then skipped else taken (trav_ref k val)
judge_value floor k _ = broken

unfoldable pub judge : ℤ → ℤ → Item → Verdict
judge floor since (k, f) =
    if length k == 41
    then (if ltb_ℤ (key_created_at k) since then skipped else judge_value floor k f)
    else skipped

-- The loop, with room for `n` more references; `none` is an error.
pub collect : ℤ → ℤ → ℕ → List Item → Option (List BlockRef)
collect floor since n [] = some []
collect floor since zero (x ∷ items) = some []
collect floor since (suc n) (x ∷ items) = elim (judge floor since x) [
  | skipped ↦ collect floor since (suc n) items
  | broken ↦ none
  | taken ref ↦ collect floor since n items >>= λ refs. some (ref ∷ refs)
]

-- The cursor of the last reference, zero if there is none.
last_cursor : List BlockRef → PageCursor
last_cursor [] = record { created_at = pos 0; id = replicate 32 0 }
last_cursor (r ∷ []) = record { created_at = r.created_at; id = r.id }
last_cursor (r ∷ s ∷ refs) = last_cursor (s ∷ refs)

next_token : ℕ → List BlockRef → List ℕ
next_token limit refs = if length refs == limit then encode_cursor (last_cursor refs) else []

-- A time before 1970 counts as 1970.
abbrev pub clamp : ℤ → ℤ
clamp (pos n) = pos n
clamp (negsuc n) = pos 0

abbrev start : List ℕ → ℤ → List Item → Option (List Item)
start [] since items = some (seek (trav_key since (replicate 32 0)) items)
start (c ∷ token) since items = decode_cursor (c ∷ token) >>= λ cur.
    some (skip_cursor cur (seek (trav_key cur.created_at cur.id) items))

-- A page over the items: the next token, empty behind the last page, and the references.
unfoldable pub list_page : List Item → List ℕ → ℕ → ℤ → ℤ → Option (List ℕ × List BlockRef)
unfolding seek skip_cursor judge collect last_cursor next_token
list_page items token limit floor since = do
  rest ← start token (clamp since) items
  refs ← collect floor (clamp since) limit rest
  some (next_token limit refs, refs)

-- The IDs in the keys of the blocks, whose values are not read.
unfoldable pub ids_of : List Item → List (List ℕ)
ids_of [] = []
ids_of ((k, f) ∷ items) = if length k == 33 then drop 1 k ∷ ids_of items else ids_of items

module _ (kv : Kv) where
  open kv use {Db, scan}

  unfoldable pub list_blocks : Db → ℕ → List ℕ → ℕ → ℤ → ℤ → Option (List ℕ × List BlockRef)
  list_blocks db now token limit floor since =
      list_page (scan db now (b't' ∷ [])) token limit floor since

  unfoldable pub list_ids : Db → ℕ → List (List ℕ)
  list_ids db now = ids_of (scan db now (b'b' ∷ []))
