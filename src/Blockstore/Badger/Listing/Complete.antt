-- ===== src/Blockstore/Badger/Listing/Complete.antt =====
-- Paging from the empty token goes through all the blocks that pass the two floors, once each.
use Prim.Native.Nat.{compare, Ordering}
use sneakernet.Prelude.{
  ℕ, suc, ◌^◌, ◌<◌, ◌≡◌, refl, sym, ap, subst, ◌∙◌, some, true, List, [], ◌∷◌, ◌++◌, arith, inl,
  inr, length, length-append, map, All, All-front, replicate, lt→ltb, ◌⊎◌, ◌≢◌,
}
use sneakernet.Integers.{ℤ, IsI64, pos, negsuc, ltb_ℤ}
use sneakernet.Bytes.{zeros-IsBytes, put_be, get_be, length-put_be, put_be-IsBytes, get_be-put_be}
use sneakernet.Bytes.Order.{
  bytes_compare, ◌≺◌, Ascending, bytes_compare-append, bytes_compare-get_be, not-≺-zeros,
}
use sneakernet.Blockstore.Paging.{all_pages}
use sneakernet.Blockstore.Badger.{trav_key}
use sneakernet.Blockstore.Badger.Keys.{time_key}
use sneakernet.Blockstore.Badger.Listing.{Item, skipped, seek, judge, clamp, list_page}
use sneakernet.Blockstore.Badger.Listing.Rows.{
  IsRow, rows, trav_key-pos, key_created_at-time_key, length-time_key,
}
use sneakernet.Blockstore.Badger.Listing.Pages.{pages_from}
use sneakernet.Blockstore.Badger.Listing.Entries.{
  Entry, IsEntry, entry_item, passing, rows-passing, entry_item-IsRow, length-entry_item,
}

abbrev first_decides : Ordering → Ordering → Ordering
first_decides o p = elim o [
  | Ordering.lt ↦ Ordering.lt
  | Ordering.gt ↦ Ordering.gt
  | Ordering.eq ↦ p
]

lt_of_first :
    (t s : ℕ) (p : Ordering) → p ≢ Ordering.lt → first_decides (compare t s) p ≡ Ordering.lt → t < s
lt_of_first t s p ne h = ground arith

-- A traversal key below the seek key has an earlier time.
time_of_lt :
    (t s : ℕ) (id : List ℕ)
    → t < 256 ^ 8
    → s < 256 ^ 8
    → length id ≡ 32
    → time_key t id ≺ time_key s (replicate 32 0)
    → t < s
unfolding bytes_compare
time_of_lt t s id ht hs hid h =
    let a = put_be 8 t in
    let b = put_be 8 s in
    let la : length a ≡ 8 = length-put_be 8 t in
    let lb : length b ≡ 8 = length-put_be 8 s in
    let fronts : bytes_compare a b ≡ compare t s =
      bytes_compare-get_be a b (la ∙ sym lb) (put_be-IsBytes 8 t).bytes (put_be-IsBytes 8 s).bytes
      ∙ ap (λ x. compare x (get_be b)) (get_be-put_be 8 t ht)
      ∙ ap (compare t) (get_be-put_be 8 s hs) in
    lt_of_first t s (bytes_compare id (replicate 32 0)) (not-≺-zeros id 32 hid) (
      ap (λ o. first_decides o (bytes_compare id (replicate 32 0))) (sym fronts)
      ∙ sym (bytes_compare-append a b id (replicate 32 0) (la ∙ sym lb))
      ∙ h)

abbrev Split : List ℕ → List Item → Type 0
Split k items = (front : List Item) × (items ≡ front ++ seek k items) × All (λ y. y.0 ≺ k) front

Ordering-cases : (o : Ordering) → (o ≡ Ordering.lt) ⊎ ((o ≡ Ordering.eq) ⊎ (o ≡ Ordering.gt))
Ordering-cases Ordering.lt = inl refl
Ordering-cases Ordering.eq = inr (inl refl)
Ordering-cases Ordering.gt = inr (inr refl)

seek-Split : (k : List ℕ) (items : List Item) → Split k items
unfolding seek
seek-Split k [] = ([], refl, tt)
seek-Split k ((j, f) ∷ items) = elim (Ordering-cases (bytes_compare j k)) [
  | inl e ↦
      let (front, split, below) = seek-Split k items in
      ((j, f) ∷ front, rw (e, seek) (ap (λ t. (j, f) ∷ t) split), (e, below))
  | inr (inl e) ↦ ([], rw (e, seek), tt)
  | inr (inr e) ↦ ([], rw (e, seek), tt)
]

module _ (floor since : ℤ) where
  rows_skip :
      (front xs : List Item)
      → All (λ y. judge floor since y ≡ skipped) front
      → rows floor since (front ++ xs) ≡ rows floor since xs
  unfolding rows
  rows_skip [] xs h = refl
  rows_skip (y ∷ front) xs h = rw (h.0, rows) (rows_skip front xs h.1)

module _ (floor : ℤ) (s : ℕ) (era : s < 2 ^ 63) where
  time_of_seek : trav_key (pos s) (replicate 32 0) ≡ time_key s (replicate 32 0)
  time_of_seek = trav_key-pos s (replicate 32 0) era (zeros-IsBytes 32)

  early_skipped :
      (y : Item)
      → IsRow y
      → y.0 ≺ trav_key (pos s) (replicate 32 0)
      → judge floor (pos s) y ≡ skipped
  unfolding judge
  early_skipped y r h =
      let key : time_key r.time r.id ≺ time_key s (replicate 32 0) =
        rw (r.key, time_of_seek) at h in
      let early : r.time < s =
        time_of_lt r.time s r.id (omega (arith, r.era)) (omega arith) r.sized.size key in
      let later : ltb_ℤ (pos r.time) (pos s) ≡ true = lt→ltb r.time s early in
      rw (
        r.key,
        length-time_key r.time r.id r.era r.sized,
        key_created_at-time_key r.time r.id r.era r.sized,
        later,
      )

  skip_front :
      (front : List Item)
      → All IsRow front
      → All (λ y. y.0 ≺ trav_key (pos s) (replicate 32 0)) front
      → All (λ y. judge floor (pos s) y ≡ skipped) front
  skip_front [] rs below = tt
  skip_front (y ∷ front) rs below = (early_skipped y rs.0 below.0, skip_front front rs.1 below.1)

  rows-seek :
      (items : List Item)
      → All IsRow items
      → rows floor (pos s) (seek (trav_key (pos s) (replicate 32 0)) items)
        ≡ rows floor (pos s) items
  rows-seek items rs =
      let k = trav_key (pos s) (replicate 32 0) in
      let (front, split, below) = seek-Split k items in
      sym (
        ap (rows floor (pos s)) split
        ∙ rows_skip floor (pos s) front (seek k items) (
            skip_front front (All-front IsRow front (seek k items) (subst (All IsRow) split rs))
              below))

clamp_cases : (since : ℤ) → IsI64 since → (s : ℕ) × (clamp since ≡ pos s) × (s < 2 ^ 63)
clamp_cases (pos s) h = (s, refl, h)
clamp_cases (negsuc n) h = (0, refl, omega arith)

pub all_pages-rows :
    (items : List Item) (limit : ℕ) (floor since : ℤ) (fuel : ℕ)
    → Ascending items
    → All IsRow items
    → IsI64 since
    → length items < fuel
    → all_pages (λ token. list_page items token (suc limit) floor since) fuel []
      ≡ some (rows floor (clamp since) items)
all_pages-rows items limit floor since fuel up rs small enough =
    let (s, e, era) = clamp_cases since small in
    let k = trav_key (clamp since) (replicate 32 0) in
    let (front, split, below) = seek-Split k items in
    pages_from items floor since limit up rs fuel [] front (seek k items) split refl
      (omega (arith, ap length split, length-append front (seek k items)))
    ∙ ap some (rw e (rows-seek floor s era items rs))

-- Over entries in the form in which `Put` writes them, or wrote them without a tag, with IDs of 32
-- bytes, times below 2^63 and work factors below 2^32, ascending by key, and a lower bound of the time
-- that is an `int64`: paging through them, in pages of any positive size, yields a reference with the
-- entry's ID, time, work factor and tag (0 if it has none) for exactly those entries whose work
-- factor is at least the floor and whose time is at least the bound, in the order of the keys and once
-- each, and ends within more rounds than there are entries.
pub all_pages-list_page :
    (es : List Entry) (limit : ℕ) (floor since : ℤ) (fuel : ℕ)
    → Ascending (map entry_item es)
    → All IsEntry es
    → IsI64 since
    → length es < fuel
    → all_pages (λ token. list_page (map entry_item es) token (suc limit) floor since) fuel []
      ≡ some (passing floor since es)
all_pages-list_page es limit floor since fuel up hs small enough =
    all_pages-rows (map entry_item es) limit floor since fuel up (entry_item-IsRow es hs) small
      (omega (arith, length-entry_item es))
    ∙ ap some (rows-passing floor since es hs)
