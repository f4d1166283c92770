-- ===== src/Blockstore/Badger/Listing/Entries.antt =====
-- The traversal entries that `Put` writes, and what a listing of them is meant to hold: said by the
-- entries' fields, without the code that reads them.
use sneakernet.Prelude.{
  ℕ, ◌^◌, ◌<◌, ◌≡◌, refl, sym, ap, ◌∙◌, Bool, true, false, Option, none, some, not, ◌&&◌,
  append-nil, drop, List, [], ◌∷◌, ◌++◌, arith, map, if◌then◌else◌, leb, length, length-append,
  get_or, take, take-append, replicate, copy, copy_at, All,
}
use sneakernet.Integers.{ℤ, pos, negsuc, ltb_ℤ}
use sneakernet.Bytes.{put_be, get_be, length-put_be, get_be-put_be}
use sneakernet.Blockstore.{BlockRef, IsId}
use sneakernet.Blockstore.Kv.{found}
use sneakernet.Blockstore.Badger.{trav_val}
use sneakernet.Blockstore.Badger.Keys.{time_key}
use sneakernet.Blockstore.Badger.Listing.{
  Item, Verdict, skipped, broken, taken, key_created_at, trav_ref, judge, clamp,
}
use sneakernet.Blockstore.Badger.Listing.Rows.{
  IsRow, rows, length-time_key, key_created_at-time_key, drop-time_key,
}

-- An entry of an older version has no tag.
pub record Entry : Type 0 where
  pub time : ℕ
  pub id : List ℕ
  pub work_factor : ℕ
  pub tag : Option ℕ

pub record IsEntry (e : Entry) : Type 0 where
  pub era : e.time < 2 ^ 63
  pub sized : IsId e.id
  pub fits : e.work_factor < 2 ^ 32

abbrev value_of : ℕ → Option ℕ → List ℕ
value_of wf none = put_be 4 wf
value_of wf (some tag) = trav_val wf tag

abbrev pub entry_item : Entry → Item
entry_item e = (time_key e.time e.id, found (value_of e.work_factor e.tag))

abbrev tag_or_zero : Option ℕ → ℕ
tag_or_zero none = 0
tag_or_zero (some tag) = tag

abbrev pub entry_ref : Entry → BlockRef
entry_ref e = record {
  work_factor = e.work_factor;
  id = e.id;
  created_at = pos e.time;
  tag = tag_or_zero e.tag;
}

-- A count against a bound, which may be negative.
abbrev at_least : ℤ → ℕ → Bool
at_least (pos bound) n = leb bound n
at_least (negsuc bound) n = true

-- The references of the entries with a work factor of at least `floor` that are no older than
-- `since`.
unfoldable pub passing : ℤ → ℤ → List Entry → List BlockRef
passing floor since [] = []
passing floor since (e ∷ es) =
    if at_least floor e.work_factor && at_least since e.time
    then entry_ref e ∷ passing floor since es
    else passing floor since es

trav_val-fields : (wf tag : ℕ) → trav_val wf tag ≡ put_be 4 wf ++ tag ∷ []
unfolding trav_val put_be replicate copy copy_at
trav_val-fields wf tag = refl

abbrev read_ref : List ℕ → ℕ → ℕ → BlockRef
read_ref k wf tag = record {
  work_factor = wf;
  id = drop 9 k;
  created_at = key_created_at k;
  tag = tag;
}

-- What the loop reads from a value is what was written.
module _ (k : List ℕ) (wf : ℕ) (fits : wf < 2 ^ 32) where
  read_work_factor : (rest : List ℕ) → get_be (take 4 (put_be 4 wf ++ rest)) ≡ wf
  read_work_factor rest =
      ap get_be (take-append (put_be 4 wf) rest (length-put_be 4 wf))
      ∙ get_be-put_be 4 wf (omega arith)

  read_value : (tag : Option ℕ) → trav_ref k (value_of wf tag) ≡ read_ref k wf (tag_or_zero tag)
  read_value none =
      let whole : get_be (take 4 (put_be 4 wf)) ≡ wf =
        ap (λ t. get_be (take 4 t)) (sym (append-nil (put_be 4 wf))) ∙ read_work_factor [] in
      rw (length-put_be 4 wf, whole)
  read_value (some tag) =
      let size : length (put_be 4 wf ++ tag ∷ []) ≡ 5 =
        omega (arith, length-append (put_be 4 wf) (tag ∷ []), length-put_be 4 wf) in
      let last : get_or (put_be 4 wf ++ tag ∷ []) 4 0 ≡ tag = unfold put_be get_or in refl in
      rw (trav_val-fields wf tag, size, read_work_factor (tag ∷ []), last)

below : (bound : ℤ) (n : ℕ) → ltb_ℤ (pos n) bound ≡ not (at_least bound n)
below (pos b) n = ground arith
below (negsuc b) n = refl

below_clamp : (since : ℤ) (n : ℕ) → ltb_ℤ (pos n) (clamp since) ≡ not (at_least since n)
below_clamp (pos b) n = below (pos b) n
below_clamp (negsuc b) n = ground arith

verdict_cases :
    (late high : Bool) (r : BlockRef)
    → (if not late then skipped else (if not high then skipped else taken r))
      ≡ (if high && late then taken r else skipped)
verdict_cases true true r = refl
verdict_cases true false r = refl
verdict_cases false true r = refl
verdict_cases false false r = refl

module _ (floor since : ℤ) where
  judge-entry_item :
      (e : Entry)
      → IsEntry e
      → judge floor (clamp since) (entry_item e) ≡ (
          if at_least floor e.work_factor && at_least since e.time
          then taken (entry_ref e)
          else skipped)
  unfolding judge
  judge-entry_item e h =
      rw
        (
          length-time_key e.time e.id h.era h.sized,
          read_value (time_key e.time e.id) e.work_factor h.fits e.tag,
          key_created_at-time_key e.time e.id h.era h.sized,
          drop-time_key e.time e.id h.era h.sized,
          below_clamp since e.time,
          ap (λ (r : BlockRef). ltb_ℤ (pos r.work_factor) floor)
                (read_value (time_key e.time e.id) e.work_factor h.fits e.tag)
              ∙ below floor e.work_factor,
        )
        (verdict_cases (at_least since e.time) (at_least floor e.work_factor) (entry_ref e))

  rows_step :
      (p : Bool) (r : BlockRef) (refs : List BlockRef) (v : Verdict)
      → v ≡ (if p then taken r else skipped)
      → elim v [ skipped ↦ refs | broken ↦ refs | taken ref ↦ ref ∷ refs ]
        ≡ (if p then r ∷ refs else refs)
  rows_step true r refs v h = rw h
  rows_step false r refs v h = rw h

  -- The rows that the loop takes are those that are meant.
  pub rows-passing :
      (es : List Entry)
      → All IsEntry es
      → rows floor (clamp since) (map entry_item es) ≡ passing floor since es
  unfolding rows passing
  rows-passing [] h = refl
  rows-passing (e ∷ es) h =
      let p = at_least floor e.work_factor && at_least since e.time in
      rows_step p (entry_ref e) (rows floor (clamp since) (map entry_item es)) _
        (judge-entry_item e h.0)
      ∙ ap (λ refs. if p then entry_ref e ∷ refs else refs) (rows-passing es h.1)

pub entry_item-IsRow : (es : List Entry) → All IsEntry es → All IsRow (map entry_item es)
entry_item-IsRow [] h = tt
entry_item-IsRow (e ∷ es) h = (
  record {
    time = e.time;
    id = e.id;
    value = value_of e.work_factor e.tag;
    key = refl;
    present = refl;
    era = h.0.era;
    sized = h.0.sized;
  },
  entry_item-IsRow es h.1,
)

pub length-entry_item : (es : List Entry) → length (map entry_item es) ≡ length es
length-entry_item [] = refl
length-entry_item (e ∷ es) = omega (arith, length-entry_item es)
