-- ===== src/Tests/Listing.antt =====
-- Runs of the listing.
use sneakernet.Prelude.{ℕ, ◌^◌, ◌<◌, ◌≡◌, refl, some, none, Option, map, List, [], ◌∷◌, arith, All}
use sneakernet.Integers.{pos}
use sneakernet.Bytes.{put_be, put_be-IsBytes}
use sneakernet.Bytes.Order.{Ascending, bytes_compare}
use sneakernet.Blockstore.Paging.{all_pages}
use sneakernet.Blockstore.Badger.Listing.{Item, list_page}
use sneakernet.Blockstore.Badger.Listing.Entries.{Entry, IsEntry, entry_item, entry_ref, passing}
use sneakernet.Blockstore.Badger.Listing.Complete.{all_pages-list_page}

abbrev pub entry : ℕ → ℕ → ℕ → Entry
entry time n wf = record { time = time; id = put_be 32 n; work_factor = wf; tag = some 1 }

-- Three blocks, two of them of one second, one without a tag.
abbrev pub entries : List Entry
entries = entry 5 1 9 ∷ record (entry 6 1 2) { tag = none } ∷ entry 6 2 7 ∷ []

abbrev pub three : List Item
three = map entry_item entries

pub three-Ascending : Ascending three
unfolding bytes_compare put_be
three-Ascending = ((refl, (refl, tt)), ((refl, tt), (tt, tt)))

pub entry-IsEntry :
    (time n wf : ℕ) (tag : Option ℕ)
    → time < 2 ^ 63
    → wf < 2 ^ 32
    → IsEntry (record (entry time n wf) { tag = tag })
entry-IsEntry time n wf tag era fits = record {
  era = era;
  sized = put_be-IsBytes 32 n;
  fits = fits;
}

pub entries-IsEntry : All IsEntry entries
entries-IsEntry = (
  entry-IsEntry 5 1 9 (some 1) (omega arith) (omega arith),
  (
    entry-IsEntry 6 1 2 none (omega arith) (omega arith),
    (entry-IsEntry 6 2 7 (some 1) (omega arith) (omega arith), tt),
  ),
)

-- Two of them reach a floor of 3.
passing_run :
    passing (pos 3) (pos 0) entries ≡ entry_ref (entry 5 1 9) ∷ entry_ref (entry 6 2 7) ∷ []
unfolding passing
passing_run = refl

-- Pages of two, with a floor of 3.
all_pages-list_page_example :
    all_pages (λ token. list_page three token 2 (pos 3) (pos 0)) 4 []
    ≡ some (passing (pos 3) (pos 0) entries)
all_pages-list_page_example =
    all_pages-list_page entries 1 (pos 3) (pos 0) 4 three-Ascending entries-IsEntry (omega arith)
      (omega arith)
