-- ===== src/Relay/Bloom/Store.antt =====
-- `BloomOfStore`: the filter over the pages of the traversal listing.
use sneakernet.Prelude.{
  ℕ, zero, suc, ◌<◌, ◌≤◌, ◌≡◌, true, leb, map, refl, ap, ◌∙◌, Option, none, some, ◌>>=◌, List, [],
  ◌∷◌, ◌++◌, arith, length, All,
}
use sneakernet.Integers.{pos}
use sneakernet.Bytes.Order.{Ascending}
use sneakernet.Blockstore.{BlockRef}
use sneakernet.Blockstore.Paging.{Lister, all_pages}
use sneakernet.Blockstore.Badger.Listing.{list_page}
use sneakernet.Blockstore.Badger.Listing.Entries.{Entry, IsEntry, entry_item, entry_ref, passing}
use sneakernet.Blockstore.Badger.Listing.Complete.{all_pages-list_page}
use sneakernet.Relay.Bloom.{Bloom, new_bloom, has, add_refs, fill, bloom_of_store, zero_time}
use sneakernet.Relay.Bloom.Member.{Holds, new_bloom-IsBloom, add_refs-Holds}

add_refs-append :
    (xs ys : List BlockRef) (b : Bloom) → add_refs (add_refs b xs) ys ≡ add_refs b (xs ++ ys)
unfolding add_refs
add_refs-append [] ys b = refl
add_refs-append (x ∷ xs) ys b = add_refs-append xs ys _

abbrev filled : Bloom → Option (List BlockRef) → Option Bloom
filled b refs = refs >>= λ refs. some (add_refs b refs)

abbrev next_fill : (List ℕ → Bloom → Option Bloom) → Bloom → List ℕ × List BlockRef → Option Bloom
next_fill more b page = elim page.0 [
  | [] ↦ some (add_refs b page.1)
  | c ∷ next ↦ more (c ∷ next) (add_refs b page.1)
]

abbrev pub next_pages :
    (List ℕ → Option (List BlockRef)) → List ℕ × List BlockRef → Option (List BlockRef)
next_pages more page = elim page.0 [
  | [] ↦ some page.1
  | c ∷ next ↦ more (c ∷ next) >>= λ more. some (page.1 ++ more)
]

joined :
    (b : Bloom) (refs : List BlockRef) (more : Option (List BlockRef))
    → filled (add_refs b refs) more ≡ filled b (more >>= λ more. some (refs ++ more))
joined b refs none = refl
joined b refs (some more) = ap some (add_refs-append refs more b)

page_cases :
    (f : List ℕ → Bloom → Option Bloom) (g : List ℕ → Option (List BlockRef)) (b : Bloom)
    (page : Option (List ℕ × List BlockRef))
    → ((token : List ℕ) (b : Bloom) → f token b ≡ filled b (g token))
    → (page >>= next_fill f b) ≡ filled b (page >>= next_pages g)
page_cases f g b none same = refl
page_cases f g b (some ([], refs)) same = refl
page_cases f g b (some (c ∷ next, refs)) same =
    same (c ∷ next) (add_refs b refs) ∙ joined b refs (g (c ∷ next))

-- Adding page by page is adding all the references.
fill-all_pages :
    (list : Lister) (fuel : ℕ) (token : List ℕ) (b : Bloom)
    → fill list fuel token b ≡ filled b (all_pages list fuel token)
unfolding fill all_pages
fill-all_pages list zero token b = refl
fill-all_pages list (suc fuel) token b =
    page_cases (fill list fuel) (all_pages list fuel) b (list token) (fill-all_pages list fuel)

-- Without floors every entry passes.
passing-all : (es : List Entry) → passing (pos 0) zero_time es ≡ map entry_ref es
unfolding passing
passing-all [] = refl
passing-all (e ∷ es) =
    let low : leb 0 e.work_factor ≡ true = ground arith in
    rw low (ap (λ t. entry_ref e ∷ t) (passing-all es))

Holds-entry_ref :
    (es : List Entry) (b : Bloom)
    → All (Holds b) (map entry_ref es)
    → All (λ e. (wf : ℕ) → wf ≤ e.work_factor → has b e.id wf ≡ true) es
Holds-entry_ref [] b h = tt
Holds-entry_ref (e ∷ es) b h = (h.0, Holds-entry_ref es b h.1)

-- `BloomOfStore` over any listing: the filter of all that the pages list.
pub bloom_of_store-all_pages :
    (list : Lister) (fuel : ℕ) (refs : List BlockRef)
    → all_pages list fuel [] ≡ some refs
    → bloom_of_store list fuel ≡ some (add_refs new_bloom refs)
unfolding bloom_of_store
bloom_of_store-all_pages list fuel refs h =
    fill-all_pages list fuel [] new_bloom ∙ ap (filled new_bloom) h

-- Over traversal entries in the form in which `Put` writes them, or wrote them without a tag, with IDs
-- of 32 bytes, times below 2^63 and work factors below 2^32, ascending by key, and with more fuel than
-- there are entries, `BloomOfStore` returns a filter, and it answers yes for the ID of every entry at
-- every work factor up to the entry's own.
pub bloom_of_store-Holds :
    (es : List Entry) (fuel : ℕ)
    → Ascending (map entry_item es)
    → All IsEntry es
    → length es < fuel
    → (b : Bloom) × (bloom_of_store
          (λ token. list_page (map entry_item es) token 500 (pos 0) zero_time)
          fuel
        ≡ some b)
      × All (λ e. (wf : ℕ) → wf ≤ e.work_factor → has b e.id wf ≡ true) es
bloom_of_store-Holds es fuel up hs enough =
    let refs = map entry_ref es in
    (
      add_refs new_bloom refs,
      bloom_of_store-all_pages (λ token. list_page (map entry_item es) token 500 (pos 0) zero_time)
          fuel refs
          (all_pages-list_page es 499 (pos 0) zero_time fuel up hs (omega arith) enough
            ∙ ap some (passing-all es)),
      Holds-entry_ref es (add_refs new_bloom refs)
          (add_refs-Holds refs new_bloom new_bloom-IsBloom),
    )
