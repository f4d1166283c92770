-- ===== src/Blockstore/Badger/Listing/Pages.antt =====
-- Going through the pages of `ListBlocks` by their tokens.
use sneakernet.Prelude.{
  ℕ, zero, suc, ◌<◌, ◌≡◌, ◌≢◌, refl, sym, ap, subst, ◌∙◌, none, some, List, [], ◌∷◌, ◌++◌, arith,
  append_assoc, length, length-append, All, All-elem, Elem-append, All-back, ==_refl, drop,
}
use sneakernet.Integers.{ℤ, IsI64, pos}
use sneakernet.Bytes.Order.{Ascending}
use sneakernet.Base64
use sneakernet.Blockstore.{BlockRef, PageCursor, IsId, encode_cursor, decode_cursor}
use sneakernet.Blockstore.Cursor.{decode_cursor-encode_cursor}
use sneakernet.Blockstore.Paging.{Lister, all_pages}
use sneakernet.Blockstore.Badger.Listing.{
  Item, taken, judge, collect, last_cursor, next_token, start, clamp, list_page, key_created_at,
}
use sneakernet.Blockstore.Badger.Listing.Rows.{
  IsRow, rows, judge_fields, key_created_at-time_key, drop-time_key, start-encode_cursor,
}
use sneakernet.Blockstore.Badger.Listing.Collect.{Collected, whole, full, collect-Collected}

last_cursor-append :
    (refs : List BlockRef) (ref : BlockRef)
    → last_cursor (refs ++ ref ∷ []) ≡ record { created_at = ref.created_at; id = ref.id }
unfolding last_cursor
last_cursor-append [] ref = refl
last_cursor-append (r ∷ []) ref = refl
last_cursor-append (r ∷ s ∷ refs) ref = last_cursor-append (s ∷ refs) ref

-- The token behind a full page is not empty.
all_pages_more :
    (list : Lister) (fuel : ℕ) (token next : List ℕ) (refs more : List BlockRef)
    → list token ≡ some (next, refs)
    → next ≢ []
    → all_pages list fuel next ≡ some more
    → all_pages list (suc fuel) token ≡ some (refs ++ more)
unfolding all_pages
all_pages_more list fuel token [] refs more h ne rest = absurd (ne refl)
all_pages_more list fuel token (c ∷ next) refs more h ne rest = rw (h, rest)

all_pages_done :
    (list : Lister) (fuel : ℕ) (token : List ℕ) (refs : List BlockRef)
    → list token ≡ some ([], refs)
    → all_pages list (suc fuel) token ≡ some refs
unfolding all_pages
all_pages_done list fuel token refs h = rw h

encode_cursor-ne-nil : (c : PageCursor) → IsI64 c.created_at → IsId c.id → encode_cursor c ≢ []
encode_cursor-ne-nil c ht hid e =
    let none_there : decode_cursor [] ≡ none =
      unfold decode_cursor Base64.decode Base64.skip_breaks Base64.decode_quads in refl in
    cc (none_there, ap decode_cursor e, decode_cursor-encode_cursor c ht hid)

module _ (items : List Item) (floor since : ℤ) (limit : ℕ) (up : Ascending items)
    (rs : All IsRow items) where
  abbrev lister : Lister
  lister token = list_page items token (suc limit) floor since

  abbrev from : ℤ
  from = clamp since

  list_page_at :
      (token : List ℕ) (xs : List Item) (refs : List BlockRef)
      → start token from items ≡ some xs
      → collect floor from (suc limit) xs ≡ some refs
      → lister token ≡ some (next_token (suc limit) refs, refs)
  unfolding list_page
  list_page_at token xs refs s c = rw (s, c)

  -- The reference of an item as a cursor.
  row_cursor :
      (x : Item) (r : IsRow x) (ref : BlockRef)
      → judge floor from x ≡ taken ref
      → last_cursor (ref ∷ []) ≡ record { created_at = pos r.time; id = r.id }
  unfolding last_cursor
  row_cursor x r ref j =
      let (time, id) =
        judge_fields floor from x.0 r.value ref
          (ap (λ f. judge floor from (x.0, f)) (sym r.present) ∙ j) in
      let times : ref.created_at ≡ pos r.time =
        time ∙ ap key_created_at r.key ∙ key_created_at-time_key r.time r.id r.era r.sized in
      let ids : ref.id ≡ r.id = id ∙ ap (drop 9) r.key ∙ drop-time_key r.time r.id r.era r.sized in
      rw (times, ids)

  next_token_full :
      (refs : List BlockRef) (ref : BlockRef)
      → length (refs ++ ref ∷ []) ≡ suc limit
      → next_token (suc limit) (refs ++ ref ∷ []) ≡ encode_cursor (last_cursor (ref ∷ []))
  unfolding next_token
  next_token_full refs ref size =
      rw (size, ==_refl (suc limit), last_cursor-append refs ref) (unfold last_cursor in refl)

  next_token_short :
      (refs : List BlockRef) → length refs < suc limit → next_token (suc limit) refs ≡ []
  unfolding next_token
  next_token_short refs small = ground arith

  abbrev Paged : ℕ → List ℕ → List Item → Type 0
  Paged fuel token xs = all_pages lister fuel token ≡ some (rows floor from xs)

  page_step :
      (fuel : ℕ) (token : List ℕ) (front xs : List Item)
      → items ≡ front ++ xs
      → start token from items ≡ some xs
      → length xs < suc fuel
      → Collected floor from (suc limit) xs
      → ((next : List ℕ) (front' post : List Item)
          → items ≡ front' ++ post
          → start next from items ≡ some post
          → length post < fuel
          → Paged fuel next post)
      → Paged (suc fuel) token xs
  page_step fuel token front xs split s h (whole c small) rec =
      all_pages_done lister fuel token (rows floor from xs) (
        list_page_at token xs (rows floor from xs) s c
        ∙ ap (λ t. some (t, rows floor from xs)) (next_token_short (rows floor from xs) small))
  page_step fuel token front xs split s h (full pre x post refs ref split' j c size r) rec =
      let split'' : items ≡ (front ++ pre) ++ x ∷ post =
        split ∙ ap (λ t. front ++ t) split' ∙ sym (append_assoc front pre (x ∷ post)) in
      let row : IsRow x =
        All-elem IsRow ((front ++ pre) ++ x ∷ post) x (subst (All IsRow) split'' rs)
          (Elem-append (front ++ pre) x post) in
      let cur : PageCursor = record { created_at = pos row.time; id = row.id } in
      let next = encode_cursor cur in
      let resumed : start next from items ≡ some post =
        ap (start next from) split''
        ∙ start-encode_cursor from (front ++ pre) x post row (subst Ascending split'' up) in
      let shorter : length post < fuel =
        omega (arith, ap length split', length-append pre (x ∷ post)) in
      let rest =
        rec next ((front ++ pre) ++ x ∷ []) post
          (split'' ∙ sym (append_assoc (front ++ pre) (x ∷ []) post)) resumed shorter in
      let page : lister token ≡ some (next, refs ++ ref ∷ []) =
        list_page_at token xs (refs ++ ref ∷ []) s c
        ∙ ap (λ t. some (t, refs ++ ref ∷ []))
            (next_token_full refs ref size ∙ ap encode_cursor (row_cursor x row ref j)) in
      all_pages_more lister fuel token next (refs ++ ref ∷ []) (rows floor from post) page
        (encode_cursor-ne-nil cur row.era row.sized) rest
      ∙ ap some (append_assoc refs (ref ∷ []) (rows floor from post) ∙ sym r)

  pub pages_from :
      (fuel : ℕ) (token : List ℕ) (front xs : List Item)
      → items ≡ front ++ xs
      → start token from items ≡ some xs
      → length xs < fuel
      → Paged fuel token xs
  pages_from zero token front xs split s h = absurd (omega arith)
  pages_from (suc fuel) token front xs split s h =
      page_step fuel token front xs split s h
        (collect-Collected floor from limit xs
          (All-back IsRow front xs (subst (All IsRow) split rs)))
        (pages_from fuel)
