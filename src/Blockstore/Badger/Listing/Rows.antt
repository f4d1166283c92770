-- ===== src/Blockstore/Badger/Listing/Rows.antt =====
-- One item of the listing: what the loop does with it, and how its token leads back to it.
use sneakernet.Prelude.{
  ℕ, ◌^◌, ◌<◌, ◌≡◌, ◌≢◌, refl, sym, ap, ◌∙◌, some, Bool, true, false, List, [], ◌∷◌, ◌++◌, arith,
  inl, inr, length, length-append, All-elem, Elem-append, drop, drop-append, slice_field,
  bytes_eq_refl, ◌⊎◌, if◌then◌else◌,
}
use sneakernet.Integers.{ℤ, pos, eq_ℤ-refl, from_u64, to_u64}
use sneakernet.Bytes.{put_be, get_be, length-put_be, get_be-put_be}
use sneakernet.Bytes.Order.{◌≺◌, Ascending, bytes_compare_refl}
use sneakernet.Base64
use sneakernet.Blockstore.{BlockRef, PageCursor, IsId, encode_cursor, decode_cursor}
use sneakernet.Blockstore.Cursor.{decode_cursor-encode_cursor}
use sneakernet.Blockstore.Kv.{found}
use sneakernet.Blockstore.Badger.{trav_key}
use sneakernet.Blockstore.Badger.Keys.{time_key, trav_key-time_key}
use sneakernet.Blockstore.Badger.Listing.{
  Item, Verdict, trav_ref, skipped, broken, taken, seek, skip_cursor, judge, start, key_created_at,
}

-- An item as `Put` writes it: a traversal key with its value.
pub record IsRow (item : Item) : Type 0 where
  pub time : ℕ
  pub id : List ℕ
  pub value : List ℕ
  pub key : item.0 ≡ time_key time id
  pub present : item.1 ≡ found value
  pub era : time < 2 ^ 63
  pub sized : IsId id

-- The references of all items that are not passed over.
unfoldable pub rows : ℤ → ℤ → List Item → List BlockRef
rows floor since [] = []
rows floor since (x ∷ items) = elim (judge floor since x) [
  | skipped ↦ rows floor since items
  | broken ↦ rows floor since items
  | taken ref ↦ ref ∷ rows floor since items
]

pub Verdict-cases :
    (v : Verdict) → (v ≡ skipped) ⊎ ((v ≡ broken) ⊎ ((ref : BlockRef) × (v ≡ taken ref)))
Verdict-cases skipped = inl refl
Verdict-cases broken = inr (inl refl)
Verdict-cases (taken ref) = inr (inr (ref, refl))

module _ (t : ℕ) (id : List ℕ) (ht : t < 2 ^ 63) (hid : IsId id) where
  pub length-time_key : length (time_key t id) ≡ 41
  length-time_key = omega (arith, length-append (put_be 8 t) id, length-put_be 8 t, hid.size)

  pub key_created_at-time_key : key_created_at (time_key t id) ≡ pos t
  key_created_at-time_key =
      ap (λ b. from_u64 (get_be b))
        (slice_field (b't' ∷ []) (put_be 8 t) id 1 9 refl (omega (arith, length-put_be 8 t)))
      ∙ ap from_u64 (get_be-put_be 8 t (omega arith))
      ∙ (unfold from_u64 in ground arith)

  pub drop-time_key : drop 9 (time_key t id) ≡ id
  drop-time_key = drop-append (b't' ∷ put_be 8 t) id (omega (arith, length-put_be 8 t))

  pub trav_key-pos : trav_key (pos t) id ≡ time_key t id
  trav_key-pos =
      trav_key-time_key (pos t) id
      ∙ ap (λ k. time_key k id) (let e : to_u64 (pos t) ≡ t = unfold to_u64 in omega arith in e)

-- Seeking the key of an item drops the items before it.
pub seek-append :
    (pre : List Item) (x : Item) (post : List Item)
    → Ascending (pre ++ x ∷ post)
    → seek x.0 (pre ++ x ∷ post) ≡ x ∷ post
unfolding seek
seek-append [] x post up = rw (bytes_compare_refl x.0, seek)
seek-append (y ∷ pre) x post up =
    rw (All-elem (λ z. y.0 ≺ z.0) (pre ++ x ∷ post) x up.0 (Elem-append pre x post), seek)
      (seek-append pre x post up.1)

pub taken_ref :
    (sized early low : Bool) (r ref : BlockRef)
    → (if sized then (if early then skipped else (if low then skipped else taken r)) else skipped)
      ≡ taken ref
    → r ≡ ref
taken_ref true true low r ref h = cc
taken_ref true false true r ref h = cc
taken_ref true false false r ref h = cc
taken_ref false early low r ref h = cc

pub never_broken :
    (sized early low : Bool) (r : BlockRef)
    → (if sized then (if early then skipped else (if low then skipped else taken r)) else skipped)
      ≢ broken
never_broken true true low r h = cc
never_broken true false true r h = cc
never_broken true false false r h = cc
never_broken false early low r h = cc

module _ (floor since : ℤ) where
  pub judge_fields :
      (k val : List ℕ) (ref : BlockRef)
      → judge floor since (k, found val) ≡ taken ref
      → (ref.created_at ≡ key_created_at k) × (ref.id ≡ drop 9 k)
  unfolding judge
  judge_fields k val ref h =
      let same = taken_ref _ _ _ (trav_ref k val) ref h in
      (sym (ap (λ (r : BlockRef). r.created_at) same), sym (ap (λ (r : BlockRef). r.id) same))

  pub judge-ne-broken : (k val : List ℕ) → judge floor since (k, found val) ≢ broken
  unfolding judge
  judge-ne-broken k val = never_broken _ _ _ (trav_ref k val)

pub start-cursor :
    (token : List ℕ) (since : ℤ) (items : List Item) (cur : PageCursor)
    → decode_cursor token ≡ some cur
    → start token since items ≡ some (skip_cursor cur (seek (trav_key cur.created_at cur.id) items))
start-cursor [] since items cur h =
    unfold decode_cursor Base64.decode Base64.skip_breaks Base64.decode_quads in cc h
start-cursor (c ∷ token) since items cur h = rw h

-- The token of an item's reference leads to the items behind it.
pub start-encode_cursor :
    (since : ℤ) (pre : List Item) (x : Item) (post : List Item)
    → (r : IsRow x) → Ascending (pre ++ x ∷ post)
    → start (encode_cursor (record { created_at = pos r.time; id = r.id })) since (pre ++ x ∷ post)
      ≡ some post
unfolding skip_cursor
start-encode_cursor since pre x post r up =
    let cur : PageCursor = record { created_at = pos r.time; id = r.id } in
    let key : trav_key (pos r.time) r.id ≡ x.0 =
      trav_key-pos r.time r.id r.era r.sized ∙ sym r.key in
    start-cursor (encode_cursor cur) since (pre ++ x ∷ post) cur
      (decode_cursor-encode_cursor cur r.era r.sized)
    ∙ rw (key, seek-append pre x post up)
        (rw (
          r.key,
          length-time_key r.time r.id r.era r.sized,
          key_created_at-time_key r.time r.id r.era r.sized,
          drop-time_key r.time r.id r.era r.sized,
          eq_ℤ-refl (pos r.time),
          bytes_eq_refl r.id,
        ))
