-- ===== src/Blockstore/Kv/Table/Scan.antt =====
-- Scanning the list of entries, and the list as an instance of the interface.
use sneakernet.Prelude.{
  ℕ, ◌+◌, ◌*◌, ◌/◌, ◌≡◌, refl, sym, ap, subst, ◌∙◌, Option, none, some, List, [], ◌∷◌, true, false,
  ◌&&◌, Bool-cases, arith, inl, inr, length, All, Elem, ltb, bytes_eq, bytes_eq→eq, bytes_eq_refl,
  if◌then◌else◌,
}
use sneakernet.Integers.{ℤ, pos, negsuc}
use sneakernet.Bytes.Order.{
  bytes_compare, ◌≺◌, Ascending, ≺_trans, bytes_compare-eq→bytes_eq, bytes_compare-gt→lt,
  bytes_compare_refl,
}
use sneakernet.Blockstore.Kv.{Kv, Fetch, found, missing, second, starts_with}
use sneakernet.Blockstore.Kv.Table.{
  Cell, Entries, Ordering-cases, live, read, find, insert, remove, items, find-insert, find-remove,
}

abbrev Above : {A : Type 0} → List ℕ → List (List ℕ × A) → Type 0
Above k es = All (λ e. k ≺ e.0) es

≺_apart : (k j : List ℕ) → k ≺ j → bytes_eq k j ≡ false
≺_apart k j h = elim (Bool-cases (bytes_eq k j)) [
  | inr e ↦ e
  | inl e ↦ cc (h, bytes_compare_refl j, ap (λ x. bytes_compare x j) (bytes_eq→eq k j e))
]

Above-trans : (k l : List ℕ) (es : Entries) → k ≺ l → Above l es → Above k es
Above-trans k l [] h above = tt
Above-trans k l (e ∷ es) h above = (≺_trans k l e.0 h above.0, Above-trans k l es h above.1)

Above-insert :
    (b k : List ℕ) (c : Cell) (es : Entries) → b ≺ k → Above b es → Above b (insert k c es)
unfolding insert
Above-insert b k c [] h above = (h, tt)
Above-insert b k c ((l, d) ∷ es) h above = elim (Ordering-cases (bytes_compare k l)) [
  | inl e ↦ rw (e, insert) (h, above)
  | inr (inl e) ↦ rw (e, insert) (h, above.1)
  | inr (inr e) ↦ rw (e, insert) (above.0, Above-insert b k c es h above.1)
]

pub insert-Ascending :
    (k : List ℕ) (c : Cell) (es : Entries) → Ascending es → Ascending (insert k c es)
unfolding insert
insert-Ascending k c [] up = (tt, tt)
insert-Ascending k c ((l, d) ∷ es) up = elim (Ordering-cases (bytes_compare k l)) [
  | inl e ↦ rw (e, insert) ((e, Above-trans k l es e up.0), up)
  | inr (inl e) ↦
      let same = bytes_eq→eq k l (bytes_compare-eq→bytes_eq k l e) in
      rw (e, insert) (subst (λ x. Above x es) (sym same) up.0, up.1)
  | inr (inr e) ↦
      rw (e, insert)
        (Above-insert l k c es (bytes_compare-gt→lt k l e) up.0, insert-Ascending k c es up.1)
]

Above-remove : (b k : List ℕ) (es : Entries) → Above b es → Above b (remove k es)
unfolding remove
Above-remove b k [] above = tt
Above-remove b k ((l, d) ∷ es) above = elim (Bool-cases (bytes_eq k l)) [
  | inl e ↦ rw e (Above-remove b k es above.1)
  | inr e ↦ rw e (above.0, Above-remove b k es above.1)
]

pub remove-Ascending : (k : List ℕ) (es : Entries) → Ascending es → Ascending (remove k es)
unfolding remove
remove-Ascending k [] up = tt
remove-Ascending k ((l, d) ∷ es) up = elim (Bool-cases (bytes_eq k l)) [
  | inl e ↦ rw e (remove-Ascending k es up.1)
  | inr e ↦ rw e (Above-remove l k es up.0, remove-Ascending k es up.1)
]

module _ (now : ℕ) (p : List ℕ) where
  Above-items : (b : List ℕ) (es : Entries) → Above b es → Above b (items es now p)
  unfolding items
  Above-items b [] above = tt
  Above-items b ((k, c) ∷ es) above = elim (Bool-cases (starts_with p k && live now c)) [
    | inl e ↦ rw e (above.0, Above-items b es above.1)
    | inr e ↦ rw e (Above-items b es above.1)
  ]

  pub items-Ascending : (es : Entries) → Ascending es → Ascending (items es now p)
  unfolding items
  items-Ascending [] up = tt
  items-Ascending ((k, c) ∷ es) up = elim (Bool-cases (starts_with p k && live now c)) [
    | inl e ↦ rw e (Above-items k es up.0, items-Ascending es up.1)
    | inr e ↦ rw e (items-Ascending es up.1)
  ]

  abbrev Sound : Entries → List (List ℕ × Fetch) → Type 0
  Sound es = All (λ item. (find es now item.0 ≡ item.1) × (starts_with p item.0 ≡ true))

  -- What is read behind a lower key is read with it too.
  Sound-cons :
      (k : List ℕ) (c : Cell) (es : Entries) (xs : List (List ℕ × Fetch))
      → Above k xs
      → Sound es xs
      → Sound ((k, c) ∷ es) xs
  unfolding find
  Sound-cons k c es [] above s = tt
  Sound-cons k c es ((j, f) ∷ xs) above s =
      ((rw (≺_apart k j above.0) s.0.0, s.0.1), Sound-cons k c es xs above.1 s.1)

  head_read :
      (k : List ℕ) (c : Cell) (es : Entries)
      → (starts_with p k && live now c) ≡ true
      → (find ((k, c) ∷ es) now k ≡ found c.value) × (starts_with p k ≡ true)
  unfolding find read
  head_read k c es h = ground (arith, bytes_eq_refl k)

  pub items-Sound : (es : Entries) → Ascending es → Sound es (items es now p)
  unfolding items
  items-Sound [] up = tt
  items-Sound ((k, c) ∷ es) up =
      let rest = Sound-cons k c es (items es now p) (Above-items k es up.0) (items-Sound es up.1) in
      elim (Bool-cases (starts_with p k && live now c)) [
        | inl e ↦ rw e (head_read k c es e, rest)
        | inr e ↦ rw e rest
      ]

  read-eq-found :
      (c : Cell) (v : List ℕ) → read now c ≡ found v → (live now c ≡ true) × (c.value ≡ v)
  unfolding read
  read-eq-found c v e = ground arith

  pub items_complete :
      (es : Entries) (k v : List ℕ)
      → find es now k ≡ found v
      → starts_with p k ≡ true
      → Elem (k, found v) (items es now p)
  unfolding find items
  items_complete [] k v e h = cc
  items_complete ((l, c) ∷ es) k v e h = elim (Bool-cases (bytes_eq l k)) [
    | inr other ↦
        let rest = items_complete es k v (rw other at e) h in
        elim (Bool-cases (starts_with p l && live now c)) [
          | inl e ↦ rw e (inr rest)
          | inr e ↦ rw e rest
        ]
    | inl this ↦
        let same = bytes_eq→eq l k this in
        let (alive, value) = read-eq-found c v (rw this at e) in
        let shown : (starts_with p l && live now c) ≡ true = rw (same, alive, h) in
        rw shown (inl (cc (same, value)))
  ]

-- The entries, which stay in order.
abbrev pub Sorted : Type 0
Sorted = (es : Entries) × Ascending es

pub insert_sorted : List ℕ → Cell → Sorted → Sorted
insert_sorted k c db = (insert k c db.0, insert-Ascending k c db.0 db.1)

pub remove_sorted : List ℕ → Sorted → Sorted
remove_sorted k db = (remove k db.0, remove-Ascending k db.0 db.1)

find_after :
    (after db' : Sorted) (now : ℕ) (j : List ℕ) {f : Fetch}
    → some after ≡ some db'
    → find after.0 now j ≡ f
    → find db'.0 now j ≡ f
find_after after db' now j {f} e h =
    let same : after ≡ db' = cc e in subst (λ (db : Sorted). find db.0 now j ≡ f) same h

pub cell_at : List ℕ → Option ℕ → Cell
cell_at v expires = record { value = v; expires = expires }

pub table_get-set :
    (db db' : Sorted) (now : ℕ) (k v j : List ℕ)
    → some (insert_sorted k (cell_at v none) db) ≡ some db'
    → find db'.0 now j ≡ (if bytes_eq k j then found v else find db.0 now j)
unfolding insert_sorted cell_at
table_get-set db db' now k v j e =
    find_after _ db' now j e
      (find-insert k (cell_at v none) db.0 now j ∙ (unfold read live in refl))

-- With a negative time to live an entry has expired.
abbrev expiry : ℕ → ℤ → ℕ
expiry at (pos ttl) = (at + ttl) / second
expiry at (negsuc n) = 0

pub table_get-set_ttl :
    (db db' : Sorted) (at now : ℕ) (k v : List ℕ) (ttl : ℕ) (j : List ℕ)
    → some (insert_sorted k (cell_at v (some ((at + ttl) / second))) db) ≡ some db'
    → find db'.0 now j ≡ (
        if bytes_eq k j
        then (if ltb (now / second) ((at + ttl) / second) then found v else missing)
        else find db.0 now j)
unfolding insert_sorted cell_at
table_get-set_ttl db db' at now k v ttl j e =
    find_after _ db' now j e (
      find-insert k (cell_at v (some ((at + ttl) / second))) db.0 now j
      ∙ (unfold read live in refl))

pub table_get-set_ttl_other :
    (db db' : Sorted) (at now : ℕ) (k v : List ℕ) (ttl : ℤ) (j : List ℕ)
    → some (insert_sorted k (cell_at v (some (expiry at ttl))) db) ≡ some db'
    → bytes_eq k j ≡ false
    → find db'.0 now j ≡ find db.0 now j
unfolding insert_sorted cell_at
table_get-set_ttl_other db db' at now k v ttl j e other =
    find_after _ db' now j e
      (find-insert k (cell_at v (some (expiry at ttl))) db.0 now j ∙ rw other)

pub table_get-delete :
    (db db' : Sorted) (now : ℕ) (k j : List ℕ)
    → some (remove_sorted k db) ≡ some db'
    → find db'.0 now j ≡ (if bytes_eq k j then missing else find db.0 now j)
unfolding remove_sorted
table_get-delete db db' now k j e = find_after _ db' now j e (find-remove k db.0 now j)

-- The list of entries as the database.
unfoldable pub table : Kv
unfolding find insert remove items insert_sorted remove_sorted cell_at read live starts_with
    bytes_eq bytes_compare
table = record {
  Db = Sorted;
  get = λ db now k. find db.0 now k;
  set = λ db k v. some (insert_sorted k (cell_at v none) db);
  set_ttl = λ db at k v ttl. some (insert_sorted k (cell_at v (some (expiry at ttl))) db);
  delete = λ db k. some (remove_sorted k db);
  commits = λ db db'. true;
  scan = λ db now p. items db.0 now p;
  size = λ db. length db.0 * 4113;
  get-set = table_get-set;
  get-set_ttl = table_get-set_ttl;
  get-set_ttl_other = table_get-set_ttl_other;
  get-delete = table_get-delete;
  scan-Ascending = λ db now p. items-Ascending now p db.0 db.1;
  scan-sound = λ db now p. items-Sound now p db.0 db.1;
  scan-complete = λ db now p k v. items_complete now p db.0 k v;
}

-- The database with no entries.
unfoldable pub empty : table.Db
unfolding table
empty = ([], tt)
