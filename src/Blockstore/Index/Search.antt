-- ===== src/Blockstore/Index/Search.antt =====
-- The binary search against a lookup from the front.
use Prim.Native.Nat.{Ordering}
use sneakernet.Prelude.{
  ℕ, zero, suc, ◌+◌, ◌-◌, ◌/◌, ◌≤◌, ◌<◌, ◌≡◌, refl, sym, ap, ◌∙◌, true, false, Bool-cases, Option,
  none, some, ◌⊎◌, inl, inr, List, [], ◌∷◌, arith, ltb, ltb→lt, bytes_eq, bytes_eq→eq,
  bytes_eq_swap, if◌then◌else◌, length, get_or, All, All-get_or, subst,
}
use sneakernet.Bytes.Order.{
  bytes_compare, ◌≺◌, bytes_compare_refl, bytes_compare-eq→bytes_eq, bytes_compare-gt→lt, ≺_trans,
}
use sneakernet.Blockstore.Index.{IndexRecord, zero_record, search_loop, search}

-- The first record with the ID.
abbrev pub lookup : List IndexRecord → List ℕ → Option IndexRecord
lookup [] id = none
lookup (r ∷ records) id = if bytes_eq r.id id then some r else lookup records id

-- The IDs ascend strictly.
abbrev pub Sorted : List IndexRecord → Type 0
Sorted [] = Unit
Sorted (r ∷ records) = All (λ s. r.id ≺ s.id) records × Sorted records

abbrev at : List IndexRecord → ℕ → IndexRecord
at records i = get_or records i zero_record

Sorted-at :
    (records : List IndexRecord) (i j : ℕ)
    → Sorted records
    → i < j
    → j < length records
    → IndexRecord.id (at records i) ≺ IndexRecord.id (at records j)
unfolding get_or
Sorted-at [] i j s h k = absurd (omega arith)
Sorted-at (r ∷ records) zero zero s h k = absurd (omega arith)
Sorted-at (r ∷ records) zero (suc j) s h k =
    All-get_or (λ t. r.id ≺ t.id) records j zero_record (omega arith) s.0
Sorted-at (r ∷ records) (suc i) zero s h k = absurd (omega arith)
Sorted-at (r ∷ records) (suc i) (suc j) s h k =
    Sorted-at records i j s.1 (omega arith) (omega arith)

less_differs : (xs ys : List ℕ) → xs ≺ ys → bytes_eq xs ys ≡ false
less_differs xs ys h = elim (Bool-cases (bytes_eq xs ys)) [
  | inl e ↦ absurd (
      mixed (
        sym (bytes_compare_refl ys) ∙ ap (λ t. bytes_compare t ys) (sym (bytes_eq→eq xs ys e)) ∙ h))
  | inr e ↦ e
]
  where
    mixed : Ordering.eq ≡ Ordering.lt → ⊥
    mixed e = cc

more_differs : (xs ys : List ℕ) → ys ≺ xs → bytes_eq xs ys ≡ false
more_differs xs ys h = bytes_eq_swap ys xs (less_differs ys xs h)

lookup-none :
    (records : List IndexRecord) (id : List ℕ)
    → ((i : ℕ) → i < length records → bytes_eq (IndexRecord.id (at records i)) id ≡ false)
    → lookup records id ≡ none
unfolding get_or
lookup-none [] id h = refl
lookup-none (r ∷ records) id h =
    rw (h 0 (omega arith)) (lookup-none records id (λ i k. h (suc i) (omega arith)))

lookup-at :
    (records : List IndexRecord) (id : List ℕ) (m : ℕ)
    → m < length records
    → bytes_eq (IndexRecord.id (at records m)) id ≡ true
    → ((i : ℕ) → i < m → bytes_eq (IndexRecord.id (at records i)) id ≡ false)
    → lookup records id ≡ some (at records m)
unfolding get_or
lookup-at [] id m k e h = absurd (omega arith)
lookup-at (r ∷ records) id zero k e h = rw e refl
lookup-at (r ∷ records) id (suc m) k e h =
    rw (h 0 (omega arith)) (lookup-at records id m (omega arith) e (λ i l. h (suc i) (omega arith)))

Ordering-cases : (o : Ordering) → (o ≡ Ordering.lt) ⊎ (o ≡ Ordering.eq) ⊎ (o ≡ Ordering.gt)
Ordering-cases Ordering.lt = inl refl
Ordering-cases Ordering.eq = inr (inl refl)
Ordering-cases Ordering.gt = inr (inr refl)

last_one : (i m : ℕ) → ltb i m ≡ false → i < m + 1 → m ≡ i
last_one i m l k = ground arith

first_one : (i m : ℕ) → ltb m i ≡ false → m ≤ i → m ≡ i
first_one i m l k = ground arith

from_there : (i lo hi : ℕ) → ltb i lo ≡ false → ltb lo hi ≡ false → hi ≤ i
from_there i lo hi a b = ground arith

module _ (records : List IndexRecord) (id : List ℕ) (sorted : Sorted records) where
  abbrev Below : ℕ → Type 0
  Below lo = (i : ℕ) → i < lo → IndexRecord.id (at records i) ≺ id

  abbrev Above : ℕ → Type 0
  Above hi = (i : ℕ) → hi ≤ i → i < length records → id ≺ IndexRecord.id (at records i)

  -- The record at `m` is below the ID, and with it all in front of it.
  Below-next : (m : ℕ) → m < length records → IndexRecord.id (at records m) ≺ id → Below (m + 1)
  Below-next m inside e i k = elim (Bool-cases (ltb i m)) [
    | inl l ↦
        ≺_trans (IndexRecord.id (at records i)) (IndexRecord.id (at records m)) id
          (Sorted-at records i m sorted (ltb→lt _ _ l) inside) e
    | inr l ↦ subst (λ j. IndexRecord.id (at records j) ≺ id) (last_one i m l k) e
  ]

  -- The record at `m` is above the ID, and with it all behind it.
  Above-from : (m : ℕ) → id ≺ IndexRecord.id (at records m) → Above m
  Above-from m e i k inside = elim (Bool-cases (ltb m i)) [
    | inl l ↦
        ≺_trans id (IndexRecord.id (at records m)) (IndexRecord.id (at records i)) e
          (Sorted-at records m i sorted (ltb→lt _ _ l) inside)
    | inr l ↦ subst (λ j. id ≺ IndexRecord.id (at records j)) (first_one i m l k) e
  ]

  -- Nothing is between the bounds: no record has the ID.
  nowhere : (lo hi : ℕ) → ltb lo hi ≡ false → Below lo → Above hi → lookup records id ≡ none
  nowhere lo hi done below above = lookup-none records id (λ i k. elim (Bool-cases (ltb i lo)) [
    | inl l ↦ less_differs _ _ (below i (ltb→lt _ _ l))
    | inr l ↦ more_differs _ _ (above i (from_there i lo hi l done) k)
  ])

  found_there :
      (m : ℕ)
      → m < length records
      → bytes_compare (IndexRecord.id (at records m)) id ≡ Ordering.eq
      → lookup records id ≡ some (at records m)
  found_there m inside e =
      let same = bytes_compare-eq→bytes_eq _ _ e in
      lookup-at records id m inside same (λ i k. less_differs _ _ (
        subst (λ t. IndexRecord.id (at records i) ≺ t) (bytes_eq→eq _ _ same)
          (Sorted-at records i m sorted k inside)))

  -- With more fuel than there are records between the bounds the loop ends.
  search_loop-lookup :
      (fuel lo hi : ℕ)
      → hi - lo < fuel
      → hi ≤ length records
      → Below lo
      → Above hi
      → search_loop records id fuel lo hi ≡ some (lookup records id)
  unfolding search_loop
  search_loop-lookup zero lo hi enough fits below above = absurd (omega arith)
  search_loop-lookup (suc fuel) lo hi enough fits below above =
      let mid = (lo + hi) / 2 in
      elim (Bool-cases (ltb lo hi)) [
        | inr done ↦ rw done (ap some (sym (nowhere lo hi done below above)))
        | inl go ↦
            let l : lo < hi = ltb→lt _ _ go in
            let inside : mid < length records = omega arith in
            elim (Ordering-cases (bytes_compare (IndexRecord.id (at records mid)) id)) [
              | inl e ↦
                  rw (go, search_loop, e)
                    (search_loop-lookup fuel (mid + 1) hi (omega arith) fits
                      (Below-next mid inside e) above)
              | inr (inl e) ↦ rw (go, search_loop, e) (ap some (sym (found_there mid inside e)))
              | inr (inr e) ↦
                  rw (go, search_loop, e)
                    (search_loop-lookup fuel lo mid (omega arith) (omega arith) below
                      (Above-from mid (bytes_compare-gt→lt _ _ e)))
            ]
      ]

  -- On records whose IDs ascend the binary search ends, and finds the record that a search from the
  -- front finds, or none if that finds none.
  pub search-lookup : search records id ≡ some (lookup records id)
  search-lookup =
      search_loop-lookup (suc (length records)) 0 (length records) (omega arith) (omega arith)
        (λ i k. absurd (omega arith)) (λ i k inside. absurd (omega arith))
