-- ===== src/Blockstore/Kv/Table.antt =====
-- A database that meets the interface: a list of entries, ascending by key, without faults.
pub mod Scan
use Prim.Native.Nat.{Ordering}
use sneakernet.Prelude.{
  ℕ, ◌+◌, ◌*◌, ◌/◌, ◌≡◌, refl, sym, ap, ◌∙◌, Option, none, some, List, [], ◌∷◌, ◌≢◌, ◌⊎◌, Bool,
  true, false, ◌&&◌, Bool-cases, arith, inl, inr, length, All, Elem, ltb, bytes_eq, bytes_eq→eq,
  bytes_eq_congr, bytes_eq_refl, if◌then◌else◌,
}
use sneakernet.Bytes.Order.{
  bytes_compare, ◌≺◌, Ascending, ≺_trans, bytes_compare-eq→bytes_eq, bytes_compare-gt→lt,
  bytes_compare_refl,
}
use sneakernet.Blockstore.Kv.{Kv, Fetch, found, missing, second, starts_with}

-- A value, and the second at which it expires.
pub record Cell : Type 0 where
  pub value : List ℕ
  pub expires : Option ℕ

abbrev pub Entries : Type 0
Entries = List (List ℕ × Cell)

pub live : ℕ → Cell → Bool
live now c = elim c.expires [ none ↦ true | some e ↦ ltb (now / second) e ]

pub read : ℕ → Cell → Fetch
read now c = if live now c then found c.value else missing

pub find : Entries → ℕ → List ℕ → Fetch
find [] now j = missing
find ((k, c) ∷ es) now j = if bytes_eq k j then read now c else find es now j

pub insert : List ℕ → Cell → Entries → Entries
insert k c [] = (k, c) ∷ []
insert k c ((l, d) ∷ es) = elim (bytes_compare k l) [
  | Ordering.lt ↦ (k, c) ∷ (l, d) ∷ es
  | Ordering.eq ↦ (k, c) ∷ es
  | Ordering.gt ↦ (l, d) ∷ insert k c es
]

pub remove : List ℕ → Entries → Entries
remove k [] = []
remove k ((l, d) ∷ es) = if bytes_eq k l then remove k es else (l, d) ∷ remove k es

pub items : Entries → ℕ → List ℕ → List (List ℕ × Fetch)
items [] now p = []
items ((k, c) ∷ es) now p =
    if starts_with p k && live now c then (k, found c.value) ∷ items es now p else items es now p

pub Ordering-cases : (o : Ordering) → (o ≡ Ordering.lt) ⊎ ((o ≡ Ordering.eq) ⊎ (o ≡ Ordering.gt))
Ordering-cases Ordering.lt = inl refl
Ordering-cases Ordering.eq = inr (inl refl)
Ordering-cases Ordering.gt = inr (inr refl)

-- Two keys that equal a third are equal.
bytes_eq_euclid : (k l j : List ℕ) → bytes_eq k j ≡ true → bytes_eq l j ≡ true → k ≡ l
bytes_eq_euclid k l j p q = bytes_eq→eq k j p ∙ sym (bytes_eq→eq l j q)

gt_apart : (k l : List ℕ) → bytes_compare k l ≡ Ordering.gt → k ≢ l
gt_apart k l h e = cc (h, bytes_compare_refl l, ap (λ x. bytes_compare x l) e)

-- Of two keys that differ one at most equals a third.
first_of_two {ℓ} :
    {A : Type ℓ} (k l j : List ℕ) (x y z : A)
    → k ≢ l
    → (if bytes_eq l j then y else if bytes_eq k j then x else z)
      ≡ (if bytes_eq k j then x else if bytes_eq l j then y else z)
first_of_two k l j x y z apart = ground (
  arith,
  λ (p : bytes_eq k j ≡ true) (q : bytes_eq l j ≡ true). apart (bytes_eq_euclid k l j p q),
)

pub find-insert :
    (k : List ℕ) (c : Cell) (es : Entries) (now : ℕ) (j : List ℕ)
    → find (insert k c es) now j ≡ (if bytes_eq k j then read now c else find es now j)
unfolding find insert
find-insert k c [] now j = refl
find-insert k c ((l, d) ∷ es) now j = elim (Ordering-cases (bytes_compare k l)) [
  | inl e ↦ rw (e, insert)
  | inr (inl e) ↦
      let same = bytes_eq→eq k l (bytes_compare-eq→bytes_eq k l e) in
      rw (e, insert) (rw (← same) (ground arith))
  | inr (inr e) ↦
      rw (e, insert)
        (rw (find-insert k c es now j)
          (first_of_two k l j (read now c) (read now d) (find es now j) (gt_apart k l e)))
]

pub find-remove :
    (k : List ℕ) (es : Entries) (now : ℕ) (j : List ℕ)
    → find (remove k es) now j ≡ (if bytes_eq k j then missing else find es now j)
unfolding find remove
find-remove k [] now j = ground arith
find-remove k ((l, d) ∷ es) now j = elim (Bool-cases (bytes_eq k l)) [
  | inl e ↦
      let same = bytes_eq→eq k l e in
      rw e (rw (find-remove k es now j) (rw (← same) (ground arith)))
  | inr e ↦ rw e (
      rw (find-remove k es now j) (
        first_of_two k l j missing (read now d) (find es now j)
          (λ p. cc (bytes_eq_congr k l p, e))))
]
