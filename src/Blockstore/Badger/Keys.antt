-- ===== src/Blockstore/Badger/Keys.antt =====
-- The keys of different kinds differ, and a key determines what it was made from.
use sneakernet.Prelude.{
  ℕ, ◌^◌, ◌<◌, ◌≡◌, refl, sym, ap, ◌∙◌, List, ◌∷◌, ◌++◌, arith, true, false, take, drop,
  take-append, drop-append, bytes_eq, bytes_eq→eq, bytes_eq_congr, Bool-cases, inl, inr,
}
use sneakernet.Integers.{ℤ, pos, negsuc, to_u64-lt}
use sneakernet.Bytes.{put_be, get_be, length-put_be, get_be-put_be}
use sneakernet.Blockstore.Badger.{block_key, trav_key, tomb_key, from_epoch}

abbrev pub time_key : ℕ → List ℕ → List ℕ
time_key t id = b't' ∷ put_be 8 t ++ id

pub trav_key-time_key : (t : ℤ) (id : List ℕ) → trav_key t id ≡ time_key (from_epoch t) id
unfolding trav_key
trav_key-time_key t id = refl

module _ (t : ℕ) (id j : List ℕ) where
  pub time_key-ne-block_key : bytes_eq (time_key t id) (block_key j) ≡ false
  unfolding block_key bytes_eq
  time_key-ne-block_key = refl

  pub time_key-ne-tomb_key : bytes_eq (time_key t id) (tomb_key j) ≡ false
  unfolding tomb_key bytes_eq
  time_key-ne-tomb_key = refl

  pub block_key-ne-time_key : bytes_eq (block_key j) (time_key t id) ≡ false
  unfolding block_key bytes_eq
  block_key-ne-time_key = refl

  pub tomb_key-ne-time_key : bytes_eq (tomb_key j) (time_key t id) ≡ false
  unfolding tomb_key bytes_eq
  tomb_key-ne-time_key = refl

module _ (id j : List ℕ) where
  pub block_key-ne-tomb_key : bytes_eq (block_key id) (tomb_key j) ≡ false
  unfolding block_key tomb_key bytes_eq
  block_key-ne-tomb_key = refl

  pub tomb_key-ne-block_key : bytes_eq (tomb_key id) (block_key j) ≡ false
  unfolding block_key tomb_key bytes_eq
  tomb_key-ne-block_key = refl

  pub block_key-bytes_eq : bytes_eq (block_key id) (block_key j) ≡ bytes_eq id j
  unfolding block_key bytes_eq
  block_key-bytes_eq = refl

  pub tomb_key-bytes_eq : bytes_eq (tomb_key id) (tomb_key j) ≡ bytes_eq id j
  unfolding tomb_key bytes_eq
  tomb_key-bytes_eq = refl

-- A traversal key determines its time and its ID.
pub time_key-injective :
    (t u : ℕ) (id j : List ℕ)
    → t < 256 ^ 8
    → u < 256 ^ 8
    → bytes_eq (time_key t id) (time_key u j) ≡ true
    → (t ≡ u) × (id ≡ j)
time_key-injective t u id j ht hu e =
    let same : put_be 8 t ++ id ≡ put_be 8 u ++ j =
      cc (bytes_eq→eq (time_key t id) (time_key u j) e) in
    let times : put_be 8 t ≡ put_be 8 u =
      sym (take-append (put_be 8 t) id (length-put_be 8 t))
      ∙ ap (take 8) same
      ∙ take-append (put_be 8 u) j (length-put_be 8 u) in
    (
      sym (get_be-put_be 8 t ht) ∙ ap get_be times ∙ get_be-put_be 8 u hu,
      sym (drop-append (put_be 8 t) id (length-put_be 8 t))
          ∙ ap (drop 8) same
          ∙ drop-append (put_be 8 u) j (length-put_be 8 u),
    )

pub from_epoch-lt : (t : ℤ) → from_epoch t < 256 ^ 8
from_epoch-lt (pos n) = to_u64-lt (pos n)
from_epoch-lt (negsuc n) = omega arith

module _ (t u : ℕ) (id j : List ℕ) where
  -- Traversal keys of different blocks differ.
  pub time_key_apart :
      t < 256 ^ 8
      → u < 256 ^ 8
      → bytes_eq id j ≡ false
      → bytes_eq (time_key t id) (time_key u j) ≡ false
  time_key_apart ht hu other = elim (Bool-cases (bytes_eq (time_key t id) (time_key u j))) [
    | inr e ↦ e
    | inl e ↦ absurd (cc (bytes_eq_congr id j (time_key-injective t u id j ht hu e).1, other))
  ]

  pub time_key_same : t ≡ u → bytes_eq id j ≡ true → bytes_eq (time_key t id) (time_key u j) ≡ true
  time_key_same e this =
      bytes_eq_congr (time_key t id) (time_key u j)
        (ap (λ k. time_key k id) e ∙ ap (time_key u) (bytes_eq→eq id j this))
