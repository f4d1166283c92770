-- ===== src/Blockstore/Index/Shards.antt =====
-- The shards hold all records, each where `ShardName` looks for it.
use sneakernet.Prelude.{
  ℕ, zero, suc, ◌+◌, ◌≤◌, ◌<◌, ◌≡◌, refl, ap, ◌∙◌, false, Bool-cases, inl, inr, List, [], ◌∷◌, ◌++◌,
  arith, ◌==◌, ==_iff, All, subst, length, get_or,
}
use sneakernet.Bytes.Order.{◌≺◌, bytes_compare}
use sneakernet.Blockstore.Index.Search.{Sorted}
use sneakernet.Blockstore.Index.{IndexRecord, first_byte, shard, shards}

abbrev pub joined : List (List IndexRecord) → List IndexRecord
joined [] = []
joined (s ∷ ss) = s ++ joined ss

-- The shards from `b` on hold records of their first byte only.
abbrev pub Placed : ℕ → List (List IndexRecord) → Type 0
Placed b [] = Unit
Placed b (s ∷ ss) = All (λ r. first_byte r ≡ b) s × Placed (suc b) ss

-- The first bytes do not fall, and are between `b` and 255.
abbrev pub Rising : ℕ → List IndexRecord → Type 0
Rising b [] = Unit
Rising b (r ∷ records) = (b ≤ first_byte r) × (first_byte r < 256) × Rising (first_byte r) records

later : (a b : ℕ) → (a == b) ≡ false → b ≤ a → suc b ≤ a
later a b e h = ground arith

-- The first records, up to one of a later shard.
shard-parts :
    (b : ℕ) (records : List IndexRecord)
    → Rising b records
    → (let parts = shard b records in
        All (λ r. first_byte r ≡ b) parts.0
        × Rising (suc b) parts.1
        × (parts.0 ++ parts.1 ≡ records))
unfolding shard
shard-parts b [] h = (tt, tt, refl)
shard-parts b (r ∷ records) h = elim (Bool-cases (first_byte r == b)) [
  | inl e ↦
      let same = (==_iff (first_byte r) b).0 e in
      let (own, others, whole) = shard-parts b records (subst (λ k. Rising k records) same h.2) in
      rw e ((same, own), others, ap (λ t. r ∷ t) whole)
  | inr e ↦ rw e (tt, (later (first_byte r) b e h.0, h.1, h.2), refl)
]

shards-parts :
    (b n : ℕ) (records : List IndexRecord)
    → b + n ≡ 256
    → Rising b records
    → Placed b (shards b n records) × (joined (shards b n records) ≡ records)
unfolding shards
shards-parts b zero [] size h = (tt, refl)
shards-parts b zero (r ∷ records) size h = absurd (omega (arith, h.0, h.1))
shards-parts b (suc n) records size h =
    let (own, others, whole) = shard-parts b records h in
    let (placed, all) = shards-parts (suc b) n ((shard b records).1) (omega arith) others in
    ((own, placed), ap (λ t. (shard b records).0 ++ t) all ∙ whole)

first_le : (xs ys : List ℕ) → length xs ≡ 32 → xs ≺ ys → get_or xs 0 0 ≤ get_or ys 0 0
unfolding bytes_compare get_or
first_le [] ys size h = absurd (omega arith)
first_le (x ∷ xs) [] size h = cc
first_le (x ∷ xs) (y ∷ ys) size h = ground arith

-- IDs of 32 bytes.
abbrev pub IsSized : IndexRecord → Type 0
IsSized r = (length r.id ≡ 32) × (first_byte r < 256)

firsts_le :
    (r : IndexRecord) (records : List IndexRecord)
    → length r.id ≡ 32
    → All (λ s. r.id ≺ s.id) records
    → All (λ s. first_byte r ≤ first_byte s) records
firsts_le r [] size h = tt
firsts_le r (s ∷ records) size h = (first_le r.id s.id size h.0, firsts_le r records size h.1)

Sorted-Rising :
    (b : ℕ) (records : List IndexRecord)
    → Sorted records
    → All IsSized records
    → All (λ r. b ≤ first_byte r) records
    → Rising b records
Sorted-Rising b [] sorted sized low = tt
Sorted-Rising b (r ∷ records) sorted sized low = (
  low.0,
  sized.0.1,
  Sorted-Rising (first_byte r) records sorted.1 sized.1 (firsts_le r records sized.0.0 sorted.0),
)

none_lower : (records : List IndexRecord) → All (λ r. 0 ≤ first_byte r) records
none_lower [] = tt
none_lower (r ∷ records) = (omega arith, none_lower records)

-- Of records whose IDs ascend and have 32 bytes, the 256 shards are the records in their order, and
-- the b-th shard holds records with the first byte b only.
pub shards-Placed :
    (records : List IndexRecord)
    → Sorted records
    → All IsSized records
    → Placed 0 (shards 0 256 records) × (joined (shards 0 256 records) ≡ records)
shards-Placed records sorted sized =
    shards-parts 0 256 records refl (Sorted-Rising 0 records sorted sized (none_lower records))
