-- ===== src/Relay/Bloom/Member.antt =====
-- What `Has` answers after `Add`, and the filter's wire form.
use sneakernet.Prelude.{
  ℕ, zero, suc, ◌+◌, ◌<◌, ◌≤◌, ◌≡◌, refl, sym, ap, subst, ◌∙◌, Bool, true, false, ◌&&◌, some, List,
  [], ◌∷◌, arith, inl, inr, ◌==◌, ==_iff, Bool-cases, ◌⊎◌, length, All, copy, replicate,
  length-replicate, copy-append, append-nil,
}
use sneakernet.Bytes.{IsBytes, zeros-IsBytes}
use sneakernet.Blockstore.{BlockRef}
use sneakernet.Relay.Bloom.{
  Bloom, bloom_bytes, new_bloom, slot, has_bit, offsets, cap, add_offsets, add_levels, add,
  has_offsets, has, to_bytes, from_bytes, add_refs,
}
use sneakernet.Relay.Bloom.Bits.{slot-lt, set_bit-IsBytes, has_bit-set_bit_self, has_bit-set_bit}

-- The array has its fixed size and holds bytes.
abbrev pub IsBloom : Bloom → Type 0
IsBloom b = IsBytes bloom_bytes b.bits

-- One array answers `true` wherever another does.
abbrev Grows : List ℕ → List ℕ → Type 0
Grows xs ys = (t : ℕ) → has_bit xs t ≡ true → has_bit ys t ≡ true

add_offsets-IsBytes :
    (id : List ℕ) (level : ℕ) (offs xs : List ℕ)
    → IsBytes bloom_bytes xs
    → IsBytes bloom_bytes (add_offsets xs id level offs)
unfolding add_offsets
add_offsets-IsBytes id level [] xs h = h
add_offsets-IsBytes id level (off ∷ offs) xs h =
    add_offsets-IsBytes id level offs _ (set_bit-IsBytes xs h _ (slot-lt id off level))

add_offsets-Grows :
    (id : List ℕ) (level : ℕ) (offs xs : List ℕ)
    → IsBytes bloom_bytes xs
    → Grows xs (add_offsets xs id level offs)
unfolding add_offsets
add_offsets-Grows id level [] xs h t had = had
add_offsets-Grows id level (off ∷ offs) xs h t had =
    let small = slot-lt id off level in
    add_offsets-Grows id level offs _ (set_bit-IsBytes xs h _ small) t
      (has_bit-set_bit xs h _ small t had)

both : (a b : Bool) → a ≡ true → b ≡ true → a && b ≡ true
both a b ha hb = ground arith

split_and : (a b : Bool) → a && b ≡ true → (a ≡ true) × (b ≡ true)
split_and true b h = (refl, h)
split_and false b h = cc

has_offsets-Grows :
    (id : List ℕ) (level : ℕ) (offs xs ys : List ℕ)
    → Grows xs ys
    → has_offsets xs id level offs ≡ true
    → has_offsets ys id level offs ≡ true
unfolding has_offsets
has_offsets-Grows id level [] xs ys g h = refl
has_offsets-Grows id level (off ∷ offs) xs ys g h =
    let (own, rest) = split_and (has_bit xs (slot id off level)) (has_offsets xs id level offs) h in
    both _ _ (g _ own) (has_offsets-Grows id level offs xs ys g rest)

has_offsets-add_offsets :
    (id : List ℕ) (level : ℕ) (offs xs : List ℕ)
    → IsBytes bloom_bytes xs
    → has_offsets (add_offsets xs id level offs) id level offs ≡ true
unfolding has_offsets add_offsets
has_offsets-add_offsets id level [] xs h = refl
has_offsets-add_offsets id level (off ∷ offs) xs h =
    let small = slot-lt id off level in
    let next = set_bit-IsBytes xs h _ small in
    both _ _ (add_offsets-Grows id level offs _ next _ (has_bit-set_bit_self xs h _ small))
      (has_offsets-add_offsets id level offs _ next)

add_levels-IsBytes :
    (id : List ℕ) (n level : ℕ) (xs : List ℕ)
    → IsBytes bloom_bytes xs
    → IsBytes bloom_bytes (add_levels xs id level n)
unfolding add_levels
add_levels-IsBytes id zero level xs h = h
add_levels-IsBytes id (suc n) level xs h =
    add_levels-IsBytes id n (suc level) _ (add_offsets-IsBytes id level offsets xs h)

add_levels-Grows :
    (id : List ℕ) (n level : ℕ) (xs : List ℕ)
    → IsBytes bloom_bytes xs
    → Grows xs (add_levels xs id level n)
unfolding add_levels
add_levels-Grows id zero level xs h t had = had
add_levels-Grows id (suc n) level xs h t had =
    add_levels-Grows id n (suc level) _ (add_offsets-IsBytes id level offsets xs h) t
      (add_offsets-Grows id level offsets xs h t had)

eq_or_lt : (a b : ℕ) → a ≤ b → (a ≡ b) ⊎ (a < b)
eq_or_lt a b h = elim (Bool-cases (a == b)) [
  | inl e ↦ inl ((==_iff a b).0 e)
  | inr e ↦ inr (ground arith)
]

-- The levels from `level` on, `n` of them, are all in the array.
has_offsets-add_levels :
    (id : List ℕ) (n level l : ℕ) (xs : List ℕ)
    → IsBytes bloom_bytes xs
    → level ≤ l
    → l < level + n
    → has_offsets (add_levels xs id level n) id l offsets ≡ true
unfolding add_levels
has_offsets-add_levels id zero level l xs h lo hi = absurd (omega arith)
has_offsets-add_levels id (suc n) level l xs h lo hi =
    let next = add_offsets-IsBytes id level offsets xs h in
    elim (eq_or_lt level l lo) [
      | inl e ↦
          has_offsets-Grows id l offsets (add_offsets xs id level offsets) _
            (add_levels-Grows id n (suc level) _ next)
            (subst (λ k. has_offsets (add_offsets xs id level offsets) id k offsets ≡ true) e
              (has_offsets-add_offsets id level offsets xs h))
      | inr lt ↦ has_offsets-add_levels id n (suc level) l _ next (omega arith) (omega arith)
    ]

module _ (b : Bloom) (h : IsBloom b) (id : List ℕ) (k : ℕ) where
  pub add-IsBloom : IsBloom (add b id k)
  unfolding add
  add-IsBloom = add_levels-IsBytes id (suc (cap k)) 0 b.bits h

  -- After an ID is added at a work factor to a well-formed filter, the filter answers yes for it at every work factor up to
  -- that one.
  pub has-add : (wf : ℕ) → wf ≤ k → has (add b id k) id wf ≡ true
  unfolding add has
  has-add wf le =
      has_offsets-add_levels id (suc (cap k)) 0 (cap wf) b.bits h (omega arith) (ground arith)

  -- Adding an ID to a well-formed filter takes no answer back: where it answered yes, it still does.
  pub has-add_other :
      (other : List ℕ) (wf : ℕ) → has b other wf ≡ true → has (add b id k) other wf ≡ true
  unfolding add has
  has-add_other other wf had =
      has_offsets-Grows other (cap wf) offsets b.bits _
        (add_levels-Grows id (suc (cap k)) 0 b.bits h) had

pub new_bloom-IsBloom : IsBloom new_bloom
new_bloom-IsBloom = zeros-IsBytes bloom_bytes

abbrev pub Holds : Bloom → BlockRef → Type 0
Holds b ref = (wf : ℕ) → wf ≤ ref.work_factor → has b ref.id wf ≡ true

pub add_refs-IsBloom : (refs : List BlockRef) (b : Bloom) → IsBloom b → IsBloom (add_refs b refs)
unfolding add_refs
add_refs-IsBloom [] b h = h
add_refs-IsBloom (ref ∷ refs) b h = add_refs-IsBloom refs _ (add-IsBloom b h ref.id ref.work_factor)

pub add_refs_keeps :
    (refs : List BlockRef) (b : Bloom) (r : BlockRef)
    → IsBloom b
    → Holds b r
    → Holds (add_refs b refs) r
unfolding add_refs
add_refs_keeps [] b r h had = had
add_refs_keeps (ref ∷ refs) b r h had =
    add_refs_keeps refs _ r (add-IsBloom b h ref.id ref.work_factor)
      (λ wf le. has-add_other b h ref.id ref.work_factor r.id wf (had wf le))

pub add_refs-Holds :
    (refs : List BlockRef) (b : Bloom) → IsBloom b → All (Holds (add_refs b refs)) refs
unfolding add_refs
add_refs-Holds [] b h = tt
add_refs-Holds (ref ∷ refs) b h =
    let next = add-IsBloom b h ref.id ref.work_factor in
    (
      add_refs_keeps refs _ ref next (has-add b h ref.id ref.work_factor),
      add_refs-Holds refs _ next,
    )

pub to_bytes-bits : (b : Bloom) → IsBloom b → to_bytes b ≡ b.bits
unfolding to_bytes
to_bytes-bits b h =
    ap (λ t. copy t b.bits) (sym (append-nil _))
    ∙ copy-append (replicate bloom_bytes 0) b.bits [] (length-replicate bloom_bytes 0 ∙ sym h.size)
    ∙ append-nil b.bits

pub length-to_bytes : (b : Bloom) → IsBloom b → length (to_bytes b) ≡ bloom_bytes
length-to_bytes b h = ap length (to_bytes-bits b h) ∙ h.size

-- The wire form of a well-formed filter parses back to the filter.
pub from_bytes-to_bytes : (b : Bloom) → IsBloom b → from_bytes (to_bytes b) ≡ some b
unfolding from_bytes
from_bytes-to_bytes b h =
    let same : copy (replicate bloom_bytes 0) b.bits ≡ b.bits =
      (unfold to_bytes in to_bytes-bits b h) in
    rw (to_bytes-bits b h, h.size, same)
