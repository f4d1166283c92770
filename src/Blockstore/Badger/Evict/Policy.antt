-- ===== src/Blockstore/Badger/Evict/Policy.antt =====
-- What a round chooses, in terms of all the candidates that are left.
use sneakernet.Prelude.{
  ℕ, ◌+◌, ◌-◌, ◌*◌, ◌≡◌, ◌≢◌, refl, sym, List, [], ◌∷◌, ◌++◌, false, arith, inl, inr, subst, All,
  All-elem, All-drop, Elem, Elem-split, length, drop, ◌==◌, if_elim, if◌then◌else◌,
}
use sneakernet.Integers.{ℤ, pos, negsuc, ltb_ℤ, sub_i64}
use sneakernet.Blockstore.Badger.Evict.{EvictCandidate, TagGroup, block_size, pop_tag}
use sneakernet.Blockstore.Badger.Evict.Sorted.{flat, NotSooner, IsSorted, IsTagGroup, IsGrouped}

pub count_tag : ℕ → List EvictCandidate → ℕ
count_tag t [] = 0
count_tag t (c ∷ cs) = (if c.tag == t then 1 else 0) + count_tag t cs

-- By how much a tag is over its reservation, if these candidates are left.
abbrev pub over_reserved : (ℕ → ℤ) → ℕ → List EvictCandidate → ℤ
over_reserved reservations t cs = sub_i64 (pos (block_size * count_tag t cs)) (reservations t)

-- A candidate to evict: no other of its tag expires sooner, and no tag that has one is further over
-- its reservation.
pub record IsBest (lifetime reservations : ℕ → ℤ) (c : EvictCandidate) (cs : List EvictCandidate)
    : Type 0 where
  pub soonest : (d : EvictCandidate) → Elem d cs → d.tag ≡ c.tag → NotSooner lifetime c d
  pub furthest_over :
      (d : EvictCandidate)
      → Elem d cs
      → ltb_ℤ (over_reserved reservations c.tag cs) (over_reserved reservations d.tag cs) ≡ false

-- One occurrence of `c` less.
abbrev pub Removes : EvictCandidate → List EvictCandidate → List EvictCandidate → Type 0
Removes c cs rest =
    (pre : List EvictCandidate) × (post : List EvictCandidate) × (cs ≡ pre ++ c ∷ post)
    × (rest ≡ pre ++ post)

count_tag-append :
    (t : ℕ) (xs ys : List EvictCandidate) → count_tag t (xs ++ ys) ≡ count_tag t xs + count_tag t ys
unfolding count_tag
count_tag-append t [] ys = omega arith
count_tag-append t (x ∷ xs) ys = omega (arith, count_tag-append t xs ys)

count_tag_all :
    (t : ℕ) (xs : List EvictCandidate) → All (λ c. c.tag ≡ t) xs → count_tag t xs ≡ length xs
unfolding count_tag
count_tag_all t [] h = refl
count_tag_all t (x ∷ xs) h = ground (arith, h.0, count_tag_all t xs h.1)

count_tag_none :
    (t u : ℕ) (xs : List EvictCandidate) → t ≢ u → All (λ c. c.tag ≡ u) xs → count_tag t xs ≡ 0
unfolding count_tag
count_tag_none t u [] apart h = refl
count_tag_none t u (x ∷ xs) apart h = ground (arith, h.0, apart, count_tag_none t u xs apart h.1)

pub ltb_ℤ-irrefl : (a : ℤ) → ltb_ℤ a a ≡ false
ltb_ℤ-irrefl (pos a) = ground arith
ltb_ℤ-irrefl (negsuc a) = ground arith

pub Elem-flat :
    (gs : List TagGroup) (c : EvictCandidate)
    → Elem c (flat gs)
    → (g : TagGroup) × Elem g gs × Elem c g.queue
Elem-flat [] c m = absurd m
Elem-flat (g ∷ gs) c m = elim (Elem-split g.queue (flat gs) c m) [
  | inl here ↦ (g, inl refl, here)
  | inr there ↦ let (h, among, has) = Elem-flat gs c there in (h, inr among, has)
]

module _ (lifetime : ℕ → ℤ) where
  count_tag_absent :
      (t : ℕ) (gs : List TagGroup)
      → All (λ h. t ≢ h.tag) gs
      → All (IsTagGroup lifetime) gs
      → count_tag t (flat gs) ≡ 0
  count_tag_absent t [] apart h = unfold count_tag in refl
  count_tag_absent t (g ∷ gs) apart h = omega (
    arith,
    count_tag-append t g.queue (flat gs),
    count_tag_none t g.tag g.queue apart.0 h.0.tagged,
    count_tag_absent t gs apart.1 h.1,
  )

  -- A tag's usage counts all its candidates.
  pub count_tag-flat :
      (gs : List TagGroup) (g : TagGroup)
      → IsGrouped lifetime gs
      → Elem g gs
      → count_tag g.tag (flat gs) ≡ length g.queue
  count_tag-flat [] g h m = absurd m
  count_tag-flat (k ∷ gs) g h (inl e) =
      subst (λ g. count_tag g.tag (flat (k ∷ gs)) ≡ length g.queue) e
        (omega (
          arith,
          count_tag-append k.tag k.queue (flat gs),
          count_tag_all k.tag k.queue h.groups.0.tagged,
          count_tag_absent k.tag gs h.apart.0 h.groups.1,
        ))
  count_tag-flat (k ∷ gs) g h (inr m) =
      let other : k.tag ≢ g.tag = All-elem (λ h. k.tag ≢ h.tag) gs g h.apart.0 m in
      omega (
        arith,
        count_tag-append g.tag k.queue (flat gs),
        count_tag_none g.tag k.tag k.queue (λ e. other (sym e)) h.groups.0.tagged,
        count_tag-flat gs g (record { apart = h.apart.1; groups = h.groups.1 }) m,
      )

  -- Taking a tag's first candidate off its list.
  pop_tag-All :
      (t u : ℕ) (gs : List TagGroup) → All (λ h. t ≢ h.tag) gs → All (λ h. t ≢ h.tag) (pop_tag u gs)
  unfolding pop_tag
  pop_tag-All t u [] h = tt
  pop_tag-All t u (g ∷ gs) h =
      if_elim (All (λ h. t ≢ h.tag)) (g.tag == u)
        (record g { usage = g.usage - block_size; queue = drop 1 g.queue } ∷ gs) (g ∷ pop_tag u gs)
        (λ _. (h.0, h.1)) (λ _. (h.0, pop_tag-All t u gs h.1))

  drop-IsSorted : (cs : List EvictCandidate) → IsSorted lifetime cs → IsSorted lifetime (drop 1 cs)
  unfolding drop
  drop-IsSorted [] h = tt
  drop-IsSorted (c ∷ cs) h = h.1

  popped :
      (size : ℕ) (cs : List EvictCandidate)
      → size ≡ block_size * length cs
      → size - block_size ≡ block_size * length (drop 1 cs)
  unfolding drop
  popped size [] e = omega arith
  popped size (c ∷ cs) e = omega arith

  pub pop_tag-IsGrouped :
      (t : ℕ) (gs : List TagGroup) → IsGrouped lifetime gs → IsGrouped lifetime (pop_tag t gs)
  unfolding pop_tag
  pop_tag-IsGrouped t [] h = h
  pop_tag-IsGrouped t (g ∷ gs) h =
      if_elim (IsGrouped lifetime) (g.tag == t)
        (record g { usage = g.usage - block_size; queue = drop 1 g.queue } ∷ gs) (g ∷ pop_tag t gs)
        (λ _. record {
          apart = h.apart;
          groups = (
            record {
              tagged = All-drop (λ c. c.tag ≡ g.tag) 1 g.queue h.groups.0.tagged;
              sorted = drop-IsSorted g.queue h.groups.0.sorted;
              used = popped g.usage g.queue h.groups.0.used;
            },
            h.groups.1,
          );
        })
        (λ _.
          let rest = pop_tag-IsGrouped t gs (record { apart = h.apart.1; groups = h.groups.1 }) in
          record {
            apart = (pop_tag-All g.tag t gs h.apart.0, rest.apart);
            groups = (h.groups.0, rest.groups);
          })
