-- ===== src/Blockstore/Badger/Evict/Sorted.antt =====
-- The order of expiry, and sorting by it.
use mathlib.Core.List.Perm
use mathlib.Core.List.{Perm}
use sneakernet.Prelude.{
  ℕ, suc, ◌*◌, ◌≡◌, ◌≢◌, refl, ap, ◌∙◌, List, [], ◌∷◌, ◌++◌, true, false, arith, All, length,
  if_elim,
}
use sneakernet.Integers.{ℤ, pos, ltb_ℤ}
use sneakernet.Blockstore.Badger.Evict.{
  EvictCandidate, TagGroup, insert_candidate, sort_candidates, logical_expiry, block_size,
}

-- All candidates that are left.
abbrev pub flat : List TagGroup → List EvictCandidate
flat [] = []
flat (g ∷ gs) = g.queue ++ flat gs

abbrev pub Apart : List TagGroup → Type 0
Apart [] = Unit
Apart (g ∷ gs) = All (λ h. g.tag ≢ h.tag) gs × Apart gs

-- The order of expiry.
module _ (lifetime : ℕ → ℤ) where
  abbrev pub NotSooner : EvictCandidate → EvictCandidate → Type 0
  NotSooner c d = ltb_ℤ (logical_expiry lifetime d) (logical_expiry lifetime c) ≡ false

  abbrev pub IsSorted : List EvictCandidate → Type 0
  IsSorted [] = Unit
  IsSorted (c ∷ cs) = All (NotSooner c) cs × IsSorted cs

  -- A tag's list holds its candidates, sorted, and its usage counts them.
  pub record IsTagGroup (g : TagGroup) : Type 0 where
    pub tagged : All (λ c. c.tag ≡ g.tag) g.queue
    pub sorted : IsSorted g.queue
    pub used : g.usage ≡ block_size * length g.queue

  pub record IsGrouped (gs : List TagGroup) : Type 0 where
    pub apart : Apart gs
    pub groups : All IsTagGroup gs

pub ltb_ℤ-trans : (a b c : ℤ) → ltb_ℤ b a ≡ false → ltb_ℤ c b ≡ false → ltb_ℤ c a ≡ false
ltb_ℤ-trans (pos a) (pos b) (pos c) h k = ground arith
ltb_ℤ-trans (pos a) (pos b) (ℤ.negsuc c) h k = ground arith
ltb_ℤ-trans (pos a) (ℤ.negsuc b) (pos c) h k = ground arith
ltb_ℤ-trans (pos a) (ℤ.negsuc b) (ℤ.negsuc c) h k = ground arith
ltb_ℤ-trans (ℤ.negsuc a) (pos b) (pos c) h k = ground arith
ltb_ℤ-trans (ℤ.negsuc a) (pos b) (ℤ.negsuc c) h k = ground arith
ltb_ℤ-trans (ℤ.negsuc a) (ℤ.negsuc b) (pos c) h k = ground arith
ltb_ℤ-trans (ℤ.negsuc a) (ℤ.negsuc b) (ℤ.negsuc c) h k = ground arith

pub ltb_ℤ-asym : (a b : ℤ) → ltb_ℤ a b ≡ true → ltb_ℤ b a ≡ false
ltb_ℤ-asym (pos a) (pos b) h = ground arith
ltb_ℤ-asym (pos a) (ℤ.negsuc b) h = ground arith
ltb_ℤ-asym (ℤ.negsuc a) (pos b) h = ground arith
ltb_ℤ-asym (ℤ.negsuc a) (ℤ.negsuc b) h = ground arith

module _ (lifetime : ℕ → ℤ) where
  -- Sorting.
  insert_candidate-All :
      (P : EvictCandidate → Type 0) (c : EvictCandidate) (ds : List EvictCandidate)
      → P c
      → All P ds
      → All P (insert_candidate lifetime c ds)
  unfolding insert_candidate
  insert_candidate-All P c [] hc h = (hc, tt)
  insert_candidate-All P c (d ∷ ds) hc h =
      if_elim (All P) (ltb_ℤ (logical_expiry lifetime d) (logical_expiry lifetime c))
        (d ∷ insert_candidate lifetime c ds) (c ∷ d ∷ ds)
        (λ _. (h.0, insert_candidate-All P c ds hc h.1)) (λ _. (hc, h))

  NotSooner-all :
      (c d : EvictCandidate)
      → NotSooner lifetime c d
      → (ds : List EvictCandidate) → All (NotSooner lifetime d) ds
      → All (NotSooner lifetime c) ds
  NotSooner-all c d h [] hs = tt
  NotSooner-all c d h (e ∷ ds) hs = (
    ltb_ℤ-trans (logical_expiry lifetime c) (logical_expiry lifetime d) (logical_expiry lifetime e)
        h hs.0,
    NotSooner-all c d h ds hs.1,
  )

  insert_candidate-IsSorted :
      (c : EvictCandidate) (ds : List EvictCandidate)
      → IsSorted lifetime ds
      → IsSorted lifetime (insert_candidate lifetime c ds)
  unfolding insert_candidate
  insert_candidate-IsSorted c [] h = (tt, tt)
  insert_candidate-IsSorted c (d ∷ ds) h =
      if_elim (IsSorted lifetime) (ltb_ℤ (logical_expiry lifetime d) (logical_expiry lifetime c))
        (d ∷ insert_candidate lifetime c ds) (c ∷ d ∷ ds)
        (λ sooner. (
          insert_candidate-All (NotSooner lifetime d) c ds
              (ltb_ℤ-asym (logical_expiry lifetime d) (logical_expiry lifetime c) sooner) h.0,
          insert_candidate-IsSorted c ds h.1,
        ))
        (λ later. ((later, NotSooner-all c d later ds h.0), h))

  insert_candidate-perm :
      (c : EvictCandidate) (ds : List EvictCandidate)
      → Perm (insert_candidate lifetime c ds) (c ∷ ds)
  unfolding insert_candidate
  insert_candidate-perm c [] = Perm.refl (c ∷ [])
  insert_candidate-perm c (d ∷ ds) =
      if_elim (λ l. Perm l (c ∷ d ∷ ds))
        (ltb_ℤ (logical_expiry lifetime d) (logical_expiry lifetime c))
        (d ∷ insert_candidate lifetime c ds) (c ∷ d ∷ ds)
        (λ _. Perm.trans (Perm.cons d (insert_candidate-perm c ds)) (Perm.swap c d ds))
        (λ _. Perm.refl (c ∷ d ∷ ds))

  pub sort_candidates-perm : (cs : List EvictCandidate) → Perm (sort_candidates lifetime cs) cs
  unfolding sort_candidates
  sort_candidates-perm [] = Perm.refl []
  sort_candidates-perm (c ∷ cs) =
      Perm.trans (insert_candidate-perm c (sort_candidates lifetime cs))
        (Perm.cons c (sort_candidates-perm cs))

  length-insert_candidate :
      (c : EvictCandidate) (ds : List EvictCandidate)
      → length (insert_candidate lifetime c ds) ≡ suc (length ds)
  unfolding insert_candidate
  length-insert_candidate c [] = refl
  length-insert_candidate c (d ∷ ds) = ground (arith, length-insert_candidate c ds)

  pub length-sort_candidates :
      (cs : List EvictCandidate) → length (sort_candidates lifetime cs) ≡ length cs
  unfolding sort_candidates
  length-sort_candidates [] = refl
  length-sort_candidates (c ∷ cs) =
      length-insert_candidate c (sort_candidates lifetime cs) ∙ ap suc (length-sort_candidates cs)

  pub sort_candidates-All :
      (P : EvictCandidate → Type 0) (cs : List EvictCandidate)
      → All P cs
      → All P (sort_candidates lifetime cs)
  unfolding sort_candidates
  sort_candidates-All P [] h = tt
  sort_candidates-All P (c ∷ cs) h =
      insert_candidate-All P c (sort_candidates lifetime cs) h.0 (sort_candidates-All P cs h.1)

  pub sort_candidates-IsSorted :
      (cs : List EvictCandidate) → IsSorted lifetime (sort_candidates lifetime cs)
  unfolding sort_candidates
  sort_candidates-IsSorted [] = tt
  sort_candidates-IsSorted (c ∷ cs) =
      insert_candidate-IsSorted c (sort_candidates lifetime cs) (sort_candidates-IsSorted cs)
