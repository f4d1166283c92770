-- ===== src/Blockstore/Badger/Evict/Choice.antt =====
-- A round takes a best candidate.
use sneakernet.Prelude.{
  ℕ, ◌*◌, ◌≡◌, ◌≢◌, refl, sym, ap, ◌∙◌, none, some, List, [], ◌∷◌, ◌++◌, append_assoc, true,
  Bool-cases, inl, inr, subst, All-elem, Elem, drop, ◌==◌, ==_iff,
}
use sneakernet.Integers.{ℤ, pos, sub_i64}
use sneakernet.Blockstore.Badger.Evict.{
  EvictCandidate, TagGroup, Target, block_size, pop_tag, over_of, furthest, logical_expiry,
}
use sneakernet.Blockstore.Badger.Evict.Sorted.{
  flat, NotSooner, IsSorted, IsTagGroup, Apart, IsGrouped,
}
use sneakernet.Blockstore.Badger.Evict.Covers.{Covers, furthest-Covers-Elem}
use sneakernet.Blockstore.Badger.Evict.Policy.{
  count_tag-flat, over_reserved, IsBest, Removes, ltb_ℤ-irrefl, Elem-flat,
}

pub pop_tag-Removes :
    (gs : List TagGroup) (g : TagGroup) (c : EvictCandidate) (queue : List EvictCandidate)
    → Apart gs
    → Elem g gs
    → g.queue ≡ c ∷ queue
    → Removes c (flat gs) (flat (pop_tag g.tag gs))
unfolding pop_tag drop
pop_tag-Removes [] g c queue apart m e = absurd m
pop_tag-Removes (h ∷ gs) g c queue apart (inl same) e =
    let first : h.queue ≡ c ∷ queue = ap (λ (g : TagGroup). g.queue) same ∙ e in
    let tag : (h.tag == g.tag) ≡ true =
      (==_iff h.tag g.tag).1 (ap (λ (g : TagGroup). g.tag) same) in
    ([], queue ++ flat gs, rw first, rw (tag, pop_tag, first, drop))
pop_tag-Removes (h ∷ gs) g c queue apart (inr m) e =
    let other : h.tag ≢ g.tag = All-elem (λ k. h.tag ≢ k.tag) gs g apart.0 m in
    let (pre, post, before, after) = pop_tag-Removes gs g c queue apart.1 m e in
    elim (Bool-cases (h.tag == g.tag)) [
      | inl same ↦ absurd (other ((==_iff h.tag g.tag).0 same))
      | inr not_here ↦ (
        h.queue ++ pre,
        post,
        ap (λ l. h.queue ++ l) before ∙ sym (append_assoc h.queue pre (c ∷ post)),
        rw (not_here, pop_tag) (ap (λ l. h.queue ++ l) after ∙ sym (append_assoc h.queue pre post)),
      )
    ]

Apart-unique :
    (gs : List TagGroup) (h g : TagGroup) → Apart gs → Elem h gs → Elem g gs → h.tag ≡ g.tag → h ≡ g
Apart-unique [] h g apart mh mg e = absurd mh
Apart-unique (k ∷ gs) h g apart (inl a) (inl b) e = sym a ∙ b
Apart-unique (k ∷ gs) h g apart (inl a) (inr mg) e =
    absurd (All-elem (λ x. k.tag ≢ x.tag) gs g apart.0 mg (ap (λ (x : TagGroup). x.tag) a ∙ e))
Apart-unique (k ∷ gs) h g apart (inr mh) (inl b) e =
    absurd (All-elem (λ x. k.tag ≢ x.tag) gs h apart.0 mh (ap (λ (x : TagGroup). x.tag) b ∙ sym e))
Apart-unique (k ∷ gs) h g apart (inr mh) (inr mg) e = Apart-unique gs h g apart.1 mh mg e

pub Elem-cons :
    (cs : List EvictCandidate) (d : EvictCandidate)
    → Elem d cs
    → (c : EvictCandidate) × (rest : List EvictCandidate) × (cs ≡ c ∷ rest)
Elem-cons [] d m = absurd m
Elem-cons (c ∷ rest) d m = (c, rest, refl)

module _ (lifetime reservations : ℕ → ℤ) (gs visited : List TagGroup)
    (complete : (g : TagGroup) → Elem g gs → Elem g visited) (grouped : IsGrouped lifetime gs) where
  over_of-over_reserved :
      (g : TagGroup)
      → Elem g gs
      → over_of reservations g ≡ over_reserved reservations g.tag (flat gs)
  unfolding over_of
  over_of-over_reserved g m =
      let group = All-elem (IsTagGroup lifetime) gs g grouped.groups m in
      ap (λ n. sub_i64 (pos n) (reservations g.tag))
        (group.used ∙ ap (λ n. block_size * n) (sym (count_tag-flat lifetime gs g grouped m)))

  tag_of : (h : TagGroup) (d : EvictCandidate) → Elem h gs → Elem d h.queue → d.tag ≡ h.tag
  tag_of h d there has =
      let other = All-elem (IsTagGroup lifetime) gs h grouped.groups there in
      All-elem (λ c. c.tag ≡ h.tag) h.queue d other.tagged has

  module _ (t : Target) (g : TagGroup) (queue : List EvictCandidate) (m : Elem g gs)
      (split : g.queue ≡ t.first ∷ queue) where
    first_soonest : (d : EvictCandidate) → Elem d (t.first ∷ queue) → NotSooner lifetime t.first d
    first_soonest d (inl e) =
        subst (NotSooner lifetime t.first) e (ltb_ℤ-irrefl (logical_expiry lifetime t.first))
    first_soonest d (inr has) =
        let group = All-elem (IsTagGroup lifetime) gs g grouped.groups m in
        let sorted = subst (IsSorted lifetime) split group.sorted in
        All-elem (NotSooner lifetime t.first) queue d sorted.0 has

    first_tag : t.first.tag ≡ g.tag
    first_tag = tag_of g t.first m (subst (Elem t.first) (sym split) (inl refl))

    -- The target's first candidate is a best one among all that are left.
    pub first-IsBest :
        furthest reservations none visited ≡ some t
        → t.over ≡ over_of reservations g
        → IsBest lifetime reservations t.first (flat gs)
    first-IsBest e over = record {
      soonest = λ d among same.
          let (h, there, has) = Elem-flat gs d among in
          let tags : h.tag ≡ g.tag = sym (tag_of h d there has) ∙ same ∙ first_tag in
          let one : h ≡ g = Apart-unique gs h g grouped.apart there m tags in
          first_soonest d (subst (Elem d) split (subst (λ (k : TagGroup). Elem d k.queue) one has));
      furthest_over = λ d among.
          let (h, there, has) = Elem-flat gs d among in
          let (c, rest, full) = Elem-cons h.queue d has in
          let covered : Covers reservations (over_of reservations h) (some t) =
            subst (Covers reservations (over_of reservations h)) e
              (furthest-Covers-Elem reservations visited none h c rest (complete h there) full) in
          rw
            (
              first_tag,
              tag_of h d there has,
              ← over_of-over_reserved g m,
              ← over_of-over_reserved h there,
              ← over,
            )
            covered;
    }
