-- ===== src/Blockstore/Badger/Evict/Groups.antt =====
-- The candidates by tag.
use mathlib.Core.List.Perm
use mathlib.Core.List.{Perm, perm_append_comm}
use sneakernet.Prelude.{
  ℕ, ◌+◌, ◌*◌, ◌≡◌, ◌≢◌, refl, sym, List, [], ◌∷◌, ◌++◌, append-nil, append_assoc, map, arith, All,
  All-append, length, length-append, ◌==◌, ==_iff, if_elim,
}
use sneakernet.Integers.{ℤ}
use sneakernet.Blockstore.Badger.Evict.Sorted.{
  flat, Apart, IsTagGroup, IsGrouped, sort_candidates-All, sort_candidates-perm,
  sort_candidates-IsSorted, length-sort_candidates,
}
use sneakernet.Blockstore.Badger.Evict.{
  EvictCandidate, TagGroup, add_candidate, per_tag, sort_group, block_size,
}

-- Grouping.
add_candidate-perm :
    (gs : List TagGroup) (c : EvictCandidate) → Perm (flat (add_candidate gs c)) (flat gs ++ c ∷ [])
unfolding add_candidate
add_candidate-perm [] c = Perm.refl (c ∷ [])
add_candidate-perm (g ∷ gs) c =
    if_elim (λ l. Perm (flat l) ((g.queue ++ flat gs) ++ c ∷ [])) (g.tag == c.tag)
      (record g { usage = g.usage + block_size; queue = g.queue ++ c ∷ [] } ∷ gs)
      (g ∷ add_candidate gs c)
      (λ _.
        rw (append_assoc g.queue (c ∷ []) (flat gs), append_assoc g.queue (flat gs) (c ∷ []))
          (Perm.append_left g.queue (perm_append_comm (c ∷ []) (flat gs))))
      (λ _.
        rw (append_assoc g.queue (flat gs) (c ∷ []))
          (Perm.append_left g.queue (add_candidate-perm gs c)))

per_tag-perm :
    (gs : List TagGroup) (all : List EvictCandidate) → Perm (flat (per_tag gs all)) (flat gs ++ all)
unfolding per_tag
per_tag-perm gs [] = rw append-nil (Perm.refl (flat gs))
per_tag-perm gs (c ∷ all) = Perm.trans (per_tag-perm (add_candidate gs c) all) (
    rw (sym (append_assoc (flat gs) (c ∷ []) all))
      (Perm.append_right all (add_candidate-perm gs c)))

module _ (lifetime : ℕ → ℤ) where
  sort_group-perm : (gs : List TagGroup) → Perm (flat (map (sort_group lifetime) gs)) (flat gs)
  sort_group-perm [] = Perm.refl []
  sort_group-perm (g ∷ gs) =
      Perm.append (sort_candidates-perm lifetime g.queue) (sort_group-perm gs)

  -- The lists by tag hold exactly the candidates.
  pub sort_group-per_tag-perm :
      (all : List EvictCandidate) → Perm (flat (map (sort_group lifetime) (per_tag [] all))) all
  sort_group-per_tag-perm all = Perm.trans (sort_group-perm (per_tag [] all)) (per_tag-perm [] all)

-- Groups before they are sorted.
record IsBucket (g : TagGroup) : Type 0 where
  tagged : All (λ c. c.tag ≡ g.tag) g.queue
  used : g.usage ≡ block_size * length g.queue

record IsBuckets (gs : List TagGroup) : Type 0 where
  apart : Apart gs
  buckets : All IsBucket gs

add_candidate-All :
    (t : ℕ) (gs : List TagGroup) (c : EvictCandidate)
    → t ≢ c.tag
    → All (λ h. t ≢ h.tag) gs
    → All (λ h. t ≢ h.tag) (add_candidate gs c)
unfolding add_candidate
add_candidate-All t [] c hc h = (hc, tt)
add_candidate-All t (g ∷ gs) c hc h =
    if_elim (All (λ h. t ≢ h.tag)) (g.tag == c.tag)
      (record g { usage = g.usage + block_size; queue = g.queue ++ c ∷ [] } ∷ gs)
      (g ∷ add_candidate gs c) (λ _. (h.0, h.1)) (λ _. (h.0, add_candidate-All t gs c hc h.1))

add_candidate-IsBuckets :
    (gs : List TagGroup) (c : EvictCandidate) → IsBuckets gs → IsBuckets (add_candidate gs c)
unfolding add_candidate
add_candidate-IsBuckets [] c h = record {
  apart = (tt, tt);
  buckets = (record { tagged = (refl, tt); used = refl }, tt);
}
add_candidate-IsBuckets (g ∷ gs) c h =
    if_elim IsBuckets (g.tag == c.tag)
      (record g { usage = g.usage + block_size; queue = g.queue ++ c ∷ [] } ∷ gs)
      (g ∷ add_candidate gs c)
      (λ same. record {
        apart = h.apart;
        buckets = (
          record {
            tagged =
                All-append (λ c. c.tag ≡ g.tag) g.queue (c ∷ []) h.buckets.0.tagged
                  (sym ((==_iff g.tag c.tag).0 same), tt);
            used = omega (arith, h.buckets.0.used, length-append g.queue (c ∷ []));
          },
          h.buckets.1,
        );
      })
      (λ other.
        let rest =
          add_candidate-IsBuckets gs c (record { apart = h.apart.1; buckets = h.buckets.1 }) in
        record {
          apart = (
            add_candidate-All g.tag gs c (λ e. cc ((==_iff g.tag c.tag).1 e, other)) h.apart.0,
            rest.apart,
          );
          buckets = (h.buckets.0, rest.buckets);
        })

per_tag-IsBuckets :
    (gs : List TagGroup) (all : List EvictCandidate) → IsBuckets gs → IsBuckets (per_tag gs all)
unfolding per_tag
per_tag-IsBuckets gs [] h = h
per_tag-IsBuckets gs (c ∷ all) h =
    per_tag-IsBuckets (add_candidate gs c) all (add_candidate-IsBuckets gs c h)

module _ (lifetime : ℕ → ℤ) where
  sort_group-IsTagGroup : (g : TagGroup) → IsBucket g → IsTagGroup lifetime (sort_group lifetime g)
  sort_group-IsTagGroup g h = record {
    tagged = sort_candidates-All lifetime (λ c. c.tag ≡ g.tag) g.queue h.tagged;
    sorted = sort_candidates-IsSorted lifetime g.queue;
    used = rw length-sort_candidates h.used;
  }

  sort_group-All :
      (t : ℕ) (gs : List TagGroup)
      → All (λ h. t ≢ h.tag) gs
      → All (λ h. t ≢ h.tag) (map (sort_group lifetime) gs)
  sort_group-All t [] h = tt
  sort_group-All t (g ∷ gs) h = (h.0, sort_group-All t gs h.1)

  sort_groups-IsGrouped :
      (gs : List TagGroup) → IsBuckets gs → IsGrouped lifetime (map (sort_group lifetime) gs)
  sort_groups-IsGrouped [] h = record { apart = tt; groups = tt }
  sort_groups-IsGrouped (g ∷ gs) h =
      let rest = sort_groups-IsGrouped gs (record { apart = h.apart.1; buckets = h.buckets.1 }) in
      record {
        apart = (sort_group-All g.tag gs h.apart.0, rest.apart);
        groups = (sort_group-IsTagGroup g h.buckets.0, rest.groups);
      }

  pub sort_group-per_tag-IsGrouped :
      (all : List EvictCandidate) → IsGrouped lifetime (map (sort_group lifetime) (per_tag [] all))
  sort_group-per_tag-IsGrouped all =
      sort_groups-IsGrouped (per_tag [] all)
        (per_tag-IsBuckets [] all (record { apart = tt; buckets = tt }))
