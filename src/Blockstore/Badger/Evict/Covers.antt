-- ===== src/Blockstore/Badger/Evict/Covers.antt =====
-- The range over the tags: its target is furthest over among all that have candidates.
use sneakernet.Prelude.{
  ℕ, ◌≡◌, refl, sym, ap, ◌∙◌, Option, none, some, List, [], ◌∷◌, false, Bool-cases, inl, inr, ◌⊎◌,
  Elem, if_elim,
}
use sneakernet.Integers.{ℤ, ltb_ℤ}
use sneakernet.Blockstore.Badger.Evict.{
  EvictCandidate, TagGroup, Target, over_of, further, better, furthest,
}
use sneakernet.Blockstore.Badger.Evict.Sorted.{ltb_ℤ-trans, ltb_ℤ-asym}
use sneakernet.Blockstore.Badger.Evict.Policy.{ltb_ℤ-irrefl}

module _ (reservations : ℕ → ℤ) where
  -- The best target so far is over by `v` at least.
  abbrev pub Covers : ℤ → Option Target → Type 0
  Covers v none = ⊥
  Covers v (some t) = ltb_ℤ t.over v ≡ false

  further-Covers :
      (v : ℤ) (best : Option Target) (t : Target)
      → Covers v best
      → Covers v (further reservations best t)
  further-Covers v none t h = absurd h
  further-Covers v (some b) t h =
      if_elim (Covers v) (ltb_ℤ b.over t.over) (some t) (some b)
        (λ more. ltb_ℤ-trans v b.over t.over h (ltb_ℤ-asym b.over t.over more)) (λ _. h)

  further-Covers_self :
      (best : Option Target) (t : Target) → Covers t.over (further reservations best t)
  further-Covers_self none t = ltb_ℤ-irrefl t.over
  further-Covers_self (some b) t =
      if_elim (Covers t.over) (ltb_ℤ b.over t.over) (some t) (some b) (λ _. ltb_ℤ-irrefl t.over)
        (λ less. less)

  better-Covers :
      (v : ℤ) (best : Option Target) (g : TagGroup) (queue : List EvictCandidate)
      → g.queue ≡ queue
      → Covers v best
      → Covers v (better reservations best g)
  unfolding better
  better-Covers v best g [] e h = rw (e, better) h
  better-Covers v best g (c ∷ queue) e h =
      rw (e, better)
        (further-Covers v best (record { over = over_of reservations g; tag = g.tag; first = c }) h)

  furthest-Covers :
      (v : ℤ) (gs : List TagGroup) (best : Option Target)
      → Covers v best
      → Covers v (furthest reservations best gs)
  unfolding furthest
  furthest-Covers v [] best h = h
  furthest-Covers v (g ∷ gs) best h =
      furthest-Covers v gs (better reservations best g) (better-Covers v best g g.queue refl h)

  -- Every tag that has candidates is covered.
  pub furthest-Covers-Elem :
      (gs : List TagGroup) (best : Option Target) (g : TagGroup) (c : EvictCandidate)
      (queue : List EvictCandidate)
      → Elem g gs
      → g.queue ≡ c ∷ queue
      → Covers (over_of reservations g) (furthest reservations best gs)
  unfolding furthest better over_of
  furthest-Covers-Elem [] best g c queue m e = absurd m
  furthest-Covers-Elem (h ∷ gs) best g c queue (inl same) e =
      let first : h.queue ≡ c ∷ queue = ap (λ (g : TagGroup). g.queue) same ∙ e in
      furthest-Covers (over_of reservations g) gs (better reservations best h) (
        rw (← same) (
          rw (first, better)
            (further-Covers_self best
              (record { over = over_of reservations h; tag = h.tag; first = c }))))
  furthest-Covers-Elem (h ∷ gs) best g c queue (inr m) e =
      furthest-Covers-Elem gs (better reservations best h) g c queue m e

  -- A target stands for a tag and its first candidate.
  abbrev pub StandsFor : Target → TagGroup → Type 0
  StandsFor t g =
      (t.over ≡ over_of reservations g)
      × (t.tag ≡ g.tag)
      × ((queue : List EvictCandidate) × (g.queue ≡ t.first ∷ queue))

  abbrev pub Origin : Option Target → List TagGroup → Target → Type 0
  Origin best gs t = (best ≡ some t) ⊎ ((g : TagGroup) × Elem g gs × StandsFor t g)

  further-Origin :
      (best : Option Target) (u t : Target)
      → further reservations best u ≡ some t
      → (best ≡ some t) ⊎ (u ≡ t)
  further-Origin none u t e = inr (cc e)
  further-Origin (some b) u t e = elim (Bool-cases (ltb_ℤ b.over u.over)) [
    | inl more ↦ inr (cc (rw more at e))
    | inr less ↦ inl (rw less at e)
  ]

  better-Origin :
      (best : Option Target) (g : TagGroup) (t : Target) (queue : List EvictCandidate)
      → g.queue ≡ queue
      → better reservations best g ≡ some t
      → (best ≡ some t) ⊎ StandsFor t g
  unfolding better
  better-Origin best g t [] e h = inl (rw (e, better) at h)
  better-Origin best g t (c ∷ queue) e h =
      let u : Target = record { over = over_of reservations g; tag = g.tag; first = c } in
      elim (further-Origin best u t (rw (e, better) at h)) [
        | inl old ↦ inl old
        | inr new ↦ inr (
          ap (λ (x : Target). x.over) (sym new),
          ap (λ (x : Target). x.tag) (sym new),
          (queue, e ∙ ap (λ (x : Target). x.first ∷ queue) new),
        )
      ]

  pub furthest-Origin :
      (gs : List TagGroup) (best : Option Target) (t : Target)
      → furthest reservations best gs ≡ some t
      → Origin best gs t
  unfolding furthest
  furthest-Origin [] best t e = inl e
  furthest-Origin (g ∷ gs) best t e = elim (furthest-Origin gs (better reservations best g) t e) [
    | inr (h, m, stands) ↦ inr (h, inr m, stands)
    | inl here ↦ elim (better-Origin best g t g.queue refl here) [
      | inl old ↦ inl old
      | inr stands ↦ inr (g, inl refl, stands)
    ]
  ]
