-- ===== src/Blockstore/Badger/Evict/Rounds.antt =====
-- The rounds of the loop: which candidates it takes, and what their evictions do together.
use sneakernet.Prelude.{
  ℕ, zero, suc, ◌+◌, ◌-◌, ◌≤◌, ◌≡◌, refl, Option, none, some, Option-cases, List, [], ◌∷◌, true,
  false, arith, inl, inr, subst, length, All, All-elem, All-drop, Elem, ◌==◌, drop, if_elim,
}
use sneakernet.Integers.{ℤ, ltb_ℤ}
use sneakernet.Blockstore.Kv.{Kv}
use sneakernet.Blockstore.Badger.Evict.{
  EvictCandidate, TagGroup, Target, Settings, Eviction, block_size, pop_tag, over_of, further,
  better, furthest, evict_one, evict_loop,
}

-- Something holds of all candidates that are left.
abbrev pub Queued : (EvictCandidate → Type 0) → List TagGroup → Type 0
Queued P gs = All (λ g. All P g.queue) gs

module _ (P : EvictCandidate → Type 0) where
  pub pop_tag-Queued : (t : ℕ) (gs : List TagGroup) → Queued P gs → Queued P (pop_tag t gs)
  unfolding pop_tag
  pop_tag-Queued t [] h = tt
  pop_tag-Queued t (g ∷ gs) h =
      if_elim (Queued P) (g.tag == t)
        (record g { usage = g.usage - block_size; queue = drop 1 g.queue } ∷ gs) (g ∷ pop_tag t gs)
        (λ _. (All-drop P 1 g.queue h.0, h.1)) (λ _. (h.0, pop_tag-Queued t gs h.1))

  abbrev Aims : Option Target → Type 0
  Aims none = Unit
  Aims (some t) = P t.first

  module _ (reservations : ℕ → ℤ) where
    further-Aims :
        (best : Option Target) (t : Target)
        → Aims best
        → P t.first
        → Aims (further reservations best t)
    further-Aims none t hb ht = ht
    further-Aims (some b) t hb ht =
        if_elim Aims (ltb_ℤ b.over t.over) (some t) (some b) (λ _. ht) (λ _. hb)

    better-Aims :
        (best : Option Target) (g : TagGroup) (queue : List EvictCandidate)
        → g.queue ≡ queue
        → Aims best
        → All P queue
        → Aims (better reservations best g)
    unfolding better
    better-Aims best g [] e hb h = rw (e, better) hb
    better-Aims best g (c ∷ queue) e hb h =
        rw (e, better)
          (further-Aims best (record { over = over_of reservations g; tag = g.tag; first = c }) hb
            h.0)

    furthest-Aims :
        (best : Option Target) (gs : List TagGroup)
        → Aims best
        → Queued P gs
        → Aims (furthest reservations best gs)
    unfolding furthest
    furthest-Aims best [] hb h = hb
    furthest-Aims best (g ∷ gs) hb h =
        furthest-Aims (better reservations best g) gs (better-Aims best g g.queue refl hb h.0) h.1

module _ (kv : Kv) (s : Settings) where
  open kv use {Db, get}
  open s use {reservations, clock, order, order-sound}

  -- The candidates are evicted one after the other, from the round of a number on.
  abbrev pub Evicts : ℕ → Db → List EvictCandidate → Db → Type 0
  Evicts i db [] db' = db ≡ db'
  Evicts i db (c ∷ cs) db' =
      (mid : Db) × (evict_one kv s db (clock i) c ≡ some mid) × Evicts (suc i) mid cs db'

  All-of_elem : {A : Type 0} (P : A → Type 0) (xs : List A) → ((x : A) → Elem x xs → P x) → All P xs
  All-of_elem P [] h = tt
  All-of_elem P (x ∷ xs) h = (h x (inl refl), All-of_elem P xs (λ y m. h y (inr m)))

  -- What the loop did.
  pub record Rounds (P : EvictCandidate → Type 0) (left i : ℕ) (db : Db) (o : Eviction Db)
      : Type 0 where
    pub evicted : List EvictCandidate
    pub evicts : Evicts i db evicted o.db
    pub counted : o.count ≡ i + length evicted
    pub bounded : length evicted ≤ left
    pub chosen : All P evicted

  module _ (P : EvictCandidate → Type 0) where
    pub evict_loop-Rounds :
        (left i : ℕ) (db : Db) (gs : List TagGroup)
        → Queued P gs
        → Rounds P left i db (evict_loop kv s left i db gs)
    unfolding evict_loop
    evict_loop-Rounds zero i db gs h = record {
      evicted = [];
      evicts = refl;
      counted = omega arith;
      bounded = omega arith;
      chosen = tt;
    }
    evict_loop-Rounds (suc left) i db gs h =
        let none_left : Rounds P (suc left) i db (record { count = i; db = db; ok = true }) =
          record {
            evicted = [];
            evicts = refl;
            counted = omega arith;
            bounded = omega arith;
            chosen = tt;
          } in
        let stopped : Rounds P (suc left) i db (record { count = i; db = db; ok = false }) =
          record {
            evicted = [];
            evicts = refl;
            counted = omega arith;
            bounded = omega arith;
            chosen = tt;
          } in
        let aimed : Aims P (furthest reservations none (order i gs)) =
          furthest-Aims P reservations none (order i gs) tt (
            All-of_elem (λ g. All P g.queue) (order i gs)
              (λ g m. All-elem (λ g. All P g.queue) gs g h (order-sound i gs g m))) in
        elim (Option-cases (furthest reservations none (order i gs))) [
          | inl e ↦ rw (e, evict_loop) none_left
          | inr (t, e) ↦ elim (Option-cases (evict_one kv s db (clock i) t.first)) [
            | inl f ↦ rw (e, evict_loop, f) stopped
            | inr (mid, f) ↦
                let r =
                  evict_loop-Rounds left (suc i) mid (pop_tag t.tag gs)
                    (pop_tag-Queued P t.tag gs h) in
                rw (e, evict_loop, f)
                  (record {
                    evicted = t.first ∷ r.evicted;
                    evicts = (mid, f, r.evicts);
                    counted = omega (arith, r.counted);
                    bounded = omega (arith, r.bounded);
                    chosen = (subst (Aims P) e aimed, r.chosen);
                  })
          ]
        ]
