-- ===== src/Blockstore/Badger/Evict/Refine.antt =====
-- `Evict` against its policy: the best candidates first, one by one.
use mathlib.Core.List
use mathlib.Core.List.Perm
use mathlib.Core.List.{Perm}
use mathlib.Core.Nat as Core
use sneakernet.Prelude.{
  ℕ, zero, suc, ◌+◌, ◌≡◌, ◌≢◌, refl, sym, ap, ◌∙◌, none, some, Option-cases, List, [], ◌∷◌, ◌++◌,
  Bool, true, false, arith, inl, inr, subst, map, min, Elem, length, length-append,
}
use sneakernet.Integers.{ℤ, pos, negsuc}
use sneakernet.Blockstore.Kv.{Kv}
use sneakernet.Blockstore.Badger.Evict.{
  EvictCandidate, TagGroup, Settings, Eviction, over_of, candidates, per_tag, sort_group, pop_tag,
  furthest, evict_one, evict_loop, evict_all, evict,
}
use sneakernet.Blockstore.Badger.Evict.Sorted.{flat, IsGrouped}
use sneakernet.Blockstore.Badger.Evict.Stored.{limit_of}
use sneakernet.Blockstore.Badger.Evict.Groups.{
  sort_group-per_tag-perm, sort_group-per_tag-IsGrouped,
}
use sneakernet.Blockstore.Badger.Evict.Policy.{IsBest, Removes, pop_tag-IsGrouped}
use sneakernet.Blockstore.Badger.Evict.Covers.{Covers, furthest-Covers-Elem, furthest-Origin}
use sneakernet.Blockstore.Badger.Evict.Choice.{pop_tag-Removes, first-IsBest}

to_native : Core.ℕ → ℕ
to_native Core.zero = 0
to_native (Core.suc n) = suc (to_native n)

to_native-length : (xs : List EvictCandidate) → to_native (List.length xs) ≡ length xs
unfolding to_native
to_native-length [] = refl
to_native-length (x ∷ xs) = ap suc (to_native-length xs)

length-perm : (xs ys : List EvictCandidate) → Perm xs ys → length xs ≡ length ys
length-perm xs ys p =
    sym (to_native-length xs) ∙ ap to_native (Perm.length-eq p) ∙ to_native-length ys

module _ (kv : Kv) (s : Settings) where
  open kv use {Db}
  open s use {lifetime, reservations, clock, order, order-sound, order-complete}

  abbrev stopped : ℕ → Db → Bool → Eviction Db
  stopped i db ok = record { count = i; db = db; ok = ok }

  -- The policy, over the candidates that are left: it ends after so many evictions, or when no
  -- candidate is left, or at a transaction that fails; and each time it evicts a best candidate.
  pub data Follows : ℕ → ℕ → Db → List EvictCandidate → Eviction Db → Type 0 where
    enough :
        {left i : ℕ} {db : Db} {cs : List EvictCandidate} {o : Eviction Db}
        → left ≡ 0
        → o ≡ stopped i db true
        → Follows left i db cs o
    none_left :
        {left i : ℕ} {db : Db} {cs : List EvictCandidate} {o : Eviction Db}
        → cs ≡ []
        → o ≡ stopped i db true
        → Follows left i db cs o
    broke :
        {left i : ℕ} {db : Db} {cs : List EvictCandidate} {o : Eviction Db} (c : EvictCandidate)
        → IsBest lifetime reservations c cs
        → evict_one kv s db (clock i) c ≡ none
        → o ≡ stopped i db false
        → Follows (suc left) i db cs o
    evicts :
        {left i : ℕ} {db : Db} {cs : List EvictCandidate} {o : Eviction Db} (c : EvictCandidate)
        (mid : Db) (rest : List EvictCandidate)
        → IsBest lifetime reservations c cs
        → evict_one kv s db (clock i) c ≡ some mid
        → Removes c cs rest
        → Follows left (suc i) mid rest o
        → Follows (suc left) i db cs o

  covered_none :
      (gs visited : List TagGroup)
      → ((g : TagGroup) → Elem g gs → Elem g visited)
      → furthest reservations none visited ≡ none
      → (hs : List TagGroup) → ((g : TagGroup) → Elem g hs → Elem g gs)
      → flat hs ≡ []
  covered_none gs visited complete e [] among = refl
  covered_none gs visited complete e (h ∷ hs) among =
      queue (covered_none gs visited complete e hs (λ g m. among g (inr m))) h.queue refl
    where
      queue : flat hs ≡ [] → (q : List EvictCandidate) → h.queue ≡ q → h.queue ++ flat hs ≡ []
      queue rest [] empty = rw empty rest
      queue rest (c ∷ q) full = absurd (
          subst (Covers reservations (over_of reservations h)) e (
            furthest-Covers-Elem reservations visited none h c q (complete h (among h (inl refl)))
              full))

  evict_loop-Follows :
      (left i : ℕ) (db : Db) (gs : List TagGroup)
      → IsGrouped lifetime gs
      → Follows left i db (flat gs) (evict_loop kv s left i db gs)
  unfolding evict_loop
  evict_loop-Follows zero i db gs grouped = enough refl refl
  evict_loop-Follows (suc left) i db gs grouped =
      elim (Option-cases (furthest reservations none (order i gs))) [
        | inl e ↦
            none_left (covered_none gs (order i gs) (order-complete i gs) e gs (λ g m. m))
              (rw (e, evict_loop))
        | inr (t, e) ↦ elim (furthest-Origin reservations (order i gs) none t e) [
          | inl no_start ↦ cc
          | inr (g, visited, (over, tag, (queue, split))) ↦
              let m = order-sound i gs g visited in
              let best =
                first-IsBest lifetime reservations gs (order i gs) (order-complete i gs) grouped t g
                  queue m split e over in
              elim (Option-cases (evict_one kv s db (clock i) t.first)) [
                | inl f ↦ broke t.first best f (rw (e, evict_loop, f))
                | inr (mid, f) ↦
                    evicts t.first mid (flat (pop_tag t.tag gs)) best f
                      (rw tag (pop_tag-Removes gs g t.first queue grouped.apart m split))
                      (rw (e, evict_loop, f)
                        (evict_loop-Follows left (suc i) mid (pop_tag t.tag gs)
                          (pop_tag-IsGrouped lifetime t.tag gs grouped)))
              ]
        ]
      ]

  -- Where every candidate can be read, `Evict` of `n` follows the policy over the candidates, in some
  -- order: at most `n` times it evicts a best candidate, which no other of its tag expires sooner than
  -- and whose tag is furthest over its reservation, by the candidates that are left then. It stops
  -- before only if none is left or a transaction fails.
  pub evict-Follows :
      (db : Db) (now : ℕ) (n : ℤ) (all : List EvictCandidate)
      → candidates (kv.scan db now (b'b' ∷ [])) ≡ some all
      → (cs : List EvictCandidate) × Perm cs all
        × Follows (limit_of n) 0 db cs (evict kv s db now n)
  unfolding evict evict_all
  evict-Follows db now (pos zero) all e = (all, Perm.refl all, enough refl refl)
  evict-Follows db now (negsuc n) all e = (all, Perm.refl all, enough refl refl)
  evict-Follows db now (pos (suc n)) all e = (
    flat (map (sort_group lifetime) (per_tag [] all)),
    sort_group-per_tag-perm lifetime all,
    rw (e, evict_all)
        (evict_loop-Follows (suc n) 0 db (map (sort_group lifetime) (per_tag [] all))
          (sort_group-per_tag-IsGrouped lifetime all)),
  )

  -- No transaction fails.
  abbrev pub AllCommit : Type 0
  AllCommit = (db : Db) (now : ℕ) (c : EvictCandidate) → evict_one kv s db now c ≢ none

  Follows-count :
      {left i : ℕ} {db : Db} {cs : List EvictCandidate} {o : Eviction Db}
      → AllCommit
      → Follows left i db cs o
      → (o.count ≡ i + min left (length cs)) × (o.ok ≡ true)
  Follows-count smooth (enough e o) = (rw (o, e) (omega arith), rw o)
  Follows-count {i} smooth (none_left e o) = (rw (o, e) (omega arith), rw o)
  Follows-count {i} {db} smooth (broke c best f o) = absurd (smooth db (clock i) c f)
  Follows-count smooth (evicts c mid rest best f (pre, post, before, after) more) =
      let (count, ok) = Follows-count smooth more in
      let taken = ap length before in
      let left_over = ap length after in
      (
        omega
            (arith, count, taken, left_over, length-append pre (c ∷ post), length-append pre post),
        ok,
      )

  -- If every candidate can be read and no transaction fails, `Evict` of `n` evicts `n` blocks, or
  -- all candidates if those are fewer, and reports no error; for an `n` below 0 it evicts none.
  pub evict_count :
      (db : Db) (now : ℕ) (n : ℤ) (all : List EvictCandidate)
      → candidates (kv.scan db now (b'b' ∷ [])) ≡ some all
      → AllCommit
      → ((evict kv s db now n).count ≡ min (limit_of n) (length all))
        × ((evict kv s db now n).ok ≡ true)
  evict_count db now n all e smooth =
      let (cs, same, follows) = evict-Follows db now n all e in
      let (count, ok) = Follows-count smooth follows in
      (omega (arith, count, length-perm cs all same), ok)
