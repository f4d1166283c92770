-- ===== src/Blockstore/Badger/Evict/Stored.antt =====
-- The candidates of an eviction are blocks of the store, and what `Evict` does to the store.
use sneakernet.Prelude.{
  ℕ, zero, suc, ◌+◌, ◌≡◌, refl, Option, none, some, List, [], ◌∷◌, ◌++◌, map, true, false, Bool,
  Bool-cases, arith, inl, inr, subst, All, All-append, length, drop, le→leb, ◌==◌, if_elim,
  >>=-eq-some,
}
use sneakernet.Integers.{ℤ, pos, negsuc}
use sneakernet.Blockstore.Kv.{Kv, Fetch, found, missing, fault, starts_with}
use sneakernet.Blockstore.Badger.{block_key, wf_of, created_at_of}
use sneakernet.Blockstore.Badger.Indexed.{IsIndexed}
use sneakernet.Blockstore.Badger.Listing.{Item}
use sneakernet.Blockstore.Badger.Evict.{
  EvictCandidate, TagGroup, Settings, candidate, candidate_value, scan_item, candidates,
  add_candidate, per_tag, sort_group, evict, evict_all, block_size,
}
use sneakernet.Blockstore.Badger.Evict.Sorted.{sort_candidates-All}
use sneakernet.Blockstore.Badger.Evict.Rounds.{Queued, Rounds, evict_loop-Rounds}

-- Grouping and sorting lose nothing that holds of all candidates.
module _ (P : EvictCandidate → Type 0) where
  add_candidate-Queued :
      (gs : List TagGroup) (c : EvictCandidate) → Queued P gs → P c → Queued P (add_candidate gs c)
  unfolding add_candidate
  add_candidate-Queued [] c h hc = ((hc, tt), tt)
  add_candidate-Queued (g ∷ gs) c h hc =
      if_elim (Queued P) (g.tag == c.tag)
        (record g { usage = g.usage + block_size; queue = g.queue ++ c ∷ [] } ∷ gs)
        (g ∷ add_candidate gs c) (λ _. (All-append P g.queue (c ∷ []) h.0 (hc, tt), h.1))
        (λ _. (h.0, add_candidate-Queued gs c h.1 hc))

  pub per_tag-Queued :
      (gs : List TagGroup) (all : List EvictCandidate)
      → Queued P gs
      → All P all
      → Queued P (per_tag gs all)
  unfolding per_tag
  per_tag-Queued gs [] h ha = h
  per_tag-Queued gs (c ∷ all) h ha =
      per_tag-Queued (add_candidate gs c) all (add_candidate-Queued gs c h ha.0) ha.1

  module _ (lifetime : ℕ → ℤ) where
    pub sort_group-Queued :
        (gs : List TagGroup) → Queued P gs → Queued P (map (sort_group lifetime) gs)
    sort_group-Queued [] h = tt
    sort_group-Queued (g ∷ gs) h =
        (sort_candidates-All lifetime P g.queue h.0, sort_group-Queued gs h.1)

-- The rounds that `Evict` of `n` may take.
abbrev pub limit_of : ℤ → ℕ
limit_of (pos n) = n
limit_of (negsuc n) = 0

block_prefix : (k : List ℕ) → starts_with (b'b' ∷ []) k ≡ true → k ≡ b'b' ∷ drop 1 k
unfolding starts_with drop
block_prefix [] h = cc
block_prefix (c ∷ k) h = ground arith

module _ (kv : Kv) where
  open kv use {Db, get, scan, scan-sound}

  -- The candidate is a block of the store, with its time and its work factor.
  pub record IsStored (db : Db) (now : ℕ) (c : EvictCandidate) : Type 0 where
    pub value : List ℕ
    pub present : get db now (block_key c.id) ≡ found value
    pub created_at : c.created_at ≡ created_at_of value
    pub wf : c.wf ≡ wf_of value

  module _ (db : Db) (now : ℕ) (ix : IsIndexed kv db) where
    abbrev Sound : Item → Type 0
    Sound item = (get db now item.0 ≡ item.1) × (starts_with (b'b' ∷ []) item.0 ≡ true)

    candidate-IsStored :
        (key val : List ℕ) → Sound (key, found val) → IsStored db now (candidate key val)
    unfolding candidate
    candidate-IsStored key val (e, b) =
        let named : key ≡ block_key (drop 1 key) = unfold block_key in block_prefix key b in
        let there : get db now (block_key (drop 1 key)) ≡ found val =
          subst (λ k. get db now k ≡ found val) named e in
        let long = le→leb 4112 (length val) (ix.whole now (drop 1 key) val there) in
        record { value = val; present = there; created_at = rw long; wf = rw long }

    scan_item-IsStored :
        (key : List ℕ) (f : Fetch) (c : List EvictCandidate)
        → Sound (key, f)
        → scan_item (key, f) ≡ some c
        → All (IsStored db now) c
    scan_item-IsStored key f c sound e = elim (Bool-cases (length key == 33)) [
      | inr other ↦ let same : [] ≡ c = cc (rw other at e) in subst (All (IsStored db now)) same tt
      | inl sized ↦ value f sound (rw sized at e)
    ]
      where
        value :
            (f : Fetch) → Sound (key, f) → candidate_value key f ≡ some c → All (IsStored db now) c
        value (found val) sound e =
            let same : candidate key val ∷ [] ≡ c = cc e in
            subst (All (IsStored db now)) same (candidate-IsStored key val sound, tt)
        value missing sound e = cc
        value fault sound e = cc

    candidates-IsStored :
        (items : List Item) (all : List EvictCandidate)
        → All Sound items
        → candidates items ≡ some all
        → All (IsStored db now) all
    unfolding candidates
    candidates-IsStored [] all sound e =
        let same : [] ≡ all = cc e in subst (All (IsStored db now)) same tt
    candidates-IsStored (x ∷ items) all sound e =
        let (c, first, rest) = >>=-eq-some (scan_item x) _ e in
        let (more, others, joined) = >>=-eq-some (candidates items) _ rest in
        let same : c ++ more ≡ all = cc joined in
        subst (All (IsStored db now)) same (
          All-append (IsStored db now) c more (scan_item-IsStored x.0 x.1 c sound.0 first)
            (candidates-IsStored items more sound.1 others))

    module _ (s : Settings) where
      none_evicted :
          (n : ℕ) (ok : Bool)
          → Rounds kv s (IsStored db now) n 0 db (record { count = 0; db = db; ok = ok })
      none_evicted n ok = record {
        evicted = [];
        evicts = refl;
        counted = omega arith;
        bounded = omega arith;
        chosen = tt;
      }

      evict_all-Rounds :
          (n : ℕ) (all : Option (List EvictCandidate))
          → candidates (scan db now (b'b' ∷ [])) ≡ all
          → Rounds kv s (IsStored db now) n 0 db (evict_all kv s db n all)
      unfolding evict_all
      evict_all-Rounds n none e = none_evicted n false
      evict_all-Rounds n (some all) e = evict_loop-Rounds kv s (IsStored db now) n 0 db _ (
          sort_group-Queued (IsStored db now) s.lifetime (per_tag [] all) (
            per_tag-Queued (IsStored db now) [] all tt (
              candidates-IsStored (scan db now (b'b' ∷ [])) all (scan-sound db now (b'b' ∷ [])) e)))

      pub evict-Rounds :
          (n : ℤ) → Rounds kv s (IsStored db now) (limit_of n) 0 db (evict kv s db now n)
      unfolding evict
      evict-Rounds (pos zero) = none_evicted 0 true
      evict-Rounds (negsuc n) = none_evicted 0 true
      evict-Rounds (pos (suc n)) =
          evict_all-Rounds (suc n) (candidates (scan db now (b'b' ∷ []))) refl
