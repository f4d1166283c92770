-- ===== src/Blockstore/Badger/Evict/Removed.antt =====
-- What a row of evictions leaves behind.
use sneakernet.Prelude.{
  ℕ, suc, ◌+◌, ◌/◌, ◌<◌, ◌≡◌, sym, ap, ◌∙◌, some, List, [], ◌∷◌, Bool-cases, inl, inr, ◌⊎◌, subst,
  All, bytes_eq, bytes_eq→eq, bytes_eq_congr, lt→ltb,
}
use sneakernet.Integers.{pos}
use sneakernet.Blockstore.Kv.{Kv, found, missing, second}
use sneakernet.Blockstore.Badger.{block_key, tomb_key}
use sneakernet.Blockstore.Badger.Indexed.{IsIndexed}
use sneakernet.Blockstore.Badger.Evict.{EvictCandidate, Settings, tomb_ttl, evict_one}
use sneakernet.Blockstore.Badger.Evict.Erased.{
  IsCurrent, Erased, evict_one-Erased, Erased-IsIndexed, Erased-IsCurrent, Erased-block_key,
  Erased-tomb_key,
}
use sneakernet.Blockstore.Badger.Evict.Rounds.{Evicts}

-- One of the candidates has the ID.
abbrev pub Names : List ℕ → List EvictCandidate → Type 0
Names j [] = ⊥
Names j (c ∷ cs) = (c.id ≡ j) ⊎ Names j cs

module _ (kv : Kv) (s : Settings) where
  open kv use {Db, get}
  open s use {clock}

  erased :
      (db mid : Db) (i : ℕ) (c : EvictCandidate)
      → evict_one kv s db (clock i) c ≡ some mid
      → Erased kv db mid c
  erased db mid i c e = (evict_one-Erased kv s db mid (clock i) c e).0

  keep-IsCurrent :
      (db mid : Db) (c : EvictCandidate)
      → Erased kv db mid c
      → (cs : List EvictCandidate) → All (IsCurrent kv db) cs
      → All (IsCurrent kv mid) cs
  keep-IsCurrent db mid c w [] h = tt
  keep-IsCurrent db mid c w (d ∷ cs) h =
      (Erased-IsCurrent kv w d h.0, keep-IsCurrent db mid c w cs h.1)

  pub Evicts-IsIndexed :
      (cs : List EvictCandidate) (i : ℕ) (db db' : Db)
      → Evicts kv s i db cs db'
      → All (IsCurrent kv db) cs
      → IsIndexed kv db
      → IsIndexed kv db'
  Evicts-IsIndexed [] i db db' run fresh ix = subst (IsIndexed kv) run ix
  Evicts-IsIndexed (c ∷ cs) i db db' (mid, e, run) fresh ix =
      let w = erased db mid i c e in
      Evicts-IsIndexed cs (suc i) mid db' run (keep-IsCurrent db mid c w cs fresh.1)
        (Erased-IsIndexed kv w fresh.0 ix)

  pub Evicts-gone :
      (cs : List EvictCandidate) (i : ℕ) (db db' : Db)
      → Evicts kv s i db cs db'
      → (at : ℕ) (j : List ℕ) → (get db at (block_key j) ≡ missing) ⊎ Names j cs
      → get db' at (block_key j) ≡ missing
  Evicts-gone [] i db db' run at j (inl e) = subst (λ d. get d at (block_key j) ≡ missing) run e
  Evicts-gone [] i db db' run at j (inr m) = absurd m
  Evicts-gone (c ∷ cs) i db db' (mid, e, run) at j h =
      let w = erased db mid i c e in
      let reads = Erased-block_key kv w at j in
      let next = Evicts-gone cs (suc i) mid db' run at j in
      elim (Bool-cases (bytes_eq c.id j)) [
        | inl this ↦ next (inl (rw (reads, this)))
        | inr other ↦ elim h [
          | inl absent ↦ next (inl (rw (reads, other) absent))
          | inr (inl same) ↦ absurd (cc (bytes_eq_congr c.id j same, other))
          | inr (inr later) ↦ next (inr later)
        ]
      ]

  pub Evicts-kept :
      (cs : List EvictCandidate) (i : ℕ) (db db' : Db)
      → Evicts kv s i db cs db'
      → (at : ℕ) (j : List ℕ) → ¬ Names j cs
      → (get db' at (block_key j) ≡ get db at (block_key j))
        × (get db' at (tomb_key j) ≡ get db at (tomb_key j))
  Evicts-kept [] i db db' run at j out =
      (ap (λ d. get d at (block_key j)) (sym run), ap (λ d. get d at (tomb_key j)) (sym run))
  Evicts-kept (c ∷ cs) i db db' (mid, e, run) at j out =
      let w = erased db mid i c e in
      let (blocks, tombs) = Evicts-kept cs (suc i) mid db' run at j (λ m. out (inr m)) in
      elim (Bool-cases (bytes_eq c.id j)) [
        | inl this ↦ absurd (out (inl (bytes_eq→eq c.id j this)))
        | inr other ↦ (
          blocks ∙ rw (Erased-block_key kv w at j, other),
          tombs ∙ rw (Erased-tomb_key kv w at j, other),
        )
      ]

module _ (kv : Kv) (s : Settings) (ttl : ℕ → ℕ) where
  open kv use {Db, get}
  open s use {clock}

  -- The tombstone's time to live, twice the block's, is not negative.
  abbrev pub Lasts : EvictCandidate → Type 0
  Lasts c = tomb_ttl kv s c.wf ≡ pos (ttl c.wf)

  -- Before the tombstone of a candidate expires, whichever round sets it.
  abbrev pub Early : ℕ → EvictCandidate → Type 0
  Early at c = (i : ℕ) → at / second < (clock i + ttl c.wf) / second

  pub Evicts-tombs :
      (cs : List EvictCandidate) (i : ℕ) (db db' : Db)
      → Evicts kv s i db cs db'
      → All Lasts cs
      → (at : ℕ) (j : List ℕ) → All (λ c. c.id ≡ j → Early at c) cs
      → ((v : List ℕ) × (get db at (tomb_key j) ≡ found v)) ⊎ Names j cs
      → (v : List ℕ) × (get db' at (tomb_key j) ≡ found v)
  Evicts-tombs [] i db db' run lasts at j early (inl (v, e)) =
      (v, subst (λ d. get d at (tomb_key j) ≡ found v) run e)
  Evicts-tombs [] i db db' run lasts at j early (inr m) = absurd m
  Evicts-tombs (c ∷ cs) i db db' (mid, e, run) lasts at j early h =
      let (w, until) = evict_one-Erased kv s db mid (clock i) c e in
      let reads = Erased-tomb_key kv w at j in
      let next = Evicts-tombs cs (suc i) mid db' run lasts.1 at j early.1 in
      elim (Bool-cases (bytes_eq c.id j)) [
        | inl this ↦
            let soon = early.0 (bytes_eq→eq c.id j this) i in
            next
              (inl ([], rw (reads, this, until (ttl c.wf) lasts.0 at, lt→ltb (at / second) _ soon)))
        | inr other ↦ elim h [
          | inl (v, old) ↦ next (inl (v, rw (reads, other) old))
          | inr (inl same) ↦ absurd (cc (bytes_eq_congr c.id j same, other))
          | inr (inr later) ↦ next (inr later)
        ]
      ]
