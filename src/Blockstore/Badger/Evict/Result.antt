-- ===== src/Blockstore/Badger/Evict/Result.antt =====
-- What `Evict`, and `Put` with its storage limit, do to the store.
use sneakernet.Prelude.{
  ℕ, ◌/◌, ◌^◌, ◌<◌, ◌≤◌, ◌≡◌, sym, ap, ◌∙◌, some, List, [], ◌∷◌, true, arith, inr, subst, All,
  length, ltb, ◌&&◌, if_elim, >>=-eq-some,
}
use sneakernet.Integers.{ℤ, pos}
use sneakernet.Blockstore.{IsStamp, IsPayload}
use sneakernet.Blockstore.Pow.{Hashes}
use sneakernet.Blockstore.Kv.{Kv, found, missing, fault, second}
use sneakernet.Blockstore.Badger.{
  block_key, tomb_key, wf_of, created_at_of, get_block, has, answer, failed, tomb_answer, not_found,
  store_block,
}
use sneakernet.Blockstore.Badger.Indexed.{IsIndexed, store_block-IsIndexed}
use sneakernet.Blockstore.Badger.Evict.{
  EvictCandidate, Settings, tomb_ttl, evict, needed, enforce_limit, put,
}
use sneakernet.Blockstore.Badger.Evict.Erased.{IsCurrent}
use sneakernet.Blockstore.Badger.Evict.Removed.{
  Lasts, Early, Names, Evicts-IsIndexed, Evicts-gone, Evicts-kept, Evicts-tombs,
}
use sneakernet.Blockstore.Badger.Evict.Stored.{IsStored, limit_of, evict-Rounds}

module _ (kv : Kv) (s : Settings) where
  open kv use {Db, get, size}

  stored-IsCurrent :
      (db : Db) (now : ℕ)
      → IsIndexed kv db
      → (cs : List EvictCandidate) → All (IsStored kv db now) cs
      → All (IsCurrent kv db) cs
  stored-IsCurrent db now ix [] h = tt
  stored-IsCurrent db now ix (c ∷ cs) h = (
    λ at val e.
        let there : get db at (block_key c.id) ≡ found h.0.value =
          ix.steady at now c.id ∙ h.0.present in
        let same : h.0.value ≡ val = cc (there, e) in
        ap created_at_of (sym same) ∙ sym h.0.created_at,
    stored-IsCurrent db now ix cs h.1,
  )

  -- `Evict` keeps blocks and traversal entries in step, also where one of its transactions fails:
  -- `IsIndexed` holds after it if it held before.
  pub evict-IsIndexed :
      (db : Db) (now : ℕ) (n : ℤ) → IsIndexed kv db → IsIndexed kv (evict kv s db now n).db
  evict-IsIndexed db now n ix =
      let r = evict-Rounds kv db now ix s n in
      Evicts-IsIndexed kv s r.evicted 0 db (evict kv s db now n).db r.evicts
        (stored-IsCurrent db now ix r.evicted r.chosen) ix

  -- A `Put` that succeeds, and behind which `Evict` enforces the storage limit, keeps blocks and traversal
  -- entries in step: `IsIndexed` holds after it if it held before, for a stamp and a payload of their
  -- sizes and at a time that an `int64` holds.
  pub put-IsIndexed :
      (hashes : Hashes) (limit : ℕ) (db db' : Db) (now : ℕ) (stamp payload : List ℕ) (tag : ℕ)
      → IsStamp stamp
      → IsPayload payload
      → now / second < 2 ^ 63
      → IsIndexed kv db
      → put kv s hashes limit db now stamp payload tag ≡ some db'
      → IsIndexed kv db'
  unfolding put enforce_limit
  put-IsIndexed hashes limit db db' now stamp payload tag hs hp era ix done =
      let (mid, stored, rest) =
        >>=-eq-some (store_block kv hashes db now stamp payload tag) _ done in
      let after : IsIndexed kv mid =
        store_block-IsIndexed kv hashes db mid now stamp payload tag hs hp era ix stored in
      let e : enforce_limit kv s limit mid now ≡ db' = cc rest in
      subst (IsIndexed kv) e (
        if_elim (IsIndexed kv) (ltb 0 limit && ltb limit (size mid))
          (evict kv s mid now (pos (needed kv s (size mid) limit))).db mid
          (λ _. evict-IsIndexed mid now (pos (needed kv s (size mid) limit)) after) (λ _. after))

  has-congr :
      (hashes : Hashes) (db db' : Db) (at : ℕ) (j : List ℕ)
      → get db' at (block_key j) ≡ get db at (block_key j)
      → get db' at (tomb_key j) ≡ get db at (tomb_key j)
      → has kv hashes db' at j ≡ has kv hashes db at j
  unfolding has
  has-congr hashes db db' at j blocks tombs = λ i. elim (blocks i) [
    | found _ ↦ answer true
    | fault ↦ failed
    | missing ↦ tomb_answer kv hashes (tombs i)
  ]

module _ (kv : Kv) (s : Settings) (ttl : ℕ → ℕ) where
  open kv use {Db, get}

  -- Twice the lifetime of every block that is stored is `ttl` nanoseconds, without a wrap-around.
  abbrev pub AllLast : Db → ℕ → Type 0
  AllLast db now =
      (j val : List ℕ)
      → get db now (block_key j) ≡ found val
      → tomb_ttl kv s (wf_of val) ≡ pos (ttl (wf_of val))

  stored_last :
      (db : Db) (now : ℕ)
      → AllLast db now
      → (cs : List EvictCandidate) → All (IsStored kv db now) cs
      → All (Lasts kv s ttl) cs
  stored_last db now last [] h = tt
  stored_last db now last (c ∷ cs) h =
      (rw h.0.wf (last c.id h.0.value h.0.present), stored_last db now last cs h.1)

  -- `Evict` of `n` in a store in step, where twice the lifetime of each stored block is a
  -- duration: it reports as many evictions as there are candidates in some list, at most `n` (none
  -- for an `n` below 0), each of them a block of the store. Afterwards their IDs are not found;
  -- `Has` says yes to such an ID at every time before a tombstone of twice its block's lifetime,
  -- set in whichever round, expires; and for every other ID `Get` and `Has` answer what they
  -- answered before. All of this also where a transaction fails.
  pub evict-Removed :
      (hashes : Hashes) (db : Db) (now : ℕ) (n : ℤ)
      → IsIndexed kv db
      → AllLast db now
      → (cs : List EvictCandidate) × ((evict kv s db now n).count ≡ length cs)
        × (length cs ≤ limit_of n)
        × All (IsStored kv db now) cs
        × ((at : ℕ) (j : List ℕ)
            → Names j cs
            → (get_block kv hashes (evict kv s db now n).db at j ≡ not_found)
              × (All (λ c. c.id ≡ j → Early kv s ttl at c) cs
                  → has kv hashes (evict kv s db now n).db at j ≡ answer true))
        × ((at : ℕ) (j : List ℕ)
            → ¬ Names j cs
            → (get_block kv hashes (evict kv s db now n).db at j ≡ get_block kv hashes db at j)
              × (has kv hashes (evict kv s db now n).db at j ≡ has kv hashes db at j))
  unfolding get_block has
  evict-Removed hashes db now n ix last =
      let o = evict kv s db now n in
      let r = evict-Rounds kv db now ix s n in
      let cs = r.evicted in
      let lasts = stored_last db now last cs r.chosen in
      (
        cs,
        omega (arith, r.counted),
        r.bounded,
        r.chosen,
        λ at j named.
            let gone = Evicts-gone kv s cs 0 db o.db r.evicts at j (inr named) in
            (
              rw gone,
              λ early.
                  let (v, tomb) =
                    Evicts-tombs kv s ttl cs 0 db o.db r.evicts lasts at j early (inr named) in
                  rw (gone, has, tomb),
            ),
        λ at j out.
            let (blocks, tombs) = Evicts-kept kv s cs 0 db o.db r.evicts at j out in
            (rw blocks, has-congr kv s hashes db o.db at j blocks tombs),
      )
