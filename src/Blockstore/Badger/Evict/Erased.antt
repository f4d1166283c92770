-- ===== src/Blockstore/Badger/Evict/Erased.antt =====
-- One eviction: what reads return after it, and that it keeps blocks and traversal entries in step.
use sneakernet.Prelude.{
  ℕ, ◌+◌, ◌/◌, ◌^◌, ◌<◌, ◌≡◌, sym, ap, ◌∙◌, some, List, [], false, Bool-cases, inl, inr, ltb,
  bytes_eq, bytes_eq→eq, bytes_eq_refl, >>=-eq-some, if◌then◌else◌,
}
use sneakernet.Integers.{pos}
use sneakernet.Blockstore.Kv.{Kv, Fetch, found, missing, second, update-eq-some}
use sneakernet.Blockstore.Badger.{
  block_key, trav_key, tomb_key, trav_val, from_epoch, wf_of, created_at_of,
}
use sneakernet.Blockstore.Badger.Keys.{
  time_key, trav_key-time_key, from_epoch-lt, time_key_apart, time_key_same, time_key-ne-block_key,
  time_key-ne-tomb_key, block_key-ne-tomb_key, tomb_key-ne-block_key, tomb_key-ne-time_key,
  block_key-ne-time_key, block_key-bytes_eq, tomb_key-bytes_eq,
}
use sneakernet.Blockstore.Badger.Indexed.{IsIndexed}
use sneakernet.Blockstore.Badger.Evict.{EvictCandidate, Settings, tomb_ttl, evict_one}

-- A tombstone that expires after `ttl` nanoseconds.
abbrev pub tomb_until : ℕ → ℕ → ℕ → Fetch
tomb_until set_at ttl at = if ltb (at / second) ((set_at + ttl) / second) then found [] else missing

module _ (kv : Kv) where
  open kv use {Db, get, set_ttl, delete, get-set_ttl, get-set_ttl_other, get-delete}

  -- A database after the eviction of a block; `tombed` is what its tombstone reads as.
  pub record Erased (db db' : Db) (c : EvictCandidate) : Type 0 where
    pub tombed : ℕ → Fetch
    pub reads :
        (at : ℕ) (j : List ℕ)
        → get db' at j ≡ (
            if bytes_eq (tomb_key c.id) j
            then tombed at
            else if bytes_eq (trav_key c.created_at c.id) j
            then missing
            else if bytes_eq (block_key c.id) j
            then missing
            else get db at j)

  pub evict_one-Erased :
      (s : Settings) (db db' : Db) (now : ℕ) (c : EvictCandidate)
      → evict_one kv s db now c ≡ some db'
      → (w : Erased db db' c) × ((ttl : ℕ)
          → tomb_ttl kv s c.wf ≡ pos ttl
          → (at : ℕ) → w.tombed at ≡ tomb_until now ttl at)
  unfolding evict_one
  evict_one-Erased s db db' now c h =
      let tomb = tomb_key c.id in
      let trav = trav_key c.created_at c.id in
      let body = update-eq-some kv db _ h in
      let (first, gone, rest) = >>=-eq-some (delete db (block_key c.id)) _ body in
      let (mid, untimed, last) = >>=-eq-some (delete first trav) _ rest in
      (
        record {
          tombed = λ at. get db' at tomb;
          reads = λ at j. elim (Bool-cases (bytes_eq tomb j)) [
            | inl this ↦ rw this (ap (get db' at) (sym (bytes_eq→eq tomb j this)))
            | inr other ↦ rw other (
                get-set_ttl_other mid db' now at tomb [] (tomb_ttl kv s c.wf) j last other
                ∙ get-delete first mid at trav j untimed
                ∙ ap (λ f. if bytes_eq trav j then missing else f)
                    (get-delete db first at (block_key c.id) j gone))
          ];
        },
        λ ttl e at.
            get-set_ttl mid db' now at tomb [] ttl tomb (rw (← e) last) ∙ rw (bytes_eq_refl tomb),
      )

  -- What is stored under the candidate's ID, if anything, has the candidate's time.
  abbrev pub IsCurrent : Db → EvictCandidate → Type 0
  IsCurrent db c =
      (at : ℕ) (val : List ℕ)
      → get db at (block_key c.id) ≡ found val
      → created_at_of val ≡ c.created_at

  module _ {db db' : Db} {c : EvictCandidate} (w : Erased db db' c) where
    pub Erased-block_key :
        (at : ℕ) (j : List ℕ)
        → get db' at (block_key j) ≡ (if bytes_eq c.id j then missing else get db at (block_key j))
    Erased-block_key at j = rw (
      w.reads at (block_key j),
      tomb_key-ne-block_key c.id j,
      trav_key-time_key,
      time_key-ne-block_key (from_epoch c.created_at) c.id j,
      block_key-bytes_eq c.id j,
    )

    pub Erased-tomb_key :
        (at : ℕ) (j : List ℕ)
        → get db' at (tomb_key j)
          ≡ (if bytes_eq c.id j then w.tombed at else get db at (tomb_key j))
    Erased-tomb_key at j = rw (
      w.reads at (tomb_key j),
      tomb_key-bytes_eq c.id j,
      trav_key-time_key,
      time_key-ne-tomb_key (from_epoch c.created_at) c.id j,
      block_key-ne-tomb_key c.id j,
    )

    Erased-time_key :
        (at t : ℕ) (j : List ℕ)
        → get db' at (time_key t j) ≡ (
            if bytes_eq (time_key (from_epoch c.created_at) c.id) (time_key t j)
            then missing
            else get db at (time_key t j))
    Erased-time_key at t j = rw (
      w.reads at (time_key t j),
      tomb_key-ne-time_key t j c.id,
      trav_key-time_key,
      block_key-ne-time_key t j c.id,
    )

    kept_present :
        (at : ℕ) (j val : List ℕ)
        → get db' at (block_key j) ≡ found val
        → (bytes_eq c.id j ≡ false) × (get db at (block_key j) ≡ found val)
    kept_present at j val e = elim (Bool-cases (bytes_eq c.id j)) [
      | inl this ↦ cc (rw (Erased-block_key at j, this) at e)
      | inr other ↦ (other, rw (Erased-block_key at j, other) at e)
    ]

    -- Another candidate stays current.
    pub Erased-IsCurrent : (d : EvictCandidate) → IsCurrent db d → IsCurrent db' d
    Erased-IsCurrent d fresh at val e = fresh at val (kept_present at d.id val e).1

    module _ (fresh : IsCurrent db c) (ix : IsIndexed kv db) where
      kept_listed :
          (at : ℕ) (j val : List ℕ)
          → get db' at (block_key j) ≡ found val
          → (tag : ℕ) × (get db' at (time_key (from_epoch (created_at_of val)) j)
              ≡ found (trav_val (wf_of val) tag))
      kept_listed at j val e =
          let (other, present) = kept_present at j val e in
          let (tag, entry) = ix.listed at j val present in
          let t = from_epoch (created_at_of val) in
          (
            tag,
            rw
                (
                  Erased-time_key at t j,
                  time_key_apart (from_epoch c.created_at) t c.id j (from_epoch-lt _)
                      (from_epoch-lt _) other,
                )
                entry,
          )

      kept_backed :
          (at t : ℕ) (j v : List ℕ)
          → t < 256 ^ 8
          → get db' at (time_key t j) ≡ found v
          → (val : List ℕ) × (get db' at (block_key j) ≡ found val)
            × (from_epoch (created_at_of val) ≡ t)
      kept_backed at t j v ht e =
          let key = bytes_eq (time_key (from_epoch c.created_at) c.id) (time_key t j) in
          elim (Bool-cases key) [
            | inl gone ↦ cc (rw (Erased-time_key at t j, gone) at e)
            | inr kept ↦
                let (val, present, same) =
                  ix.backed at t j v ht (rw (Erased-time_key at t j, kept) at e) in
                elim (Bool-cases (bytes_eq c.id j)) [
                  | inr other ↦ (val, rw (Erased-block_key at j, other) present, same)
                  | inl this ↦
                      let here : get db at (block_key c.id) ≡ found val =
                        rw (bytes_eq→eq c.id j this) present in
                      let time : from_epoch c.created_at ≡ t =
                        sym (ap from_epoch (fresh at val here)) ∙ same in
                      absurd (cc (time_key_same (from_epoch c.created_at) t c.id j time this, kept))
                ]
          ]

      pub Erased-IsIndexed : IsIndexed kv db'
      Erased-IsIndexed = record {
        steady = λ a b j. rw (Erased-block_key a j, Erased-block_key b j, ix.steady a b j);
        whole = λ at j val e. ix.whole at j val (kept_present at j val e).1;
        listed = kept_listed;
        backed = kept_backed;
      }
