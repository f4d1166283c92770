-- ===== src/Blockstore/Badger/Writes.antt =====
-- What a transaction of `Put` leaves behind, case by case.
use sneakernet.Prelude.{
  ℕ, ◌≡◌, refl, ap, ◌∙◌, some, List, Bool, true, false, Bool-cases, inl, inr, ◌⊎◌, bytes_eq,
  if◌then◌else◌, >>=-eq-some,
}
use sneakernet.Integers.{ℤ}
use sneakernet.Blockstore.Pow.{Hashes, compute_id, work_factor}
use sneakernet.Blockstore.Kv.{Kv, Fetch, found, missing, fault, update-eq-some}
use sneakernet.Blockstore.Badger.{
  block_key, trav_key, tomb_key, encode_block_val, trav_val, unix, keeps, old_created_at,
  write_block, put_block, put_txn, store_block,
}

Fetch-cases : (f : Fetch) → ((v : List ℕ) × (f ≡ found v)) ⊎ ((f ≡ missing) ⊎ (f ≡ fault))
Fetch-cases (found v) = inl (v, refl)
Fetch-cases missing = inr (inl refl)
Fetch-cases fault = inr (inr refl)

module _ (kv : Kv) (hashes : Hashes) where
  open kv use {Db, get, set, delete, commits, get-set, get-delete}

  write_block-get :
      (db db' : Db) (id stamp : List ℕ) (wf : ℕ) (t : ℤ) (tag : ℕ) (payload : List ℕ)
      → write_block kv hashes db id stamp wf t tag payload ≡ some db'
      → (at : ℕ) (j : List ℕ)
      → get db' at j ≡ (
          if bytes_eq (trav_key t id) j
          then found (trav_val wf tag)
          else if bytes_eq (block_key id) j
          then found (encode_block_val stamp wf t tag payload)
          else get db at j)
  unfolding write_block
  write_block-get db db' id stamp wf t tag payload h at j =
      let (mid, first, second) = >>=-eq-some (set db (block_key id) _) _ h in
      get-set mid db' at (trav_key t id) (trav_val wf tag) j second
      ∙ ap (λ f. if bytes_eq (trav_key t id) j then found (trav_val wf tag) else f)
          (get-set db mid at (block_key id) _ j first)

  -- A write for `id` at `now`, over `db`. `removed` tells the keys that were deleted before: that of
  -- the traversal entry of an older copy, or none.
  pub record Written (db db' : Db) (now : ℕ) (id stamp : List ℕ) (wf tag : ℕ) (payload : List ℕ)
      : Type 0 where
    pub removed : List ℕ → Bool
    pub reads :
        (at : ℕ) (j : List ℕ)
        → get db' at j ≡ (
            if bytes_eq (trav_key (unix now) id) j
            then found (trav_val wf tag)
            else if bytes_eq (block_key id) j
            then found (encode_block_val stamp wf (unix now) tag payload)
            else if removed j
            then missing
            else get db at j)
    pub older :
        ((get db now (block_key id) ≡ missing) × ((j : List ℕ) → removed j ≡ false))
        ⊎ ((existing : List ℕ) × (get db now (block_key id) ≡ found existing)
            × (keeps wf existing ≡ false)
            × ((j : List ℕ) → removed j ≡ bytes_eq (trav_key (old_created_at existing) id) j))

  -- Why a `Put` may leave the database as it is.
  abbrev pub Refuses : Db → ℕ → List ℕ → ℕ → Type 0
  Refuses db now id wf =
      ((v : List ℕ) × (get db now (tomb_key id) ≡ found v))
      ⊎ ((existing : List ℕ) × (get db now (block_key id) ≡ found existing)
          × (keeps wf existing ≡ true))

  module _ (db : Db) (now : ℕ) (id : List ℕ) (wf : ℕ) (stamp : List ℕ) (tag : ℕ)
      (payload : List ℕ) where
    put_block_cases :
        (db' : Db)
        → put_block kv hashes db now id wf stamp tag payload ≡ some db'
        → ((db' ≡ db) × Refuses db now id wf) ⊎ Written db db' now id stamp wf tag payload
    unfolding put_block
    put_block_cases db' h = elim (Fetch-cases (get db now (block_key id))) [
      | inr (inr e) ↦ absurd (cc (e, h))
      | inr (inl e) ↦ inr (record {
        removed = λ j. false;
        reads = λ at j.
            write_block-get db db' id stamp wf (unix now) tag payload (rw (e, put_block) at h) at j;
        older = inl (e, λ j. refl);
      })
      | inl (existing, e) ↦ elim (Bool-cases (keeps wf existing)) [
        | inl kept ↦ inl (cc (rw (e, put_block, kept) at h), inr (existing, e, kept))
        | inr lower ↦
            let old = trav_key (old_created_at existing) id in
            let (mid, erased, rest) =
              >>=-eq-some (delete db old) _ (rw (e, put_block, lower) at h) in
            inr (record {
              removed = λ j. bytes_eq old j;
              reads = λ at j.
                  write_block-get mid db' id stamp wf (unix now) tag payload rest at j
                  ∙ ap
                      (λ f.
                        if bytes_eq (trav_key (unix now) id) j
                        then found (trav_val wf tag)
                        else if bytes_eq (block_key id) j
                        then found (encode_block_val stamp wf (unix now) tag payload)
                        else f)
                      (get-delete db mid at old j erased);
              older = inr (existing, e, lower, λ j. refl);
            })
      ]
    ]

    put_txn_cases :
        (db' : Db)
        → put_txn kv hashes db now id wf stamp tag payload ≡ some db'
        → ((db' ≡ db) × Refuses db now id wf)
          ⊎ ((get db now (tomb_key id) ≡ missing) × Written db db' now id stamp wf tag payload)
    unfolding put_txn
    put_txn_cases db' h = elim (Fetch-cases (get db now (tomb_key id))) [
      | inl (v, e) ↦ inl (cc (rw (e, put_txn) at h), inl (v, e))
      | inr (inr e) ↦ absurd (cc (e, h))
      | inr (inl e) ↦ elim (put_block_cases db' (rw (e, put_txn) at h)) [
        | inl same ↦ inl same
        | inr written ↦ inr (e, written)
      ]
    ]

  -- A `Put` that succeeds has left the database as it was, for one of the two reasons, or has
  -- written the block.
  pub store_block_cases :
      (db db' : Db) (now : ℕ) (stamp payload : List ℕ) (tag : ℕ)
      → store_block kv hashes db now stamp payload tag ≡ some db'
      → ((db' ≡ db) × Refuses db now (compute_id hashes payload) (work_factor hashes stamp payload))
        ⊎ ((get db now (tomb_key (compute_id hashes payload)) ≡ missing)
            × Written db db' now
                (compute_id hashes payload)
                stamp
                (work_factor hashes stamp payload)
                tag
                payload)
  unfolding store_block
  store_block_cases db db' now stamp payload tag h =
      put_txn_cases db now (compute_id hashes payload) (work_factor hashes stamp payload) stamp tag
        payload db' (update-eq-some kv db _ h)
