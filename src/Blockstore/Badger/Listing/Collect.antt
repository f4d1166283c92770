-- ===== src/Blockstore/Badger/Listing/Collect.antt =====
-- One page of the listing: where the loop stops.
use sneakernet.Prelude.{
  ℕ, zero, suc, ◌<◌, ◌≡◌, refl, sym, ap, ◌∙◌, some, List, [], ◌∷◌, ◌++◌, arith, inl, inr, length,
  All,
}
use sneakernet.Integers.{ℤ}
use sneakernet.Blockstore.{BlockRef}
use sneakernet.Blockstore.Badger.Listing.{Item, skipped, taken, judge, collect}
use sneakernet.Blockstore.Badger.Listing.Rows.{IsRow, rows, Verdict-cases, judge-ne-broken}

module _ (floor since : ℤ) where
  -- How a page ends: at the end of the items, or behind an item that fills it.
  pub data Collected (n : ℕ) (xs : List Item) : Type 0 where
    whole :
        collect floor since n xs ≡ some (rows floor since xs)
        → length (rows floor since xs) < n
        → Collected n xs
    full :
        (pre : List Item) (x : Item) (post : List Item) (refs : List BlockRef) (ref : BlockRef)
        → xs ≡ pre ++ x ∷ post
        → judge floor since x ≡ taken ref
        → collect floor since n xs ≡ some (refs ++ ref ∷ [])
        → length (refs ++ ref ∷ []) ≡ n
        → rows floor since xs ≡ refs ++ (ref ∷ rows floor since post)
        → Collected n xs

  collect_none : (n : ℕ) (xs : List Item) → n ≡ 0 → collect floor since n xs ≡ some []
  unfolding collect
  collect_none zero [] e = refl
  collect_none zero (x ∷ xs) e = refl
  collect_none (suc n) xs e = absurd (omega arith)

  module _ (n : ℕ) (x : Item) (xs : List Item) where
    skip_one : judge floor since x ≡ skipped → Collected (suc n) xs → Collected (suc n) (x ∷ xs)
    unfolding collect rows
    skip_one e (whole c small) = whole (rw (e, collect, rows) c) (rw (e, rows) small)
    skip_one e (full pre y post refs ref split j c size r) =
        full (x ∷ pre) y post refs ref (ap (λ t. x ∷ t) split) j (rw (e, collect) c) size
          (rw (e, rows) r)

    take_last :
        (ref : BlockRef) → judge floor since x ≡ taken ref → n ≡ 0 → Collected (suc n) (x ∷ xs)
    unfolding collect rows
    take_last ref e last =
        full [] x xs [] ref refl e (rw (e, collect, collect_none n xs last)) (omega arith)
          (rw (e, rows))

    take_one :
        (ref : BlockRef)
        → judge floor since x ≡ taken ref
        → Collected n xs
        → Collected (suc n) (x ∷ xs)
    unfolding collect rows
    take_one ref e (whole c small) = whole (rw (e, collect, c, rows)) (rw (e, rows) (omega arith))
    take_one ref e (full pre y post refs last split j c size r) =
        full (x ∷ pre) y post (ref ∷ refs) last (ap (λ t. x ∷ t) split) j (rw (e, collect, c))
          (omega arith) (rw (e, rows) (ap (λ t. ref ∷ t) r))

  take_case :
      (n : ℕ) (x : Item) (xs : List Item) (ref : BlockRef)
      → judge floor since x ≡ taken ref
      → ((m : ℕ) → Collected (suc m) xs)
      → Collected (suc n) (x ∷ xs)
  take_case zero x xs ref e rest = take_last zero x xs ref e refl
  take_case (suc n) x xs ref e rest = take_one (suc n) x xs ref e (rest n)

  pub collect-Collected : (n : ℕ) (xs : List Item) → All IsRow xs → Collected (suc n) xs
  collect-Collected n [] rs = whole (unfold collect rows in refl) (unfold rows in omega arith)
  collect-Collected n (x ∷ xs) rs = elim (Verdict-cases (judge floor since x)) [
    | inl e ↦ skip_one n x xs e (collect-Collected n xs rs.1)
    | inr (inl e) ↦
        let row : IsRow x = rs.0 in
        absurd (
          judge-ne-broken floor since x.0 row.value
            (ap (λ f. judge floor since (x.0, f)) (sym row.present) ∙ e))
    | inr (inr (ref, e)) ↦ take_case n x xs ref e (λ m. collect-Collected m xs rs.1)
  ]
