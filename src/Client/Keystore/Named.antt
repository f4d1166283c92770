-- ===== src/Client/Keystore/Named.antt =====
-- Lists of entries that differ in a field, under finding, appending, removing and updating.
use sneakernet.Prelude.{
  ℕ, ◌≡◌, refl, sym, Bool, true, false, Option, some, List, [], ◌∷◌, ◌++◌, bytes_eq, bytes_eq_refl,
  bytes_eq_swap, if◌then◌else◌, if_elim, All, All-append, subst,
}
use sneakernet.Client.Keystore.{find, remove, update, found}

not_found_here :
    {A : Type 0} (b : Bool) (x : A) (o : Option A)
    → found (if b then some x else o) ≡ false
    → (b ≡ false) × (found o ≡ false)
not_found_here true x o h = cc
not_found_here false x o h = (refl, h)

module _ {A : Type 0} (field : A → List ℕ) where
  -- No entry of the list has the field.
  abbrev pub Lacks : List ℕ → List A → Type 0
  Lacks key xs = All (λ x. bytes_eq (field x) key ≡ false) xs

  -- No two entries of the list have the same field.
  abbrev pub Distinct : List A → Type 0
  Distinct [] = Unit
  Distinct (x ∷ xs) = Lacks (field x) xs × Distinct xs

  pub Lacks-found : (key : List ℕ) (xs : List A) → found (find field key xs) ≡ false → Lacks key xs
  unfolding find
  Lacks-found key [] h = tt
  Lacks-found key (x ∷ xs) h =
      let (other, rest) = not_found_here (bytes_eq (field x) key) x (find field key xs) h in
      (other, Lacks-found key xs rest)

  pub find-append :
      (key : List ℕ) (xs : List A) (x : A)
      → Lacks key xs
      → field x ≡ key
      → find field key (xs ++ x ∷ []) ≡ some x
  unfolding find
  find-append key [] x h e = rw (e, bytes_eq_refl key) refl
  find-append key (y ∷ xs) x h e = rw h.0 (find-append key xs x h.1 e)

  pub Distinct-append :
      (xs : List A) (x : A) → Distinct xs → Lacks (field x) xs → Distinct (xs ++ x ∷ [])
  Distinct-append [] x d h = (tt, tt)
  Distinct-append (y ∷ xs) x d h = (
    All-append _ xs (x ∷ []) d.0 (bytes_eq_swap (field y) (field x) h.0, tt),
    Distinct-append xs x d.1 h.1,
  )

  -- A property of every entry stays when one is removed.
  pub All-remove {κ} :
      (P : A → Type κ) (key : List ℕ) (xs : List A) → All P xs → All P (remove field key xs)
  unfolding remove
  All-remove P key [] h = tt
  All-remove P key (x ∷ xs) h =
      if_elim (All P) (bytes_eq (field x) key) xs (x ∷ remove field key xs) (λ e. h.1)
        (λ e. (h.0, All-remove P key xs h.1))

  pub Distinct-remove : (key : List ℕ) (xs : List A) → Distinct xs → Distinct (remove field key xs)
  unfolding remove
  Distinct-remove key [] d = tt
  Distinct-remove key (x ∷ xs) d =
      if_elim Distinct (bytes_eq (field x) key) xs (x ∷ remove field key xs) (λ e. d.1)
        (λ e. (All-remove _ key xs d.0, Distinct-remove key xs d.1))

  module _ (change : A → A) where
    pub All-update {κ} :
        (P : A → Type κ) (key : List ℕ) (xs : List A)
        → ((x : A) → P x → P (change x))
        → All P xs
        → All P (update field key change xs)
    unfolding update
    All-update P key [] kept h = tt
    All-update P key (x ∷ xs) kept h =
        if_elim (All P) (bytes_eq (field x) key) (change x ∷ xs) (x ∷ update field key change xs)
          (λ e. (kept x h.0, h.1)) (λ e. (h.0, All-update P key xs kept h.1))

    pub Distinct-update :
        (key : List ℕ) (xs : List A)
        → ((x : A) → field (change x) ≡ field x)
        → Distinct xs
        → Distinct (update field key change xs)
    unfolding update
    Distinct-update key [] kept d = tt
    Distinct-update key (x ∷ xs) kept d =
        if_elim Distinct (bytes_eq (field x) key) (change x ∷ xs) (x ∷ update field key change xs)
          (λ e. (subst (λ f. Lacks f xs) (sym (kept x)) d.0, d.1))
          (λ e. (
            All-update _ key xs (λ y h. subst (λ f. bytes_eq f (field x) ≡ false) (sym (kept y)) h)
                d.0,
            Distinct-update key xs kept d.1,
          ))
