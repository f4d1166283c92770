-- ===== src/Blockstore/Pow/Mining.antt =====
-- What `MineStamp` returns.
use sneakernet.Prelude.{
  ℕ, ◌≡◌, some, List, [], ◌∷◌, ◌++◌, true, false, Bool-cases, inl, inr, sym, All,
}
use sneakernet.Integers.{ℤ, pos, ltb_ℤ}
use sneakernet.Blockstore.Pow.{
  Hashes, Round, cancelled, no_entropy, drew, mined, work_factor, mine, mine_stamp,
}

-- A round that drew a stamp which falls short of the target.
abbrev pub FallsShort : Hashes → List ℕ → ℤ → Round → Type 0
FallsShort hashes payload target (drew stamp) =
    ltb_ℤ (pos (work_factor hashes stamp payload)) target ≡ true
FallsShort hashes payload target _ = ⊥

module _ (hashes : Hashes) (payload : List ℕ) (target : ℤ) where
  mine_sound :
      (rounds : List Round) (stamp : List ℕ) (wf : ℕ)
      → mine hashes payload target rounds ≡ some (mined stamp wf)
      → (wf ≡ work_factor hashes stamp payload) × (ltb_ℤ (pos wf) target ≡ false)
  unfolding mine
  mine_sound [] stamp wf e = cc
  mine_sound (cancelled ∷ rounds) stamp wf e = cc
  mine_sound (no_entropy ∷ rounds) stamp wf e = cc
  mine_sound (drew s ∷ rounds) stamp wf e =
      elim (Bool-cases (ltb_ℤ (pos (work_factor hashes s payload)) target)) [
        | inl short ↦ mine_sound rounds stamp wf (rw short at e)
        | inr enough ↦
            let same : some (mined s (work_factor hashes s payload)) ≡ some (mined stamp wf) =
              rw enough at e in
            let stamps : s ≡ stamp = cc same in
            let factors : work_factor hashes s payload ≡ wf = cc same in
            (rw (← stamps) (sym factors), rw factors at enough)
      ]

  -- For a positive target, a mined stamp has the work factor that is returned with it, and that
  -- reaches the target.
  pub mine_stamp_sound :
      (rounds : List Round) (stamp : List ℕ) (wf : ℕ)
      → ltb_ℤ (pos 0) target ≡ true
      → mine_stamp hashes payload target rounds ≡ some (mined stamp wf)
      → (wf ≡ work_factor hashes stamp payload) × (ltb_ℤ (pos wf) target ≡ false)
  unfolding mine_stamp
  mine_stamp_sound rounds stamp wf positive e = mine_sound rounds stamp wf (rw positive at e)

  mine_first :
      (misses : List Round) (stamp : List ℕ) (later : List Round)
      → All (FallsShort hashes payload target) misses
      → ltb_ℤ (pos (work_factor hashes stamp payload)) target ≡ false
      → mine hashes payload target (misses ++ drew stamp ∷ later)
        ≡ some (mined stamp (work_factor hashes stamp payload))
  unfolding mine
  mine_first [] stamp later h hit = rw hit
  mine_first (drew s ∷ misses) stamp later h hit = rw h.0 (mine_first misses stamp later h.1 hit)
  mine_first (cancelled ∷ misses) stamp later h hit = absurd h.0
  mine_first (no_entropy ∷ misses) stamp later h hit = absurd h.0

  -- For a positive target, after rounds whose stamps all fall short of it, the loop ends at the next
  -- stamp that reaches it and returns that stamp with its work factor.
  pub mine_stamp_first :
      (misses : List Round) (stamp : List ℕ) (later : List Round)
      → ltb_ℤ (pos 0) target ≡ true
      → All (FallsShort hashes payload target) misses
      → ltb_ℤ (pos (work_factor hashes stamp payload)) target ≡ false
      → mine_stamp hashes payload target (misses ++ drew stamp ∷ later)
        ≡ some (mined stamp (work_factor hashes stamp payload))
  unfolding mine_stamp
  mine_stamp_first misses stamp later positive h hit =
      rw positive (mine_first misses stamp later h hit)
