-- ===== src/Mobile/Peers/Entries.antt =====
-- What the operations leave under each URL, and the bound on the number of peers.
use sneakernet.Prelude.{
  ℕ, ◌≤◌, ◌≡◌, refl, sym, ap, ◌∙◌, true, false, Option, none, some, List, [], ◌∷◌, ◌⊎◌, inl, inr,
  arith, Bool-cases, Option-cases, bytes_eq, bytes_eq→eq, bytes_eq_congr, leb, length,
  if◌then◌else◌,
}
use sneakernet.Integers.{ℤ}
use sneakernet.Mobile.Peers.{
  PeerEntry, Peers, max_tracked_peers, find, modify, new_entry, add_new, add_peer, block_peer,
  manual,
}

-- A change of what a URL points to, if it points to an entry.
abbrev pub changed : (PeerEntry → PeerEntry) → Option PeerEntry → Option PeerEntry
changed f none = none
changed f (some e) = some (f e)

-- Of two URLs that differ at most one is a third.
apart : (v u j : List ℕ) → bytes_eq v u ≡ false → bytes_eq v j ≡ true → bytes_eq u j ≡ false
apart v u j other this = elim (Bool-cases (bytes_eq u j)) [
  | inr h ↦ h
  | inl h ↦
      let same : v ≡ u = bytes_eq→eq v j this ∙ sym (bytes_eq→eq u j h) in
      cc (bytes_eq_congr v u same, other)
]

find-modify :
    (peers : Peers) (u : List ℕ) (f : PeerEntry → PeerEntry) (j : List ℕ)
    → find (modify peers u f) j ≡ (if bytes_eq u j then changed f (find peers j) else find peers j)
unfolding find modify
find-modify [] u f j = ground arith
find-modify ((v, e) ∷ peers) u f j = elim (Bool-cases (bytes_eq v u)) [
  | inl this ↦
      let same = bytes_eq→eq v u this in
      rw this (rw same (elim (Bool-cases (bytes_eq u j)) [ inl h ↦ rw h | inr h ↦ rw h ]))
  | inr other ↦ rw other (
      rw (find-modify peers u f j)
        (elim (Bool-cases (bytes_eq v j)) [ inl h ↦ rw (h, apart v u j other h) | inr h ↦ rw h ]))
]

find_same : (peers : Peers) (u j : List ℕ) → bytes_eq u j ≡ true → find peers u ≡ find peers j
find_same peers u j h = ap (find peers) (bytes_eq→eq u j h)

-- The entry of a peer once it is blocked.
abbrev pub blocked_entry : List ℕ → ℤ → Option PeerEntry → PeerEntry
blocked_entry u now none = new_entry u manual true now
blocked_entry u now (some e) = record e { blocked = true }

module _ (normalize : List ℕ → List ℕ) (peers : Peers) (raw_url : List ℕ) where
  -- Blocking a valid URL leaves a blocked entry under its normal form: the old entry, otherwise as it
  -- was, or a new one if there was none. The entries of other URLs stay as they are.
  pub find-block_peer :
      (now : ℤ) (c : ℕ) (u j : List ℕ)
      → normalize raw_url ≡ c ∷ u
      → find (block_peer normalize peers raw_url now) j ≡ (
          if bytes_eq (c ∷ u) j
          then some (blocked_entry (c ∷ u) now (find peers (c ∷ u)))
          else find peers j)
  unfolding block_peer
  find-block_peer now c u j valid = elim (Option-cases (find peers (c ∷ u))) [
    | inl absent ↦ rw (valid, absent) (unfold find in refl)
    | inr (e, present) ↦
        rw (valid, present)
          (find-modify peers (c ∷ u) (λ e. record e { blocked = true }) j ∙ present_case e present)
  ]
    where
      present_case :
          (e : PeerEntry)
          → find peers (c ∷ u) ≡ some e
          → (if bytes_eq (c ∷ u) j
              then changed (λ e. record e { blocked = true }) (find peers j)
              else find peers j)
            ≡ (if bytes_eq (c ∷ u) j then some (record e { blocked = true }) else find peers j)
      present_case e present = elim (Bool-cases (bytes_eq (c ∷ u) j)) [
        | inl h ↦
            let here : find peers j ≡ some e = sym (find_same peers (c ∷ u) j h) ∙ present in
            rw h (ap (changed (λ e. record e { blocked = true })) here)
        | inr h ↦ rw h
      ]

  -- Adding a peer keeps the number of peers within the limit.
  pub length-add_peer :
      (source : List ℕ) (now : ℤ)
      → length peers ≤ max_tracked_peers
      → length ((add_peer normalize peers raw_url source now).0) ≤ max_tracked_peers
  unfolding add_peer
  length-add_peer source now small = elim (List-cases (normalize raw_url)) [
    | inl e ↦ rw e small
    | inr (c, u, e) ↦ rw e (added (c ∷ u) (find peers (c ∷ u)))
  ]
    where
      List-cases : (xs : List ℕ) → (xs ≡ []) ⊎ ((x : ℕ) × (ys : List ℕ) × (xs ≡ x ∷ ys))
      List-cases [] = inl refl
      List-cases (x ∷ xs) = inr (x, xs, refl)

      added :
          (u : List ℕ) (o : Option PeerEntry)
          → length ((add_new normalize peers u source now o).0) ≤ max_tracked_peers
      added u (some e) = small
      added u none = elim (Bool-cases (leb max_tracked_peers (length peers))) [
        | inl full ↦ rw full small
        | inr room ↦ rw room (ground arith)
      ]
