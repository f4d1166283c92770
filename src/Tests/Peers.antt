-- ===== src/Tests/Peers.antt =====
-- Runs of the peer tracker.
use sneakernet.Prelude.{ℕ, ◌≡◌, refl, true, false, List, [], ◌∷◌, ◌⊎◌, All}
use sneakernet.Integers.{ℤ, pos}
use sneakernet.Mobile.Peers.{Peers, pick_from, new_entry, pick_peer, manual}
use sneakernet.Mobile.Peers.Pick.{Active, Least, pick_peer-Least}

-- A stand-in for `normalizeURL` that takes every URL as it is.
abbrev as_is : List ℕ → List ℕ
as_is u = u

abbrev peers : Peers
peers =
    (1 ∷ [], record (new_entry (1 ∷ []) manual false (pos 3)) { last_sync = pos 9 })
    ∷ (2 ∷ [], record (new_entry (2 ∷ []) manual false (pos 3)) { last_sync = pos 7 })
    ∷ (3 ∷ [], new_entry (3 ∷ []) manual true (pos 3))
    ∷ []

pick_run : pick_peer peers ≡ 2 ∷ []
unfolding pick_peer pick_from
pick_run = refl

pick_peer-Least_example :
    (All (λ x. x.1.blocked ≡ true) peers × (pick_peer peers ≡ []))
    ⊎ ((t : ℤ) × Active (pick_peer peers) t peers × Least t peers)
pick_peer-Least_example = pick_peer-Least peers
