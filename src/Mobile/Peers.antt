-- ===== src/Mobile/Peers.antt =====
-- mobile/peertracker.go: the tracked peers and the operations on them.
pub mod Pick
pub mod Entries
use sneakernet.Prelude.{
  ℕ, zero, suc, ◌+◌, Bool, true, false, not, Option, none, some, List, [], ◌∷◌, bytes_eq, leb,
  if◌then◌else◌, length,
}
use sneakernet.Integers.{ℤ, negsuc, ltb_ℤ}

abbrev pub max_tracked_peers : ℕ
max_tracked_peers = 200

pub record PeerEntry : Type 0 where
  pub url : List ℕ
  pub source : List ℕ
  pub blocked : Bool
  pub added_at : ℤ
  pub last_sync : ℤ
  pub failures : ℕ
  pub last_pulled : ℕ
  pub last_pushed : ℕ
  pub last_error : List ℕ

-- The zero `time.Time`. Times are in nanoseconds from 1970.
abbrev pub zero_time : ℤ
zero_time = negsuc 62_135_596_799_999_999_999

-- The map of peers as an association list: the first entry of a key counts.
abbrev pub Peers : Type 0
Peers = List (List ℕ × PeerEntry)

unfoldable pub find : Peers → List ℕ → Option PeerEntry
find [] u = none
find ((v, e) ∷ peers) u = if bytes_eq v u then some e else find peers u

-- An update of the entry that a key points to.
unfoldable pub modify : Peers → List ℕ → (PeerEntry → PeerEntry) → Peers
modify [] u f = []
modify ((v, e) ∷ peers) u f = if bytes_eq v u then (v, f e) ∷ peers else (v, e) ∷ modify peers u f

-- `delete(peers, u)`.
unfoldable pub erase : Peers → List ℕ → Peers
erase [] u = []
erase ((v, e) ∷ peers) u = if bytes_eq v u then erase peers u else (v, e) ∷ erase peers u

abbrev pub new_entry : List ℕ → List ℕ → Bool → ℤ → PeerEntry
new_entry u source blocked now = record {
  url = u;
  source = source;
  blocked = blocked;
  added_at = now;
  last_sync = zero_time;
  failures = 0;
  last_pulled = 0;
  last_pushed = 0;
  last_error = [];
}

abbrev pub manual : List ℕ
manual = b'm' ∷ b'a' ∷ b'n' ∷ b'u' ∷ b'a' ∷ b'l' ∷ []

-- `normalize` is `normalizeURL`, which rests on net/url: the empty string is an invalid URL.
module _ (normalize : List ℕ → List ℕ) where
  abbrev pub add_new : Peers → List ℕ → List ℕ → ℤ → Option PeerEntry → Peers × Bool
  add_new peers u source now (some e) = (peers, false)
  add_new peers u source now none =
      if leb max_tracked_peers (length peers)
      then (peers, false)
      else ((u, new_entry u source false now) ∷ peers, true)

  abbrev add_normal : Peers → List ℕ → List ℕ → ℤ → Peers × Bool
  add_normal peers [] source now = (peers, false)
  add_normal peers (c ∷ u) source now = add_new peers (c ∷ u) source now (find peers (c ∷ u))

  -- The new map, and whether the peer was added.
  unfoldable pub add_peer : Peers → List ℕ → List ℕ → ℤ → Peers × Bool
  add_peer peers raw_url source now = add_normal peers (normalize raw_url) source now

  abbrev remove_normal : Peers → List ℕ → Peers
  remove_normal peers [] = peers
  remove_normal peers (c ∷ u) = erase peers (c ∷ u)

  unfoldable pub remove_peer : Peers → List ℕ → Peers
  remove_peer peers raw_url = remove_normal peers (normalize raw_url)

  abbrev block_found : Peers → List ℕ → ℤ → Option PeerEntry → Peers
  block_found peers u now (some e) = modify peers u (λ e. record e { blocked = true })
  block_found peers u now none = (u, new_entry u manual true now) ∷ peers

  abbrev block_normal : Peers → List ℕ → ℤ → Peers
  block_normal peers [] now = peers
  block_normal peers (c ∷ u) now = block_found peers (c ∷ u) now (find peers (c ∷ u))

  unfoldable pub block_peer : Peers → List ℕ → ℤ → Peers
  block_peer peers raw_url now = block_normal peers (normalize raw_url) now

  abbrev unblock_normal : Peers → List ℕ → Peers
  unblock_normal peers [] = peers
  unblock_normal peers (c ∷ u) = modify peers (c ∷ u) (λ e. record e { blocked = false })

  unfoldable pub unblock_peer : Peers → List ℕ → Peers
  unblock_peer peers raw_url = unblock_normal peers (normalize raw_url)

-- The URLs of the peers that are not blocked, in the order in which the map is ranged over.
unfoldable pub active_urls : Peers → List (List ℕ)
active_urls [] = []
active_urls ((u, e) ∷ peers) = if e.blocked then active_urls peers else u ∷ active_urls peers

-- The loop of `pickPeer`, with the peer and the time that are picked so far.
unfoldable pub pick_from : Option (List ℕ × ℤ) → Peers → Option (List ℕ × ℤ)
pick_from best [] = best
pick_from none ((u, e) ∷ peers) =
    if e.blocked then pick_from none peers else pick_from (some (u, e.last_sync)) peers
pick_from (some (p, t)) ((u, e) ∷ peers) =
    if e.blocked
    then pick_from (some (p, t)) peers
    else if ltb_ℤ e.last_sync t
    then pick_from (some (u, e.last_sync)) peers
    else pick_from (some (p, t)) peers

-- The picked URL, empty if every peer is blocked.
unfoldable pub pick_peer : Peers → List ℕ
pick_peer peers = elim (pick_from none peers) [ none ↦ [] | some best ↦ best.0 ]

unfoldable pub record_success : Peers → List ℕ → ℕ → ℕ → List ℕ → ℤ → Peers
record_success peers raw_url pulled pushed sync_err now = modify peers raw_url (λ e. record e {
  failures = 0;
  last_sync = now;
  last_pulled = pulled;
  last_pushed = pushed;
  last_error = sync_err;
})

unfoldable pub record_failure : Peers → List ℕ → List ℕ → Peers
record_failure peers raw_url pull_err =
    modify peers raw_url (λ e. record e { failures = e.failures + 1; last_error = pull_err })
