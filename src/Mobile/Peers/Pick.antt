-- ===== src/Mobile/Peers/Pick.antt =====
-- `pickPeer`: the peer that has waited longest.
use sneakernet.Prelude.{
  ℕ, ◌≡◌, refl, sym, ap, subst, true, false, Option, none, some, List, [], ◌∷◌, ◌⊎◌, inl, inr,
  arith, Bool-cases, All, Elem,
}
use sneakernet.Integers.{ℤ, pos, negsuc, ltb_ℤ}
use sneakernet.Mobile.Peers.{PeerEntry, Peers, pick_from, pick_peer}

ltb_ℤ_irrefl : (t : ℤ) → ltb_ℤ t t ≡ false
ltb_ℤ_irrefl (pos n) = ground arith
ltb_ℤ_irrefl (negsuc n) = ground arith

-- `r ≤ s` and `s ≤ t` give `r ≤ t`.
le_ℤ_trans : (r s t : ℤ) → ltb_ℤ s r ≡ false → ltb_ℤ t s ≡ false → ltb_ℤ t r ≡ false
le_ℤ_trans (pos r) (pos s) (pos t) h k = ground arith
le_ℤ_trans (pos r) (pos s) (negsuc t) h k = ground arith
le_ℤ_trans (pos r) (negsuc s) t h k = ground arith
le_ℤ_trans (negsuc r) (pos s) (pos t) h k = refl
le_ℤ_trans (negsuc r) (pos s) (negsuc t) h k = ground arith
le_ℤ_trans (negsuc r) (negsuc s) (pos t) h k = refl
le_ℤ_trans (negsuc r) (negsuc s) (negsuc t) h k = ground arith

lt_le_ℤ : (s t : ℤ) → ltb_ℤ s t ≡ true → ltb_ℤ t s ≡ false
lt_le_ℤ (pos s) (pos t) h = ground arith
lt_le_ℤ (pos s) (negsuc t) h = cc
lt_le_ℤ (negsuc s) (pos t) h = refl
lt_le_ℤ (negsuc s) (negsuc t) h = ground arith

-- No peer that is not blocked has synced before `t`.
abbrev pub Least : ℤ → Peers → Type 0
Least t peers = All (λ x. x.1.blocked ≡ false → ltb_ℤ x.1.last_sync t ≡ false) peers

abbrev pub Active : List ℕ → ℤ → Peers → Type 0
Active p t peers = (e : PeerEntry) × Elem (p, e) peers × (e.blocked ≡ false) × (e.last_sync ≡ t)

Active-there :
    (p : List ℕ) (t : ℤ) (x : List ℕ × PeerEntry) (peers : Peers)
    → Active p t peers
    → Active p t (x ∷ peers)
Active-there p t x peers (e, m, free, time) = (e, inr m, free, time)

record IsPick (p : List ℕ) (t : ℤ) (peers : Peers) : Type 0 where
  url : List ℕ
  time : ℤ
  picked : pick_from (some (p, t)) peers ≡ some (url, time)
  earlier : ltb_ℤ t time ≡ false
  least : Least time peers
  among : ((url ≡ p) × (time ≡ t)) ⊎ Active url time peers

module _ (p : List ℕ) (t : ℤ) (u : List ℕ) (e : PeerEntry) (peers : Peers) where
  past_blocked : e.blocked ≡ true → IsPick p t peers → IsPick p t ((u, e) ∷ peers)
  unfolding pick_from
  past_blocked b r = record {
    url = r.url;
    time = r.time;
    picked = rw b r.picked;
    earlier = r.earlier;
    least = (λ free. cc (b, free), r.least);
    among = elim (r.among) [
      | inl same ↦ inl same
      | inr a ↦ inr (Active-there r.url r.time (u, e) peers a)
    ];
  }

  past_later :
      e.blocked ≡ false
      → ltb_ℤ e.last_sync t ≡ false
      → IsPick p t peers
      → IsPick p t ((u, e) ∷ peers)
  unfolding pick_from
  past_later b late r = record {
    url = r.url;
    time = r.time;
    picked = rw (b, late) r.picked;
    earlier = r.earlier;
    least = (λ free. le_ℤ_trans r.time t e.last_sync r.earlier late, r.least);
    among = elim (r.among) [
      | inl same ↦ inl same
      | inr a ↦ inr (Active-there r.url r.time (u, e) peers a)
    ];
  }

  past_sooner :
      e.blocked ≡ false
      → ltb_ℤ e.last_sync t ≡ true
      → IsPick u e.last_sync peers
      → IsPick p t ((u, e) ∷ peers)
  unfolding pick_from
  past_sooner b soon r = record {
    url = r.url;
    time = r.time;
    picked = rw (b, soon) r.picked;
    earlier = le_ℤ_trans r.time e.last_sync t r.earlier (lt_le_ℤ e.last_sync t soon);
    least = (λ free. r.earlier, r.least);
    among = elim (r.among) [
      | inl same ↦ inr (e, inl (ap (λ v. (v, e)) (sym same.0)), b, sym same.1)
      | inr a ↦ inr (Active-there r.url r.time (u, e) peers a)
    ];
  }

pick_from_lem : (p : List ℕ) (t : ℤ) (peers : Peers) → IsPick p t peers
pick_from_lem p t [] = record {
  url = p;
  time = t;
  picked = unfold pick_from in refl;
  earlier = ltb_ℤ_irrefl t;
  least = tt;
  among = inl (refl, refl);
}
pick_from_lem p t ((u, e) ∷ peers) = elim (Bool-cases (e.blocked)) [
  | inl b ↦ past_blocked p t u e peers b (pick_from_lem p t peers)
  | inr b ↦ elim (Bool-cases (ltb_ℤ e.last_sync t)) [
    | inl soon ↦ past_sooner p t u e peers b soon (pick_from_lem u e.last_sync peers)
    | inr late ↦ past_later p t u e peers b late (pick_from_lem p t peers)
  ]
]

pick_peer_past :
    (u : List ℕ) (e : PeerEntry) (peers : Peers)
    → e.blocked ≡ true
    → pick_peer ((u, e) ∷ peers) ≡ pick_peer peers
unfolding pick_peer pick_from
pick_peer_past u e peers b = rw b refl

-- `pickPeer` answers the empty string when every peer is blocked, and otherwise a peer that is not
-- blocked and that has synced no later than any other peer that is not blocked.
pub pick_peer-Least :
    (peers : Peers)
    → (All (λ x. x.1.blocked ≡ true) peers × (pick_peer peers ≡ []))
      ⊎ ((t : ℤ) × Active (pick_peer peers) t peers × Least t peers)
unfolding pick_peer pick_from
pick_peer-Least [] = inl (tt, refl)
pick_peer-Least ((u, e) ∷ peers) = elim (Bool-cases (e.blocked)) [
  | inl b ↦ elim (pick_peer-Least peers) [
    | inl (all, nothing) ↦ inl ((b, all), rw b nothing)
    | inr (t, active, least) ↦ inr (
      t,
      subst (λ v. Active v t ((u, e) ∷ peers)) (sym (pick_peer_past u e peers b))
          (Active-there (pick_peer peers) t (u, e) peers active),
      (λ free. cc (b, free), least),
    )
  ]
  | inr b ↦
      let r = pick_from_lem u e.last_sync peers in
      let first : pick_from none ((u, e) ∷ peers) ≡ some (r.url, r.time) = rw b r.picked in
      let url : pick_peer ((u, e) ∷ peers) ≡ r.url =
        ap (λ (o : Option (List ℕ × ℤ)). elim o [ none ↦ [] | some best ↦ best.0 ]) first in
      inr (
        r.time,
        subst (λ v. Active v r.time ((u, e) ∷ peers)) (sym url)
            (elim (r.among) [
              | inl same ↦ (e, inl (ap (λ v. (v, e)) (sym same.0)), b, sym same.1)
              | inr a ↦ Active-there r.url r.time (u, e) peers a
            ]),
        (λ free. r.earlier, r.least),
      )
]
