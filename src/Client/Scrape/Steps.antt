-- ===== src/Client/Scrape/Steps.antt =====
-- What one block, and a list of them, adds to the message store.
use sneakernet.Prelude.{
  ℕ, suc, ◌+◌, ◌≡◌, refl, sym, ap, ◌∙◌, true, Bool-cases, Option, none, some, Option-cases, inl,
  inr, List, [], ◌∷◌, ◌++◌, append-nil, append_assoc, arith, bytes_eq, bytes_eq_refl, if◌then◌else◌,
  length, length-append, All, All-append, Elem, Elem-front, Elem-back, Elem-split, subst,
}
use sneakernet.Blockstore.{BlockRef}
use sneakernet.Client.MessageFormat.{MessagePayload}
use sneakernet.Client.Inbox.{Row, MessageStore, find_row, stored, new_row, save_message}
use sneakernet.Client.Scrape.{
  World, Scan, gift_of, open_payload, scrape_message, scrape_ref, scrape_refs,
}

stored-append :
    (id : List ℕ) (xs ys : List Row)
    → stored (find_row id xs) ≡ true
    → stored (find_row id (xs ++ ys)) ≡ true
unfolding find_row
stored-append id [] ys h = cc
stored-append id (x ∷ xs) ys h = elim (Bool-cases (bytes_eq x.block_id id)) [
  | inl e ↦ rw e refl
  | inr e ↦ rw e (
      stored-append id xs ys
        (subst (λ b. stored (if b then some x else find_row id xs) ≡ true) e h))
]

stored-new :
    (id : List ℕ) (xs : List Row) (r : Row)
    → r.block_id ≡ id
    → stored (find_row id (xs ++ r ∷ [])) ≡ true
unfolding find_row
stored-new id [] r e = rw (e, bytes_eq_refl id) refl
stored-new id (x ∷ xs) r e = elim (Bool-cases (bytes_eq x.block_id id)) [
  | inl same ↦ rw same refl
  | inr other ↦ rw other (stored-new id xs r e)
]

module _ (w : World) where
  -- The message that is stored for a payload: one that is no gift.
  abbrev pub keep : Option (MessagePayload × List ℕ) → Option MessagePayload
  keep none = none
  keep (some got) = elim (gift_of w got.0 got.1) [ some stamp ↦ none | none ↦ some got.0 ]

  -- The message that is stored for a reference.
  abbrev pub wanted : BlockRef → Option MessagePayload
  wanted ref = elim (w.get ref.id) [ none ↦ none | some payload ↦ keep (open_payload w payload) ]

  -- A row holds a message of one of the references.
  abbrev pub FromRefs : List BlockRef → Row → Type 0
  FromRefs refs r =
      (ref : BlockRef) × (mp : MessagePayload) × Elem ref refs
      × (wanted ref ≡ some mp)
      × (r.block_id ≡ ref.id)
      × (r.content ≡ mp.content)

  -- The rows stay, those that are added are counted and are messages of the references, and every
  -- message of a reference is stored.
  pub record Grown (s t : Scan) (refs : List BlockRef) : Type 0 where
    pub new : List Row
    pub kept : t.store.messages ≡ s.store.messages ++ new
    pub counted : t.found ≡ s.found + length new
    pub origin : All (FromRefs refs) new
    pub complete :
        (ref : BlockRef) (mp : MessagePayload)
        → Elem ref refs
        → wanted ref ≡ some mp
        → stored (find_row ref.id t.store.messages) ≡ true

  -- A step that leaves the rows.
  still :
      (s t : Scan) (refs : List BlockRef)
      → t.store ≡ s.store
      → t.found ≡ s.found
      → ((ref : BlockRef) (mp : MessagePayload)
          → Elem ref refs
          → wanted ref ≡ some mp
          → stored (find_row ref.id s.store.messages) ≡ true)
      → Grown s t refs
  still s t refs store found complete = record {
    new = [];
    kept = ap MessageStore.messages store ∙ sym (append-nil s.store.messages);
    counted = omega (arith, found);
    origin = tt;
    complete = λ ref mp m h.
        subst (λ st. stored (find_row ref.id (MessageStore.messages st)) ≡ true) (sym store)
          (complete ref mp m h);
  }

  moved :
      (xs ys : List BlockRef) (rows : List Row)
      → ((ref : BlockRef) → Elem ref xs → Elem ref ys)
      → All (FromRefs xs) rows
      → All (FromRefs ys) rows
  moved xs ys [] sub h = tt
  moved xs ys (r ∷ rows) sub h =
      let (from, mp, m, is, same, text) = h.0 in
      ((from, mp, sub from m, is, same, text), moved xs ys rows sub h.1)

  stored-kept :
      (id : List ℕ) (xs ys : List Row) {zs : List Row}
      → zs ≡ xs ++ ys
      → stored (find_row id xs) ≡ true
      → stored (find_row id zs) ≡ true
  stored-kept id xs ys e h =
      subst (λ zs. stored (find_row id zs) ≡ true) (sym e) (stored-append id xs ys h)

  pub Grown-trans :
      (s t u : Scan) (xs ys : List BlockRef) → Grown s t xs → Grown t u ys → Grown s u (xs ++ ys)
  Grown-trans s t u xs ys g h = record {
    new = g.new ++ h.new;
    kept = h.kept ∙ ap (λ rows. rows ++ h.new) g.kept ∙ append_assoc s.store.messages g.new h.new;
    counted = omega (arith, g.counted, h.counted, length-append g.new h.new);
    origin =
        All-append _ g.new h.new
          (moved xs (xs ++ ys) g.new (λ ref m. Elem-front xs ys ref m) g.origin)
          (moved ys (xs ++ ys) h.new (λ ref m. Elem-back xs ys ref m) h.origin);
    complete = λ ref mp m is. elim (Elem-split xs ys ref m) [
      | inl front ↦ stored-kept ref.id t.store.messages h.new h.kept (g.complete ref mp front is)
      | inr back ↦ h.complete ref mp back is
    ];
  }

  -- A reference without a message to store is passed over.
  passed :
      (s t : Scan) (ref : BlockRef)
      → wanted ref ≡ none
      → t.store ≡ s.store
      → t.found ≡ s.found
      → Grown s t (ref ∷ [])
  passed s t ref nothing store found =
      still s t (ref ∷ []) store found (λ other mp m is. impossible other mp m is)
    where
      impossible :
          (other : BlockRef) (mp : MessagePayload)
          → Elem other (ref ∷ [])
          → wanted other ≡ some mp
          → stored (find_row other.id s.store.messages) ≡ true
      impossible other mp (inl e) is = absurd (nothing_some (sym nothing ∙ ap wanted e ∙ is))
        where
          nothing_some : {mp : MessagePayload} → none ≡ some mp → ⊥
          nothing_some h = cc
      impossible other mp (inr m) is = absurd m

  -- The only reference is stored, so every one is.
  alone :
      (ref : BlockRef) (rows : List Row) (other : BlockRef)
      → stored (find_row ref.id rows) ≡ true
      → Elem other (ref ∷ [])
      → stored (find_row other.id rows) ≡ true
  alone ref rows other h (inl e) = subst (λ r. stored (find_row (BlockRef.id r) rows) ≡ true) e h
  alone ref rows other h (inr m) = absurd m

  module _ (saves : (id : List ℕ) → w.saves id ≡ true) where
    -- The save of a message that is no gift.
    step_save :
        (s : Scan) (ref : BlockRef) (mp : MessagePayload) (identity : List ℕ)
        → gift_of w mp identity ≡ none
        → wanted ref ≡ some mp
        → (t : Scan) × (scrape_message w s ref.id mp identity ≡ inr t) × Grown s t (ref ∷ [])
    unfolding scrape_message save_message
    step_save s ref mp identity stays is =
        let row = new_row (suc s.store.last_id) (w.clock ref.id) ref.id mp in
        let larger : Scan = record s {
          store = record (s.store) {
            messages = s.store.messages ++ row ∷ [];
            last_id = suc s.store.last_id;
          };
          found = suc s.found;
        } in
        elim (Bool-cases (stored (find_row ref.id s.store.messages))) [
          | inl old ↦ (
            s,
            rw (stays, scrape_message, saves ref.id, old) refl,
            still s s (ref ∷ []) refl refl
                (λ other mp m is. alone ref s.store.messages other old m),
          )
          | inr new ↦ (
            larger,
            rw (stays, scrape_message, saves ref.id, new) refl,
            record {
              new = row ∷ [];
              kept = refl;
              counted = omega arith;
              origin = ((ref, mp, inl refl, is, refl, refl), tt);
              complete = λ other mp m is.
                  alone ref larger.store.messages other
                    (stored-new ref.id s.store.messages row refl) m;
            },
          )
        ]

    step_message :
        (s : Scan) (ref : BlockRef) (mp : MessagePayload) (identity : List ℕ)
        → wanted ref ≡ keep (some (mp, identity))
        → (t : Scan) × (scrape_message w s ref.id mp identity ≡ inr t) × Grown s t (ref ∷ [])
    step_message s ref mp identity is = elim (Option-cases (gift_of w mp identity)) [
      | inr (stamp, gift) ↦
          let t : Scan = record s { gifts = s.gifts ++ (identity, stamp) ∷ [] } in
          (
            t,
            unfold scrape_message in rw (gift, scrape_message) refl,
            passed s t ref (is ∙ rw (gift, keep) refl) refl refl,
          )
      | inl stays ↦ step_save s ref mp identity stays (is ∙ rw (stays, keep) refl)
    ]

    pub step_ref :
        (s : Scan) (ref : BlockRef)
        → (t : Scan) × (scrape_ref w s ref ≡ inr t) × Grown s t (ref ∷ [])
    unfolding scrape_ref
    step_ref s ref = elim (Option-cases (w.get ref.id)) [
      | inl gone ↦
          (s, rw (gone, scrape_ref) refl, passed s s ref (rw (gone, wanted) refl) refl refl)
      | inr (payload, got) ↦ elim (Option-cases (open_payload w payload)) [
        | inl closed ↦ (
          s,
          rw (got, scrape_ref, closed) refl,
          passed s s ref (rw (got, wanted, closed) refl) refl refl,
        )
        | inr (opened, is) ↦
            let (t, made, grown) =
              step_message s ref opened.0 opened.1 (rw (got, wanted, is) refl) in
            (t, rw (got, scrape_ref, is) made, grown)
      ]
    ]

    -- A list of references.
    pub scrape_refs-Grown :
        (refs : List BlockRef) (s : Scan)
        → (t : Scan) × (scrape_refs w s refs ≡ inr t) × Grown s t refs
    unfolding scrape_refs
    scrape_refs-Grown [] s = (s, refl, still s s [] refl refl (λ other mp m is. absurd m))
    scrape_refs-Grown (ref ∷ refs) s =
        let (t, made, first) = step_ref s ref in
        let (u, rest, more) = scrape_refs-Grown refs t in
        (u, rw (made, scrape_refs) rest, Grown-trans s t u (ref ∷ []) refs first more)
