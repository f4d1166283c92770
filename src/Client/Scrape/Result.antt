-- ===== src/Client/Scrape/Result.antt =====
-- What a whole scan leaves in the message store.
use sneakernet.Prelude.{
  some_injective, ℕ, zero, suc, ◌≡◌, refl, ◌∙◌, true, Bool-cases, Option, some, ◌>>=◌, >>=-eq-some,
  ◌⊎◌, inl, inr, List, [], ◌∷◌, ◌++◌, arith, if◌then◌else◌, length, All, Elem, subst,
}
use sneakernet.Integers.{ℤ}
use sneakernet.Blockstore.{BlockRef}
use sneakernet.Blockstore.Paging.{all_pages}
use sneakernet.Client.MessageFormat.{MessagePayload}
use sneakernet.Client.Inbox.{
  Row, MessageStore, find_row, stored, get_checkpoint, set_checkpoint, is_zero,
}
use sneakernet.Relay.Bloom.{zero_time}
use sneakernet.Client.Scrape.{World, Scan, scrape_refs, scrape_pages, scrape}
use sneakernet.Client.Scrape.Steps.{FromRefs, wanted, Grown, Grown-trans, scrape_refs-Grown}

-- From where a scan lists.
abbrev pub since_of : MessageStore → ℤ
since_of s = if is_zero s.since_unix then zero_time else s.since_unix

get_checkpoint-since_of : (s : MessageStore) → get_checkpoint true s ≡ some (since_of s)
unfolding get_checkpoint
get_checkpoint-since_of s = elim (Bool-cases (is_zero s.since_unix)) [
  | inl e ↦ rw e refl
  | inr e ↦ rw e refl
]

module _ (w : World) (saves : (id : List ℕ) → w.saves id ≡ true)
    (alive : (n : ℕ) → w.alive n ≡ true) where
  -- The page behind the last one is the first to have no next token.
  page_then :
      (since : ℤ) (fuel n : ℕ) (token : List ℕ) (page : List ℕ × List BlockRef) (s t : Scan)
      → w.page since token ≡ some page
      → scrape_refs w s page.1 ≡ inr t
      → scrape_pages w since (suc fuel) n token s ≡ elim page.0 as (λ _. Scan ⊎ Scan) [
        | [] ↦ inr t
        | c ∷ rest ↦ scrape_pages w since fuel (suc n) (c ∷ rest) t
      ]
  unfolding scrape_pages
  page_then since fuel n token page s t listed scraped =
      rw (alive n, listed, scrape_pages, scraped) refl

  -- The last page, or the page and what the pages behind it add.
  last_or_next :
      (since : ℤ) (fuel n : ℕ) (page : List ℕ × List BlockRef) (s t : Scan) (refs : List BlockRef)
      → ((token : List ℕ) (t : Scan) (refs : List BlockRef)
          → all_pages (w.page since) fuel token ≡ some refs
          → (u : Scan) × (scrape_pages w since fuel (suc n) token t ≡ inr u) × Grown w t u refs)
      → Grown w s t page.1
      → (elim page.0 as (λ _. Option (List BlockRef)) [
        | [] ↦ some page.1
        | c ∷ next ↦ all_pages (w.page since) fuel (c ∷ next) >>= λ more. some (page.1 ++ more)
      ])
        ≡ some refs
      → (u : Scan) × (elim page.0 as (λ _. Scan ⊎ Scan) [
        | [] ↦ inr t
        | c ∷ rest ↦ scrape_pages w since fuel (suc n) (c ∷ rest) t
      ]
          ≡ inr u)
        × Grown w s u refs
  last_or_next since fuel n ([], xs) s t refs again grown h =
      (t, refl, subst (Grown w s t) (some_injective h) grown)
  last_or_next since fuel n (c ∷ next, xs) s t refs again grown h =
      let (more, listed, joined) = >>=-eq-some (all_pages (w.page since) fuel (c ∷ next)) _ h in
      let (u, made, rest) = again (c ∷ next) t more listed in
      (
        u,
        made,
        subst (Grown w s u) (some_injective joined) (Grown-trans w s t u xs more grown rest),
      )

  -- The loop over the pages adds what all their references hold.
  scrape_pages-Grown :
      (since : ℤ) (fuel n : ℕ) (token : List ℕ) (s : Scan) (refs : List BlockRef)
      → all_pages (w.page since) fuel token ≡ some refs
      → (t : Scan) × (scrape_pages w since fuel n token s ≡ inr t) × Grown w s t refs
  unfolding all_pages
  scrape_pages-Grown since zero n token s refs h = cc
  scrape_pages-Grown since (suc fuel) n token s refs h =
      let (page, listed, rest) = >>=-eq-some (w.page since token) _ h in
      let (t, scraped, grown) = scrape_refs-Grown w saves page.1 s in
      let (u, made, all) =
        last_or_next since fuel n page s t refs
          (λ token t refs h. scrape_pages-Grown since fuel (suc n) token t refs h) grown rest in
      (u, page_then since fuel n token page s t listed scraped ∙ made, all)

  scrape_done :
      (fuel : ℕ) (store : MessageStore) (t : Scan)
      → w.reads ≡ true
      → w.writes ≡ true
      → scrape_pages w (since_of store) fuel 0 [] (record { store = store; found = 0; gifts = [] })
        ≡ inr t
      → scrape w fuel store
        ≡ inr (record t { store = record (t.store) { since_unix = w.scan_start } })
  unfolding scrape set_checkpoint
  scrape_done fuel store t reads writes made =
      rw (reads, get_checkpoint-since_of store, scrape, made, writes) refl

  -- If the database answers, the context lives, and the pages from the checkpoint on list references
  -- with as much fuel as there are pages: a scan returns without an error. It keeps the rows that were
  -- stored and adds others behind them, as many as it counts, each with the ID of a listed block and
  -- the content of the message in it. Every listed block that can be read and that opens under a held
  -- key to a message that is no gift has a row. The new checkpoint is the time before the scan.
  pub scrape-Grown :
      (fuel : ℕ) (store : MessageStore) (refs : List BlockRef)
      → w.reads ≡ true
      → w.writes ≡ true
      → all_pages (w.page (since_of store)) fuel [] ≡ some refs
      → (t : Scan) × (new : List Row) × (scrape w fuel store ≡ inr t)
        × (t.store.since_unix ≡ w.scan_start)
        × (t.store.messages ≡ store.messages ++ new)
        × (t.found ≡ length new)
        × All (FromRefs w refs) new
        × ((ref : BlockRef) (mp : MessagePayload)
            → Elem ref refs
            → wanted w ref ≡ some mp
            → stored (find_row ref.id t.store.messages) ≡ true)
  scrape-Grown fuel store refs reads writes listed =
      let start : Scan = record { store = store; found = 0; gifts = [] } in
      let (t, made, grown) = scrape_pages-Grown (since_of store) fuel 0 [] start refs listed in
      (
        record t { store = record (t.store) { since_unix = w.scan_start } },
        grown.new,
        scrape_done fuel store t reads writes made,
        refl,
        grown.kept,
        omega (arith, grown.counted),
        grown.origin,
        grown.complete,
      )
