-- ===== src/Client/Scrape.antt =====
-- client/client.go: the scan of a block store for messages to the held keys. The listing, `Get`, the
-- answers of the database, the clock and the context are the fields of a record.
pub mod Steps
pub mod Result
use sneakernet.Prelude.{
  ℕ, zero, suc, ◌+◌, ◌≡◌, Bool, true, false, not, ◌&&◌, Option, none, some, ◌⊎◌, inl, inr, List, [],
  ◌∷◌, ◌++◌, ◌==◌, bytes_eq, if◌then◌else◌, length,
}
use sneakernet.Integers.{ℤ}
use sneakernet.Blockstore.{BlockRef}
use sneakernet.Client.MessageFormat.{MessagePayload}
use sneakernet.Client.Crypto.{Primitives, try_decrypt, try_decrypt_channel}
use sneakernet.Client.Inbox.{MessageStore, get_checkpoint, set_checkpoint, save_message}
use sneakernet.Client.IdPow.{parse_pow_gift}

abbrev pub scrape_page_size : ℕ
scrape_page_size = 100

module _ (c : Primitives) where
  -- The keys of a `Client`, by name.
  pub record Held : Type 0 where
    pub identities : List (List ℕ × c.ed.PrivateKey)
    pub channels : List (List ℕ × List ℕ)

  -- The two loops, over the identities and over the channels.
  unfoldable pub try_identities :
      List (List ℕ × c.ed.PrivateKey) → (payload : List ℕ) → Option (MessagePayload × List ℕ)
  try_identities [] payload = none
  try_identities (id ∷ ids) payload =
      let rest = try_identities ids payload in
      elim (try_decrypt c id.1 payload) [ some mp ↦ some (mp, id.0) | none ↦ rest ]

  unfoldable pub try_channels :
      List (List ℕ × List ℕ) → (payload : List ℕ) → Option (MessagePayload × List ℕ)
  try_channels [] payload = none
  try_channels (ch ∷ chs) payload =
      let rest = try_channels chs payload in
      elim (try_decrypt_channel c ch.1 payload) [
        | some mp ↦ some (record mp { channel = ch.0 }, [])
        | none ↦ rest
      ]

  unfoldable pub try_all_keys : Held → (payload : List ℕ) → Option (MessagePayload × List ℕ)
  unfolding try_identities try_channels
  try_all_keys held payload = elim (try_identities held.identities payload) [
    | some got ↦ some got
    | none ↦ try_channels held.channels payload
  ]

-- What surrounds a scan. `page` is `ListBlocks` after `since`, by the token; `alive n` is whether the
-- context lives before the n-th page; `saves` and `clock` are by the ID of the block that is saved.
pub record World : Type 0 where
  pub page : ℤ → List ℕ → Option (List ℕ × List BlockRef)
  pub get : List ℕ → Option (List ℕ)
  pub keys : (payload : List ℕ) → Option (MessagePayload × List ℕ)
  pub trim : List ℕ → List ℕ
  pub alive : ℕ → Bool
  pub reads : Bool
  pub writes : Bool
  pub saves : List ℕ → Bool
  pub clock : List ℕ → ℤ
  pub scan_start : ℤ

-- The message store, the number of new messages, and the gifts, which go to `OnPowGift` if it is set.
pub record Scan : Type 0 where
  pub store : MessageStore
  pub found : ℕ
  pub gifts : List (List ℕ × List ℕ)

abbrev pub is_empty : List ℕ → Bool
is_empty [] = true
is_empty (x ∷ xs) = false

module _ (w : World) where
  -- A gift for an identity, which is not stored.
  unfoldable pub gift_of : MessagePayload → (identity : List ℕ) → Option (List ℕ)
  gift_of mp identity =
      let stamp = parse_pow_gift w.trim mp.content in
      if not (is_empty identity) && is_empty mp.channel then stamp else none

  -- The message that a payload holds, with the name of the identity.
  unfoldable pub open_payload : List ℕ → Option (MessagePayload × List ℕ)
  open_payload payload = elim (w.keys payload) [
    | none ↦ none
    | some got ↦ some (record (got.0) { decrypted_by = got.1 }, got.1)
  ]

  -- A left result is a return with an error.
  unfoldable pub scrape_message :
      Scan → (id : List ℕ) → MessagePayload → (identity : List ℕ) → Scan ⊎ Scan
  unfolding gift_of
  scrape_message s id mp identity = elim (gift_of mp identity) [
    | some stamp ↦ inr (record s { gifts = s.gifts ++ (identity, stamp) ∷ [] })
    | none ↦ elim (save_message (w.saves id) (w.clock id) id mp s.store) [
      | none ↦ inl s
      | some saved ↦
          inr (record s { store = saved.1; found = if saved.0 then suc s.found else s.found })
    ]
  ]

  unfoldable pub scrape_ref : Scan → BlockRef → Scan ⊎ Scan
  unfolding open_payload scrape_message
  scrape_ref s ref = elim (w.get ref.id) [
    | none ↦ inr s
    | some payload ↦ elim (open_payload payload) [
      | none ↦ inr s
      | some got ↦ scrape_message s ref.id got.0 got.1
    ]
  ]

  unfoldable pub scrape_refs : Scan → List BlockRef → Scan ⊎ Scan
  unfolding scrape_ref
  scrape_refs s [] = inr s
  scrape_refs s (ref ∷ refs) = elim (scrape_ref s ref) [
    | inl stopped ↦ inl stopped
    | inr next ↦ scrape_refs next refs
  ]

  -- The loop over the pages from the n-th on.
  unfoldable pub scrape_pages : (since : ℤ) → (fuel n : ℕ) → (token : List ℕ) → Scan → Scan ⊎ Scan
  unfolding scrape_refs
  scrape_pages since zero n token s = inl s
  scrape_pages since (suc fuel) n token s =
      if w.alive n
      then (elim (w.page since token) [
        | none ↦ inl s
        | some page ↦ elim (scrape_refs s page.1) [
          | inl stopped ↦ inl stopped
          | inr next ↦ elim page.0 [
            | [] ↦ inr next
            | c ∷ rest ↦ scrape_pages since fuel (suc n) (c ∷ rest) next
          ]
        ]
      ])
      else inl s

  unfoldable pub scrape : (fuel : ℕ) → MessageStore → Scan ⊎ Scan
  unfolding scrape_pages
  scrape fuel store =
      let s : Scan = record { store = store; found = 0; gifts = [] } in
      elim (get_checkpoint w.reads store) [
        | none ↦ inl s
        | some since ↦ elim (scrape_pages since fuel 0 [] s) [
          | inl stopped ↦ inl stopped
          | inr done ↦ elim (set_checkpoint w.writes w.scan_start done.store) [
            | none ↦ inl done
            | some stored ↦ inr (record done { store = stored })
          ]
        ]
      ]
