-- ===== src/Relay/Remote.antt =====
-- The client over the server: the encodings of the bodies, and `Get`.
pub mod Calls
use sneakernet.Prelude.{
  ℕ, zero, suc, ◌+◌, ◌<◌, ◌≡◌, refl, sym, ap, ◌∙◌, Option, none, some, ◌>>=◌, >>=-eq-some, Bool,
  true, false, Bool-cases, List, [], ◌∷◌, ◌++◌, append-nil, arith, inl, inr, subst, map, length,
  length-append, All, take, take_all, drop, take-append, drop-append, ◌==◌, ltb, if◌then◌else◌,
  if_elim,
}
use sneakernet.Hex
use sneakernet.Hex.{decode-encode, encode-All}
use sneakernet.Integers.{ℤ, pos, ltb_ℤ}
use sneakernet.Bytes.{IsByte}
use sneakernet.Blockstore.{BlockRef, IsId}
use sneakernet.Blockstore.Paging.{Lister, all_pages}
use sneakernet.Blockstore.Pow.{Hashes, work_factor}
use sneakernet.Blockstore.Badger.{Answer, answer, not_found, failed}
use sneakernet.Relay.Bloom.{Bloom, has, to_bytes, from_bytes}
use sneakernet.Relay.Bloom.Member.{IsBloom, from_bytes-to_bytes}
use sneakernet.Relay.Bloom.Store.{next_pages}
use sneakernet.Relay.Bloom.Lacking.{Block, IsBlock, copy_whole, block_body}
use sneakernet.Relay.Http.{Backend, Codecs, Addresses, Request, Reply, IsText}
use sneakernet.Relay.Server.{
  Server, Messages, Node, wire_size, max_floor, found_block, unknown_ids, delta_page, delta_pages,
  handle_get, handle_put, put_checked, upload_tag, handle_delta, handle_pow_limit, serve,
}
use sneakernet.Relay.Client
use sneakernet.Relay.Client.{
  block_of_body, decode_id, decode_ids, upload_body, fetch, upload, delta, fetch_pow_limit, Call,
}

-- A body of the size of a block is read as that block.
pub block_of_body-append : (b : Block) → IsBlock b → block_of_body (b.0 ++ b.1) ≡ answer b
block_of_body-append b h =
    let size : length (b.0 ++ b.1) ≡ 4100 = omega (arith, length-append b.0 b.1, h.0, h.1) in
    rw (
      take_all (b.0 ++ b.1) size,
      size,
      take-append b.0 b.1 h.0,
      drop-append b.0 b.1 h.0,
      copy_whole 4 b.0 h.0,
      copy_whole 4096 b.1 h.1,
    )

pub decode_id-encode : (id : List ℕ) → IsId id → decode_id (Hex.encode id) ≡ some id
unfolding decode_id
decode_id-encode id h = rw (decode-encode id h.bytes, h.size)

pub decode_ids-encode :
    (ids : List (List ℕ)) → All IsId ids → decode_ids (map Hex.encode ids) ≡ some ids
unfolding decode_ids
decode_ids-encode [] h = refl
decode_ids-encode (id ∷ ids) h = rw (decode_id-encode id h.0, decode_ids-encode ids h.1)

pub encode_ids-All : (ids : List (List ℕ)) → All IsId ids → All IsText (map Hex.encode ids)
encode_ids-All [] h = tt
encode_ids-All (id ∷ ids) h = (encode-All id h.0.bytes, encode_ids-All ids h.1)

-- The IDs of the references that a filter does not answer for.
unfoldable pub unknown : Bloom → List BlockRef → List (List ℕ)
unknown bloom [] = []
unknown bloom (ref ∷ refs) =
    (if has bloom ref.id ref.work_factor then [] else ref.id ∷ []) ++ unknown bloom refs

pub unknown-All :
    (bloom : Bloom) (refs : List BlockRef)
    → All (λ r. IsId r.id) refs
    → All IsId (unknown bloom refs)
unfolding unknown
unknown-All bloom [] h = tt
unknown-All bloom (ref ∷ refs) h =
    if_elim (λ head. All IsId (head ++ unknown bloom refs)) (has bloom ref.id ref.work_factor) []
      (ref.id ∷ []) (λ _. unknown-All bloom refs h.1) (λ _. (h.0, unknown-All bloom refs h.1))

pub unknown_ids-map :
    (bloom : Bloom) (refs : List BlockRef)
    → unknown_ids bloom refs ≡ map Hex.encode (unknown bloom refs)
unfolding unknown_ids unknown
unknown_ids-map bloom [] = refl
unknown_ids-map bloom (ref ∷ refs) = elim (Bool-cases (has bloom ref.id ref.work_factor)) [
  | inl e ↦ rw e (unknown_ids-map bloom refs)
  | inr e ↦ rw e (ap (λ ids. Hex.encode ref.id ∷ ids) (unknown_ids-map bloom refs))
]

unknown_ids-append :
    (bloom : Bloom) (xs ys : List BlockRef)
    → unknown_ids bloom (xs ++ ys) ≡ unknown_ids bloom xs ++ unknown_ids bloom ys
unfolding unknown_ids
unknown_ids-append bloom [] ys = refl
unknown_ids-append bloom (x ∷ xs) ys = elim (Bool-cases (has bloom x.id x.work_factor)) [
  | inl e ↦ rw e (unknown_ids-append bloom xs ys)
  | inr e ↦ rw e (ap (λ ids. Hex.encode x.id ∷ ids) (unknown_ids-append bloom xs ys))
]

-- The loop over the pages lists the unknown IDs of all the pages.
module _ (list : Lister) (bloom : Bloom) where
  delta_step :
      (f : List ℕ → Option (Option (List (List ℕ)))) (g : List ℕ → Option (List BlockRef))
      → ((token : List ℕ) (refs : List BlockRef)
          → g token ≡ some refs
          → f token ≡ some (some (unknown_ids bloom refs)))
      → (page : Option (List ℕ × List BlockRef)) (refs : List BlockRef)
      → (page >>= next_pages g) ≡ some refs
      → delta_page f bloom page ≡ some (some (unknown_ids bloom refs))
  delta_step f g same none refs h = cc
  delta_step f g same (some ([], found)) refs h =
      let e : found ≡ refs = cc h in ap (λ t. some (some (unknown_ids bloom t))) e
  delta_step f g same (some (c ∷ next, found)) refs h =
      let (more, listed, joined) = >>=-eq-some (g (c ∷ next)) _ h in
      let e : found ++ more ≡ refs = cc joined in
      rw (same (c ∷ next) more listed) (
        ap (λ t. some (some t)) (sym (unknown_ids-append bloom found more))
        ∙ ap (λ t. some (some (unknown_ids bloom t))) e)

  pub delta_pages-all_pages :
      (fuel : ℕ) (token : List ℕ) (refs : List BlockRef)
      → all_pages list fuel token ≡ some refs
      → delta_pages list bloom fuel token ≡ some (some (unknown_ids bloom refs))
  unfolding delta_pages all_pages
  delta_pages-all_pages zero token refs h = cc
  delta_pages-all_pages (suc fuel) token refs h =
      delta_step (delta_pages list bloom fuel) (all_pages list fuel) (delta_pages-all_pages fuel)
        (list token) refs h

module _ {S P : Type 0} (store : Backend S) (codecs : Codecs) (hashes : Hashes)
    (addresses : Addresses) (messages : Messages) (server : Server P) (fuel : ℕ)
    (remote : List ℕ) where
  abbrev pub delivered : Node S P → Option (Node S P × Reply) → Call (Node S P) (Option Reply)
  delivered n none = (n, none)
  delivered n (some (n', reply)) = (n', some reply)

  -- A connection to the relay that loses nothing, from an address.
  abbrev pub wire : Node S P → Request → Call (Node S P) (Option Reply)
  wire n request =
      delivered n (serve store codecs hashes addresses messages server fuel remote n request)

  fetched :
      (a : Answer Block)
      → ((b : Block) → a ≡ answer b → IsBlock b)
      → (n : Node S P) → Client.get_replied codecs wire (n, some (found_block messages a)) ≡ (n, a)
  fetched (answer b) sized n = rw (block_of_body-append b (sized b refl))
  fetched not_found sized n = refl
  fetched (failed) sized n = refl

  -- Over the wire, the client's `Get` of an ID of 32 bytes answers what the relay's store answers:
  -- the block, `ErrNotFound` or an error, if the blocks that the store returns have their sizes;
  -- and the relay stays as it is.
  pub fetch-get :
      (n : Node S P) (id : List ℕ)
      → IsId id
      → ((b : Block) → store.get n.store id ≡ answer b → IsBlock b)
      → fetch codecs wire n id ≡ (n, store.get n.store id)
  unfolding fetch serve handle_get
  fetch-get n id h sized =
      rw (decode-encode id h.bytes, h.size) (fetched (store.get n.store id) sized n)
