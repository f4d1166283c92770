-- ===== src/Relay/Pull.antt =====
-- `Pull` from a relay: what it stores.
use sneakernet.Prelude.{
  ℕ, ◌≡◌, refl, ap, ◌∙◌, Option, some, Bool, true, false, Bool-cases, List, [], ◌∷◌, ◌++◌,
  append-nil, append_assoc, inl, inr, map, All,
}
use sneakernet.Integers.{ℤ, pos}
use sneakernet.Blockstore.{BlockRef, IsId}
use sneakernet.Blockstore.Paging.{all_pages}
use sneakernet.Blockstore.Pow.{Hashes}
use sneakernet.Blockstore.Badger.{Answer, answer, not_found, failed}
use sneakernet.Relay.Bloom.{Bloom, has, new_bloom, add_refs, zero_time}
use sneakernet.Relay.Bloom.Member.{new_bloom-IsBloom, add_refs-IsBloom}
use sneakernet.Relay.Bloom.Store.{bloom_of_store-all_pages}
use sneakernet.Relay.Bloom.Lacking.{Block, IsBlock, found_block, lacking}
use sneakernet.Relay.Http.{Backend, Codecs, Addresses, Request, Reply}
use sneakernet.Relay.Server.{Server, Messages, Node, max_floor}
use sneakernet.Relay.Client.{Call, Pulled, pull_got, pull_blocks, pull}
use sneakernet.Relay.Remote.{unknown, unknown-All, wire, fetch-get}
use sneakernet.Relay.Remote.Calls.{delta-unknown}

-- The blocks that a store returns for some IDs.
held : (List ℕ → Answer Block) → List (List ℕ) → List Block
held get [] = []
held get (id ∷ ids) = found_block false (get id) ++ held get ids

held-unknown :
    (get : List ℕ → Answer Block) (bloom : Bloom) (refs : List BlockRef)
    → held get (unknown bloom refs) ≡ lacking get bloom refs
unfolding held unknown lacking
held-unknown get bloom [] = refl
held-unknown get bloom (ref ∷ refs) = elim (Bool-cases (has bloom ref.id ref.work_factor)) [
  | inl e ↦ rw e (held-unknown get bloom refs)
  | inr e ↦ rw e (ap (λ bs. found_block false (get ref.id) ++ bs) (held-unknown get bloom refs))
]

-- A store after a run of puts under one tag.
abbrev pub absorbed : {L : Type 0} → Backend L → ℕ → L → List Block → L
absorbed local tag s [] = s
absorbed local tag s (b ∷ bs) = absorbed local tag (local.put s b.0 b.1 tag).0 bs

module _ {S P L : Type 0} (store : Backend S) (codecs : Codecs) (hashes : Hashes)
    (addresses : Addresses) (messages : Messages) (server : Server P) (fuel : ℕ) (remote : List ℕ)
    (local : Backend L) (tag : ℕ) (name : Block → List ℕ)
    (puts : (s : L) (b : Block) → (local.put s b.0 b.1 tag).1 ≡ some (name b)) (n : Node S P)
    (sized : (id : List ℕ) (b : Block) → store.get n.store id ≡ answer b → IsBlock b) where
  abbrev on_wire : Node S P → Request → Call (Node S P) (Option Reply)
  on_wire = wire store codecs hashes addresses messages server fuel remote

  abbrev pub never : List ℕ → Bool
  never id = false

  abbrev pub outcome : L → List Block → List (List ℕ) → Pulled codecs on_wire local
  outcome s blocks stored = record {
    store = absorbed local tag s blocks;
    world = n;
    stored = stored ++ map name blocks;
    ok = true;
  }

  got_step :
      (more : L → Node S P → List (List ℕ) → Pulled codecs on_wire local) (ids : List (List ℕ))
      → ((s : L) (stored : List (List ℕ))
          → more s n stored ≡ outcome s (held (store.get n.store) ids) stored)
      → (a : Answer Block) (s : L) (stored : List (List ℕ))
      → pull_got codecs on_wire local more tag s stored (n, a)
        ≡ outcome s (found_block false a ++ held (store.get n.store) ids) stored
  got_step more ids same (answer b) s stored =
      rw (puts s b) (same (local.put s b.0 b.1 tag).0 (stored ++ name b ∷ []))
      ∙ ap
          (λ names.
            let end : Pulled codecs on_wire local = record {
              store = absorbed local tag s (b ∷ held (store.get n.store) ids);
              world = n;
              stored = names;
              ok = true;
            } in
            end)
          (append_assoc stored (name b ∷ []) (map name (held (store.get n.store) ids)))
  got_step more ids same not_found s stored = same s stored
  got_step more ids same (failed) s stored = same s stored

  pull_blocks-held :
      (ids : List (List ℕ)) (s : L) (stored : List (List ℕ))
      → All IsId ids
      → pull_blocks codecs on_wire local never tag ids s n stored
        ≡ outcome s (held (store.get n.store) ids) stored
  unfolding pull_blocks held
  pull_blocks-held [] s stored h = rw (append-nil stored)
  pull_blocks-held (id ∷ ids) s stored h =
      ap
        (pull_got codecs on_wire local (pull_blocks codecs on_wire local never tag ids) tag s
          stored)
        (fetch-get store codecs hashes addresses messages server fuel remote n id h.0 (sized id))
      ∙ got_step (pull_blocks codecs on_wire local never tag ids) ids
          (λ s stored. pull_blocks-held ids s stored h.1) (store.get n.store id) s stored

  -- `Pull` from a relay, over a connection that loses nothing and with a context that lasts, when
  -- both listings end within the fuel, the relay's blocks and IDs have their sizes and the local
  -- store takes every block: it puts, in the relay's order and under the client's tag, exactly
  -- those blocks that the relay lists at the higher of the two floors, that its store returns, and
  -- that the filter over the local listing does not answer for. It returns the IDs that the local
  -- store gave them, without an error, and the relay stays as it is.
  pub pull-lacking :
      (pages : ℕ) (s : L) (pow_floor since : ℤ) (mine theirs : List BlockRef)
      → all_pages (λ token. local.list s token 500 (pos 0) zero_time) pages [] ≡ some mine
      → all_pages
          (λ token. store.list n.store token 500 (max_floor pow_floor server.pow_floor) since)
          fuel
          []
        ≡ some theirs
      → All (λ r. IsId r.id) theirs
      → pull codecs on_wire local never tag pages s n pow_floor since
        ≡ some (outcome s (lacking (store.get n.store) (add_refs new_bloom mine) theirs) [])
  unfolding pull
  pull-lacking pages s pow_floor since mine theirs ours listed named =
      let bloom = add_refs new_bloom mine in
      let well = add_refs-IsBloom mine new_bloom new_bloom-IsBloom in
      rw
        (
          bloom_of_store-all_pages (λ token. local.list s token 500 (pos 0) zero_time) pages mine
              ours,
          delta-unknown store codecs hashes addresses messages server fuel remote n bloom pow_floor
              since theirs well named listed,
          pull_blocks-held (unknown bloom theirs) s [] (unknown-All bloom theirs named),
        )
        (ap (λ blocks. some (outcome s blocks [])) (held-unknown (store.get n.store) bloom theirs))
