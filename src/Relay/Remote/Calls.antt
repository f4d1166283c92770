-- ===== src/Relay/Remote/Calls.antt =====
-- The client over the server: `Put`, `Delta` and `GetPowLimit`.
use sneakernet.Prelude.{
  ℕ, ◌≡◌, refl, Option, none, some, ◌>>=◌, Bool-cases, Option-cases, List, [], ◌++◌, arith, inl,
  inr, map, length, length-append, All, take_short, take-append, drop-append, if◌then◌else◌,
}
use sneakernet.Hex
use sneakernet.Hex.{encode-All}
use sneakernet.Integers.{ℤ, pos, ltb_ℤ, sub_i64}
use sneakernet.Bytes.{IsByte}
use sneakernet.Blockstore.{BlockRef, IsId}
use sneakernet.Blockstore.Paging.{all_pages}
use sneakernet.Blockstore.Pow.{Hashes, work_factor}
use sneakernet.Relay.Bloom.{Bloom, to_bytes}
use sneakernet.Relay.Bloom.Member.{IsBloom, to_bytes-bits, from_bytes-to_bytes}
use sneakernet.Relay.Bloom.Lacking.{Block, IsBlock, copy_whole, block_body}
use sneakernet.Relay.Http.{Backend, Codecs, Addresses, Request, Reply}
use sneakernet.Relay.Server.{
  Server, Messages, Node, max_floor, handle_put, put_checked, put_reply, upload_tag, handle_delta,
  handle_pow_limit, median_reply, serve,
}
use sneakernet.Relay.Client.{
  decode_id, upload_body, upload, delta, delta_body, fetch_pow_limit, Call, accept,
}
use sneakernet.Relay.Remote.{
  decode_id-encode, decode_ids-encode, encode_ids-All, unknown, unknown-All, unknown_ids-map,
  delta_pages-all_pages, wire,
}

module _ {S P : Type 0} (store : Backend S) (codecs : Codecs) (hashes : Hashes)
    (addresses : Addresses) (messages : Messages) (server : Server P) (fuel : ℕ)
    (remote : List ℕ) where
  abbrev on_wire : Node S P → Request → Call (Node S P) (Option Reply)
  on_wire = wire store codecs hashes addresses messages server fuel remote

  -- The tag that the relay gives to what the client uploads.
  abbrev pub tag : ℕ
  tag = upload_tag store codecs hashes addresses messages server remote

  -- The handler of an upload gets the block.
  handle_put-upload_body :
      (s : S) (b : Block)
      → IsBlock b
      → handle_put store codecs hashes addresses messages server s remote (upload_body b.0 b.1)
        ≡ put_checked store codecs hashes addresses messages server s remote b.0 b.1
  unfolding handle_put
  handle_put-upload_body s b h =
      let size : length (b.0 ++ b.1) ≡ 4100 = omega (arith, length-append b.0 b.1, h.0, h.1) in
      rw (
        block_body b h,
        take_short (b.0 ++ b.1) 4101 (omega (arith, size)),
        size,
        take-append b.0 b.1 h.0,
        drop-append b.0 b.1 h.0,
        copy_whole 4 b.0 h.0,
        copy_whole 4096 b.1 h.1,
      )

  -- The outcome of an upload: the relay's new state, and the ID or none.
  unfoldable pub submitted : Node S P → Block → Call (Node S P) (Option (List ℕ))
  submitted n b = if ltb_ℤ (pos (work_factor hashes b.0 b.1)) server.pow_floor then (n, none) else (
    record n { store = (store.put n.store b.0 b.1 tag).0 },
    (store.put n.store b.0 b.1 tag).1,
  )

  uploaded :
      (n : Node S P) (wf : ℕ) (done : S × Option (List ℕ))
      → ((id : List ℕ) → done.1 ≡ some id → IsId id)
      → (let put = put_reply store codecs hashes addresses messages server wf done in
          ◌≡◌ {A = Call (Node S P) (Option (List ℕ))}
            (
              record n { store = put.0 },
              accept codecs on_wire (λ body. codecs.read_id body >>= decode_id) (some put.1),
            )
            (record n { store = done.0 }, done.1))
  uploaded n wf (s, none) sized = refl
  uploaded n wf (s, some id) sized =
      let well = sized id refl in
      rw (codecs.id_law (Hex.encode id) wf (encode-All id well.bytes), decode_id-encode id well)

  -- Over the wire, the client's `Put` of a block of its sizes is an error and leaves the relay as it is,
  -- if the block's work factor is below the relay's floor. Otherwise the relay puts the block under
  -- the tag of the client's address, and the client's answer is the ID that the relay's store
  -- answers, or an error if the store has one. The store's IDs have 32 bytes.
  pub upload-put :
      (n : Node S P) (b : Block)
      → IsBlock b
      → ((id : List ℕ) → (store.put n.store b.0 b.1 tag).1 ≡ some id → IsId id)
      → upload codecs on_wire n b.0 b.1 ≡ submitted n b
  unfolding upload serve submitted
  upload-put n b h sized =
      let wf = work_factor hashes b.0 b.1 in
      elim (Bool-cases (ltb_ℤ (pos wf) server.pow_floor)) [
        | inl low ↦ rw (handle_put-upload_body n.store b h, low)
        | inr high ↦
            rw (handle_put-upload_body n.store b h, high)
              (uploaded n wf (store.put n.store b.0 b.1 tag) sized)
      ]

  -- Over the wire, the client's `Delta` is the list, in the order of the relay's listing at the higher of
  -- the two floors, of the IDs that the filter does not answer for, when that listing ends within the
  -- fuel; and the relay stays as it is. The filter has its size, the listed IDs have theirs.
  pub delta-unknown :
      (n : Node S P) (bloom : Bloom) (pow_floor since : ℤ) (refs : List BlockRef)
      → IsBloom bloom
      → All (λ r. IsId r.id) refs
      → all_pages
          (λ token. store.list n.store token 500 (max_floor pow_floor server.pow_floor) since)
          fuel
          []
        ≡ some refs
      → delta codecs on_wire n bloom pow_floor since ≡ (n, some (unknown bloom refs))
  unfolding delta serve handle_delta
  delta-unknown n bloom pow_floor since refs well named listed =
      let ids = unknown bloom refs in
      let bytes : All IsByte (to_bytes bloom) = rw (to_bytes-bits bloom well) well.bytes in
      let sized = unknown-All bloom refs named in
      let request = delta_body codecs on_wire bloom pow_floor since in
      rw (
        codecs.delta_law request (codecs.base64-IsText (to_bytes bloom) bytes),
        codecs.base64_law (to_bytes bloom) bytes,
        from_bytes-to_bytes bloom well,
        delta_pages-all_pages
            (λ token. store.list n.store token 500 (max_floor pow_floor server.pow_floor) since)
            bloom fuel [] refs listed,
        unknown_ids-map bloom refs,
        codecs.ids_law (map Hex.encode ids) (encode_ids-All ids sized),
        decode_ids-encode ids sized,
      )

  -- What the relay tells of its floor.
  unfoldable pub pow_limit : S → Option ℤ
  pow_limit s = elim (store.median) [
    | none ↦ some server.pow_floor
    | some median ↦ median s >>= λ m. some (sub_i64 m (pos 1))
  ]

  replied :
      (n : Node S P) (m : Option ℤ)
      → ◌≡◌ {A = Call (Node S P) (Option ℤ)}
          (
            n,
            accept codecs on_wire codecs.read_floor
                (some (median_reply store codecs hashes addresses messages server m)),
          )
          (n, m >>= λ m. some (sub_i64 m (pos 1)))
  replied n none = refl
  replied n (some m) = rw (codecs.floor_law (sub_i64 m (pos 1)))

  -- Over the wire, the client's `GetPowLimit` is one less than the median work factor of a store that
  -- knows it, an error if that fails, and the relay's own floor for any other store.
  pub fetch_pow_limit-pow_limit :
      (n : Node S P) → fetch_pow_limit codecs on_wire n ≡ (n, pow_limit n.store)
  unfolding fetch_pow_limit serve handle_pow_limit pow_limit
  fetch_pow_limit-pow_limit n = elim (Option-cases store.median) [
    | inl e ↦ rw (e, handle_pow_limit, pow_limit, codecs.floor_law server.pow_floor)
    | inr (median, e) ↦ rw (e, handle_pow_limit, pow_limit) (replied n (median n.store))
  ]
